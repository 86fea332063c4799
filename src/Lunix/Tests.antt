-- ===== src/Lunix/Tests.antt =====
-- The theorems on the driver of Lunix_Device_Driver at concrete inputs.
mod Readers
mod Tables
mod Sharing
use operating_systems_lab_nt.Prelude.{
  ℕ, suc, ◌+◌, ◌*◌, ◌≤◌, ◌≡◌, ◌≢◌, refl, inl, inr, true, false, List, [], ◌∷◌, ◌++◌, none, some,
  ◌>>=◌, arith, if◌then◌else◌, ltb, ◌==◌, All, All-replicate, IsByte, length, take, replicate,
}
use operating_systems_lab_nt.Lunix.Chrdev.{
  ChrdevState, Turn, Read, faulted, erestartsys, state_update, chrdev_open, chrdev_read,
}
use operating_systems_lab_nt.Lunix.Chrdev.Format.{ℤ, pos, negsuc, digits, decimal, text}
use operating_systems_lab_nt.Lunix.Chrdev.Locking.{chrdev_read-lock}
use operating_systems_lab_nt.Lunix.Chrdev.Reading.{cached, line, state_update-cached}
use operating_systems_lab_nt.Lunix.Chrdev.Reads.{Call, reads, reads-line}
use operating_systems_lab_nt.Lunix.Chrdev.Text.{length-text, value}
use operating_systems_lab_nt.Lunix.Kernel.{ok, err, enodev, enomem, ebusy, Answers, Kernel}
use operating_systems_lab_nt.Lunix.Ldisc.{attach, here, next, ldisc_open, Reach-exclusive}
use operating_systems_lab_nt.Lunix.Module.{Driver, zero_sensor, module_init, module_cleanup}
use operating_systems_lab_nt.Lunix.Module.Unload.{module_cleanup-module_init}
use operating_systems_lab_nt.Lunix.Module.Load.{IsUnloaded, Outcome, module_init-Outcome}
use operating_systems_lab_nt.Lunix.Protocol.{
  ProtocolState, start_byte, packet_type, Parsed, protocol_init, take_byte, parse_state,
  received_buf,
}
use operating_systems_lab_nt.Lunix.Protocol.Keeps.{
  IsWaiting, received_buf-IsWaiting, parse_state-ne-failed, received_buf-append, received_buf-drops,
}
use operating_systems_lab_nt.Lunix.Protocol.Machine.{deliver, run, whole, feed, after}
use operating_systems_lab_nt.Lunix.Protocol.Refine.{received_buf-run}
use operating_systems_lab_nt.Lunix.Protocol.RoundTrip.{Message, IsMessage, frame}
use operating_systems_lab_nt.Lunix.Protocol.Behind.{answer_behind, received_buf-behind}
use operating_systems_lab_nt.Lunix.Protocol.Memory.{with_behind}
use operating_systems_lab_nt.Lunix.Protocol.Total.{IsTable}
use operating_systems_lab_nt.Lunix.Protocol.Update.{report, received_buf-frame}
use operating_systems_lab_nt.Lunix.Protocol.Valid.{IsValid}
use operating_systems_lab_nt.Lunix.Sensor.{
  Msr, batt, temp, light, MsrData, msr_magic, msr_data, Sensor, IsReady, sensor_update,
  sensor_update_ready,
}
use operating_systems_lab_nt.Lunix.Sensor.Pages.{
  SameRest, Initialised, sensor_init, sensor_init-Initialised,
}

abbrev idle : ProtocolState
idle = record {
  state = start_byte;
  bytes_read = 0;
  bytes_to_read = 1;
  pos = 0;
  next_is_special = 0;
  packet = replicate 300 0;
}

zeros : All IsByte (replicate 300 0)
zeros = All-replicate IsByte 300 0 (omega arith)

idle-IsValid : IsValid idle
idle-IsValid = record {
  within = omega arith;
  wanted = refl;
  placed = omega arith;
  buffer = refl;
  bytes = zeros;
  escape = inl refl;
}

idle-IsWaiting : IsWaiting idle
idle-IsWaiting = record { valid = idle-IsValid; more = omega arith }

abbrev page : MsrData
page = record { magic = msr_magic; last_update = 0; value = 0 }

abbrev ready : Sensor
ready = record { batt_data = some page; temp_data = some page; light_data = some page; wakeups = 0 }

ready-IsReady : IsReady ready
ready-IsReady = record { has_batt = tt; has_temp = tt; has_light = tt }

-- Node 1 reports; two bytes of the payload are escaped.
abbrev hello : Message
hello = record {
  kind = 0x42;
  destination = (1, 0);
  am_kind = 0x0B;
  group = 0x7D;
  content = 9 ∷ 0 ∷ 1 ∷ 0 ∷ 0x7E ∷ 5 ∷ 6 ∷ 7 ∷ 8 ∷ 9 ∷ 10 ∷ 11 ∷ 0 ∷ 12 ∷ 0 ∷ 0x7D ∷ 1 ∷ [];
  check = (1, 2);
}

hello-IsMessage : IsMessage hello
hello-IsMessage = record {
  kind_byte = omega arith;
  destination_bytes = (omega arith, omega arith);
  am_byte = omega arith;
  group_byte = omega arith;
  content_bytes = ground arith;
  content_length = omega arith;
  check_bytes = (omega arith, omega arith);
}

received_buf-frame_example :
    (st' : ProtocolState) × IsWaiting st'
    × (st'.state ≡ start_byte)
    × (received_buf true 1 60 idle (ready ∷ []) (frame hello (0x7E ∷ []))
        ≡ (report 1 60 hello (ready ∷ []) >>= λ sensors'. some (st', sensors')))
received_buf-frame_example =
    received_buf-frame true 1 60 idle (ready ∷ []) hello (0x7E ∷ []) idle-IsWaiting refl
      hello-IsMessage (omega arith) (omega arith, tt) (inr (omega arith))

received_buf-run_example :
    received_buf true 1 60 idle (ready ∷ []) (0x7E ∷ 1 ∷ [])
    ≡ deliver 1 60 (ready ∷ []) (run idle (0x7E ∷ 1 ∷ [])).0
received_buf-run_example =
    received_buf-run true 1 60 idle (ready ∷ []) (0x7E ∷ 1 ∷ []) idle-IsValid (omega arith)
      (omega arith, (omega arith, tt)) (inr (omega arith))

ready-IsTable : IsTable 1 (ready ∷ [])
ready-IsTable = record { enough = omega arith; ready = (ready-IsReady, tt) }

-- A machine at the end of its array.
abbrev at_end : ProtocolState
at_end = record idle { pos = 300 }

received_buf-behind_example :
    received_buf true 1 60 (with_behind (9 ∷ 8 ∷ []) at_end) (ready ∷ []) (0x7E ∷ [])
    ≡ answer_behind (9 ∷ 8 ∷ []) (received_buf true 1 60 at_end (ready ∷ []) (0x7E ∷ []))
received_buf-behind_example =
    received_buf-behind (9 ∷ 8 ∷ []) 1 60 (ready ∷ []) true at_end (0x7E ∷ [])
      (record { inside = omega arith; buffer = refl })

started :
    received_buf false 1 60 idle (ready ∷ []) (0x7E ∷ [])
    ≡ some (
      (record idle {
        state = packet_type;
        bytes_read = 0;
        bytes_to_read = 1;
        pos = 1;
        packet = 0x7E ∷ replicate 299 0;
      }),
      (ready ∷ []),
    )
unfolding received_buf take_byte
started = refl

received_buf-IsWaiting_example :
    IsWaiting (record idle {
      state = packet_type;
      bytes_read = 0;
      bytes_to_read = 1;
      pos = 1;
      packet = 0x7E ∷ replicate 299 0;
    })
    × (1 ≤ 265)
received_buf-IsWaiting_example =
    received_buf-IsWaiting false 1 60 idle (ready ∷ []) (0x7E ∷ []) idle-IsWaiting (omega arith, tt)
      started

half : whole (run idle (0x7E ∷ 1 ∷ [])).0 ≡ false
unfolding run feed after take_byte
half = refl

received_buf-append_example : received_buf true 1 60 idle (ready ∷ []) (0x7E ∷ 1 ∷ 2 ∷ []) ≡ (
    received_buf true 1 60 idle (ready ∷ []) (0x7E ∷ 1 ∷ []) >>= λ (t, sensors').
    received_buf true 1 60 t sensors' (2 ∷ []))
received_buf-append_example =
    received_buf-append true 1 60 (ready ∷ []) idle (0x7E ∷ 1 ∷ []) (2 ∷ []) idle-IsWaiting
      (omega arith, (omega arith, tt)) (omega arith, tt) (inr (omega arith)) half

-- A packet with an empty payload.
abbrev short : List ℕ
short = 0x7E ∷ 1 ∷ 2 ∷ 3 ∷ 4 ∷ 5 ∷ 0 ∷ 6 ∷ 7 ∷ 0x7E ∷ []

ended : whole (run idle short).0 ≡ true
unfolding run feed after take_byte
ended = refl

received_buf-drops_example :
    received_buf true 1 60 idle (ready ∷ []) (short ++ (0x7E ∷ []))
    ≡ received_buf true 1 60 idle (ready ∷ []) short
received_buf-drops_example =
    received_buf-drops true 1 60 (ready ∷ []) idle short (0x7E ∷ []) idle-IsWaiting (ground arith)
      (omega arith, tt) (inr (omega arith)) ended

abbrev generous : Answers
generous = record { page = λ n. true; table = true; ldisc = ok; region = ok; cdev = ok }

-- The second page is refused.
abbrev poor : Answers
poor = record generous { page = λ n. n == 0 }

abbrev bare : Kernel
bare = record { requests = 0; pages = 0; tables = 0; ldisc = false; region = false; cdev = false }

bare-IsUnloaded : IsUnloaded bare
bare-IsUnloaded = record { no_ldisc = refl; no_region = refl; no_cdev = refl }

module_init-Outcome_example : Outcome 2 idle bare (module_init 2 poor idle bare)
module_init-Outcome_example = module_init-Outcome 2 poor idle bare bare-IsUnloaded

abbrev one_sensor : Driver
one_sensor = record { sensors = ready ∷ []; protocol = idle; available = 1 }

abbrev full : Kernel
full = record { requests = 3; pages = 3; tables = 1; ldisc = true; region = true; cdev = true }

loads : module_init 1 generous idle bare ≡ (ok, some one_sensor, full)
unfolding module_init protocol_init
loads = refl

module_cleanup-module_init_example :
    ((module_cleanup one_sensor full).pages ≡ 0) × SameRest bare (module_cleanup one_sensor full)
module_cleanup-module_init_example =
    module_cleanup-module_init 1 generous idle bare bare-IsUnloaded loads

opened : ldisc_open true 0 1 ≡ (ok, 0, 65536)
unfolding ldisc_open
opened = refl

Reach-exclusive_example :
    (1 ≤ 1) × (ldisc_open true 0 0 ≡ (if 1 == 0 then (ok, 0, 65536) else (err ebusy, 0, 0)))
Reach-exclusive_example = Reach-exclusive 0 (next here (attach true 0 65536 0 opened))
