-- ===== src/Lunix/Tests/Readers.antt =====
-- The theorems on the character device of Lunix_Device_Driver/lunix-chrdev.c at concrete inputs.
use operating_systems_lab_nt.Prelude.{
  inr, ℕ, ◌+◌, ◌-◌, List, get_elem?, ◌≤◌, ◌≡◌, ◌≢◌, refl, true, false, [], ◌∷◌, some, arith,
  if◌then◌else◌, ltb, length, take, replicate,
}
use operating_systems_lab_nt.Lunix.Chrdev.{ChrdevState, Turn, faulted, state_update, chrdev_read}
use operating_systems_lab_nt.Lunix.Chrdev.Format.{ℤ, pos, negsuc, digits, text}
use operating_systems_lab_nt.Lunix.Chrdev.Locking.{chrdev_read-lock}
use operating_systems_lab_nt.Lunix.Chrdev.Reading.{cached, line, state_update-cached}
use operating_systems_lab_nt.Lunix.Chrdev.Reads.{Call, reads, reads-line}
use operating_systems_lab_nt.Lunix.Chrdev.Text.{length-text}
use operating_systems_lab_nt.Lunix.Measure.{IsReport, node_of, page_of, received_buf-reads}
use operating_systems_lab_nt.Lunix.Protocol.{ProtocolState, received_buf}
use operating_systems_lab_nt.Lunix.Protocol.RoundTrip.{frame}
use operating_systems_lab_nt.Lunix.Kernel.{ok}
use operating_systems_lab_nt.Lunix.Sensor.{Msr, temp, MsrData, msr_magic, Sensor}
use operating_systems_lab_nt.Lunix.Tests.{
  ready, hello, hello-IsMessage, idle, idle-IsWaiting, ready-IsTable,
}

-- A table that shows a reading as itself.
abbrev pub plainly : Msr → ℕ → ℤ
plainly m n = pos n

abbrev pub node : ChrdevState
node = record {
  type = temp;
  sensor = 0;
  buf_lim = 0;
  buf_data = replicate 20 0;
  buf_timestamp = 0;
  lock = 1;
}

abbrev warm : MsrData
warm = record { magic = msr_magic; last_update = 60; value = 27312 }

abbrev pub measuring : Sensor
measuring = record ready { temp_data = some warm }

-- "27.312\n"
warm-line : line plainly temp warm ≡ 50 ∷ 55 ∷ 46 ∷ 51 ∷ 49 ∷ 50 ∷ 10 ∷ []
unfolding line text digits
warm-line = refl

state_update-cached_example :
    state_update plainly node measuring measuring
    ≡ some (if ltb 0 60 then (true, cached plainly node warm) else (false, node))
state_update-cached_example =
    state_update-cached plainly node refl measuring measuring warm warm refl refl

abbrev four : Call
four = record { checked = measuring; taken = measuring; cnt = 4 }

reads-line_example :
    reads plainly node 0 (four ∷ four ∷ four ∷ [])
    ≡ take (4 + (4 + (4 + 0))) (line plainly temp warm)
reads-line_example =
    reads-line plainly node four warm warm refl refl refl (omega arith) (four ∷ four ∷ [])
      (omega arith) (omega arith, (omega arith, (omega arith, tt)))

abbrev pub calm : Turn
calm = record { wait = ok; down = ok; checked = measuring; taken = measuring }

served : (chrdev_read plainly ok true node ready ready (calm ∷ []) 0 4).0 ≢ faulted
unfolding chrdev_read text digits
served e = cc

chrdev_read-lock_example : (chrdev_read plainly ok true node ready ready (calm ∷ []) 0 4).1.lock ≡ 1
chrdev_read-lock_example =
    chrdev_read-lock plainly ok true node ready ready (calm ∷ []) 0 4 (omega arith)
      (record { slept = refl; taken = refl }, tt) served

length-text_example : length (text (negsuc 99999)) + 1 ≤ 17
length-text_example = length-text (negsuc 99999)

hello-IsReport : IsReport 1 hello
hello-IsReport = record {
  message = hello-IsMessage;
  kind = refl;
  long = omega arith;
  node = omega arith;
  known = omega arith;
}

received_buf-reads_example :
    (st' : ProtocolState) × (sensors' : List Sensor) × (s' : Sensor) × (received_buf true 1 60 idle
        (ready ∷ [])
        (frame hello (0x7E ∷ []))
      ≡ some (st', sensors'))
    × (get_elem? sensors' (node_of hello - 1) ≡ some s')
    × (reads plainly node 0 (record { checked = s'; taken = s'; cnt = 3 } ∷ four ∷ [])
        ≡ take (3 + (4 + 0)) (line plainly temp (page_of 60 hello temp)))
received_buf-reads_example =
    received_buf-reads true plainly 1 60 idle (ready ∷ []) hello (0x7E ∷ []) node 3 (four ∷ [])
      ready-IsTable hello-IsReport idle-IsWaiting refl (omega arith, tt) (inr (omega arith)) refl
      (omega arith) (omega arith) (omega arith) (omega arith, tt)
