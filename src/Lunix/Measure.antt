-- ===== src/Lunix/Measure.antt =====
-- From the packet that the line discipline receives to the text that a reader of the character
-- device gets (lunix-protocol.c, lunix-sensors.c and lunix-chrdev.c of Lunix_Device_Driver).
use operating_systems_lab_nt.Prelude.{
  ℕ, zero, suc, ◌+◌, ◌-◌, ◌^◌, ◌≤◌, ◌<◌, ◌≡◌, refl, ◌∙◌, true, ◌&&◌, Bool, List, [], ◌∷◌, arith,
  ltb, leb, All, All-get, IsByte, length, take, get_elem?, set, some,
}
use operating_systems_lab_nt.Lunix.Chrdev.{ChrdevState, chrdev_bufsz}
use operating_systems_lab_nt.Lunix.Chrdev.Format.{ℤ}
use operating_systems_lab_nt.Lunix.Chrdev.Reading.{line}
use operating_systems_lab_nt.Lunix.Chrdev.Reads.{Call, reads, asked, IsSane, reads-line}
use operating_systems_lab_nt.Lunix.Protocol.{
  ProtocolState, start_byte, received_buf, uint16_from_packet,
}
use operating_systems_lab_nt.Lunix.Protocol.Keeps.{IsWaiting}
use operating_systems_lab_nt.Lunix.Protocol.RoundTrip.{Message, IsMessage, frame}
use operating_systems_lab_nt.Lunix.Protocol.Total.{IsTable}
use operating_systems_lab_nt.Lunix.Protocol.Update.{report, received_buf-frame}
use operating_systems_lab_nt.Lunix.Protocol.Blocks.{IsQuiet}
use operating_systems_lab_nt.Lunix.Sensor.{
  Msr, batt, temp, light, MsrData, msr_magic, Sensor, msr_data, IsReady, sensor_update_ready,
}

-- The node that a message names, counted from one.
abbrev pub node_of : Message → ℕ
node_of m = uint16_from_packet m.content 2

-- The word of a message's payload that holds a measurement.
abbrev pub word_of : Message → Msr → ℕ
word_of m batt = uint16_from_packet m.content 11
word_of m temp = uint16_from_packet m.content 13
word_of m light = uint16_from_packet m.content 15

-- The page of a measurement that a message at the time `now` leaves.
abbrev pub page_of : ℕ → Message → Msr → MsrData
page_of now m k = record { magic = msr_magic; last_update = now; value = word_of m k }

-- A measurement of a node that the table of `cnt` sensors has.
pub record IsReport (cnt : ℕ) (m : Message) : Type 0 where
  pub message : IsMessage m
  pub kind : m.am_kind ≡ 0x0B
  pub long : 17 ≤ length m.content
  pub node : 0 < node_of m
  pub known : node_of m ≤ cnt

get_elem?-set :
    {A : Type 0} (xs : List A) (i : ℕ) (v : A) → i < length xs → get_elem? (set xs i v) i ≡ some v
get_elem?-set [] i v h = absurd (omega arith)
get_elem?-set (x ∷ xs) zero v h = refl
get_elem?-set (x ∷ xs) (suc i) v h = get_elem?-set xs i v (omega arith)

each_page :
    (now : ℕ) (m : Message) (s' : Sensor)
    → msr_data s' batt ≡ some (page_of now m batt)
    → msr_data s' temp ≡ some (page_of now m temp)
    → msr_data s' light ≡ some (page_of now m light)
    → (k : Msr) → msr_data s' k ≡ some (page_of now m k)
each_page now m s' b t l batt = b
each_page now m s' b t l temp = t
each_page now m s' b t l light = l

module _ (cnt now : ℕ) (sensors : List Sensor) (m : Message) (t : IsTable cnt sensors)
    (r : IsReport cnt m) where
  report-page :
      (k : Msr)
      → (s' : Sensor) × (report cnt now m sensors ≡ some (set sensors (node_of m - 1) s'))
        × (get_elem? (set sensors (node_of m - 1) s') (node_of m - 1) ≡ some s')
        × (msr_data s' k ≡ some (page_of now m k))
  unfolding report
  report-page k =
      let inside : node_of m - 1 < length sensors = omega (arith, t.enough, r.node, r.known) in
      let named : (ltb 0 (node_of m) && leb (node_of m) cnt) ≡ true =
        ground (arith, r.node, r.known) in
      let (s, at, loaded) = All-get IsReady sensors (node_of m - 1) t.ready inside in
      let (s', e, kept, b, l, g, w) =
        sensor_update_ready now s (word_of m batt) (word_of m temp) (word_of m light) loaded in
      (
        s',
        rw (r.kind, named, at, e) refl,
        get_elem?-set sensors (node_of m - 1) s' inside,
        each_page now m s' b l g k,
      )

-- Where the sensors are initialised, the driver waits for a start byte, and a packet of at least 17
-- payload bytes with the measurements of a known node is sent to it in one piece, escaped, whatever
-- bytes follow, but in the debugging build fewer than 50 bytes in all: a reader at the start of any
-- of that node's character devices, with a whole buffer and a cache older than the packet, that
-- nothing interrupts, that sees the sensor as the packet left it in its first call, and that asks
-- first for one byte or more and never for 2^63, gets, over all its calls up to the rewind, as many
-- bytes as it has asked for of the line of the packet's word for that measurement.
pub received_buf-reads :
    (debug : Bool) (lookup : Msr → ℕ → ℤ) (cnt now : ℕ) (st : ProtocolState) (sensors : List Sensor)
    (m : Message) (rest : List ℕ) (reader : ChrdevState) (n : ℕ) (calls : List Call)
    → IsTable cnt sensors
    → IsReport cnt m
    → IsWaiting st
    → st.state ≡ start_byte
    → All IsByte rest
    → IsQuiet debug (frame m rest)
    → length reader.buf_data ≡ chrdev_bufsz
    → reader.buf_timestamp < now
    → 0 < n
    → n < 2 ^ 63
    → All IsSane calls
    → (st' : ProtocolState) × (sensors' : List Sensor) × (s' : Sensor) × (received_buf debug cnt now
          st sensors
          (frame m rest)
        ≡ some (st', sensors'))
      × (get_elem? sensors' (node_of m - 1) ≡ some s')
      × (reads lookup reader 0 (record { checked = s'; taken = s'; cnt = n } ∷ calls)
          ≡ take (n + asked calls) (line lookup reader.type (page_of now m reader.type)))
received_buf-reads debug lookup cnt now st sensors m rest reader n calls t r w e bytes quiet room
      older some_size sane all_sane =
    let (st', waiting, seeking, received) =
      received_buf-frame debug cnt now st sensors m rest w e r.message r.long bytes quiet in
    let (s', reported, at, page) = report-page cnt now sensors m t r reader.type in
    (
      st',
      set sensors (node_of m - 1) s',
      s',
      received ∙ rw reported refl,
      at,
      reads-line lookup reader (record { checked = s'; taken = s'; cnt = n }) _ _ room page page
          older calls some_size (sane, all_sane),
    )
