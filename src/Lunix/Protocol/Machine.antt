-- ===== src/Lunix/Protocol/Machine.antt =====
-- The protocol of lunix-protocol.c as a machine that reads one byte at a time, with no buffer, no
-- loop and no iteration counter.
use operating_systems_lab_nt.Prelude.{
  ℕ, ◌≡◌, refl, ◌≢◌, ◌<◌, Bool, true, false, ◌&&◌, List, [], ◌∷◌, ◌++◌, arith, ◌==◌, if◌then◌else◌,
  Bool-cases, inl, inr, Option, some, ◌>>=◌,
}
use operating_systems_lab_nt.Lunix.Sensor.{Sensor}
use operating_systems_lab_nt.Lunix.Protocol.{
  Seeking, start_byte, packet_type, destination_address, am_type, am_group, payload_length, payload,
  crc, end_byte, ProtocolState, to_state, to_payload, in_state, take_byte, protocol_init,
  update_sensors,
}
use operating_systems_lab_nt.Lunix.Protocol.Valid.{specials}

-- The field after a field that is complete; the packet ends with the end byte.
abbrev pub next_field : Seeking → ProtocolState → ProtocolState
next_field start_byte st = to_state packet_type 1 st
next_field packet_type st = to_state destination_address 2 st
next_field destination_address st = to_state am_type 1 st
next_field am_type st = to_state am_group 1 st
next_field am_group st = to_state payload_length 1 st
next_field payload_length st = to_payload st
next_field payload st = to_state crc 2 st
next_field crc st = to_state end_byte 1 st
next_field end_byte st = st

abbrev pub advance : ProtocolState → ProtocolState
advance st = if st.bytes_read == st.bytes_to_read then next_field st.state st else st

-- Twice, since an empty payload is complete at once.
unfoldable pub after : ProtocolState → ProtocolState
after st = advance (advance st)

unfoldable pub feed : ℕ → ProtocolState → ProtocolState
feed b st = after (take_byte (specials st.state) b st)

-- A packet is whole when its end byte is read.
abbrev pub whole : ProtocolState → Bool
whole st = in_state end_byte st && st.bytes_read == st.bytes_to_read

-- Read bytes up to the end of the first packet, and return those behind it.
unfoldable pub run : ProtocolState → List ℕ → ProtocolState × List ℕ
run st [] = (st, [])
run st (b ∷ rest) =
    let later = run (feed b st) rest in if whole (feed b st) then (feed b st, rest) else later

-- A whole packet is handed to the sensors, and the machine starts afresh.
unfoldable pub deliver : ℕ → ℕ → List Sensor → ProtocolState → Option (ProtocolState × List Sensor)
deliver cnt now sensors st =
    if whole st
    then (do sensors' ← update_sensors cnt now st sensors; some (protocol_init st, sensors'))
    else some (st, sensors)

pub after_more : (st : ProtocolState) → st.bytes_read < st.bytes_to_read → after st ≡ st
unfolding after
after_more st h = ground arith

pub whole-after : (st : ProtocolState) → st.state ≢ end_byte → whole (after st) ≡ false
unfolding after
whole-after st h = ground arith

-- Where no packet ends in the first piece, the pieces may be read one after the other.
pub run-append :
    (xs ys : List ℕ) (st : ProtocolState)
    → whole (run st xs).0 ≡ false
    → run st (xs ++ ys) ≡ run (run st xs).0 ys
unfolding run
run-append [] ys st h = refl
run-append (b ∷ xs) ys st h = elim (Bool-cases (whole (feed b st))) [
  | inl w ↦ cc
  | inr w ↦ rw w (run-append xs ys (feed b st) (rw w at h))
]

-- Where a packet ends in the first piece, the second is not read at all.
pub run-append_whole :
    (xs ys : List ℕ) (st : ProtocolState)
    → whole st ≡ false
    → whole (run st xs).0 ≡ true
    → (run st (xs ++ ys)).0 ≡ (run st xs).0
unfolding run
run-append_whole [] ys st n h = cc
run-append_whole (b ∷ xs) ys st n h = elim (Bool-cases (whole (feed b st))) [
  | inl w ↦ rw w
  | inr w ↦ rw w (run-append_whole xs ys (feed b st) w (rw w at h))
]
