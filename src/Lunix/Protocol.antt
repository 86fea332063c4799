-- ===== src/Lunix/Protocol.antt =====
-- Lunix_Device_Driver/lunix-protocol.c and lunix-protocol.h: the receiving state machine of the
-- sensor network's packets.
pub mod Valid
pub mod Machine
pub mod Stages
pub mod Blocks
pub mod Refine
pub mod Keeps
pub mod Frame
pub mod RoundTrip
pub mod Update
pub mod Total
pub mod Memory
pub mod Behind
use operating_systems_lab_nt.Prelude.{
  ℕ, ◌+◌, ◌-◌, ◌*◌, bit_xor, Bool, true, false, not, ◌&&◌, ◌||◌, Option, some, ◌>>=◌, List, [], ◌∷◌,
  if◌then◌else◌, ltb, leb, ◌==◌, get_elem?, get_or, set,
}
use operating_systems_lab_nt.Lunix.Sensor.{Sensor, sensor_update}

-- The states of the machine.
pub data Seeking : Type 0 where
  start_byte packet_type destination_address am_type am_group : Seeking
  payload_length payload crc end_byte : Seeking

-- The values that the header gives the states.
abbrev pub number : Seeking → ℕ
number start_byte = 1
number packet_type = 2
number destination_address = 3
number am_type = 4
number am_group = 5
number payload_length = 6
number payload = 7
number crc = 8
number end_byte = 9

abbrev pub max_packet_len : ℕ
max_packet_len = 300

abbrev pub packet_signature_offset : ℕ
packet_signature_offset = 4

abbrev pub node_offset : ℕ
node_offset = 9

abbrev pub vref_offset : ℕ
vref_offset = 18

abbrev pub temperature_offset : ℕ
temperature_offset = 20

abbrev pub light_offset : ℕ
light_offset = 22

-- `struct lunix_protocol_state_struct`, without `payload_length`, which no code reads or writes.
pub record ProtocolState : Type 0 where
  pub state : Seeking
  pub bytes_read : ℕ
  pub bytes_to_read : ℕ
  pub pos : ℕ
  pub next_is_special : ℕ
  pub packet : List ℕ

abbrev pub set_state : ProtocolState → Seeking → ℕ → ℕ → ProtocolState
set_state st s btr br = record st { state = s; bytes_to_read = btr; bytes_read = br }

-- `lunix_protocol_init`
unfoldable pub protocol_init : ProtocolState → ProtocolState
protocol_init st = set_state (record st { pos = 0; next_is_special = 0 }) start_byte 1 0

-- `uint16_from_packet`: little-endian, on any host.
abbrev pub uint16_from_packet : List ℕ → ℕ → ℕ
uint16_from_packet packet i = get_or packet i 0 + 256 * get_or packet (i + 1) 0

-- `lunix_protocol_update_sensors`; `cnt` is `lunix_sensor_cnt`.
unfoldable pub update_sensors : ℕ → ℕ → ProtocolState → List Sensor → Option (List Sensor)
update_sensors cnt now st sensors =
    if 0x0B == get_or st.packet packet_signature_offset 0
    then (let nodeid = uint16_from_packet st.packet node_offset in
        if ltb 0 nodeid && leb nodeid cnt
        then (do
          s ← get_elem? sensors (nodeid - 1)
          s' ←
              sensor_update now s (uint16_from_packet st.packet vref_offset)
                (uint16_from_packet st.packet temperature_offset)
                (uint16_from_packet st.packet light_offset)
          some (set sensors (nodeid - 1) s'))
        else some sensors)
    else some sensors

-- Store one byte and count it. Behind the array nothing is stored, where the code would write on:
-- the guard of the loop keeps the position in the array.
abbrev pub store : ℕ → ProtocolState → ProtocolState
store b st = record st {
  packet = set st.packet st.pos b;
  pos = st.pos + 1;
  bytes_read = st.bytes_read + 1;
}

-- The byte behind an escape: stored as it is after 0x7E, with a bit changed after 0x7D.
abbrev pub unescape : ℕ → ProtocolState → List ℕ
unescape b st =
    let raw = if 0x7E == st.next_is_special then set st.packet st.pos b else st.packet in
    if 0x7D == st.next_is_special then set raw st.pos (bit_xor b 0x20) else raw

-- The body of the loop behind its two guards.
unfoldable pub take_byte : Bool → ℕ → ProtocolState → ProtocolState
take_byte use_specials b st =
    if use_specials
    then (if not (st.next_is_special == 0)
        then record st {
          packet = unescape b st;
          pos = st.pos + 1;
          bytes_read = st.bytes_read + 1;
          next_is_special = 0;
        }
        else if 0x7E == b || 0x7D == b
        then record st { next_is_special = b }
        else store b st)
    else store b st

-- The results 1, 0 and -1 of `lunix_protocol_parse_state`.
pub data Parsed : Type 0 where
  complete incomplete failed : Parsed

abbrev pub verdict : ProtocolState → Parsed
verdict st = if st.bytes_read == st.bytes_to_read then complete else incomplete

-- The loop of `lunix_protocol_parse_state`, on the bytes from `*i`; it returns those left.
-- `debug` is LUNIX_DEBUG, and `iter` the counter of the debugging build.
unfoldable pub parse_loop :
    Bool → Bool → ℕ → ProtocolState → List ℕ → Parsed × ProtocolState × List ℕ
parse_loop debug use_specials iter st [] = (verdict st, st, [])
parse_loop debug use_specials iter st (b ∷ rest) =
    let next = parse_loop debug use_specials (iter + 1) (take_byte use_specials b st) rest in
    if ltb st.bytes_read st.bytes_to_read
    then (if debug && iter + 1 == 50
        then (failed, st, b ∷ rest)
        else if st.pos == max_packet_len
        then (failed, record st { pos = 0 }, b ∷ rest)
        else next)
    else (verdict st, st, b ∷ rest)

unfoldable pub parse_state : Bool → ProtocolState → List ℕ → Bool → Parsed × ProtocolState × List ℕ
unfolding parse_loop
parse_state debug st buf use_specials = parse_loop debug use_specials 0 st buf

-- One block of `lunix_protocol_received_buf`: in state `from`, read, and run `done` when complete.
abbrev pub in_state : Seeking → ProtocolState → Bool
in_state from st = number st.state == number from

abbrev pub finish :
    (ProtocolState → ProtocolState) → Parsed × ProtocolState × List ℕ → ProtocolState × List ℕ
finish done (complete, st, rest) = (done st, rest)
finish done (incomplete, st, rest) = (st, rest)
finish done (failed, st, rest) = (st, rest)

unfoldable pub stage :
    Bool
    → Seeking
    → Bool
    → (ProtocolState → ProtocolState)
    → ProtocolState × List ℕ
    → ProtocolState × List ℕ
unfolding parse_state
stage debug from use_specials done (st, buf) =
    if in_state from st then finish done (parse_state debug st buf use_specials) else (st, buf)

abbrev pub to_state : Seeking → ℕ → ProtocolState → ProtocolState
to_state s btr st = set_state st s btr 0

-- What follows the payload length byte, which stands before the position; a position of 0, at
-- which the code would read in front of the array, has no byte before it in a valid state.
abbrev pub to_payload : ProtocolState → ProtocolState
to_payload st = set_state st payload (get_or st.packet (st.pos - 1) 0) 0

-- The blocks of `lunix_protocol_received_buf` up to that for the checksum.
unfoldable pub read_fields : Bool → ProtocolState → List ℕ → ProtocolState × List ℕ
unfolding stage
read_fields debug st buf =
    let p1 = stage debug start_byte false (to_state packet_type 1) (st, buf) in
    let p2 = stage debug packet_type false (to_state destination_address 2) p1 in
    let p3 = stage debug destination_address true (to_state am_type 1) p2 in
    let p4 = stage debug am_type true (to_state am_group 1) p3 in
    let p5 = stage debug am_group true (to_state payload_length 1) p4 in
    let p6 = stage debug payload_length true to_payload p5 in
    let p7 = stage debug payload true (to_state crc 2) p6 in
    stage debug crc true (to_state end_byte 1) p7

-- The last block, with the update of the sensors.
abbrev pub finish_packet :
    ℕ → ℕ → List Sensor → Parsed × ProtocolState × List ℕ → Option (ProtocolState × List Sensor)
finish_packet cnt now sensors (complete, st, _) = do
  sensors' ← update_sensors cnt now st sensors
  some (set_state (record st { pos = 0; next_is_special = 0 }) start_byte 1 0, sensors')
finish_packet cnt now sensors (incomplete, st, _) = some (st, sensors)
finish_packet cnt now sensors (failed, st, _) = some (st, sensors)

unfoldable pub last_block :
    Bool → ℕ → ℕ → List Sensor → ProtocolState × List ℕ → Option (ProtocolState × List Sensor)
last_block debug cnt now sensors (st, rest) =
    if in_state end_byte st
    then finish_packet cnt now sensors (parse_state debug st rest false)
    else some (st, sensors)

-- `lunix_protocol_received_buf`
unfoldable pub received_buf :
    Bool → ℕ → ℕ → ProtocolState → List Sensor → List ℕ → Option (ProtocolState × List Sensor)
unfolding read_fields last_block parse_state update_sensors
received_buf debug cnt now st sensors buf =
    last_block debug cnt now sensors (read_fields debug st buf)
