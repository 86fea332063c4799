-- ===== src/Lunix/Protocol/Total.antt =====
-- The places to which `lunix_protocol_received_buf` (lunix-protocol.c) writes: the sensors, and the
-- array of the packet.
use operating_systems_lab_nt.Prelude.{
  ℕ, ◌+◌, ◌<◌, bit_xor, [], ◌∷◌, true, false, ◌-◌, ◌≤◌, ◌≡◌, inl, inr, Bool, ◌&&◌, List, arith, ltb,
  leb, ◌==◌, Bool-cases, All, length, set, get_or, Option, some, All-set, All-get, length-set,
}
use operating_systems_lab_nt.Lunix.Sensor.{Sensor, IsReady, sensor_update_ready}
use operating_systems_lab_nt.Lunix.Protocol.{
  Seeking, ProtocolState, Parsed, complete, incomplete, failed, update_sensors, uint16_from_packet,
  read_fields, in_state, end_byte, start_byte, take_byte, parse_loop, parse_state, stage, finish,
  to_state, to_payload, max_packet_len, packet_type, destination_address, am_type, am_group,
  payload_length, payload, crc,
}

-- The sensor table of the module: `cnt` sensors, all of them initialised.
pub record IsTable (cnt : ℕ) (sensors : List Sensor) : Type 0 where
  pub enough : cnt ≤ length sensors
  pub ready : All IsReady sensors

pub update_sensors_total :
    (cnt now : ℕ) (st : ProtocolState) (sensors : List Sensor)
    → IsTable cnt sensors
    → (sensors' : List Sensor) × (update_sensors cnt now st sensors ≡ some sensors')
      × IsTable cnt sensors'
unfolding update_sensors
update_sensors_total cnt now st sensors t = elim (Bool-cases (0x0B == get_or st.packet 4 0)) [
  | inr other ↦ (sensors, rw other, t)
  | inl kind ↦
      let node = uint16_from_packet st.packet 9 in
      elim (Bool-cases (ltb 0 node && leb node cnt)) [
        | inr out ↦ (sensors, rw (kind, out), t)
        | inl known ↦
            let (s, at, r) =
              All-get IsReady sensors (node - 1) t.ready (ground (arith, t.enough)) in
            let u =
              sensor_update_ready now s (uint16_from_packet st.packet 18)
                (uint16_from_packet st.packet 20) (uint16_from_packet st.packet 22) r in
            (
              set sensors (node - 1) u.0,
              rw (kind, known, at, u.1),
              record {
                enough = omega (arith, t.enough, length-set sensors (node - 1) u.0);
                ready = All-set IsReady sensors (node - 1) u.0 t.ready u.2;
              },
            )
      ]
]

-- The position lies in the array of MAX_PACKET_LEN bytes, or just behind it.
pub record IsInside (st : ProtocolState) : Type 0 where
  pub inside : st.pos ≤ 300
  pub buffer : length st.packet ≡ 300

pub take_byte-IsInside :
    (use_specials : Bool) (b : ℕ) (st : ProtocolState)
    → IsInside st
    → st.pos < 300
    → IsInside (take_byte use_specials b st)
unfolding take_byte
take_byte-IsInside use_specials b st h room =
    let one = length-set st.packet st.pos b in
    let other = length-set st.packet st.pos (bit_xor b 0x20) in
    let both = length-set (set st.packet st.pos b) st.pos (bit_xor b 0x20) in
    record { inside = ground arith; buffer = ground arith }

-- The loop stores only inside the array: its guard against MAX_PACKET_LEN keeps the position there.
pub parse_loop-IsInside :
    (debug use_specials : Bool) (iter : ℕ) (st : ProtocolState) (buf : List ℕ)
    → IsInside st
    → IsInside (parse_loop debug use_specials iter st buf).1
unfolding parse_loop
parse_loop-IsInside debug use_specials iter st [] h = h
parse_loop-IsInside debug use_specials iter st (b ∷ rest) h =
    elim (Bool-cases (ltb st.bytes_read st.bytes_to_read)) [
      | inr full ↦ rw full h
      | inl more ↦ elim (Bool-cases (debug && iter + 1 == 50)) [
        | inl stopped ↦ rw (more, stopped) h
        | inr on ↦ elim (Bool-cases (st.pos == max_packet_len)) [
          | inl end ↦ rw (more, on, end) (record { inside = omega arith; buffer = h.buffer })
          | inr room ↦
              let below : st.pos < 300 = ground (arith, h.inside) in
              rw (more, on, room)
                (parse_loop-IsInside debug use_specials (iter + 1) (take_byte use_specials b st)
                  rest (take_byte-IsInside use_specials b st h below))
        ]
      ]
    ]

-- What a block does when its field is complete keeps the position and the packet.
abbrev Keeps : (ProtocolState → ProtocolState) → Type 0
Keeps done = (st : ProtocolState) → IsInside st → IsInside (done st)

finish-IsInside :
    (done : ProtocolState → ProtocolState)
    → Keeps done
    → (out : Parsed × ProtocolState × List ℕ) → IsInside out.1
    → IsInside (finish done out).0
finish-IsInside done k (complete, st, rest) h = k st h
finish-IsInside done k (incomplete, st, rest) h = h
finish-IsInside done k (failed, st, rest) h = h

pub stage-IsInside :
    (debug : Bool) (from : Seeking) (use_specials : Bool) (done : ProtocolState → ProtocolState)
    → Keeps done
    → (p : ProtocolState × List ℕ) → IsInside p.0
    → IsInside (stage debug from use_specials done p).0
unfolding stage parse_state
stage-IsInside debug from use_specials done k (st, buf) h = elim (Bool-cases (in_state from st)) [
  | inr other ↦ rw other h
  | inl here ↦
      rw here (finish-IsInside done k _ (parse_loop-IsInside debug use_specials 0 st buf h))
]

pub to_state-Keeps : (s : Seeking) (btr : ℕ) → Keeps (to_state s btr)
to_state-Keeps s btr st h = record { inside = h.inside; buffer = h.buffer }

pub read_fields-IsInside :
    (debug : Bool) (st : ProtocolState) (buf : List ℕ)
    → IsInside st
    → IsInside (read_fields debug st buf).0
unfolding read_fields
read_fields-IsInside debug st buf h =
    stage-IsInside debug crc true _ (to_state-Keeps end_byte 1) _ (
      stage-IsInside debug payload true _ (to_state-Keeps crc 2) _ (
        stage-IsInside debug payload_length true to_payload
          (λ s k. record { inside = k.inside; buffer = k.buffer }) _
          (stage-IsInside debug am_group true _ (to_state-Keeps payload_length 1) _ (
            stage-IsInside debug am_type true _ (to_state-Keeps am_group 1) _ (
              stage-IsInside debug destination_address true _ (to_state-Keeps am_type 1) _ (
                stage-IsInside debug packet_type false _ (to_state-Keeps destination_address 2) _ (
                  stage-IsInside debug start_byte false _ (to_state-Keeps packet_type 1) (st, buf)
                    h)))))))

module _ (cnt now : ℕ) (sensors : List Sensor) (t : IsTable cnt sensors) where
  abbrev Delivered : Option (ProtocolState × List Sensor) → Type 0
  Delivered r =
      (st' : ProtocolState) × (sensors' : List Sensor) × (r ≡ some (st', sensors'))
      × IsTable cnt sensors'
      × IsInside st'
