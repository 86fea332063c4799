-- ===== src/Lunix/Protocol/Behind.antt =====
-- Calls of lunix_protocol_received_buf (lunix-protocol.c) in a memory where other variables follow the
-- array `packet`.
use operating_systems_lab_nt.Prelude.{
  ℕ, ◌+◌, ◌-◌, ◌<◌, ◌≡◌, refl, ap, inl, inr, Bool, true, false, List, ◌++◌, Option, none, some,
  ◌>>=◌, arith, Bool-cases, get_or-append_left,
}
use operating_systems_lab_nt.Lunix.Sensor.{Sensor}
use operating_systems_lab_nt.Lunix.Protocol.{
  Seeking, ProtocolState, Parsed, complete, incomplete, failed, update_sensors, received_buf,
  last_block, finish_packet, uint16_from_packet, read_fields, in_state, end_byte, start_byte,
  set_state, parse_state, stage, finish, to_state, to_payload, packet_type, destination_address,
  am_type, am_group, payload_length, payload, crc,
}
use operating_systems_lab_nt.Lunix.Protocol.Total.{
  IsInside, parse_loop-IsInside, stage-IsInside, read_fields-IsInside, to_state-Keeps,
}
use operating_systems_lab_nt.Lunix.Protocol.Memory.{with_behind, parsed_behind, parse_loop-behind}

module _ (behind : List ℕ) where
  abbrev rest_behind : ProtocolState × List ℕ → ProtocolState × List ℕ
  rest_behind (st, rest) = (with_behind behind st, rest)

  finish-behind :
      (done : ProtocolState → ProtocolState)
      → ((st : ProtocolState)
          → IsInside st
          → done (with_behind behind st) ≡ with_behind behind (done st))
      → (out : Parsed × ProtocolState × List ℕ) → IsInside out.1
      → finish done (parsed_behind behind out) ≡ rest_behind (finish done out)
  finish-behind done k (complete, st, rest) h = ap (λ (s : ProtocolState). (s, rest)) (k st h)
  finish-behind done k (incomplete, st, rest) h = refl
  finish-behind done k (failed, st, rest) h = refl

  stage-behind :
      (debug : Bool) (from : Seeking) (use_specials : Bool) (done : ProtocolState → ProtocolState)
      → ((st : ProtocolState)
          → IsInside st
          → done (with_behind behind st) ≡ with_behind behind (done st))
      → (p : ProtocolState × List ℕ) → IsInside p.0
      → stage debug from use_specials done (rest_behind p)
        ≡ rest_behind (stage debug from use_specials done p)
  unfolding stage parse_state
  stage-behind debug from use_specials done k (st, buf) h = elim (Bool-cases (in_state from st)) [
    | inr other ↦ rw other refl
    | inl here ↦
        rw (here, parse_loop-behind behind debug use_specials 0 st buf h)
          (finish-behind done k _ (parse_loop-IsInside debug use_specials 0 st buf h))
  ]

  -- The byte before the position is in the array.
  to_payload-behind :
      (st : ProtocolState)
      → IsInside st
      → to_payload (with_behind behind st) ≡ with_behind behind (to_payload st)
  to_payload-behind st h =
      rw (get_or-append_left st.packet behind (st.pos - 1) 0 (omega (arith, h.inside, h.buffer)))
        refl

  read_fields-behind :
      (debug : Bool) (st : ProtocolState) (buf : List ℕ)
      → IsInside st
      → read_fields debug (with_behind behind st) buf ≡ rest_behind (read_fields debug st buf)
  unfolding read_fields
  read_fields-behind debug st buf h0 =
      let k = to_state-Keeps in
      let p1 = stage debug start_byte false (to_state packet_type 1) (st, buf) in
      let h1 = stage-IsInside debug start_byte false _ (k packet_type 1) (st, buf) h0 in
      let p2 = stage debug packet_type false (to_state destination_address 2) p1 in
      let h2 = stage-IsInside debug packet_type false _ (k destination_address 2) p1 h1 in
      let p3 = stage debug destination_address true (to_state am_type 1) p2 in
      let h3 = stage-IsInside debug destination_address true _ (k am_type 1) p2 h2 in
      let p4 = stage debug am_type true (to_state am_group 1) p3 in
      let h4 = stage-IsInside debug am_type true _ (k am_group 1) p3 h3 in
      let p5 = stage debug am_group true (to_state payload_length 1) p4 in
      let h5 = stage-IsInside debug am_group true _ (k payload_length 1) p4 h4 in
      let p6 = stage debug payload_length true to_payload p5 in
      let h6 =
        stage-IsInside debug payload_length true to_payload
          (λ s i. record { inside = i.inside; buffer = i.buffer }) p5 h5 in
      let p7 = stage debug payload true (to_state crc 2) p6 in
      let h7 = stage-IsInside debug payload true _ (k crc 2) p6 h6 in
      rw
        (
          stage-behind debug start_byte false (to_state packet_type 1) (λ s i. refl) (st, buf) h0,
          stage-behind debug packet_type false (to_state destination_address 2) (λ s i. refl) p1 h1,
          stage-behind debug destination_address true (to_state am_type 1) (λ s i. refl) p2 h2,
          stage-behind debug am_type true (to_state am_group 1) (λ s i. refl) p3 h3,
          stage-behind debug am_group true (to_state payload_length 1) (λ s i. refl) p4 h4,
          stage-behind debug payload_length true to_payload to_payload-behind p5 h5,
          stage-behind debug payload true (to_state crc 2) (λ s i. refl) p6 h6,
          stage-behind debug crc true (to_state end_byte 1) (λ s i. refl) p7 h7,
        )
        refl

  abbrev pub answer_behind :
      Option (ProtocolState × List Sensor) → Option (ProtocolState × List Sensor)
  answer_behind none = none
  answer_behind (some (st, sensors)) = some (with_behind behind st, sensors)

  word-behind :
      (st : ProtocolState) (i : ℕ)
      → IsInside st
      → i < 299
      → uint16_from_packet (st.packet ++ behind) i ≡ uint16_from_packet st.packet i
  word-behind st i h small =
      rw
        (
          get_or-append_left st.packet behind i 0 (omega (arith, small, h.buffer)),
          get_or-append_left st.packet behind (i + 1) 0 (omega (arith, small, h.buffer)),
        )
        refl

  module _ (cnt now : ℕ) (sensors : List Sensor) where
    update_sensors-behind :
        (st : ProtocolState)
        → IsInside st
        → update_sensors cnt now (with_behind behind st) sensors ≡ update_sensors cnt now st sensors
    unfolding update_sensors
    update_sensors-behind st h =
        rw
          (
            get_or-append_left st.packet behind 4 0 (omega (arith, h.buffer)),
            word-behind st 9 h (omega arith),
            word-behind st 18 h (omega arith),
            word-behind st 20 h (omega arith),
            word-behind st 22 h (omega arith),
          )
          refl

    delivered-behind :
        (o : Option (List Sensor)) (st : ProtocolState)
        → (do sensors' ← o; some (with_behind behind st, sensors'))
          ≡ answer_behind (do sensors' ← o; some (st, sensors'))
    delivered-behind none st = refl
    delivered-behind (some sensors') st = refl

    finish_packet-behind :
        (out : Parsed × ProtocolState × List ℕ)
        → IsInside out.1
        → finish_packet cnt now sensors (parsed_behind behind out)
          ≡ answer_behind (finish_packet cnt now sensors out)
    finish_packet-behind (complete, st, rest) h = rw (update_sensors-behind st h) (
        delivered-behind (update_sensors cnt now st sensors)
          (set_state (record st { pos = 0; next_is_special = 0 }) start_byte 1 0))
    finish_packet-behind (incomplete, st, rest) h = refl
    finish_packet-behind (failed, st, rest) h = refl

    last_block-behind :
        (debug : Bool) (p : ProtocolState × List ℕ)
        → IsInside p.0
        → last_block debug cnt now sensors (rest_behind p)
          ≡ answer_behind (last_block debug cnt now sensors p)
    unfolding last_block parse_state
    last_block-behind debug (st, rest) h = elim (Bool-cases (in_state end_byte st)) [
      | inr other ↦ rw other refl
      | inl e ↦
          rw (e, parse_loop-behind behind debug false 0 st rest h)
            (finish_packet-behind _ (parse_loop-IsInside debug false 0 st rest h))
    ]

    -- From any state whose position is at most MAX_PACKET_LEN in a packet of that length, on any
    -- chunk and in either build: where the array goes on in memory with other bytes, a call does
    -- what it does without them, and leaves them as they are. It neither writes nor uses what lies
    -- behind the array.
    pub received_buf-behind :
        (debug : Bool) (st : ProtocolState) (buf : List ℕ)
        → IsInside st
        → received_buf debug cnt now (with_behind behind st) sensors buf
          ≡ answer_behind (received_buf debug cnt now st sensors buf)
    received_buf-behind debug st buf h =
        unfold received_buf in
        rw (read_fields-behind debug st buf h)
          (last_block-behind debug (read_fields debug st buf) (read_fields-IsInside debug st buf h))
