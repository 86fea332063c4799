-- ===== src/Lunix/Protocol/Update.antt =====
-- What a packet received by `lunix_protocol_received_buf` does to the sensors
-- (lunix-protocol.c, lunix-sensors.c).
use operating_systems_lab_nt.Prelude.{
  ℕ, suc, ◌+◌, ◌-◌, ◌*◌, ◌≤◌, ◌<◌, ◌≡◌, refl, sym, ap, ap₂, ◌∙◌, inl, inr, ◌&&◌, ◌||◌, List, [],
  ◌∷◌, arith, ◌==◌, ltb, leb, if◌then◌else◌, Bool-cases, All, IsByte, length, get_elem?, get_or,
  set, get_or-take, get_or-append_left, Option, some, Bool, ◌>>=◌, length-append, All-append,
}
use operating_systems_lab_nt.Lunix.Protocol.Blocks.{IsQuiet}
use operating_systems_lab_nt.Lunix.Sensor.{Sensor, sensor_update}
use operating_systems_lab_nt.Lunix.Protocol.{
  start_byte, ProtocolState, protocol_init, uint16_from_packet, update_sensors, received_buf,
}
use operating_systems_lab_nt.Lunix.Protocol.Frame.{escape}
use operating_systems_lab_nt.Lunix.Protocol.Keeps.{IsWaiting, protocol_init-IsWaiting}
use operating_systems_lab_nt.Lunix.Protocol.Machine.{after_more, run, deliver}
use operating_systems_lab_nt.Lunix.Protocol.Refine.{received_buf-run}
use operating_systems_lab_nt.Lunix.Protocol.Valid.{bit_xor-IsByte}
use operating_systems_lab_nt.Lunix.Protocol.RoundTrip.{
  Message, IsMessage, raw, frame, Holds, frame-Holds,
}

-- What a message says of the sensors, by the offsets in its payload: the node, then the battery,
-- the temperature and the light. Messages of other kinds and of unknown nodes say nothing.
unfoldable pub report : ℕ → ℕ → Message → List Sensor → Option (List Sensor)
report cnt now m sensors =
    let node = uint16_from_packet m.content 2 in
    if m.am_kind == 0x0B && (ltb 0 node && leb node cnt)
    then (do
      s ← get_elem? sensors (node - 1)
      s' ←
          sensor_update now s (uint16_from_packet m.content 11) (uint16_from_packet m.content 13)
            (uint16_from_packet m.content 15)
      some (set sensors (node - 1) s'))
    else some sensors

module _ (m : Message) (t : ProtocolState) (h : Holds m t) (long : 17 ≤ length m.content) where
  packet-get : (i : ℕ) → i < 24 → get_or t.packet i 0 ≡ get_or (raw m) i 0
  packet-get i l =
      sym (
        get_or-take t.pos t.packet i 0
          (omega (arith, h.count, length-append m.content (m.check.0 ∷ m.check.1 ∷ 0x7E ∷ []))))
      ∙ ap (λ (p : List ℕ). get_or p i 0) h.bytes

  content-get : (k i : ℕ) → i ≡ k + 7 → k < 17 → get_or t.packet i 0 ≡ get_or m.content k 0
  content-get k i e l =
      let seven : i ≡ suc (suc (suc (suc (suc (suc (suc k)))))) = omega arith in
      packet-get i (omega arith)
      ∙ ap (λ (j : ℕ). get_or (raw m) j 0) seven
      ∙ get_or-append_left m.content (m.check.0 ∷ m.check.1 ∷ 0x7E ∷ []) k 0 (omega arith)

  word-get :
      (k i : ℕ)
      → i ≡ k + 7
      → k < 16
      → uint16_from_packet t.packet i ≡ uint16_from_packet m.content k
  word-get k i e l =
      ap₂ (λ a b. a + 256 * b) (content-get k i e (omega arith))
        (content-get (k + 1) (i + 1) (omega arith) (omega arith))

  update_sensors-report :
      (cnt now : ℕ) (sensors : List Sensor)
      → update_sensors cnt now t sensors ≡ report cnt now m sensors
  unfolding update_sensors report
  update_sensors-report cnt now sensors =
      rw
        (
          packet-get 4 (omega arith),
          word-get 2 9 refl (omega arith),
          word-get 11 18 refl (omega arith),
          word-get 13 20 refl (omega arith),
          word-get 15 22 refl (omega arith),
        )
        (ground arith)

  deliver-report :
      (cnt now : ℕ) (sensors : List Sensor)
      → deliver cnt now sensors t
        ≡ (report cnt now m sensors >>= λ sensors'. some (protocol_init t, sensors'))
  unfolding deliver
  deliver-report cnt now sensors = rw (h.is_whole, update_sensors-report cnt now sensors)

escape-IsByte : (bs : List ℕ) → All IsByte bs → All IsByte (escape bs)
escape-IsByte [] h = tt
escape-IsByte (b ∷ bs) h = elim (Bool-cases (b == 0x7E || b == 0x7D)) [
  | inl e ↦ rw e (omega arith, (bit_xor-IsByte b h.0, escape-IsByte bs h.1))
  | inr n ↦ rw n (h.0, escape-IsByte bs h.1)
]

frame-IsByte :
    (m : Message) (rest : List ℕ) → IsMessage m → All IsByte rest → All IsByte (frame m rest)
frame-IsByte m rest g h =
    let field = λ (bs line : List ℕ) (hb : All IsByte bs) (hl : All IsByte line).
      All-append IsByte (escape bs) line (escape-IsByte bs hb) hl in
    let (d0, d1) = g.destination_bytes in
    let (c0, c1) = g.check_bytes in
    (
      omega arith,
      (
        g.kind_byte,
        field (m.destination.0 ∷ m.destination.1 ∷ []) _ (d0, (d1, tt))
            (field (m.am_kind ∷ []) _ (g.am_byte, tt)
              (field (m.group ∷ []) _ (g.group_byte, tt)
                (field (length m.content ∷ []) _ (omega (arith, g.content_length), tt)
                  (field m.content _ g.content_bytes
                    (field (m.check.0 ∷ m.check.1 ∷ []) _ (c0, (c1, tt)) (omega arith, h)))))),
      ),
    )

-- A packet of at least 17 payload bytes, escaped and sent in one piece to a waiting driver that
-- seeks a start byte, in the debugging build together with what follows in fewer than 50 bytes,
-- does to the sensors what its message says, whatever bytes it holds and whatever bytes follow it,
-- and the driver then seeks the next packet.
pub received_buf-frame :
    (debug : Bool) (cnt now : ℕ) (st : ProtocolState) (sensors : List Sensor) (m : Message)
    (rest : List ℕ)
    → IsWaiting st
    → st.state ≡ start_byte
    → IsMessage m
    → 17 ≤ length m.content
    → All IsByte rest
    → IsQuiet debug (frame m rest)
    → (st' : ProtocolState) × IsWaiting st'
      × (st'.state ≡ start_byte)
      × (received_buf debug cnt now st sensors (frame m rest)
          ≡ (report cnt now m sensors >>= λ sensors'. some (st', sensors')))
received_buf-frame debug cnt now st sensors m rest w e g long h quiet =
    let (t, ran, held) = frame-Holds m rest g st w e in
    (
      protocol_init t,
      protocol_init-IsWaiting t held.valid.buffer held.valid.bytes,
      unfold protocol_init in refl,
      received_buf-run debug cnt now st sensors (frame m rest) w.valid w.more
            (frame-IsByte m rest g h) quiet
          ∙ ap (λ (s : ProtocolState). deliver cnt now sensors (run s (frame m rest)).0)
              (sym (after_more st w.more))
          ∙ ap (λ (p : ProtocolState × List ℕ). deliver cnt now sensors p.0) ran
          ∙ deliver-report m t held long cnt now sensors,
    )
