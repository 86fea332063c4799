-- ===== src/Lunix/Protocol/Refine.antt =====
-- `lunix_protocol_received_buf` (lunix-protocol.c) against the machine that reads one byte at a time.
use operating_systems_lab_nt.Prelude.{
  ℕ, suc, ◌+◌, ◌≤◌, ◌<◌, ◌≡◌, refl, sym, ap, ◌∙◌, ◌≢◌, ◌⊎◌, inl, inr, Bool, true, false, List, [],
  ◌∷◌, ◌++◌, arith, All, IsByte, length, some,
}
use operating_systems_lab_nt.Lunix.Sensor.{Sensor}
use operating_systems_lab_nt.Lunix.Protocol.{
  Seeking, number, start_byte, packet_type, destination_address, am_type, am_group, payload_length,
  payload, crc, end_byte, ProtocolState, complete, incomplete, in_state, parse_state, read_fields,
  received_buf, last_block, protocol_init, take_byte,
}
use operating_systems_lab_nt.Lunix.Protocol.Blocks.{
  Ready, IsOpen, IsQuiet, stage-Ready, stage-Passes, WantsMore, stage-WantsMore, block, in_state→eq,
}
use operating_systems_lab_nt.Lunix.Protocol.Machine.{after, after_more, feed, whole, deliver, run}
use operating_systems_lab_nt.Lunix.Protocol.Stages.{
  loop_complete, loop_incomplete, loop_step, state-take_byte,
}
use operating_systems_lab_nt.Lunix.Protocol.Valid.{IsValid, pos-le, width}

-- The blocks of a row of fields, in order.
abbrev blocks : Bool → List Seeking → ProtocolState × List ℕ → ProtocolState × List ℕ
blocks debug [] p = p
blocks debug (from ∷ rest) p = blocks debug rest (block debug from p)

-- The fields are numbered upwards from `n`, and the end byte is not among them.
abbrev IsRow : ℕ → List Seeking → Type 0
IsRow n [] = Unit
IsRow n (from ∷ rest) = (number from ≡ n) × (n < 9) × IsRow (n + 1) rest

abbrev before_payload : List Seeking
before_payload =
    start_byte ∷ packet_type ∷ destination_address ∷ am_type ∷ am_group ∷ payload_length ∷ []

ne_end_byte : (from : Seeking) {n : ℕ} → number from ≡ n → n < 9 → from ≢ end_byte
ne_end_byte from h l = ground arith

blocks-Ready :
    (debug : Bool) (n : ℕ) (row : List Seeking) (p : ProtocolState × List ℕ)
    → IsRow n row
    → Ready p
    → Ready (blocks debug row p)
blocks-Ready debug n [] p h r = r
blocks-Ready debug n (from ∷ row) p h r =
    blocks-Ready debug (n + 1) row (block debug from p) h.2
      (stage-Ready debug from (ne_end_byte from h.0 h.1) p r)

abbrev Reached : ℕ → List Seeking → ProtocolState × List ℕ → Type 0
Reached n row q = (q.1 ≡ []) ⊎ (n + length row ≤ number q.0.state)

le_or : {P : Type 0} (c b a : ℕ) → c ≤ a → P ⊎ (a ≤ b) → P ⊎ (c ≤ b)
le_or c b a h (inl p) = inl p
le_or c b a h (inr l) = inr (omega arith)

blocks-runs :
    (debug : Bool) (n : ℕ) (row : List Seeking) (p : ProtocolState × List ℕ)
    → IsRow n row
    → Ready p
    → IsQuiet debug p.1
    → (p.1 ≡ []) ⊎ (n ≤ number p.0.state)
    → let q = blocks debug row p in (run (after q.0) q.1 ≡ run (after p.0) p.1) × Reached n row q
blocks-runs debug n [] p h r quiet prior = (refl, le_or (n + 0) _ n (omega arith) prior)
blocks-runs debug n (from ∷ row) p h r quiet prior =
    let ne = ne_end_byte from h.0 h.1 in
    let b =
      stage-Passes debug from ne p r quiet (le_or (number from) _ n (omega (arith, h.0)) prior) in
    let ih =
      blocks-runs debug (n + 1) row (block debug from p) h.2 (stage-Ready debug from ne p r) b.quiet
        (le_or (n + 1) _ (suc (number from)) (omega (arith, h.0)) b.past) in
    (ih.0 ∙ b.runs, le_or (n + length (from ∷ row)) _ (n + 1 + length row) (omega arith) ih.1)

wants : (st : ProtocolState) → IsOpen st → in_state payload st ≡ false → WantsMore st
wants st (inl m) h = m
wants st (inr e) h = ground arith

one_le : (s : Seeking) → 1 ≤ number s
one_le s = ground arith

at_end : {P : Type 0} {s : Seeking} → P ⊎ (9 ≤ number s) → P ⊎ (s ≡ end_byte)
at_end (inl p) = inl p
at_end (inr h) = inr (ground arith)

module _ (debug : Bool) (st : ProtocolState) (buf : List ℕ) (v : IsValid st) (more : WantsMore st)
    (bs : All IsByte buf) where
  ready : Ready (st, buf)
  ready = record { valid = v; input = bs; is_open = inl more }

  -- Whatever the build and the chunk, the fields leave a valid state that wants more bytes.
  pub read_fields_keeps :
      let (st', rest) = read_fields debug st buf in IsValid st' × WantsMore st' × All IsByte rest
  unfolding read_fields
  read_fields_keeps =
      let p6 = blocks debug before_payload (st, buf) in
      let r6 = blocks-Ready debug 1 before_payload (st, buf) (omega arith) ready in
      let p7 = block debug payload p6 in
      let r7 = stage-Ready debug payload (ne_end_byte payload refl (omega arith)) p6 r6 in
      let m7 : WantsMore p7.0 =
        stage-WantsMore debug payload (ne_end_byte payload refl (omega arith)) p6 r6
          (λ _. omega arith) (wants p6.0 r6.is_open) in
      let r8 = stage-Ready debug crc (ne_end_byte crc refl (omega arith)) p7 r7 in
      (
        r8.valid,
        stage-WantsMore debug crc (ne_end_byte crc refl (omega arith)) p7 r7 (λ _. omega arith)
            (λ h. m7),
        r8.input,
      )

  read_fields-run :
      IsQuiet debug buf
      → let q = read_fields debug st buf in
        (run q.0 q.1 ≡ run st buf) × ((q.1 ≡ []) ⊎ (q.0.state ≡ end_byte))
  unfolding read_fields
  read_fields-run quiet =
      let q = read_fields debug st buf in
      let row = before_payload ++ (payload ∷ crc ∷ []) in
      let w = blocks-runs debug 1 row (st, buf) (omega arith) ready quiet (inr (one_le st.state)) in
      (
        ap (λ (t : ProtocolState). run t q.1) (sym (after_more q.0 read_fields_keeps.1))
            ∙ w.0
            ∙ ap (λ (t : ProtocolState). run t buf) (after_more st more),
        at_end w.1,
      )

-- The end byte, which is read with no escapes.
module _ (debug : Bool) (st : ProtocolState) (v : IsValid st) (more : WantsMore st)
    (e : st.state ≡ end_byte) where
  end-nil : parse_state debug st [] false ≡ (incomplete, st, [])
  unfolding parse_state
  end-nil = loop_incomplete debug false 0 st more

  pub end_full : (b : ℕ) → (take_byte false b st).bytes_read ≡ (take_byte false b st).bytes_to_read
  unfolding take_byte
  end_full b = let w : width st.state st.packet ≡ 1 = rw e in omega (arith, v.wanted, more)

  end-cons :
      (b : ℕ) (rest : List ℕ)
      → parse_state debug st (b ∷ rest) false ≡ (complete, take_byte false b st, rest)
  unfolding parse_state
  end-cons b rest =
      loop_step debug false 0 st b rest more (ground arith) (omega (arith, pos-le v))
      ∙ loop_complete debug false (0 + 1) (take_byte false b st) rest (end_full b)

  pub run_end : (b : ℕ) (rest : List ℕ) → run st (b ∷ rest) ≡ (take_byte false b st, rest)
  unfolding run feed after
  run_end b rest = ground (arith, end_full b, state-take_byte false b st)

module _ (debug : Bool) (cnt now : ℕ) (sensors : List Sensor) where
  deliver_waiting :
      (st : ProtocolState) → WantsMore st → deliver cnt now sensors st ≡ some (st, sensors)
  unfolding deliver
  deliver_waiting st more = ground arith

  module _ (st : ProtocolState) (v : IsValid st) (more : WantsMore st) where
    pub last-nil :
        (e : Bool)
        → in_state end_byte st ≡ e
        → last_block debug cnt now sensors (st, []) ≡ some (st, sensors)
    unfolding last_block
    last-nil true e = rw (e, end-nil debug st v more (in_state→eq end_byte st.state e))
    last-nil false e = rw e

    pub last-cons :
        (b : ℕ) (rest : List ℕ)
        → st.state ≡ end_byte
        → last_block debug cnt now sensors (st, b ∷ rest)
          ≡ deliver cnt now sensors (run st (b ∷ rest)).0
    unfolding last_block deliver protocol_init
    last-cons b rest e =
        let here : in_state end_byte st ≡ true = ground arith in
        let ended : whole (take_byte false b st) ≡ true =
          ground (arith, end_full debug st v more e b, state-take_byte false b st) in
        rw (end-cons debug st v more e b rest, run_end debug st v more e b rest, here, ended)

  last_block-deliver :
      (st : ProtocolState) (rest : List ℕ)
      → IsValid st
      → WantsMore st
      → (rest ≡ []) ⊎ (st.state ≡ end_byte)
      → last_block debug cnt now sensors (st, rest) ≡ deliver cnt now sensors (run st rest).0
  last_block-deliver st [] v more h =
      last-nil st v more (in_state end_byte st) refl ∙ sym (unfold run in deliver_waiting st more)
  last_block-deliver st (b ∷ rest) v more (inl h) = cc
  last_block-deliver st (b ∷ rest) v more (inr e) = last-cons st v more b rest e

-- On a valid state that wants more bytes, and on a chunk of bytes that in the debugging build has
-- fewer than 50 of them, lunix_protocol_received_buf does what a machine does that reads one byte
-- at a time: up to the end of the first packet, which goes to the sensors.
pub received_buf-run :
    (debug : Bool) (cnt now : ℕ) (st : ProtocolState) (sensors : List Sensor) (buf : List ℕ)
    → IsValid st
    → WantsMore st
    → All IsByte buf
    → IsQuiet debug buf
    → received_buf debug cnt now st sensors buf ≡ deliver cnt now sensors (run st buf).0
received_buf-run debug cnt now st sensors buf v more bs quiet =
    let q = read_fields debug st buf in
    let k = read_fields_keeps debug st buf v more bs in
    let w = read_fields-run debug st buf v more bs quiet in
    unfold received_buf in
    last_block-deliver debug cnt now sensors q.0 q.1 k.0 k.1 w.1
    ∙ ap (λ (p : ProtocolState × List ℕ). deliver cnt now sensors p.0) w.0
