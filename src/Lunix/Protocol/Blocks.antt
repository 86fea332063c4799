-- ===== src/Lunix/Protocol/Blocks.antt =====
-- The blocks of `lunix_protocol_received_buf` (lunix-protocol.c), one field of a packet each: they
-- keep the invariant, and go the way of the byte machine.
use operating_systems_lab_nt.Prelude.{
  ℕ, ◌≤◌, ◌<◌, ◌≡◌, refl, sym, ap, ◌∙◌, ◌≢◌, ◌⊎◌, inl, inr, Bool, true, false, List, [], arith,
  ◌==◌, Bool-cases, All, IsByte, length,
}
use operating_systems_lab_nt.Lunix.Protocol.{
  Seeking, number, start_byte, packet_type, destination_address, am_type, am_group, payload_length,
  payload, crc, end_byte, ProtocolState, Parsed, complete, incomplete, failed, in_state, finish,
  stage, parse_state,
}
use operating_systems_lab_nt.Lunix.Protocol.Machine.{after, run, next_field}
use operating_systems_lab_nt.Lunix.Protocol.Stages.{Ended, Parses, parse_loop-Parses}
use operating_systems_lab_nt.Lunix.Protocol.Valid.{IsValid, specials}

pub in_state→eq : (from s : Seeking) → (number s == number from) ≡ true → s ≡ from
in_state→eq from s h = ground arith

pub next_field-IsValid :
    {st : ProtocolState} (from : Seeking)
    → st.state ≡ from
    → from ≢ end_byte
    → IsValid st
    → st.bytes_read ≡ st.bytes_to_read
    → IsValid (next_field from st)
next_field-IsValid {st} start_byte e ne v full = ground (arith, v.escape)
next_field-IsValid {st} _ e ne v full = ground (arith, v.escape)

-- Between blocks: every field but an empty payload wants more bytes.
abbrev pub IsOpen : ProtocolState → Type 0
IsOpen st = (st.bytes_read < st.bytes_to_read) ⊎ (st.state ≡ payload)

pub record Ready (p : ProtocolState × List ℕ) : Type 0 where
  pub valid : IsValid p.0
  pub input : All IsByte p.1
  pub is_open : IsOpen p.0

next_field-IsOpen :
    (st : ProtocolState) (from : Seeking) → from ≢ end_byte → IsOpen (next_field from st)
next_field-IsOpen st start_byte ne = inl (omega arith)
next_field-IsOpen st packet_type ne = inl (omega arith)
next_field-IsOpen st destination_address ne = inl (omega arith)
next_field-IsOpen st am_type ne = inl (omega arith)
next_field-IsOpen st am_group ne = inl (omega arith)
next_field-IsOpen st payload_length ne = inr refl
next_field-IsOpen st payload ne = inl (omega arith)
next_field-IsOpen st crc ne = inl (omega arith)
next_field-IsOpen st end_byte ne = absurd (ne refl)

-- The debugging build gives up after 49 rounds; a chunk below 50 bytes never meets that.
abbrev pub IsQuiet : Bool → List ℕ → Type 0
IsQuiet debug buf = (debug ≡ false) ⊎ (length buf < 50)

-- Where a block leaves the machine, started at `p`: the byte machine agrees, and the field `from`
-- is behind unless the bytes have run out.
pub record Passes (debug : Bool) (from : Seeking) (p q : ProtocolState × List ℕ) : Type 0 where
  pub runs : run (after q.0) q.1 ≡ run (after p.0) p.1
  pub quiet : IsQuiet debug q.1
  pub past : (q.1 ≡ []) ⊎ (number from < number q.0.state)

pub after-next_field :
    (from : Seeking) (st : ProtocolState)
    → st.state ≡ from
    → st.bytes_read ≡ st.bytes_to_read
    → from ≢ end_byte
    → after (next_field from st) ≡ after st
unfolding after
after-next_field from st here full ne = ground arith

number-next_field :
    (from : Seeking) (st : ProtocolState)
    → from ≢ end_byte
    → number from < number (next_field from st).state
number-next_field from st ne = ground arith

module _ (debug : Bool) (from : Seeking) (ne : from ≢ end_byte) (st : ProtocolState) (buf : List ℕ)
    (here : st.state ≡ from) where
  finish-Ready :
      (out : Parsed × ProtocolState × List ℕ)
      → Parses debug 0 st buf out
      → Ready (finish (next_field from) out)
  finish-Ready (complete, st', rest) p = record {
    valid = next_field-IsValid from (p.same ∙ here) ne p.valid p.ended.0;
    input = p.input;
    is_open = next_field-IsOpen st' from ne;
  }
  finish-Ready (incomplete, st', rest) p = record {
    valid = p.valid;
    input = p.input;
    is_open = inl p.ended.0;
  }
  finish-Ready (failed, st', rest) p = record {
    valid = p.valid;
    input = p.input;
    is_open = inl p.ended.0;
  }

  finish-Passes :
      (out : Parsed × ProtocolState × List ℕ)
      → Parses debug 0 st buf out
      → IsQuiet debug buf
      → Passes debug from (st, buf) (finish (next_field from) out)
  finish-Passes (complete, st', rest) p quiet = record {
    runs =
        ap (λ (t : ProtocolState). run t rest)
          (after-next_field from st' (p.same ∙ here) p.ended.0 ne)
        ∙ sym (p.runs (rw here ne));
    quiet = ground (arith, p.ended);
    past = inr (number-next_field from st' ne);
  }
  finish-Passes (incomplete, st', rest) p quiet = record {
    runs = sym (p.runs (rw here ne));
    quiet = ground (arith, p.ended);
    past = inl p.ended.1;
  }
  finish-Passes (failed, st', rest) p quiet = absurd (ground (arith, p.ended))

abbrev pub block : Bool → Seeking → ProtocolState × List ℕ → ProtocolState × List ℕ
block debug from p = stage debug from (specials from) (next_field from) p

module _ (debug : Bool) (from : Seeking) (ne : from ≢ end_byte) (p : ProtocolState × List ℕ)
    (r : Ready p) where
  parses : p.0.state ≡ from → Parses debug 0 p.0 p.1 (parse_state debug p.0 p.1 (specials from))
  unfolding parse_state
  parses e = parse_loop-Parses debug 0 (specials from) p.0 p.1 (ap specials e) r.valid r.input

  pub stage-Ready : Ready (block debug from p)
  unfolding stage
  stage-Ready = elim (Bool-cases (in_state from p.0)) [
    | inl h ↦
        let e = in_state→eq from p.0.state h in
        rw h (finish-Ready debug from ne p.0 p.1 e _ (parses e))
    | inr h ↦ rw h r
  ]

  later :
      (st : ProtocolState)
      → (p.1 ≡ []) ⊎ (number from ≤ number st.state)
      → in_state from st ≡ false
      → (p.1 ≡ []) ⊎ (number from < number st.state)
  later st (inl e) h = inl e
  later st (inr l) h = inr (ground arith)

  pub stage-Passes :
      IsQuiet debug p.1
      → (p.1 ≡ []) ⊎ (number from ≤ number p.0.state)
      → Passes debug from p (block debug from p)
  unfolding stage
  stage-Passes quiet prior = elim (Bool-cases (in_state from p.0)) [
    | inl h ↦
        let e = in_state→eq from p.0.state h in
        rw h (finish-Passes debug from ne p.0 p.1 e _ (parses e) quiet)
    | inr h ↦ rw h (record { runs = refl; quiet = quiet; past = later p.0 prior h })
  ]

abbrev pub WantsMore : ProtocolState → Type 0
WantsMore st = st.bytes_read < st.bytes_to_read

finish-WantsMore :
    (debug : Bool) (from : Seeking) (buf : List ℕ) (out : Parsed × ProtocolState × List ℕ)
    → ((st : ProtocolState) → WantsMore (next_field from st))
    → Ended debug 0 buf out
    → WantsMore (finish (next_field from) out).0
finish-WantsMore debug from buf (complete, st, rest) opens h = opens st
finish-WantsMore debug from buf (incomplete, st, rest) opens h = h.0
finish-WantsMore debug from buf (failed, st, rest) opens h = h.0

-- A block whose next field is not empty leaves a state that wants more bytes.
pub stage-WantsMore :
    (debug : Bool) (from : Seeking) (ne : from ≢ end_byte) (p : ProtocolState × List ℕ)
    → Ready p
    → ((st : ProtocolState) → WantsMore (next_field from st))
    → (in_state from p.0 ≡ false → WantsMore p.0)
    → WantsMore (block debug from p).0
unfolding stage
stage-WantsMore debug from ne p r opens skip = elim (Bool-cases (in_state from p.0)) [
  | inl h ↦
      let e = in_state→eq from p.0.state h in
      rw h (finish-WantsMore debug from p.1 _ opens (parses debug from ne p r e).ended)
  | inr h ↦ rw h (skip h)
]
