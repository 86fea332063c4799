-- ===== src/Lunix/Protocol/Stages.antt =====
-- What the loop of `lunix_protocol_parse_state` and each block of `lunix_protocol_received_buf` do
-- to a valid state (lunix-protocol.c).
use operating_systems_lab_nt.Prelude.{
  ℕ, ◌+◌, ◌≤◌, ◌<◌, bit_xor, ◌≡◌, refl, ◌∙◌, ◌≢◌, inl, inr, Bool, true, false, ◌&&◌, ◌||◌, List, [],
  ◌∷◌, arith, ltb, ◌==◌, if◌then◌else◌, Bool-cases, ltb→lt, lt→ltb, All, IsByte, length,
}
use operating_systems_lab_nt.Lunix.Protocol.{
  end_byte, ProtocolState, take_byte, Parsed, complete, incomplete, failed, parse_loop,
}
use operating_systems_lab_nt.Lunix.Protocol.Machine.{after, after_more, feed, whole-after, run}
use operating_systems_lab_nt.Lunix.Protocol.Valid.{
  specials, IsValid, pos-le, bit_xor-IsByte, stored, stored-IsValid,
}

-- The value that a byte stands for, and whether it is the first of an escape.
abbrev pub decoded : Bool → ℕ → ProtocolState → ℕ
decoded sp b st = if sp && st.next_is_special == 0x7D then bit_xor b 0x20 else b

abbrev pub is_mark : Bool → ℕ → ProtocolState → Bool
is_mark sp b st = sp && st.next_is_special == 0 && (b == 0x7E || b == 0x7D)

decoded-IsByte : (sp : Bool) (b : ℕ) (st : ProtocolState) → IsByte b → IsByte (decoded sp b st)
decoded-IsByte sp b st h = ground (arith, bit_xor-IsByte b h)

module _ {st : ProtocolState} (v : IsValid st) (b : ℕ) where
  pub take_byte-mark :
      is_mark (specials st.state) b st ≡ true
      → take_byte (specials st.state) b st ≡ record st { next_is_special = b }
  unfolding take_byte
  take_byte-mark h = ground arith

  pub take_byte-stored :
      is_mark (specials st.state) b st ≡ false
      → take_byte (specials st.state) b st ≡ stored (decoded (specials st.state) b st) st
  unfolding take_byte stored
  take_byte-stored h = ground (arith, v.escape)

-- A byte read keeps the invariant, and the field that is read.
pub take_byte-IsValid :
    {st : ProtocolState} (b : ℕ)
    → IsValid st
    → st.bytes_read < st.bytes_to_read
    → IsByte b
    → IsValid (take_byte (specials st.state) b st)
take_byte-IsValid {st} b v more h = elim (Bool-cases (is_mark (specials st.state) b st)) [
  | inl m ↦ rw (take_byte-mark v b m) (record {
    within = v.within;
    wanted = v.wanted;
    placed = v.placed;
    buffer = v.buffer;
    bytes = v.bytes;
    escape = inr (ground arith, ground arith, more);
  })
  | inr m ↦
      rw (take_byte-stored v b m)
        (stored-IsValid v more _ (decoded-IsByte (specials st.state) b st h))
]

pub state-take_byte :
    (sp : Bool) (b : ℕ) (st : ProtocolState) → (take_byte sp b st).state ≡ st.state
unfolding take_byte
state-take_byte sp b st = ground arith

-- The four ways the loop goes on.
module _ (debug sp : Bool) (iter : ℕ) (st : ProtocolState) where
  pub loop_complete :
      (buf : List ℕ)
      → st.bytes_read ≡ st.bytes_to_read
      → parse_loop debug sp iter st buf ≡ (complete, st, buf)
  unfolding parse_loop
  loop_complete [] h = ground arith
  loop_complete (b ∷ rest) h = ground arith

  pub loop_incomplete :
      st.bytes_read < st.bytes_to_read → parse_loop debug sp iter st [] ≡ (incomplete, st, [])
  unfolding parse_loop
  loop_incomplete h = ground arith

  module _ (b : ℕ) (rest : List ℕ) (more : st.bytes_read < st.bytes_to_read) where
    loop_failed :
        (debug && iter + 1 == 50) ≡ true
        → parse_loop debug sp iter st (b ∷ rest) ≡ (failed, st, b ∷ rest)
    unfolding parse_loop
    loop_failed h = rw (lt→ltb _ _ more, h)

    pub loop_step :
        (debug && iter + 1 == 50) ≡ false
        → st.pos < 300
        → parse_loop debug sp iter st (b ∷ rest)
          ≡ parse_loop debug sp (iter + 1) (take_byte sp b st) rest
    unfolding parse_loop
    loop_step h p = let low : (st.pos == 300) ≡ false = ground arith in rw (lt→ltb _ _ more, h, low)

-- How the loop ends.
abbrev pub Ended : Bool → ℕ → List ℕ → Parsed × ProtocolState × List ℕ → Type 0
Ended debug iter buf (complete, st, rest) =
    (st.bytes_read ≡ st.bytes_to_read) × (length rest ≤ length buf)
Ended debug iter buf (incomplete, st, rest) = (st.bytes_read < st.bytes_to_read) × (rest ≡ [])
Ended debug iter buf (failed, st, rest) =
    (st.bytes_read < st.bytes_to_read) × (debug ≡ true) × (50 ≤ iter + length buf)

Ended-later :
    (debug : Bool) (iter : ℕ) (b : ℕ) (rest : List ℕ) (out : Parsed × ProtocolState × List ℕ)
    → Ended debug (iter + 1) rest out
    → Ended debug iter (b ∷ rest) out
Ended-later debug iter b rest (complete, st, left) h = (h.0, omega arith)
Ended-later debug iter b rest (incomplete, st, left) h = h
Ended-later debug iter b rest (failed, st, left) h = (h.0, h.1, omega arith)

-- `runs` says that the byte machine goes the same way, from the state that the loop leaves.
pub record Parses (debug : Bool) (iter : ℕ) (st : ProtocolState) (buf : List ℕ)
    (out : Parsed × ProtocolState × List ℕ) : Type 0 where
  pub valid : IsValid out.1
  pub same : out.1.state ≡ st.state
  pub ended : Ended debug iter buf out
  pub input : All IsByte out.2
  pub runs : st.state ≢ end_byte → run (after st) buf ≡ run (after out.1) out.2

pub run_more :
    (st : ProtocolState) (b : ℕ) (rest : List ℕ)
    → st.bytes_read < st.bytes_to_read
    → st.state ≢ end_byte
    → run (after st) (b ∷ rest) ≡ run (after (take_byte (specials st.state) b st)) rest
unfolding run feed
run_more st b rest more ne =
    rw
      (after_more st more, whole-after (take_byte (specials st.state) b st) (rw state-take_byte ne))

module _ (debug : Bool) (iter : ℕ) (st : ProtocolState) (v : IsValid st) where
  loop_complete-Parses :
      (sp : Bool) (buf : List ℕ)
      → All IsByte buf
      → ltb st.bytes_read st.bytes_to_read ≡ false
      → Parses debug iter st buf (parse_loop debug sp iter st buf)
  loop_complete-Parses sp buf bs stop =
      let full : st.bytes_read ≡ st.bytes_to_read = ground (arith, v.within) in
      rw (loop_complete debug sp iter st buf full) (record {
        valid = v;
        same = refl;
        ended = (full, omega arith);
        input = bs;
        runs = λ _. refl;
      })

  module _ (b : ℕ) (rest : List ℕ) (more : st.bytes_read < st.bytes_to_read) where
    loop_failed-Parses :
        (sp : Bool)
        → All IsByte (b ∷ rest)
        → (debug && iter + 1 == 50) ≡ true
        → Parses debug iter st (b ∷ rest) (parse_loop debug sp iter st (b ∷ rest))
    loop_failed-Parses sp bs h = rw (loop_failed debug sp iter st b rest more h) (record {
      valid = v;
      same = refl;
      ended = (more, ground arith, ground arith);
      input = bs;
      runs = λ _. refl;
    })

    loop_step-Parses :
        (out : Parsed × ProtocolState × List ℕ)
        → Parses debug (iter + 1) (take_byte (specials st.state) b st) rest out
        → Parses debug iter st (b ∷ rest) out
    loop_step-Parses out p = record {
      valid = p.valid;
      same = p.same ∙ state-take_byte (specials st.state) b st;
      ended = Ended-later debug iter b rest out p.ended;
      input = p.input;
      runs = λ ne. run_more st b rest more ne ∙ p.runs (rw state-take_byte ne);
    }

pub parse_loop-Parses :
    (debug : Bool) (iter : ℕ) (sp : Bool) (st : ProtocolState) (buf : List ℕ)
    → specials st.state ≡ sp
    → IsValid st
    → All IsByte buf
    → Parses debug iter st buf (parse_loop debug sp iter st buf)
parse_loop-Parses debug iter sp st [] e v bs =
    elim (Bool-cases (ltb st.bytes_read st.bytes_to_read)) [
      | inr stop ↦ loop_complete-Parses debug iter st v sp [] bs stop
      | inl h ↦
          let more = ltb→lt _ _ h in
          rw (loop_incomplete debug sp iter st more)
            (record { valid = v; same = refl; ended = (more, refl); input = bs; runs = λ _. refl })
    ]
parse_loop-Parses debug iter sp st (b ∷ rest) e v bs =
    elim (Bool-cases (ltb st.bytes_read st.bytes_to_read)) [
      | inr stop ↦ loop_complete-Parses debug iter st v sp (b ∷ rest) bs stop
      | inl h ↦
          let more = ltb→lt _ _ h in
          let ih =
            parse_loop-Parses debug (iter + 1) sp (take_byte sp b st) rest (rw state-take_byte e)
              (rw (← e) (take_byte-IsValid b v more bs.0)) bs.1 in
          elim (Bool-cases (debug && iter + 1 == 50)) [
            | inl f ↦ loop_failed-Parses debug iter st v b rest more sp bs f
            | inr f ↦
                rw (loop_step debug sp iter st b rest more f (omega (arith, pos-le v)))
                  (loop_step-Parses debug iter st v b rest more _ (rw e ih))
          ]
    ]
