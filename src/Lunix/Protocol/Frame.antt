-- ===== src/Lunix/Protocol/Frame.antt =====
-- The packets that the network sends, as the table in lunix-protocol.c lays them out, and what the
-- byte machine makes of one.
use operating_systems_lab_nt.Prelude.{
  ℕ, suc, ◌+◌, ◌≤◌, ◌<◌, ◌≡◌, refl, sym, ap, ◌∙◌, ◌≢◌, inl, inr, Bool, true, false, ◌&&◌, ◌||◌,
  List, [], ◌∷◌, ◌++◌, arith, ◌==◌, if◌then◌else◌, Bool-cases, All, IsByte, length, set, take,
  bit_xor, append_assoc, append-nil, take-set, ==_iff,
}
use operating_systems_lab_nt.Lunix.Protocol.{end_byte, ProtocolState, take_byte}
use operating_systems_lab_nt.Lunix.Protocol.Machine.{after, run}
use operating_systems_lab_nt.Lunix.Protocol.Stages.{
  run_more, take_byte-stored, take_byte-mark, take_byte-IsValid, decoded,
}
use operating_systems_lab_nt.Lunix.Protocol.Valid.{
  bit_xor-IsByte, IsValid, pos-le, specials, stored, stored-IsValid,
}

-- 0x7E and 0x7D are sent as 0x7D and the byte with a bit changed.
abbrev pub escape : List ℕ → List ℕ
escape [] = []
escape (b ∷ bs) =
    if b == 0x7E || b == 0x7D then 0x7D ∷ bit_xor b 0x20 ∷ escape bs else b ∷ escape bs

abbrev pub encode : Bool → List ℕ → List ℕ
encode true bs = escape bs
encode false bs = bs

unfoldable pub fill : List ℕ → ProtocolState → ProtocolState
fill [] t = t
fill (b ∷ bs) t = fill bs (stored b t)

-- What storing bytes does, while there is room for them in the field.
pub record Fills (bs : List ℕ) (t t' : ProtocolState) : Type 0 where
  pub valid : IsValid t'
  pub same : t'.state ≡ t.state
  pub read : t'.bytes_read ≡ t.bytes_read + length bs
  pub wanted : t'.bytes_to_read ≡ t.bytes_to_read
  pub at : t'.pos ≡ t.pos + length bs
  pub plain : t'.next_is_special ≡ 0
  pub holds : take t'.pos t'.packet ≡ take t.pos t.packet ++ bs

pub take-stored :
    (t : ProtocolState) (b : ℕ)
    → IsValid t
    → take (t.pos + 1) (set t.packet t.pos b) ≡ take t.pos t.packet ++ (b ∷ [])
take-stored t b v =
    ap (λ n. take n (set t.packet t.pos b)) one_more
    ∙ take-set t.packet t.pos b (omega (arith, v.buffer, pos-le v))
  where
    one_more : t.pos + 1 ≡ suc t.pos
    one_more = omega arith

Fills-cons :
    (b : ℕ) (bs : List ℕ) (t t' : ProtocolState)
    → IsValid t
    → Fills bs (stored b t) t'
    → Fills (b ∷ bs) t t'
unfolding stored
Fills-cons b bs t t' v f = record {
  valid = f.valid;
  same = f.same;
  read = omega (arith, f.read);
  wanted = f.wanted;
  at = omega (arith, f.at);
  plain = f.plain;
  holds = f.holds ∙ rw (take-stored t b v) (append_assoc (take t.pos t.packet) (b ∷ []) bs);
}

pub fill-Fills :
    (bs : List ℕ) (t : ProtocolState)
    → IsValid t
    → t.next_is_special ≡ 0
    → All IsByte bs
    → t.bytes_read + length bs ≤ t.bytes_to_read
    → Fills bs t (fill bs t)
unfolding fill stored
fill-Fills [] t v n h room = record {
  valid = v;
  same = refl;
  read = omega arith;
  wanted = refl;
  at = omega arith;
  plain = n;
  holds = sym (append-nil _);
}
fill-Fills (b ∷ bs) t v n h room =
    Fills-cons b bs t _ v
      (fill-Fills bs (stored b t) (stored-IsValid v (omega arith) b h.0) refl h.1 (omega arith))

abbrev is_escaped : ℕ → Bool
is_escaped b = b == 0x7E || b == 0x7D

encode-plain :
    (sp : Bool) (b : ℕ) (rest : List ℕ)
    → (sp && is_escaped b) ≡ false
    → encode sp (b ∷ []) ++ rest ≡ b ∷ rest
encode-plain true b rest h = rw h
encode-plain false b rest h = refl

encode-escaped :
    (sp : Bool) (b : ℕ) (rest : List ℕ)
    → (sp && is_escaped b) ≡ true
    → encode sp (b ∷ []) ++ rest ≡ 0x7D ∷ bit_xor b 0x20 ∷ rest
encode-escaped true b rest h = rw h
encode-escaped false b rest h = cc

encode-cons :
    (sp : Bool) (b : ℕ) (bs rest : List ℕ)
    → encode sp (b ∷ bs) ++ rest ≡ encode sp (b ∷ []) ++ (encode sp bs ++ rest)
encode-cons true b bs rest = ground arith
encode-cons false b bs rest = refl

xor_twice : (b : ℕ) → is_escaped b ≡ true → bit_xor (bit_xor b 0x20) 0x20 ≡ b
xor_twice b h = elim (Bool-cases (b == 0x7E)) [
  | inl e ↦ rw ((==_iff b 0x7E).0 e)
  | inr ne ↦ let e : b ≡ 0x7D = ground arith in rw e
]

xor-IsByte : (b : ℕ) → is_escaped b ≡ true → IsByte (bit_xor b 0x20)
xor-IsByte b h = bit_xor-IsByte b (ground arith)

-- An encoded byte is stored decoded.
module _ (t : ProtocolState) (b : ℕ) (rest : List ℕ) (v : IsValid t) (n : t.next_is_special ≡ 0)
    (more : t.bytes_read < t.bytes_to_read) (ne : t.state ≢ end_byte) where
  run_plain :
      (specials t.state && is_escaped b) ≡ false
      → run (after t) (b ∷ rest) ≡ run (after (stored b t)) rest
  run_plain h =
      run_more t b rest more ne
      ∙ rw (take_byte-stored v b (ground arith))
          (ap (λ (x : ℕ). run (after (stored x t)) rest) (ground arith))

  abbrev marked : ProtocolState
  marked = record t { next_is_special = 0x7D }

  stored-marked : stored b marked ≡ stored b t
  unfolding stored
  stored-marked = refl

  run_escaped :
      (specials t.state && is_escaped b) ≡ true
      → run (after t) (0x7D ∷ bit_xor b 0x20 ∷ rest) ≡ run (after (stored b t)) rest
  run_escaped h =
      let first = take_byte-mark v 0x7D (ground arith) in
      let v' = rw first at (take_byte-IsValid 0x7D v more (omega arith)) in
      let x = bit_xor b 0x20 in
      let both : decoded (specials t.state) x marked ≡ b =
        ground (arith, xor_twice b (ground arith)) in
      let second : take_byte (specials t.state) x marked ≡ stored b t =
        take_byte-stored v' x (ground arith)
        ∙ ap (λ (y : ℕ). stored y marked) both
        ∙ stored-marked in
      run_more t 0x7D (x ∷ rest) more ne
      ∙ ap (λ (y : ProtocolState). run (after y) (x ∷ rest)) first
      ∙ run_more marked x rest more ne
      ∙ ap (λ (y : ProtocolState). run (after y) rest) second

  run-stored :
      run (after t) (encode (specials t.state) (b ∷ []) ++ rest) ≡ run (after (stored b t)) rest
  run-stored = elim (Bool-cases (specials t.state && is_escaped b)) [
    | inl h ↦ rw (encode-escaped (specials t.state) b rest h) (run_escaped h)
    | inr h ↦ rw (encode-plain (specials t.state) b rest h) (run_plain h)
  ]

encode-nil : (sp : Bool) (rest : List ℕ) → encode sp [] ++ rest ≡ rest
encode-nil true rest = refl
encode-nil false rest = refl

pub run-fill :
    (bs : List ℕ) (t : ProtocolState) (rest : List ℕ)
    → IsValid t
    → t.next_is_special ≡ 0
    → All IsByte bs
    → t.bytes_read + length bs ≤ t.bytes_to_read
    → t.state ≢ end_byte
    → run (after t) (encode (specials t.state) bs ++ rest) ≡ run (after (fill bs t)) rest
unfolding fill stored
run-fill [] t rest v n h room ne = ap (run (after t)) (encode-nil (specials t.state) rest)
run-fill (b ∷ bs) t rest v n h room ne =
    ap (run (after t)) (encode-cons (specials t.state) b bs rest)
    ∙ run-stored t b _ v n (omega arith) ne
    ∙ run-fill bs (stored b t) rest (stored-IsValid v (omega arith) b h.0) refl h.1 (omega arith) ne
