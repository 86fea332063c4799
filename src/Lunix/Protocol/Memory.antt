-- ===== src/Lunix/Protocol/Memory.antt =====
-- The loop of lunix-protocol.c in a memory where other variables follow the array `packet`.
use operating_systems_lab_nt.Prelude.{
  ℕ, zero, suc, ◌+◌, ◌<◌, ◌≡◌, refl, ap, bit_xor, inl, inr, Bool, true, false, not, ◌&&◌, ◌||◌,
  List, [], ◌∷◌, ◌++◌, arith, ltb, ◌==◌, Bool-cases, length, length-set, set,
}
use operating_systems_lab_nt.Lunix.Protocol.{
  ProtocolState, Parsed, take_byte, unescape, parse_loop, max_packet_len,
}
use operating_systems_lab_nt.Lunix.Protocol.Total.{IsInside, take_byte-IsInside}

set-append : (xs ys : List ℕ) (i v : ℕ) → i < length xs → set (xs ++ ys) i v ≡ set xs i v ++ ys
set-append [] ys i v h = let never : ⊥ = omega arith in absurd never
set-append (x ∷ xs) ys zero v h = refl
set-append (x ∷ xs) ys (suc i) v h = ap (λ l. x ∷ l) (set-append xs ys i v (omega arith))

-- The machine whose array goes on with the bytes `behind`, on which a store behind it would fall.
abbrev pub with_behind : List ℕ → ProtocolState → ProtocolState
with_behind behind st = record st { packet = st.packet ++ behind }

module _ (behind : List ℕ) where
  unescape-behind :
      (b : ℕ) (st : ProtocolState)
      → st.pos < length st.packet
      → unescape b (with_behind behind st) ≡ unescape b st ++ behind
  unescape-behind b st h = elim (Bool-cases (0x7E == st.next_is_special)) [
    | inl raw ↦ elim (Bool-cases (0x7D == st.next_is_special)) [
      | inl bit ↦
          rw (raw, bit, set-append st.packet behind st.pos b h)
            (set-append (set st.packet st.pos b) behind st.pos (bit_xor b 0x20)
              (omega (arith, h, length-set st.packet st.pos b)))
      | inr same ↦ rw (raw, same) (set-append st.packet behind st.pos b h)
    ]
    | inr other ↦ elim (Bool-cases (0x7D == st.next_is_special)) [
      | inl bit ↦ rw (other, bit) (set-append st.packet behind st.pos (bit_xor b 0x20) h)
      | inr same ↦ rw (other, same) refl
    ]
  ]

  take_byte-behind :
      (use_specials : Bool) (b : ℕ) (st : ProtocolState)
      → st.pos < length st.packet
      → take_byte use_specials b (with_behind behind st)
        ≡ with_behind behind (take_byte use_specials b st)
  unfolding take_byte
  take_byte-behind false b st h = rw (set-append st.packet behind st.pos b h) refl
  take_byte-behind true b st h = elim (Bool-cases (not (st.next_is_special == 0))) [
    | inl escaped ↦ rw (escaped, unescape-behind b st h) refl
    | inr plain ↦ elim (Bool-cases (0x7E == b || 0x7D == b)) [
      | inl mark ↦ rw (plain, mark) refl
      | inr other ↦ rw (plain, other, set-append st.packet behind st.pos b h) refl
    ]
  ]

  abbrev pub parsed_behind : Parsed × ProtocolState × List ℕ → Parsed × ProtocolState × List ℕ
  parsed_behind (r, st, rest) = (r, with_behind behind st, rest)

  pub parse_loop-behind :
      (debug use_specials : Bool) (iter : ℕ) (st : ProtocolState) (buf : List ℕ)
      → IsInside st
      → parse_loop debug use_specials iter (with_behind behind st) buf
        ≡ parsed_behind (parse_loop debug use_specials iter st buf)
  unfolding parse_loop
  parse_loop-behind debug use_specials iter st [] h = refl
  parse_loop-behind debug use_specials iter st (b ∷ rest) h =
      elim (Bool-cases (ltb st.bytes_read st.bytes_to_read)) [
        | inr full ↦ rw full refl
        | inl more ↦ elim (Bool-cases (debug && iter + 1 == 50)) [
          | inl stopped ↦ rw (more, stopped) refl
          | inr on ↦ elim (Bool-cases (st.pos == max_packet_len)) [
            | inl end ↦ rw (more, on, end) refl
            | inr room ↦
                let below : st.pos < 300 = ground (arith, h.inside) in
                rw
                  (
                    more,
                    on,
                    room,
                    take_byte-behind use_specials b st (omega (arith, below, h.buffer)),
                  )
                  (parse_loop-behind debug use_specials (iter + 1) (take_byte use_specials b st)
                    rest (take_byte-IsInside use_specials b st h below))
          ]
        ]
      ]
