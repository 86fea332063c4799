-- ===== src/Chat/Block/Copy.antt =====
-- What `decrypt` of Virtio_Crypto_Chat/encrypted_chat/client.c copies.
use operating_systems_lab_nt.Prelude.{
  ℕ, zero, suc, ◌-◌, ◌≤◌, ◌<◌, ◌≡◌, ◌≢◌, refl, ap, false, List, [], ◌∷◌, ◌++◌, Option-cases, none,
  some, inl, inr, arith, All, ◌==◌, length, take, replicate, length-append, length-replicate,
  take-all, get_or,
}
use operating_systems_lab_nt.Chat.Block.{data_size, copy_line}

-- A line of text, with no NUL.
abbrev pub IsText : List ℕ → Type 0
IsText line = All (λ c. c ≢ 0) line

-- A line in a block: what follows it is filled with one byte.
abbrev pub filled : ℕ → List ℕ → List ℕ
filled byte line = line ++ replicate (data_size - length line) byte

pub length-filled :
    (byte : ℕ) (line : List ℕ) → length line ≤ data_size → length (filled byte line) ≡ data_size
length-filled byte line h = omega (
  arith,
  length-append line (replicate (data_size - length line) byte),
  length-replicate {A = ℕ} (data_size - length line) byte,
)

copy_line-nul :
    (rest : List ℕ) (b : ℕ) (buf : List ℕ) → copy_line (0 ∷ rest) (b ∷ buf) ≡ some (b'\r' ∷ buf, 0)
unfolding copy_line
copy_line-nul rest b buf = elim (Option-cases (copy_line rest buf)) [
  | inl e ↦ rw e refl
  | inr (p, e) ↦ rw e refl
]

-- The copying ends at the first NUL.
pub copy_line-text :
    (line rest : List ℕ) (n byte : ℕ)
    → IsText line
    → length line < n
    → copy_line (line ++ (0 ∷ rest)) (replicate n byte)
      ≡ some (line ++ (b'\r' ∷ replicate (n - length line - 1) byte), length line)
unfolding copy_line
copy_line-text line rest zero byte h l = absurd (omega arith)
copy_line-text [] rest (suc n) byte h l =
    let e : suc n - 0 - 1 ≡ n = omega arith in
    rw (copy_line-nul rest byte (replicate n byte), e) refl
copy_line-text (c ∷ line) rest (suc n) byte h l =
    let e : suc n - suc (length line) ≡ n - length line = omega arith in
    let other : (c == 0) ≡ false = ground (arith, h.0) in
    rw (e, copy_line-text line rest n byte h.1 (omega arith), other) refl

-- A block with no NUL has no end for the copying.
pub copy_line-none : (block buf : List ℕ) → IsText block → copy_line block buf ≡ none
unfolding copy_line
copy_line-none [] buf h = refl
copy_line-none (c ∷ block) [] h = refl
copy_line-none (c ∷ block) (b ∷ buf) h =
    let other : (c == 0) ≡ false = ground (arith, h.0) in
    rw (copy_line-none block buf h.1, other) refl

filled_short :
    (byte : ℕ) (line : List ℕ)
    → length line < data_size
    → filled byte line ≡ line ++ (byte ∷ replicate (data_size - length line - 1) byte)
filled_short byte line h =
    let e : data_size - length line ≡ suc (data_size - length line - 1) = omega arith in
    ap (λ n. line ++ replicate n byte) e

-- A line that a block of NULs holds is copied to a block of carriage returns.
pub copy_line-filled :
    (line : List ℕ)
    → IsText line
    → length line < data_size
    → copy_line (take data_size (filled 0 line)) (replicate data_size b'\r')
      ≡ some (filled b'\r' line, length line)
copy_line-filled line h l =
    rw
      (
        take-all data_size (filled 0 line) (omega (arith, length-filled 0 line (omega arith))),
        filled_short 0 line l,
        filled_short b'\r' line l,
      )
      (copy_line-text line (replicate (data_size - length line - 1) 0) data_size b'\r' h l)

pub get_or-behind : (line rest : List ℕ) (b d : ℕ) → get_or (line ++ (b ∷ rest)) (length line) d ≡ b
get_or-behind [] rest b d = refl
get_or-behind (c ∷ line) rest b d = get_or-behind line rest b d

pub get_or-filled :
    (byte : ℕ) (line : List ℕ)
    → length line < data_size
    → get_or (filled byte line) (length line) 0 ≡ byte
get_or-filled byte line h =
    rw (filled_short byte line h)
      (get_or-behind line (replicate (data_size - length line - 1) byte) byte 0)
