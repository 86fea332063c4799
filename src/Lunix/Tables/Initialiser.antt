-- ===== src/Lunix/Tables/Initialiser.antt =====
-- The tables that mk_lookup_tables.c writes, as the compiler reads them back: the numbers between
-- the braces of an initialiser.
use operating_systems_lab_nt.Prelude.{
  ℕ, zero, suc, ◌+◌, ◌-◌, ◌*◌, ◌/◌, ◌%◌, ◌^◌, ◌≤◌, ◌<◌, ◌≡◌, refl, sym, ap, ◌∙◌, Bool, true, false,
  ◌&&◌, List, [], ◌∷◌, ◌++◌, arith, if◌then◌else◌, ltb, leb, ◌==◌, All, All-append, append_assoc,
  Bool-cases, inl, inr,
}
use operating_systems_lab_nt.Lunix.Chrdev.Format.{ℤ, pos, negsuc, minus, digits, decimal, show}
use operating_systems_lab_nt.Lunix.Chrdev.Text.{value, value-decimal, digits_step, digits_last}
use operating_systems_lab_nt.Lunix.Tables.{print_row}

-- Between numbers, or in one: with a sign or not, and what its digits have made so far.
pub data Scan : Type 0 where
  outside : Scan
  inside : Bool → ℕ → Scan

abbrev pub is_digit : ℕ → Bool
is_digit c = leb b'0' c && leb c b'9'

abbrev pub signed : Bool → ℕ → ℤ
signed true n = minus n
signed false n = pos n

-- The numbers of an initialiser.
unfoldable pub numbers : Scan → List ℕ → List ℤ
numbers outside [] = []
numbers (inside s n) [] = signed s n ∷ []
numbers outside (c ∷ rest) =
    let unsigned = numbers (inside false (c - b'0')) rest in
    let negative = numbers (inside true 0) rest in
    let later = numbers outside rest in
    if is_digit c then unsigned else if c == b'-' then negative else later
numbers (inside s n) (c ∷ rest) =
    let more = numbers (inside s (10 * n + (c - b'0'))) rest in
    let later = numbers outside rest in if is_digit c then more else signed s n ∷ later

abbrev IsDigit : ℕ → Type 0
IsDigit c = (48 ≤ c) × (c ≤ 57)

numbers-digits :
    (s : Bool) (n c : ℕ) (l rest : List ℕ)
    → All IsDigit l
    → is_digit c ≡ false
    → numbers (inside s n) (l ++ (c ∷ rest)) ≡ signed s (value n l) ∷ numbers outside rest
unfolding numbers
numbers-digits s n c [] rest h e = rw e refl
numbers-digits s n c (d ∷ l) rest h e =
    let digit : is_digit d ≡ true = ground (arith, h.0) in
    rw digit (numbers-digits s (10 * n + (d - 48)) c l rest h.1 e)

digits-IsDigit : (fuel n : ℕ) → All IsDigit (digits fuel n)
unfolding digits
digits-IsDigit zero n = tt
digits-IsDigit (suc fuel) n = elim (Bool-cases (ltb n 10)) [
  | inl y ↦
      let small : n < 10 = ground arith in
      rw (digits_last fuel n y) ((omega arith, omega arith), tt)
  | inr y ↦ rw (digits_step fuel n y) (
      All-append IsDigit (digits fuel (n / 10)) _ (digits-IsDigit fuel (n / 10))
        ((omega arith, omega arith), tt))
]

starts : (l : List ℕ) (c : ℕ) → (d : ℕ) × (rest : List ℕ) × (l ++ (c ∷ []) ≡ d ∷ rest)
starts [] c = (c, [], refl)
starts (d ∷ l) c = (d, l ++ (c ∷ []), refl)

decimal-starts : (n : ℕ) → (d : ℕ) × (rest : List ℕ) × (decimal n ≡ d ∷ rest)
decimal-starts n = elim (Bool-cases (ltb n 10)) [
  | inl y ↦ (b'0' + n, [], digits_last n n y)
  | inr y ↦
      let (d, rest, e) = starts (digits n (n / 10)) (b'0' + n % 10) in
      (d, rest, digits_step n n y ∙ e)
]

-- The digits of a number, from the first.
module _ (c : ℕ) (rest : List ℕ) (ends : is_digit c ≡ false) where
  numbers-unsigned :
      (l : List ℕ) (d : ℕ) (front : List ℕ)
      → l ≡ d ∷ front
      → All IsDigit l
      → numbers outside (l ++ (c ∷ rest)) ≡ pos (value 0 l) ∷ numbers outside rest
  unfolding numbers
  numbers-unsigned l d front e h =
      let digits_of : All IsDigit (d ∷ front) = rw e at h in
      let digit : is_digit d ≡ true = ground (arith, digits_of.0) in
      let from_zero : d - 48 ≡ 10 * 0 + (d - 48) = omega arith in
      rw (e, digit)
        (numbers-digits false (d - 48) c front rest digits_of.1 ends
          ∙ ap (λ v. pos (value v front) ∷ numbers outside rest) from_zero)

  numbers-decimal :
      (n : ℕ) → numbers outside (decimal n ++ (c ∷ rest)) ≡ pos n ∷ numbers outside rest
  numbers-decimal n =
      let (d, front, e) = decimal-starts n in
      numbers-unsigned (decimal n) d front e (digits-IsDigit (suc n) n)
      ∙ ap (λ v. pos v ∷ numbers outside rest) (value-decimal n)

  numbers-show : (z : ℤ) → numbers outside (show z ++ (c ∷ rest)) ≡ z ∷ numbers outside rest
  unfolding numbers
  numbers-show (pos n) = numbers-decimal n
  numbers-show (negsuc n) =
      numbers-digits true 0 c (decimal (n + 1)) rest (digits-IsDigit (suc (n + 1)) (n + 1)) ends
      ∙ ap (λ v. signed true v ∷ numbers outside rest) (value-decimal (n + 1))
      ∙ rw (sym (suc-plus n)) refl
    where
      suc-plus : (k : ℕ) → suc k ≡ k + 1
      suc-plus k = omega arith

-- The values of a conversion for the `k` indices from `i`.
unfoldable pub entries : (ℕ → ℤ) → ℕ → ℕ → List ℤ
entries convert i zero = []
entries convert i (suc k) = convert i ∷ entries convert (i + 1) k

number_then :
    (z : ℤ) (c : ℕ) (more rest : List ℕ)
    → is_digit c ≡ false
    → numbers outside ((show z ++ (c ∷ more)) ++ rest) ≡ z ∷ numbers outside (more ++ rest)
number_then z c more rest e =
    ap (numbers outside) (append_assoc (show z) (c ∷ more) rest) ∙ numbers-show c (more ++ rest) e z

separator :
    (b : Bool) (z : ℤ) (rest : List ℕ)
    → numbers outside ((show z ++ (if b then b'\n' ∷ [] else b',' ∷ b'\n' ∷ [])) ++ rest)
      ≡ z ∷ numbers outside rest
unfolding numbers
separator true z rest = number_then z b'\n' [] rest refl
separator false z rest = number_then z b',' (b'\n' ∷ []) rest refl

module _ (convert : ℕ → ℤ) where
  -- One row.
  pub numbers-print_row :
      (i : ℕ) (rest : List ℕ)
      → i + 3 < 65536
      → numbers outside (print_row convert i ++ rest)
        ≡ convert i ∷ convert (i + 1) ∷ convert (i + 2) ∷ convert (i + 3) ∷ numbers outside rest
  unfolding numbers
  numbers-print_row i rest h =
      let i0 : i % 2 ^ 16 ≡ i = omega arith in
      let i1 : (i + 1) % 2 ^ 16 ≡ i + 1 = omega arith in
      let i2 : (i + 2) % 2 ^ 16 ≡ i + 2 = omega arith in
      let i3 : (i + 3) % 2 ^ 16 ≡ i + 3 = omega arith in
      rw (i0, i1, i2, i3)
        (number_then (convert i) b',' _ rest refl
          ∙ ap (λ l. convert i ∷ l)
              (number_then (convert (i + 1)) b',' _ rest refl
                ∙ ap (λ l. convert (i + 1) ∷ l)
                    (number_then (convert (i + 2)) b',' _ rest refl
                      ∙ ap (λ l. convert (i + 2) ∷ l)
                          (separator (i == 0xFFFC) (convert (i + 3)) rest))))
