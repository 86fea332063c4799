-- ===== src/Lunix/Chrdev/Text.antt =====
-- The text of a measurement, as `lunix_chrdev_state_update` (Lunix_Device_Driver/lunix-chrdev.c)
-- prints it: its length, the meaning of its digits, and its sign.
use operating_systems_lab_nt.Prelude.{
  ℕ, zero, suc, ◌+◌, ◌-◌, ◌*◌, ◌/◌, ◌%◌, ◌^◌, ◌≤◌, ◌<◌, ◌≡◌, refl, true, false, List, [], ◌∷◌, ◌++◌,
  arith, ltb, length, length-append, Bool-cases, inl, inr, All, All-append,
}
use operating_systems_lab_nt.Lunix.Chrdev.Format.{
  ℤ, pos, negsuc, magnitude, whole, thousandths, signed32, as_int, digits, decimal, show, text,
}

pub digits_step :
    (fuel n : ℕ)
    → ltb n 10 ≡ false
    → digits (suc fuel) n ≡ digits fuel (n / 10) ++ ((b'0' + n % 10) ∷ [])
unfolding digits
digits_step fuel n h = rw h refl

pub digits_last : (fuel n : ℕ) → ltb n 10 ≡ true → digits (suc fuel) n ≡ (b'0' + n) ∷ []
unfolding digits
digits_last fuel n h = rw h refl

-- The bound by powers of ten, written out.
abbrev pub power10 : ℕ → ℕ
power10 zero = 1
power10 (suc k) = 10 * power10 k

length-digits : (k fuel n : ℕ) → n < power10 (suc k) → length (digits fuel n) ≤ suc k
unfolding digits
length-digits k zero n h = omega arith
length-digits zero (suc fuel) n h = rw (digits_last fuel n (ground arith)) (omega arith)
length-digits (suc k) (suc fuel) n h = elim (Bool-cases (ltb n 10)) [
  | inl y ↦ rw (digits_last fuel n y) (omega arith)
  | inr y ↦ rw (digits_step fuel n y) (
      omega (
        arith,
        length-append (digits fuel (n / 10)) ((b'0' + n % 10) ∷ []),
        length-digits k fuel (n / 10) (omega arith),
      ))
]

-- No digit is the NUL byte.
abbrev pub IsVisible : ℕ → Type 0
IsVisible c = 0 < c

digits-IsVisible : (fuel n : ℕ) → All IsVisible (digits fuel n)
unfolding digits
digits-IsVisible zero n = tt
digits-IsVisible (suc fuel) n = elim (Bool-cases (ltb n 10)) [
  | inl y ↦ rw (digits_last fuel n y) (omega arith, tt)
  | inr y ↦ rw (digits_step fuel n y) (
      All-append IsVisible (digits fuel (n / 10)) _ (digits-IsVisible fuel (n / 10))
        (omega arith, tt))
]

show-IsVisible : (z : ℤ) → All IsVisible (show z)
show-IsVisible (pos n) = digits-IsVisible (suc n) n
show-IsVisible (negsuc n) = (omega arith, digits-IsVisible (suc (n + 1)) (n + 1))

pub text-IsVisible : (z : ℤ) → All IsVisible (text z)
unfolding text
text-IsVisible z =
    All-append IsVisible (show (as_int (whole z))) _ (show-IsVisible (as_int (whole z))) (
      omega arith,
      All-append IsVisible (decimal (thousandths z)) _
          (digits-IsVisible (suc (thousandths z)) (thousandths z)) (omega arith, tt),
    )

magnitude-signed32 : (w : ℕ) → w < 4294967296 → magnitude (signed32 w) ≤ 2147483648
magnitude-signed32 w h = ground arith

magnitude-as_int : (z : ℤ) → magnitude (as_int z) ≤ 2147483648
magnitude-as_int (pos n) = magnitude-signed32 (n % 2 ^ 32) (omega arith)
magnitude-as_int (negsuc n) = magnitude-signed32 (2 ^ 32 - 1 - n % 2 ^ 32) (omega arith)

-- A number that fits an `int` has ten digits at most.
pub length-decimal : (n : ℕ) → n ≤ 2147483648 → length (decimal n) ≤ 10
length-decimal n h = length-digits 9 (suc n) n (omega arith)

length-show : (z : ℤ) → magnitude z ≤ 2147483648 → length (show z) ≤ 11
length-show (pos n) h = omega (arith, length-digits 9 (suc n) n (omega arith))
length-show (negsuc n) h = omega (arith, length-digits 9 (suc (n + 1)) (n + 1) (omega arith))

-- The text of any value of any table, with its NUL, takes at most 17 of the 20 bytes of the buffer.
pub length-text : (z : ℤ) → length (text z) + 1 ≤ 17
unfolding text
length-text z =
    let front = length-show (as_int (whole z)) (magnitude-as_int (whole z)) in
    let back = length-digits 2 (suc (thousandths z)) (thousandths z) (omega arith) in
    omega (
      arith,
      front,
      back,
      length-append (show (as_int (whole z))) (b'.' ∷ (decimal (thousandths z) ++ (b'\n' ∷ []))),
      length-append (decimal (thousandths z)) (b'\n' ∷ []),
    )

-- What digits mean.
abbrev pub value : ℕ → List ℕ → ℕ
value acc [] = acc
value acc (c ∷ rest) = value (10 * acc + (c - b'0')) rest

value-append : (acc c : ℕ) (l : List ℕ) → value acc (l ++ (c ∷ [])) ≡ 10 * value acc l + (c - b'0')
value-append acc c [] = refl
value-append acc c (d ∷ l) = value-append (10 * acc + (d - b'0')) c l

value-digits : (fuel n : ℕ) → n < fuel → value 0 (digits fuel n) ≡ n
unfolding digits
value-digits zero n h = absurd (omega arith)
value-digits (suc fuel) n h = elim (Bool-cases (ltb n 10)) [
  | inl y ↦ rw (digits_last fuel n y) (omega arith)
  | inr y ↦
      let big : 10 ≤ n = ground arith in
      rw
        (
          digits_step fuel n y,
          value-append 0 (b'0' + n % 10) (digits fuel (n / 10)),
          value-digits fuel (n / 10) (omega arith),
        )
        (omega arith)
]

-- The digits printed for a number that is not negative read back as the number.
pub value-decimal : (n : ℕ) → value 0 (decimal n) ≡ n
value-decimal n = value-digits (suc n) n (omega arith)

-- Between -1 and 0 the sign is lost: the text of -n thousandths is that of n thousandths, for n
-- below 1000.
pub text-negsuc : (n : ℕ) → n + 1 < 1000 → text (negsuc n) ≡ text (pos (n + 1))
unfolding text
text-negsuc n h = let none_whole : (n + 1) / 1000 ≡ 0 = omega arith in rw none_whole refl
