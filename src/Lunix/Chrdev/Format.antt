-- ===== src/Lunix/Chrdev/Format.antt =====
-- The text that `lunix_chrdev_state_update` (Lunix_Device_Driver/lunix-chrdev.c) makes of a value
-- of a lookup table: `sprintf("%d.%d\n", looked / 1000, abs(looked % 1000))`.
use operating_systems_lab_nt.Prelude.{
  ℕ, zero, suc, ◌+◌, ◌-◌, ◌/◌, ◌%◌, ◌^◌, List, [], ◌∷◌, ◌++◌, if◌then◌else◌, ltb,
}

-- A C `long`: `negsuc n` is -(n + 1).
pub data ℤ : Type 0 where
  pos : ℕ → ℤ
  negsuc : ℕ → ℤ

abbrev pub magnitude : ℤ → ℕ
magnitude (pos n) = n
magnitude (negsuc n) = n + 1

abbrev pub minus : ℕ → ℤ
minus zero = pos 0
minus (suc n) = negsuc n

-- `looked / 1000`, which is rounded towards zero.
abbrev pub whole : ℤ → ℤ
whole (pos n) = pos (n / 1000)
whole (negsuc n) = minus ((n + 1) / 1000)

-- `abs(looked % 1000)`
abbrev pub thousandths : ℤ → ℕ
thousandths z = magnitude z % 1000

abbrev pub signed32 : ℕ → ℤ
signed32 w = if ltb w (2 ^ 31) then pos w else negsuc (2 ^ 32 - 1 - w)

-- The conversion from `long` to `int`.
abbrev pub as_int : ℤ → ℤ
as_int (pos n) = signed32 (n % 2 ^ 32)
as_int (negsuc n) = signed32 (2 ^ 32 - 1 - n % 2 ^ 32)

-- The digits of a number; `fuel` above the number is enough.
unfoldable pub digits : ℕ → ℕ → List ℕ
digits zero n = []
digits (suc fuel) n =
    let front = digits fuel (n / 10) in
    if ltb n 10 then (b'0' + n) ∷ [] else front ++ ((b'0' + n % 10) ∷ [])

abbrev pub decimal : ℕ → List ℕ
decimal n = digits (suc n) n

-- `%d`
abbrev pub show : ℤ → List ℕ
show (pos n) = decimal n
show (negsuc n) = b'-' ∷ decimal (n + 1)

unfoldable pub text : ℤ → List ℕ
unfolding digits
text z = show (as_int (whole z)) ++ (b'.' ∷ (decimal (thousandths z) ++ (b'\n' ∷ [])))
