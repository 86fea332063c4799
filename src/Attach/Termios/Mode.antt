-- ===== src/Attach/Termios/Mode.antt =====
-- The speeds and the modes that the functions of Lunix_Device_Driver/lunix-attach.c set.
use operating_systems_lab_nt.Prelude.{
  ℕ, ◌≡◌, refl, sym, ap, ◌∙◌, true, List, [], ◌∷◌, some, arith, Bool-cases, inl, inr, All,
}
use operating_systems_lab_nt.Lunix.Chrdev.Format.{decimal, digits}
use operating_systems_lab_nt.Attach.Termios.{
  Baud, b50, b75, b110, b300, b600, b1200, b2400, b4800, b9600, b14400, b19200, b38400, b57600,
  b115200, other_baud, str_eq, tty_speeds, find_row, tty_find_speed, Termios, tty_set_databits,
  tty_set_stopbits, tty_set_parity,
}

str_eq_refl : (a : List ℕ) → str_eq a a ≡ true
str_eq_refl [] = refl
str_eq_refl (c ∷ a) = ground (arith, str_eq_refl a)

str_eq→eq : (a b : List ℕ) → str_eq a b ≡ true → a ≡ b
str_eq→eq [] [] h = refl
str_eq→eq [] (d ∷ b) h = cc
str_eq→eq (c ∷ a) [] h = cc
str_eq→eq (c ∷ a) (d ∷ b) h = ground (arith, str_eq→eq a b)

-- The speed of a code, in bits per second.
abbrev pub rate : Baud → ℕ
rate b50 = 50
rate b75 = 75
rate b110 = 110
rate b300 = 300
rate b600 = 600
rate b1200 = 1200
rate b2400 = 2400
rate b4800 = 4800
rate b9600 = 9600
rate b14400 = 14400
rate b19200 = 19200
rate b38400 = 38400
rate b57600 = 57600
rate b115200 = 115200
rate (other_baud n) = n

abbrev Named : List ℕ × Baud → Type 0
Named (name, code) = name ≡ decimal (rate code)

named : All Named tty_speeds
unfolding digits
named = (
  refl,
  (
    refl,
    (
      refl,
      (refl, (refl, (refl, (refl, (refl, (refl, (refl, (refl, (refl, (refl, (refl, tt))))))))))),
    ),
  ),
)

find_row-Named :
    (speed : List ℕ) (code : Baud) (rows : List (List ℕ × Baud))
    → All Named rows
    → find_row speed rows ≡ some code
    → speed ≡ decimal (rate code)
unfolding find_row
find_row-Named speed code [] n h = cc
find_row-Named speed code ((name, b) ∷ rows) n h = elim (Bool-cases (str_eq name speed)) [
  | inl same ↦
      let found : b ≡ code = ground arith in
      sym (str_eq→eq name speed same) ∙ n.0 ∙ ap (λ (c : Baud). decimal (rate c)) found
  | inr other ↦ find_row-Named speed code rows n.1 (rw other at h)
]

-- A text that is taken for a speed is the decimal text of that speed.
pub tty_find_speed-decimal :
    (speed : List ℕ) (code : Baud) → tty_find_speed speed ≡ some code → speed ≡ decimal (rate code)
unfolding tty_find_speed
tty_find_speed-decimal speed code h = find_row-Named speed code tty_speeds named h

-- A code of the table.
abbrev pub IsStandard : Baud → Type 0
IsStandard (other_baud n) = ⊥
IsStandard _ = Unit {0}

-- The decimal text of a speed of the table is taken for its code.
pub tty_find_speed-rate :
    (code : Baud) → IsStandard code → tty_find_speed (decimal (rate code)) ≡ some code
unfolding tty_find_speed digits
tty_find_speed-rate (other_baud n) h = absurd h
tty_find_speed-rate b50 h = refl
tty_find_speed-rate _ h = refl

-- Data bits, stop bits and parity may be set in any order, valid or not, with the same outcome.
pub tty_set_any_order :
    (tty : Termios) (d s p : ℕ)
    → ((tty_set_stopbits (tty_set_databits tty d).1 s).1
        ≡ (tty_set_databits (tty_set_stopbits tty s).1 d).1)
      × ((tty_set_parity (tty_set_databits tty d).1 p).1
          ≡ (tty_set_databits (tty_set_parity tty p).1 d).1)
      × ((tty_set_parity (tty_set_stopbits tty s).1 p).1
          ≡ (tty_set_stopbits (tty_set_parity tty p).1 s).1)
unfolding tty_set_databits tty_set_stopbits tty_set_parity
tty_set_any_order tty d s p = (ground arith, ground arith, ground arith)
