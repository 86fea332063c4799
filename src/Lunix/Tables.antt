-- ===== src/Lunix/Tables.antt =====
-- Lunix_Device_Driver/mk_lookup_tables.c: the program that writes lunix-lookup.h, the tables by
-- which the character devices show a raw measurement.
pub mod Initialiser
pub mod Whole
pub mod Shown
use Prim.Native.Char.{code}
use Prim.Native.String.{String}
use operating_systems_lab_nt.Prelude.{
  ℕ, zero, suc, ◌+◌, ◌%◌, ◌^◌, Bool, false, List, [], ◌∷◌, ◌++◌, Option, none, some, ◌>>=◌,
  if◌then◌else◌, ltb, leb, ◌==◌,
}
use operating_systems_lab_nt.Lunix.Chrdev.Format.{ℤ, pos, negsuc, digits, decimal, show}

-- The arithmetic of C's `double` and of <math.h>: `literal n k` is the double nearest to n/10^k,
-- `single n k` the float nearest to it. `to_long` is the conversion as the machine does it, also
-- where the standard leaves it undefined.
pub record Doubles (D : Type 0) : Type 0 where
  pub literal : ℕ → ℕ → D
  pub single : ℕ → ℕ → D
  pub of_int : ℤ → D
  pub to_long : D → ℤ
  pub plus : D → D → D
  pub subtract : D → D → D
  pub times : D → D → D
  pub divide : D → D → D
  pub log : D → D
  pub pow : D → D → D

-- `z < -n`
abbrev pub below : ℤ → ℕ → Bool
below (pos m) n = false
below (negsuc m) n = ltb n (m + 1)

-- The last line of `uint16_to_temp`: no value below absolute zero.
unfoldable pub useful : ℤ → ℤ
useful l = if below l 272150 then negsuc 272149 else l

module _ {D : Type 0} (doubles : Doubles D) where
  open doubles use {literal, single, of_int, to_long, plus, subtract, times, divide, log, pow}

  -- `uint16_to_batt`; `-0` is the integer 0.
  unfoldable pub uint16_to_batt : ℕ → ℤ
  uint16_to_batt value =
      let d =
        if value == 0
        then of_int (pos 0)
        else times (literal 1223 3) (divide (literal 10230 1) (of_int (pos value))) in
      to_long (times d (of_int (pos 1000)))

  -- `uint16_to_light`
  unfoldable pub uint16_to_light : ℕ → ℤ
  uint16_to_light value =
      to_long (divide (times (of_int (pos value)) (literal 50000000 1)) (of_int (pos 65535)))

  -- `l` of `uint16_to_temp`, before its last line.
  unfoldable pub raw_temp : ℕ → ℤ
  raw_temp value =
      let r1 = literal 100000 1 in
      let adc_fs = literal 10230 1 in
      let a = single 1010024 9 in
      let b = single 242127 9 in
      let c = single 146 9 in
      let rth = divide (times r1 (subtract adc_fs (of_int (pos value)))) (of_int (pos value)) in
      let kelvin_inv =
        plus (plus a (times b (log rth))) (times c (pow (log rth) (of_int (pos 3)))) in
      let res = subtract (divide (literal 10 1) kelvin_inv) (literal 27215 2) in
      to_long (times res (of_int (pos 1000)))

  -- `uint16_to_temp`
  unfoldable pub uint16_to_temp : ℕ → ℤ
  uint16_to_temp value = useful (raw_temp value)

-- The bytes of an ASCII text.
unfoldable pub codes : String → List ℕ
codes String.[] = []
codes (String.◌∷◌ c s) = code c ∷ codes s

-- One turn of a loop of `main`: `"\t%ld, %ld, %ld, %ld"`, then `",\n"` or `"\n"`.
abbrev pub print_row : (ℕ → ℤ) → ℕ → List ℕ
print_row convert i =
    b'\t' ∷ show (convert (i % 2 ^ 16))
    ++ (b',' ∷ b' ' ∷ show (convert ((i + 1) % 2 ^ 16))
        ++ (b',' ∷ b' ' ∷ show (convert ((i + 2) % 2 ^ 16))
            ++ (b',' ∷ b' ' ∷ show (convert ((i + 3) % 2 ^ 16))
                ++ (if i == 0xFFFC then b'\n' ∷ [] else b',' ∷ b'\n' ∷ []))))

-- `for (i = ...; i <= 0xFFFC; i += 4)`; `none` is a loop that has not ended when the fuel has.
unfoldable pub print_rows : (ℕ → ℤ) → ℕ → ℕ → Option (List ℕ)
print_rows convert zero i = none
print_rows convert (suc fuel) i =
    let rest = print_rows convert fuel ((i + 4) % 2 ^ 32) in
    if leb i 0xFFFC then (do rows ← rest; some (print_row convert i ++ rows)) else some []

-- One loop of `main`.
abbrev pub print_table : (ℕ → ℤ) → Option (List ℕ)
print_table convert = print_rows convert 16385 0

unfoldable pub temperature_head : List ℕ → List ℕ
temperature_head file =
    codes "/*\n * lunix-tables.h\n *\n * Machine-generated file. DO NOT EDIT.\n * See "
    ++ (file
        ++ (codes " instead.\n *\n * Instead of doing floating-point in kernelspace,\n"
            ++ (codes " * use the following lookup tables to convert 16-bit\n"
                ++ (codes " * raw measurements to floating point values.\n */\n\n"
                    ++ codes "long lookup_temperature[65536] = {\n"))))

unfoldable pub voltage_head : List ℕ
voltage_head = codes "};\n\nlong lookup_voltage[65536] = {\n"

unfoldable pub light_head : List ℕ
light_head = codes "};\n\nlong lookup_light[65536] = {\n"

unfoldable pub closing : List ℕ
closing = codes "};\n\n"

-- `main`: what it writes to stdout; `file` is `__FILE__`.
unfoldable pub main : {D : Type 0} → Doubles D → List ℕ → Option (List ℕ)
main doubles file = do
  temperature ← print_table (uint16_to_temp doubles)
  voltage ← print_table (uint16_to_batt doubles)
  light ← print_table (uint16_to_light doubles)
  some (
      temperature_head file
      ++ (temperature ++ (voltage_head ++ (voltage ++ (light_head ++ (light ++ closing))))))
