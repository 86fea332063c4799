-- ===== src/Lunix/Tests/Tables.antt =====
-- The program mk_lookup_tables.c of Lunix_Device_Driver at concrete inputs.
use operating_systems_lab_nt.Prelude.{
  ℕ, ◌+◌, ◌-◌, ◌*◌, ◌/◌, ◌%◌, ◌^◌, ◌≡◌, refl, List, [], ◌∷◌, ◌++◌, some, All,
}
use operating_systems_lab_nt.Lunix.Chrdev.Format.{pos, negsuc, magnitude, digits, text}
use operating_systems_lab_nt.Lunix.Chrdev.Reading.{line}
use operating_systems_lab_nt.Lunix.Sensor.{Msr, MsrData}
use operating_systems_lab_nt.Lunix.Tables.{
  Doubles, uint16_to_batt, uint16_to_light, uint16_to_temp, useful, print_row, codes,
  temperature_head, voltage_head, light_head, closing, main,
}
use operating_systems_lab_nt.Lunix.Tables.Initialiser.{outside, numbers, entries}
use operating_systems_lab_nt.Lunix.Tables.Shown.{lookup, converted, main-line}
use operating_systems_lab_nt.Lunix.Tables.Whole.{IsPhysical}

-- Millionths that are not negative, with a logarithm that is its argument.
abbrev millionths : Doubles ℕ
millionths = record {
  literal = λ n k. n * 1000000 / 10 ^ k;
  single = λ n k. n * 1000000 / 10 ^ k;
  of_int = λ z. magnitude z * 1000000;
  to_long = λ d. pos (d / 1000000);
  plus = λ a b. a + b;
  subtract = λ a b. a - b;
  times = λ a b. a * b / 1000000;
  divide = λ a b. a * 1000000 / b;
  log = λ a. a;
  pow = λ a b. a;
}

-- The full scale of the battery's converter is 1.223 V.
full_scale : uint16_to_batt millionths 1023 ≡ pos 1223
unfolding uint16_to_batt
full_scale = refl

no_voltage : uint16_to_batt millionths 0 ≡ pos 0
unfolding uint16_to_batt
no_voltage = refl

brightest : uint16_to_light millionths 65535 ≡ pos 5000000
unfolding uint16_to_light
brightest = refl

too_cold : useful (negsuc 999999) ≡ negsuc 272149
unfolding useful
too_cold = refl

last_row :
    print_row (λ v. negsuc (65535 - v)) 65532
    ≡ b'\t' ∷ b'-' ∷ b'4' ∷ b',' ∷ b' ' ∷ b'-' ∷ b'3' ∷ b',' ∷ b' ' ∷ b'-' ∷ b'2' ∷ b',' ∷ b' '
      ∷ b'-' ∷ b'1' ∷ b'\n' ∷ []
unfolding digits
last_row = refl

-- "x.c"
abbrev source : List ℕ
source = b'x' ∷ b'.' ∷ b'c' ∷ []

closes : closing ≡ b'}' ∷ b';' ∷ b'\n' ∷ b'\n' ∷ []
unfolding closing codes
closes = refl

main-line_example :
    (t : List ℕ) × (v : List ℕ) × (l : List ℕ) × (main millionths source
      ≡ some (
          temperature_head source
          ++ (t ++ (voltage_head ++ (v ++ (light_head ++ (l ++ closing)))))))
    × (numbers outside t ≡ entries (uint16_to_temp millionths) 0 65536)
    × (numbers outside v ≡ entries (uint16_to_batt millionths) 0 65536)
    × (numbers outside l ≡ entries (uint16_to_light millionths) 0 65536)
    × All IsPhysical (numbers outside t)
    × ((k : Msr) (page : MsrData)
        → line (lookup t v l) k page ≡ text (converted millionths k (page.value % 2 ^ 16)))
main-line_example = main-line millionths source
