-- ===== src/Lunix/Tables/Shown.antt =====
-- The tables of mk_lookup_tables.c in the character device that is compiled with them
-- (lunix-chrdev.c of Lunix_Device_Driver).
use operating_systems_lab_nt.Prelude.{
  ℕ, zero, suc, ◌+◌, ◌%◌, ◌^◌, ◌<◌, ◌≡◌, ap, ◌∙◌, List, ◌++◌, some, All, arith, get_or,
}
use operating_systems_lab_nt.Lunix.Chrdev.Format.{ℤ, pos, text}
use operating_systems_lab_nt.Lunix.Chrdev.Reading.{line}
use operating_systems_lab_nt.Lunix.Sensor.{Msr, batt, temp, light, MsrData}
use operating_systems_lab_nt.Lunix.Tables.{
  Doubles, uint16_to_batt, uint16_to_light, uint16_to_temp, temperature_head, voltage_head,
  light_head, closing, main,
}
use operating_systems_lab_nt.Lunix.Tables.Initialiser.{outside, numbers, entries}
use operating_systems_lab_nt.Lunix.Tables.Whole.{IsPhysical, main-tables}

-- `lookup` of `lunix_chrdev_state_update`, over the bytes between the braces of
-- `lookup_temperature`, `lookup_voltage` and `lookup_light`.
unfoldable pub lookup : List ℕ → List ℕ → List ℕ → Msr → ℕ → ℤ
lookup t v l batt n = get_or (numbers outside v) n (pos 0)
lookup t v l temp n = get_or (numbers outside t) n (pos 0)
lookup t v l light n = get_or (numbers outside l) n (pos 0)

-- The conversion of a measurement.
unfoldable pub converted : {D : Type 0} → Doubles D → Msr → ℕ → ℤ
converted doubles batt = uint16_to_batt doubles
converted doubles temp = uint16_to_temp doubles
converted doubles light = uint16_to_light doubles

get_or-entries :
    (convert : ℕ → ℤ) (d : ℤ) (i k n : ℕ)
    → n < k
    → get_or (entries convert i k) n d ≡ convert (i + n)
unfolding entries
get_or-entries convert d i zero n h = absurd (omega arith)
get_or-entries convert d i (suc k) zero h = ap convert (omega arith)
get_or-entries convert d i (suc k) (suc n) h =
    get_or-entries convert d (i + 1) k n (omega arith) ∙ ap convert (omega arith)

get_or-numbers :
    (convert : ℕ → ℤ) (table : List ℕ) (n : ℕ)
    → numbers outside table ≡ entries convert 0 65536
    → n < 65536
    → get_or (numbers outside table) n (pos 0) ≡ convert n
get_or-numbers convert table n e h =
    ap (λ (row : List ℤ). get_or row n (pos 0)) e
    ∙ get_or-entries convert (pos 0) 0 65536 n h
    ∙ ap convert (omega arith)

module _ {D : Type 0} (doubles : Doubles D) where
  lookup-converted :
      (t v l : List ℕ) (k : Msr) (n : ℕ)
      → numbers outside t ≡ entries (uint16_to_temp doubles) 0 65536
      → numbers outside v ≡ entries (uint16_to_batt doubles) 0 65536
      → numbers outside l ≡ entries (uint16_to_light doubles) 0 65536
      → n < 65536
      → lookup t v l k n ≡ converted doubles k n
  unfolding lookup converted
  lookup-converted t v l batt n et ev el h = get_or-numbers (uint16_to_batt doubles) v n ev h
  lookup-converted t v l temp n et ev el h = get_or-numbers (uint16_to_temp doubles) t n et h
  lookup-converted t v l light n et ev el h = get_or-numbers (uint16_to_light doubles) l n el h

  -- The table generator comes to its end, and its three tables, read back as numbers, hold the
  -- conversions of all 16-bit values, in order; no temperature is below -272150. The character
  -- device that is compiled with them shows every page as the text of the conversion of its value.
  pub main-line :
      (file : List ℕ)
      → (t : List ℕ) × (v : List ℕ) × (l : List ℕ) × (main doubles file
          ≡ some (
              temperature_head file
              ++ (t ++ (voltage_head ++ (v ++ (light_head ++ (l ++ closing)))))))
        × (numbers outside t ≡ entries (uint16_to_temp doubles) 0 65536)
        × (numbers outside v ≡ entries (uint16_to_batt doubles) 0 65536)
        × (numbers outside l ≡ entries (uint16_to_light doubles) 0 65536)
        × All IsPhysical (numbers outside t)
        × ((k : Msr) (page : MsrData)
            → line (lookup t v l) k page ≡ text (converted doubles k (page.value % 2 ^ 16)))
  unfolding line
  main-line file =
      let (t, v, l, printed, et, ev, el, physical) = main-tables doubles file in
      (
        t,
        v,
        l,
        printed,
        et,
        ev,
        el,
        physical,
        λ k page. ap text (lookup-converted t v l k (page.value % 2 ^ 16) et ev el (omega arith)),
      )
