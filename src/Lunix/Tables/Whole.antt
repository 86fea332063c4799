-- ===== src/Lunix/Tables/Whole.antt =====
-- What the whole of mk_lookup_tables.c (Lunix_Device_Driver) writes: the three tables.
use operating_systems_lab_nt.Prelude.{
  ℕ, zero, suc, ◌+◌, ◌*◌, ◌%◌, ◌^◌, ◌≤◌, ◌≡◌, refl, sym, ◌∙◌, true, false, List, [], ◌∷◌, ◌++◌,
  some, arith, leb, All, Bool-cases, inl, inr,
}
use operating_systems_lab_nt.Lunix.Chrdev.Format.{ℤ}
use operating_systems_lab_nt.Lunix.Tables.{
  Doubles, below, uint16_to_batt, uint16_to_light, uint16_to_temp, raw_temp, useful, print_row,
  print_rows, print_table, temperature_head, voltage_head, light_head, closing, main,
}
use operating_systems_lab_nt.Lunix.Tables.Initialiser.{outside, numbers, entries, numbers-print_row}

module _ (convert : ℕ → ℤ) where
  entries-row :
      (i n : ℕ)
      → entries convert i (4 * suc n)
        ≡ convert i
          ∷ convert (i + 1)
          ∷ convert (i + 2)
          ∷ convert (i + 3)
          ∷ entries convert (i + 4) (4 * n)
  unfolding entries
  entries-row i n =
      let four : 4 * suc n ≡ suc (suc (suc (suc (4 * n)))) = omega arith in
      let i2 : i + 1 + 1 ≡ i + 2 = omega arith in
      let i3 : i + 2 + 1 ≡ i + 3 = omega arith in
      let i4 : i + 3 + 1 ≡ i + 4 = omega arith in rw (four, i2, i3, i4) refl

  print_rows_step :
      (fuel i : ℕ) (rows : List ℕ)
      → i ≤ 0xFFFC
      → print_rows convert fuel (i + 4) ≡ some rows
      → print_rows convert (suc fuel) i ≡ some (print_row convert i ++ rows)
  unfolding print_rows
  print_rows_step fuel i rows h later =
      let under : leb i 0xFFFC ≡ true = ground arith in
      let next : (i + 4) % 2 ^ 32 ≡ i + 4 = omega arith in rw (next, later, under) refl

  print_rows_end : (i : ℕ) → leb i 0xFFFC ≡ false → print_rows convert 1 i ≡ some []
  unfolding print_rows
  print_rows_end i over = rw over refl

  -- The loop ends, and its rows hold the entries from where it starts.
  print_rows-numbers :
      (n i : ℕ)
      → i + 4 * n ≡ 65536
      → (rows : List ℕ) × (print_rows convert (suc n) i ≡ some rows)
        × (numbers outside rows ≡ entries convert i (4 * n))
  unfolding numbers entries
  print_rows-numbers zero i e =
      let over : leb i 0xFFFC ≡ false = ground (arith, e) in ([], print_rows_end i over, refl)
  print_rows-numbers (suc n) i e =
      let (rows, printed, read) = print_rows-numbers n (i + 4) (omega (arith, e)) in
      (
        print_row convert i ++ rows,
        print_rows_step (suc n) i rows (omega (arith, e)) printed,
        numbers-print_row convert i rows (omega (arith, e)) ∙ rw read (sym (entries-row i n)),
      )

  pub print_table-numbers :
      (table : List ℕ) × (print_table convert ≡ some table)
      × (numbers outside table ≡ entries convert 0 65536)
  print_table-numbers = print_rows-numbers 16384 0 refl

  entries-All :
      (P : ℤ → Type 0) → ((v : ℕ) → P (convert v)) → (i k : ℕ) → All P (entries convert i k)
  unfolding entries
  entries-All P h i zero = tt
  entries-All P h i (suc k) = (h i, entries-All P h (i + 1) k)

-- Not below absolute zero, in thousandths of a degree.
abbrev pub IsPhysical : ℤ → Type 0
IsPhysical z = below z 272150 ≡ false

useful-IsPhysical : (l : ℤ) → IsPhysical (useful l)
unfolding useful
useful-IsPhysical l = elim (Bool-cases (below l 272150)) [ inl y ↦ rw y refl | inr n ↦ rw n n ]

module _ {D : Type 0} (doubles : Doubles D) where
  uint16_to_temp-IsPhysical : (value : ℕ) → IsPhysical (uint16_to_temp doubles value)
  unfolding uint16_to_temp
  uint16_to_temp-IsPhysical value = useful-IsPhysical (raw_temp doubles value)

  -- The program comes to its end and writes three tables: read back as numbers, each holds the
  -- conversion of every 16-bit value, in order, and no temperature is below -272150.
  pub main-tables :
      (file : List ℕ)
      → (t : List ℕ) × (v : List ℕ) × (l : List ℕ) × (main doubles file
          ≡ some (
              temperature_head file
              ++ (t ++ (voltage_head ++ (v ++ (light_head ++ (l ++ closing)))))))
        × (numbers outside t ≡ entries (uint16_to_temp doubles) 0 65536)
        × (numbers outside v ≡ entries (uint16_to_batt doubles) 0 65536)
        × (numbers outside l ≡ entries (uint16_to_light doubles) 0 65536)
        × All IsPhysical (numbers outside t)
  unfolding main
  main-tables file =
      let (t, t_printed, t_read) = print_table-numbers (uint16_to_temp doubles) in
      let (v, v_printed, v_read) = print_table-numbers (uint16_to_batt doubles) in
      let (l, l_printed, l_read) = print_table-numbers (uint16_to_light doubles) in
      (
        t,
        v,
        l,
        rw (t_printed, v_printed, l_printed) refl,
        t_read,
        v_read,
        l_read,
        rw t_read
            (entries-All (uint16_to_temp doubles) IsPhysical uint16_to_temp-IsPhysical 0 65536),
      )
