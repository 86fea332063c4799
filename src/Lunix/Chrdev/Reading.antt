-- ===== src/Lunix/Chrdev/Reading.antt =====
-- What the reader of a character device (Lunix_Device_Driver/lunix-chrdev.c) gets.
use operating_systems_lab_nt.Prelude.{
  ℕ, ap, ◌∙◌, ◌+◌, ◌-◌, ◌%◌, ◌^◌, ◌≤◌, ◌<◌, ◌≡◌, refl, true, false, List, [], ◌∷◌, ◌++◌, arith,
  if◌then◌else◌, ◌==◌, ltb, leb, length, length-append, Bool-cases, inl, inr, All, take, drop,
  length-drop, take-all, drop-append, take-append, some,
}
use operating_systems_lab_nt.Lunix.Chrdev.{
  ChrdevState, chrdev_bufsz, sprintf, strlen, format_page, state_update, bytes, to_copy, copy_out,
  up,
}
use operating_systems_lab_nt.Lunix.Chrdev.Format.{ℤ, text}
use operating_systems_lab_nt.Lunix.Chrdev.Text.{IsVisible, text-IsVisible, length-text}
use operating_systems_lab_nt.Lunix.Sensor.{Msr, MsrData, Sensor, msr_data}

strlen-append : (l rest : List ℕ) → All IsVisible l → strlen (l ++ (0 ∷ rest)) ≡ length l
strlen-append [] rest h = refl
strlen-append (c ∷ l) rest h =
    let visible : (c == 0) ≡ false = ground (arith, h.0) in
    rw visible (omega (arith, strlen-append l rest h.1))

-- The line that a page is shown as.
unfoldable pub line : (Msr → ℕ → ℤ) → Msr → MsrData → List ℕ
line lookup m page = text (lookup m (page.value % 2 ^ 16))

-- The state that caches `page`.
unfoldable pub cached : (Msr → ℕ → ℤ) → ChrdevState → MsrData → ChrdevState
cached lookup st page = record st {
  buf_timestamp = page.last_update;
  buf_data =
      line lookup st.type page ++ (0 ∷ drop (length (line lookup st.type page) + 1) st.buf_data);
  buf_lim = length (line lookup st.type page);
}

module _ (lookup : Msr → ℕ → ℤ) (st : ChrdevState) (room : length st.buf_data ≡ chrdev_bufsz) where
  sprintf-line :
      (page : MsrData)
      → sprintf st.buf_data (line lookup st.type page)
        ≡ some (
            line lookup st.type page
            ++ (0 ∷ drop (length (line lookup st.type page) + 1) st.buf_data))
  unfolding line
  sprintf-line page =
      let fits : leb (length (text (lookup st.type (page.value % 2 ^ 16))) + 1) (length st.buf_data)
          ≡ true =
        ground (arith, length-text (lookup st.type (page.value % 2 ^ 16))) in
      rw fits refl

  format_page-cached :
      (page : MsrData)
      → format_page lookup st page.value page.last_update ≡ some (cached lookup st page)
  unfolding line cached
  format_page-cached page =
      rw
        (
          sprintf-line page,
          strlen-append (line lookup st.type page)
              (drop (length (line lookup st.type page) + 1) st.buf_data)
              (text-IsVisible (lookup st.type (page.value % 2 ^ 16))),
        )
        refl

  -- With a whole buffer and the sensor's pages in place the update never faults. It returns -EAGAIN
  -- and changes nothing where the page seen is not newer than the cache; otherwise value and time
  -- stamp are those of one page, read under the lock, and the limit is the length of its line.
  pub state_update-cached :
      (checked taken : Sensor) (old page : MsrData)
      → msr_data checked st.type ≡ some old
      → msr_data taken st.type ≡ some page
      → state_update lookup st checked taken
        ≡ some (
            if ltb st.buf_timestamp old.last_update
            then (true, cached lookup st page)
            else (false, st))
  unfolding state_update
  state_update-cached checked taken old page h g =
      elim (Bool-cases (ltb st.buf_timestamp old.last_update)) [
        | inl y ↦ rw (h, y, g, format_page-cached page) refl
        | inr n ↦ rw (h, n) refl
      ]

  -- The cache keeps its size.
  cached_room : (page : MsrData) → length (cached lookup st page).buf_data ≡ chrdev_bufsz
  unfolding cached line
  cached_room page = omega (
    arith,
    room,
    length-text (lookup st.type (page.value % 2 ^ 16)),
    length-append (line lookup st.type page)
        (0 ∷ drop (length (line lookup st.type page) + 1) st.buf_data),
    length-drop (length (line lookup st.type page) + 1) st.buf_data,
  )

-- `st` caches the line `l`.
pub record IsCached (st : ChrdevState) (l : List ℕ) : Type 0 where
  pub behind : List ℕ
  pub shape : st.buf_data ≡ l ++ behind
  pub limit : st.buf_lim ≡ length l
  pub small : length l ≤ 16

module _ (st : ChrdevState) (l : List ℕ) (f_pos cnt : ℕ) (c : IsCached st l)
    (inside : f_pos < length l) (sane : cnt < 2 ^ 63) where
  window : (n : ℕ) → f_pos + n ≤ length l → take n (drop f_pos st.buf_data) ≡ take n (drop f_pos l)
  window n h =
      rw (c.shape, drop-append f_pos l c.behind (omega arith))
        (take-append n (drop f_pos l) c.behind (omega (arith, length-drop f_pos l)))

  to_copy_last : length l ≤ f_pos + cnt → to_copy st f_pos cnt ≡ length l - f_pos
  to_copy_last h = ground (arith, c.limit, c.small)

  to_copy_part : f_pos + cnt < length l → to_copy st f_pos cnt ≡ cnt
  to_copy_part h = ground (arith, c.limit, c.small)

  whole_buffer : (n : ℕ) → f_pos + n ≤ length l → leb (f_pos + n) (length st.buf_data) ≡ true
  whole_buffer n h =
      let size : length st.buf_data ≡ length l + length c.behind =
        ap (length {A = ℕ}) c.shape ∙ length-append l c.behind in
      ground (arith, size)

  pub copy_out_last :
      length l ≤ f_pos + cnt → copy_out true st f_pos cnt ≡ (bytes (drop f_pos l), up st, 0)
  unfolding copy_out
  copy_out_last h =
      let over : leb st.buf_lim (f_pos + (length l - f_pos)) ≡ true = ground (arith, c.limit) in
      rw
        (
          to_copy_last h,
          whole_buffer (length l - f_pos) (omega arith),
          over,
          window (length l - f_pos) (omega arith),
          take-all (length l - f_pos) (drop f_pos l) (omega (arith, length-drop f_pos l)),
        )
        refl

  pub copy_out_part :
      f_pos + cnt < length l
      → copy_out true st f_pos cnt ≡ (bytes (take cnt (drop f_pos l)), up st, f_pos + cnt)
  unfolding copy_out
  copy_out_part h =
      let under : leb st.buf_lim (f_pos + cnt) ≡ false = ground (arith, c.limit) in
      rw (to_copy_part h, whole_buffer cnt (omega arith), under, window cnt (omega arith)) refl
