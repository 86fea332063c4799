-- ===== src/Lunix/Chrdev/Reads.antt =====
-- A reader of a character device (Lunix_Device_Driver/lunix-chrdev.c) over several calls of
-- `lunix_chrdev_read`.
use operating_systems_lab_nt.Prelude.{
  ℕ, ◌+◌, ◌%◌, ◌^◌, ◌<◌, ◌≡◌, ◌⊎◌, refl, sym, ◌∙◌, true, false, List, [], ◌∷◌, ◌++◌, arith,
  if◌then◌else◌, ◌==◌, ltb, leb, length, length-append, Bool-cases, inl, inr, All, take, drop,
  length-drop, take-all, drop-drop, take-plus, append-nil, some,
}
use operating_systems_lab_nt.Lunix.Chrdev.{
  ChrdevState, chrdev_bufsz, state_update, Turn, refresh, Read, bytes, failed, sleeping, faulted,
  copy_out, chrdev_read, fresh, after_down, up,
}
use operating_systems_lab_nt.Lunix.Chrdev.Format.{
  ℤ, text, show, as_int, whole, thousandths, decimal,
}
use operating_systems_lab_nt.Lunix.Chrdev.Text.{length-text}
use operating_systems_lab_nt.Lunix.Kernel.{ok}
use operating_systems_lab_nt.Lunix.Sensor.{Msr, MsrData, Sensor, msr_data}
use operating_systems_lab_nt.Lunix.Chrdev.Reading.{
  line, cached, state_update-cached, IsCached, copy_out_last, copy_out_part,
}

-- One call of `read` that nothing interrupts: the sensor at its two reads, and the size asked for.
pub record Call : Type 0 where
  pub checked : Sensor
  pub taken : Sensor
  pub cnt : ℕ

abbrev pub got : Read → List ℕ
got (bytes l) = l
got (failed e) = []
got sleeping = []
got faulted = []

-- The bytes that calls return one after the other, up to the one that rewinds.
unfoldable pub reads : (Msr → ℕ → ℤ) → ChrdevState → ℕ → List Call → List ℕ
reads lookup st f_pos [] = []
reads lookup st f_pos (c ∷ calls) =
    let (r, st', f_pos') = chrdev_read lookup ok true st c.checked c.taken [] f_pos c.cnt in
    let later = reads lookup st' f_pos' calls in got r ++ (if f_pos' == 0 then [] else later)

abbrev pub asked : List Call → ℕ
asked [] = 0
asked (c ∷ calls) = c.cnt + asked calls

abbrev pub IsSane : Call → Type 0
IsSane c = c.cnt < 2 ^ 63

up-IsCached : (st : ChrdevState) (l : List ℕ) → IsCached st l → IsCached (up st) l
up-IsCached st l c = record { behind = c.behind; shape = c.shape; limit = c.limit; small = c.small }

down-IsCached : (st : ChrdevState) (l : List ℕ) → IsCached st l → IsCached (after_down ok st) l
down-IsCached st l c = record {
  behind = c.behind;
  shape = c.shape;
  limit = c.limit;
  small = c.small;
}

module _ (lookup : Msr → ℕ → ℤ) where
  rest_of_line :
      (st : ChrdevState) (checked taken : Sensor) (turns : List Turn) (f_pos cnt : ℕ)
      → 0 < f_pos
      → chrdev_read lookup ok true st checked taken turns f_pos cnt
        ≡ copy_out true (after_down ok st) f_pos cnt
  unfolding chrdev_read
  rest_of_line st checked taken turns f_pos cnt pos =
      let moved : (f_pos == 0) ≡ false = ground arith in rw moved refl

  -- One call, by what it returns.
  reads_step :
      (c : Call) (calls : List Call) (st st' : ChrdevState) (f_pos f_pos' : ℕ) (b : List ℕ)
      → chrdev_read lookup ok true st c.checked c.taken [] f_pos c.cnt ≡ (bytes b, st', f_pos')
      → reads lookup st f_pos (c ∷ calls)
        ≡ b ++ (if f_pos' == 0 then [] else reads lookup st' f_pos' calls)
  unfolding reads
  reads_step c calls st st' f_pos f_pos' b h = rw h refl

  module _ (l : List ℕ) where
    reads_window :
        (c : Call) (calls : List Call) (st d : ChrdevState) (f_pos : ℕ)
        → IsCached d l
        → f_pos < length l
        → (0 < f_pos) ⊎ (0 < c.cnt)
        → IsSane c
        → chrdev_read lookup ok true st c.checked c.taken [] f_pos c.cnt
          ≡ copy_out true d f_pos c.cnt
        → ((st' : ChrdevState) (f_pos' : ℕ)
            → IsCached st' l
            → 0 < f_pos'
            → f_pos' < length l
            → reads lookup st' f_pos' calls ≡ take (asked calls) (drop f_pos' l))
        → reads lookup st f_pos (c ∷ calls) ≡ take (c.cnt + asked calls) (drop f_pos l)
    reads_window c calls st d f_pos k inside some_read sane e later =
        elim (Bool-cases (leb (length l) (f_pos + c.cnt))) [
          | inl y ↦
              reads_step c calls st _ f_pos 0 (drop f_pos l)
                (e ∙ copy_out_last d l f_pos c.cnt k inside sane (ground arith))
              ∙ append-nil (drop f_pos l)
              ∙ sym (
                  take-all (c.cnt + asked calls) (drop f_pos l)
                    (ground (arith, length-drop f_pos l)))
          | inr n ↦
              let under : f_pos + c.cnt < length l = ground arith in
              let still : ((f_pos + c.cnt) == 0) ≡ false = ground arith in
              reads_step c calls st _ f_pos (f_pos + c.cnt) (take c.cnt (drop f_pos l))
                (e ∙ copy_out_part d l f_pos c.cnt k inside sane under)
              ∙ rw
                  (
                    still,
                    later (up d) (f_pos + c.cnt) (up-IsCached d l k) (ground arith) under,
                    take-plus c.cnt (asked calls) (drop f_pos l),
                    drop-drop f_pos c.cnt l,
                  )
                  refl
        ]

    later-reads :
        (calls : List Call) (st : ChrdevState) (f_pos : ℕ)
        → IsCached st l
        → 0 < f_pos
        → f_pos < length l
        → All IsSane calls
        → reads lookup st f_pos calls ≡ take (asked calls) (drop f_pos l)
    unfolding reads
    later-reads [] st f_pos k pos inside h = refl
    later-reads (c ∷ calls) st f_pos k pos inside h =
        reads_window c calls st (after_down ok st) f_pos (down-IsCached st l k) inside (inl pos) h.0
          (rest_of_line st c.checked c.taken [] f_pos c.cnt pos)
          (λ st' f_pos' k' pos' inside'. later-reads calls st' f_pos' k' pos' inside' h.1)

  line_pos : (m : Msr) (page : MsrData) → 0 < length (line lookup m page)
  unfolding line text
  line_pos m page = omega (
    arith,
    length-append (show (as_int (whole (lookup m (page.value % 2 ^ 16)))))
        (b'.' ∷ (decimal (thousandths (lookup m (page.value % 2 ^ 16))) ++ (b'\n' ∷ []))),
  )

  cached-IsCached :
      (st : ChrdevState) (page : MsrData)
      → length st.buf_data ≡ chrdev_bufsz
      → IsCached (cached lookup st page) (line lookup st.type page)
  unfolding cached line
  cached-IsCached st page room = record {
    behind = 0 ∷ drop (length (line lookup st.type page) + 1) st.buf_data;
    shape = refl;
    limit = refl;
    small = omega (arith, length-text (lookup st.type (page.value % 2 ^ 16)));
  }

  module _ (st : ChrdevState) (c : Call) (old page : MsrData)
      (room : length st.buf_data ≡ chrdev_bufsz) (h : msr_data c.checked st.type ≡ some old)
      (g : msr_data c.taken st.type ≡ some page) (newer : st.buf_timestamp < old.last_update) where
    refresh-fresh :
        (turns : List Turn)
        → refresh lookup (after_down ok st) c.checked c.taken turns
          ≡ fresh (cached lookup (after_down ok st) page)
    unfolding refresh
    refresh-fresh turns =
        let due : ltb st.buf_timestamp old.last_update ≡ true = ground (arith, newer) in
        let e = state_update-cached lookup (after_down ok st) room c.checked c.taken old page h g in
        go turns (e ∙ rw due refl)
      where
        go :
            (turns : List Turn)
            → state_update lookup (after_down ok st) c.checked c.taken
              ≡ some (true, cached lookup (after_down ok st) page)
            → refresh lookup (after_down ok st) c.checked c.taken turns
              ≡ fresh (cached lookup (after_down ok st) page)
        go [] e = rw (e, refresh) refl
        go (t ∷ turns) e = rw (e, refresh) refl

    first_read :
        chrdev_read lookup ok true st c.checked c.taken [] 0 c.cnt
        ≡ copy_out true (cached lookup (after_down ok st) page) 0 c.cnt
    unfolding chrdev_read
    first_read = rw (refresh-fresh []) refl

    -- A reader at the start of its file, with a whole buffer, with the sensor's pages in place,
    -- with a cache older than what it sees and with nothing to interrupt it, asks first for one
    -- byte or more, and never for 2^63: whatever sizes it asks for and whatever is measured between
    -- its calls, the bytes up to the rewind are as many of the line of one page as it has asked for
    -- in all.
    pub reads-line :
        (calls : List Call)
        → 0 < c.cnt
        → All IsSane (c ∷ calls)
        → reads lookup st 0 (c ∷ calls) ≡ take (c.cnt + asked calls) (line lookup st.type page)
    reads-line calls some_size sane =
        reads_window (line lookup st.type page) c calls st (cached lookup (after_down ok st) page) 0
          (cached-IsCached (after_down ok st) page room) (line_pos st.type page) (inr some_size)
          sane.0 first_read
          (λ st' f_pos' k pos inside.
            later-reads (line lookup st.type page) calls st' f_pos' k pos inside sane.1)
