-- ===== src/Lunix/Chrdev/Shared/Progress.antt =====
-- Readers of one open file that wait for its semaphore (Lunix_Device_Driver/lunix-chrdev.c).
use operating_systems_lab_nt.Prelude.{
  ℕ, zero, suc, ◌∙◌, ◌+◌, ◌<◌, ◌≡◌, refl, true, false, List, [], ◌∷◌, Option, some, none, arith,
  get_elem?, set, length, ltb, Bool-cases, inl, inr,
}
use operating_systems_lab_nt.Lunix.Chrdev.{
  ChrdevState, chrdev_bufsz, state_update, copy_out, up, after_down, failed, erestartsys,
}
use operating_systems_lab_nt.Lunix.Chrdev.Format.{ℤ}
use operating_systems_lab_nt.Lunix.Chrdev.Locking.{copy_out-lock}
use operating_systems_lab_nt.Lunix.Chrdev.Reading.{cached, state_update-cached}
use operating_systems_lab_nt.Lunix.Chrdev.Shared.{
  Pc, asleep, wanting, checking, waking, copying, leaving, returned, enter, skip, renew, rest,
  enter_again, copy, leave, OpenFile, moves, Reach, here, next, opened_by, holds, holders,
}
use operating_systems_lab_nt.Lunix.Chrdev.Shared.Exclusion.{Reach-lock}
use operating_systems_lab_nt.Lunix.Chrdev.Shared.Room.{Reach-room}
use operating_systems_lab_nt.Lunix.Kernel.{ok}
use operating_systems_lab_nt.Lunix.Sensor.{
  Msr, batt, temp, light, MsrData, Sensor, msr_data, IsLoaded, IsReady,
}

-- A process that holds the semaphore.
holder :
    (l : List Pc) → 0 < holders l → (j : ℕ) × (pc : Pc) × (get_elem? l j ≡ some pc) × (holds pc ≡ 1)
holder [] h = absurd (omega arith)
holder (checking f_pos cnt ∷ l) h = (0, checking f_pos cnt, refl, refl)
holder (copying f_pos cnt ∷ l) h = (0, copying f_pos cnt, refl, refl)
holder (leaving f_pos ∷ l) h = (0, leaving f_pos, refl, refl)
holder (_ ∷ l) h = let (j, pc, at, one) = holder l (omega arith) in (suc j, pc, at, one)

set_self :
    (l : List Pc) (j : ℕ) (pc pc' : Pc)
    → get_elem? l j ≡ some pc
    → get_elem? (set l j pc') j ≡ some pc'
set_self [] j pc pc' at = cc
set_self (x ∷ l) zero pc pc' at = refl
set_self (x ∷ l) (suc j) pc pc' at = set_self l j pc pc' at

set_other :
    (l : List Pc) (i j : ℕ) (p q q' : Pc)
    → get_elem? l i ≡ some p
    → holds p ≡ 0
    → get_elem? l j ≡ some q
    → holds q ≡ 1
    → get_elem? (set l j q') i ≡ some p
set_other [] i j p q q' at_i none_held at_j one = at_i
set_other (x ∷ l) zero zero p q q' at_i none_held at_j one =
    let same : holds p ≡ holds q = cc in absurd (omega (arith, same, none_held, one))
set_other (x ∷ l) zero (suc j) p q q' at_i none_held at_j one = at_i
set_other (x ∷ l) (suc i) zero p q q' at_i none_held at_j one = at_i
set_other (x ∷ l) (suc i) (suc j) p q q' at_i none_held at_j one =
    set_other l i j p q q' at_i none_held at_j one

-- The processes that do not hold the semaphore stand where they stood.
abbrev Keeps : List Pc → List Pc → Type 0
Keeps l l' = (i : ℕ) (pc : Pc) → get_elem? l i ≡ some pc → holds pc ≡ 0 → get_elem? l' i ≡ some pc

Keeps-set :
    (l l' : List Pc) (j : ℕ) (pc pc' : Pc)
    → Keeps l l'
    → get_elem? l' j ≡ some pc
    → holds pc ≡ 1
    → Keeps l (set l' j pc')
Keeps-set l l' j pc pc' kept at one i q at_i none_held =
    set_other l' i j q pc pc' (kept i q at_i none_held) none_held at one

is_page : (page : Option MsrData) → IsLoaded page → (p : MsrData) × (page ≡ some p)
is_page none h = absurd h
is_page (some p) h = (p, refl)

ready_page : (s : Sensor) → IsReady s → (k : Msr) → (p : MsrData) × (msr_data s k ≡ some p)
ready_page s h batt = is_page s.batt_data h.has_batt
ready_page s h temp = is_page s.temp_data h.has_temp
ready_page s h light = is_page s.light_data h.has_light

module _ (lookup : Msr → ℕ → ℤ) where
  -- The semaphore can come free without a signal.
  abbrev Freed : OpenFile → Type 0
  Freed o = (p : OpenFile) × Reach lookup o p 0 × (0 < p.state.lock) × Keeps o.readers p.readers

  copying-Freed :
      (o p : OpenFile) (j f_pos cnt : ℕ)
      → Reach lookup o p 0
      → Keeps o.readers p.readers
      → get_elem? p.readers j ≡ some (copying f_pos cnt)
      → Freed o
  copying-Freed o p j f_pos cnt r kept at = (
    record {
      state = (copy_out true p.state f_pos cnt).1;
      readers =
          set p.readers j
            (returned (copy_out true p.state f_pos cnt).0 (copy_out true p.state f_pos cnt).2);
    },
    next r (moves j at (copy true _ _ _ refl)),
    omega (arith, copy_out-lock lookup true p.state f_pos cnt),
    Keeps-set o.readers p.readers j (copying f_pos cnt) _ kept at refl,
  )

  module _ (o : OpenFile) (s : Sensor) (ready : IsReady s)
      (room : length o.state.buf_data ≡ chrdev_bufsz) where
    stay : Keeps o.readers o.readers
    stay i pc at none_held = at

    resting :
        (j cnt f_pos : ℕ) → get_elem? o.readers j ≡ some (checking f_pos cnt) → f_pos ≡ 0 → Freed o
    resting j cnt zero at e =
        let (page, has) = ready_page s ready o.state.type in
        let updated = state_update-cached lookup o.state room s s page page has has in
        elim (Bool-cases (ltb o.state.buf_timestamp page.last_update)) [
          | inl y ↦
              let renewed : state_update lookup o.state s s
                  ≡ some (true, cached lookup o.state page) =
                updated ∙ rw y refl in
              copying-Freed o
                (record {
                  state = cached lookup o.state page;
                  readers = set o.readers j (copying 0 cnt);
                })
                j 0 cnt (next here (moves j at (renew s s (cached lookup o.state page) renewed)))
                (Keeps-set o.readers o.readers j (checking 0 cnt) (copying 0 cnt) stay at refl)
                (set_self o.readers j (checking 0 cnt) (copying 0 cnt) at)
          | inr n ↦
              let old : state_update lookup o.state s s ≡ some (false, o.state) =
                updated ∙ rw n refl in
              (
                record { state = up o.state; readers = set o.readers j (asleep cnt) },
                next here (moves j at (rest s s o.state old)),
                omega arith,
                Keeps-set o.readers o.readers j (checking 0 cnt) (asleep cnt) stay at refl,
              )
        ]
    resting j cnt (suc f_pos) at e = absurd (omega (arith, e))

    holder-Freed : (j : ℕ) (pc : Pc) → get_elem? o.readers j ≡ some pc → holds pc ≡ 1 → Freed o
    holder-Freed j (copying f_pos cnt) at one = copying-Freed o o j f_pos cnt here stay at
    holder-Freed j (leaving f_pos) at one = (
      record {
        state = up o.state;
        readers = set o.readers j (returned (failed erestartsys) f_pos);
      },
      next here (moves j at leave),
      omega arith,
      Keeps-set o.readers o.readers j (leaving f_pos) _ stay at refl,
    )
    holder-Freed j (checking zero cnt) at one = resting j cnt 0 at refl
    holder-Freed j (checking (suc f_pos) cnt) at one =
        copying-Freed o
          (record { state = o.state; readers = set o.readers j (copying (suc f_pos) cnt) }) j
          (suc f_pos) cnt (next here (moves j at (skip (omega arith))))
          (Keeps-set o.readers o.readers j (checking (suc f_pos) cnt) (copying (suc f_pos) cnt) stay
            at refl)
          (set_self o.readers j (checking (suc f_pos) cnt) (copying (suc f_pos) cnt) at)
    holder-Freed j _ at one = absurd (omega (arith, one))

    any-Freed : 0 < o.state.lock + holders o.readers → Freed o
    any-Freed some_left = elim (Bool-cases (ltb 0 o.state.lock)) [
      | inl y ↦ (o, here, ground arith, stay)
      | inr n ↦
          let (j, pc, at, one) = holder o.readers (ground (arith, some_left)) in
          holder-Freed j pc at one
    ]

-- A process in `down_interruptible`, and where it stands when it has the semaphore.
abbrev pub IsBlocked : Pc → Type 0
IsBlocked (wanting f_pos cnt) = Unit {0}
IsBlocked (waking cnt) = Unit {0}
IsBlocked _ = ⊥

abbrev pub behind : Pc → Pc
behind (wanting f_pos cnt) = checking f_pos cnt
behind (waking cnt) = checking 0 cnt
behind pc = pc

module _ (lookup : Msr → ℕ → ℤ) where
  entering :
      (o p : OpenFile) (i : ℕ) (pc : Pc)
      → IsBlocked pc
      → Reach lookup o p 0
      → 0 < p.state.lock
      → get_elem? p.readers i ≡ some pc
      → (q : OpenFile) × Reach lookup o q 0 × (get_elem? q.readers i ≡ some (behind pc))
  entering o p i (wanting f_pos cnt) b r free at = (
    record { state = after_down ok p.state; readers = set p.readers i (checking f_pos cnt) },
    next r (moves i at (enter free)),
    set_self p.readers i (wanting f_pos cnt) (checking f_pos cnt) at,
  )
  entering o p i (waking cnt) b r free at = (
    record { state = after_down ok p.state; readers = set p.readers i (checking 0 cnt) },
    next r (moves i at (enter_again free)),
    set_self p.readers i (waking cnt) (checking 0 cnt) at,
  )
  entering o p i _ b r free at = absurd b

  blocked-holds : (pc : Pc) → IsBlocked pc → holds pc ≡ 0
  blocked-holds (wanting f_pos cnt) b = refl
  blocked-holds (waking cnt) b = refl
  blocked-holds _ b = absurd b

  -- Whatever the processes of an open file have done, also where signals have come: with a whole
  -- buffer and an initialised sensor, every process that waits for the semaphore can still get it,
  -- by steps without a signal. The readers never lock each other out.
  pub blocked-enters :
      (n : ℕ) {k : ℕ} {st : ChrdevState} {o : OpenFile} (s : Sensor) (i : ℕ) (pc : Pc)
      → IsReady s
      → st.lock ≡ 1
      → length st.buf_data ≡ chrdev_bufsz
      → Reach lookup (opened_by n st) o k
      → get_elem? o.readers i ≡ some pc
      → IsBlocked pc
      → (q : OpenFile) × Reach lookup o q 0 × (get_elem? q.readers i ≡ some (behind pc))
  blocked-enters n {o} s i pc ready free room r at b =
      let (p, freed, unlocked, kept) =
        any-Freed lookup o s ready (Reach-room lookup r ∙ room)
          (omega (arith, Reach-lock lookup n free r)) in
      entering o p i pc b freed unlocked (kept i pc at (blocked-holds pc b))
