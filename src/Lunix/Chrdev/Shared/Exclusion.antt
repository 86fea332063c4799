-- ===== src/Lunix/Chrdev/Shared/Exclusion.antt =====
-- The semaphore between several readers of one open file (Lunix_Device_Driver/lunix-chrdev.c).
use operating_systems_lab_nt.Prelude.{
  ℕ, zero, suc, ap, ◌+◌, ◌≤◌, ◌≡◌, ◌≢◌, refl, Bool, true, false, List, [], ◌∷◌, some, arith,
  get_elem?, set, replicate,
}
use operating_systems_lab_nt.Lunix.Chrdev.{ChrdevState, state_update}
use operating_systems_lab_nt.Lunix.Chrdev.Format.{ℤ}
use operating_systems_lab_nt.Lunix.Chrdev.Locking.{Locked, state_update-Locked, copy_out-lock}
use operating_systems_lab_nt.Lunix.Chrdev.Shared.{
  Pc, outside, Move, call, again, enter, refused, skip, renew, rest, woken, signalled, enter_again,
  restarted, missed, copy, leave, OpenFile, Step, moves, Reach, here, next, opened_by, holds,
  holders,
}
use operating_systems_lab_nt.Lunix.Sensor.{Msr, Sensor}

holders-set :
    (l : List Pc) (i : ℕ) (pc pc' : Pc)
    → get_elem? l i ≡ some pc
    → holders (set l i pc') + holds pc ≡ holders l + holds pc'
holders-set [] i pc pc' h = cc
holders-set (x ∷ l) zero pc pc' h = let same : holds x ≡ holds pc = cc in omega (arith, same)
holders-set (x ∷ l) (suc i) pc pc' h = omega (arith, holders-set l i pc pc' h)

holders-replicate : (n : ℕ) → holders (replicate n outside) ≡ 0
holders-replicate zero = refl
holders-replicate (suc n) = omega (arith, holders-replicate n)

holds-holders : (l : List Pc) (i : ℕ) (pc : Pc) → get_elem? l i ≡ some pc → holds pc ≤ holders l
holds-holders [] i pc h = cc
holds-holders (x ∷ l) zero pc h = let same : holds x ≡ holds pc = cc in omega (arith, same)
holds-holders (x ∷ l) (suc i) pc h = omega (arith, holds-holders l i pc h)

both-holders :
    (l : List Pc) (i j : ℕ) (p q : Pc)
    → get_elem? l i ≡ some p
    → get_elem? l j ≡ some q
    → i ≢ j
    → holds p + holds q ≤ holders l
both-holders [] i j p q g h d = cc
both-holders (x ∷ l) zero zero p q g h d = absurd (d refl)
both-holders (x ∷ l) zero (suc j) p q g h d =
    let same : holds x ≡ holds p = cc in omega (arith, same, holds-holders l j q h)
both-holders (x ∷ l) (suc i) zero p q g h d =
    let same : holds x ≡ holds q = cc in omega (arith, same, holds-holders l i p g)
both-holders (x ∷ l) (suc i) (suc j) p q g h d =
    omega (arith, both-holders l i j p q g h (λ e. d (ap suc e)))

module _ (lookup : Msr → ℕ → ℤ) where
  updated-lock :
      (st st' : ChrdevState) (b : Bool) (checked taken : Sensor)
      → state_update lookup st checked taken ≡ some (b, st')
      → st'.lock ≡ st.lock
  updated-lock st st' b checked taken e =
      let kept : Locked st.lock (some (b, st')) =
        rw e at (state_update-Locked lookup st checked taken) in
      kept

  Move-lock :
      {st st' : ChrdevState} {pc pc' : Pc} {k : ℕ}
      → Move lookup st pc st' pc' k
      → st'.lock + holds pc' ≡ st.lock + holds pc + k
  Move-lock (call f_pos cnt) = omega arith
  Move-lock (again f_pos cnt) = omega arith
  Move-lock (enter free) = omega (arith, free)
  Move-lock refused = omega arith
  Move-lock (skip some_way) = omega arith
  Move-lock {st} (renew checked taken st' e) =
      omega (arith, updated-lock st st' true checked taken e)
  Move-lock {st} (rest checked taken st' e) =
      omega (arith, updated-lock st st' false checked taken e)
  Move-lock woken = omega arith
  Move-lock signalled = omega arith
  Move-lock (enter_again free) = omega (arith, free)
  Move-lock restarted = omega arith
  Move-lock (missed e other) = omega arith
  Move-lock {st} (copy {f_pos} {cnt} copied r st' f_pos' e) =
      let returned_one : st'.lock ≡ st.lock + 1 =
        rw e at (copy_out-lock lookup copied st f_pos cnt) in
      omega (arith, returned_one)
  Move-lock leave = omega arith

  Step-lock :
      {o p : OpenFile} {k : ℕ}
      → Step lookup o p k
      → p.state.lock + holders p.readers ≡ o.state.lock + holders o.readers + k
  Step-lock {o} (moves i {pc} {pc'} at m) =
      omega (arith, Move-lock m, holders-set o.readers i pc pc' at)

  Reach-sum :
      {o p : OpenFile} {k : ℕ}
      → Reach lookup o p k
      → p.state.lock + holders p.readers ≡ o.state.lock + holders o.readers + k
  Reach-sum here = omega arith
  Reach-sum (next r s) = omega (arith, Reach-sum r, Step-lock s)

  -- Whatever the processes of an open file do, and in whatever order: the count of the semaphore
  -- and the number of processes between their down and up are together one, and one more for each
  -- time that a process goes on from its sleep without the semaphore to code that gives it back, as
  -- it does at a signal.
  pub Reach-lock :
      (n : ℕ) {k : ℕ} {st : ChrdevState} {o : OpenFile}
      → st.lock ≡ 1
      → Reach lookup (opened_by n st) o k
      → o.state.lock + holders o.readers ≡ 1 + k
  Reach-lock n free r = omega (arith, free, Reach-sum r, holders-replicate n)

  -- As long as no process goes on from its sleep without the semaphore, two processes that read the
  -- same open file are never between their down and up together.
  pub Reach-exclusive_readers :
      (n : ℕ) {st : ChrdevState} {o : OpenFile} (i j : ℕ) (p q : Pc)
      → st.lock ≡ 1
      → Reach lookup (opened_by n st) o 0
      → i ≢ j
      → get_elem? o.readers i ≡ some p
      → get_elem? o.readers j ≡ some q
      → holds p + holds q ≤ 1
  Reach-exclusive_readers n {o} i j p q free r other at_i at_j =
      omega (arith, Reach-lock n free r, both-holders o.readers i j p q at_i at_j other)
