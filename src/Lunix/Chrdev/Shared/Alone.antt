-- ===== src/Lunix/Chrdev/Shared/Alone.antt =====
-- One reader with the file to itself: the steps of `Shared` against the whole of
-- `lunix_chrdev_read` (Lunix_Device_Driver/lunix-chrdev.c).
use operating_systems_lab_nt.Prelude.{
  ℕ, zero, suc, ◌+◌, ◌<◌, ◌≡◌, ◌≢◌, refl, Bool, true, false, List, [], ◌∷◌, Option, some, none,
  arith, ◌==◌, leb, length, Bool-cases, inl, inr,
}
use operating_systems_lab_nt.Lunix.Chrdev.{
  ChrdevState, state_update, Turn, Waited, fresh, out, crashed, refresh, Read, sleeping, faulted,
  copy_out, after_down, up, is_restart, chrdev_read, after_refresh, to_copy,
}
use operating_systems_lab_nt.Lunix.Chrdev.Format.{ℤ}
use operating_systems_lab_nt.Lunix.Chrdev.Shared.{
  Pc, wanting, checking, asleep, waking, copying, leaving, returned, Move, enter, refused, skip,
  renew, rest, woken, signalled, enter_again, restarted, missed, copy, leave, OpenFile, moves,
  Reach, here, next,
}
use operating_systems_lab_nt.Lunix.Kernel.{Ret, ok, err}
use operating_systems_lab_nt.Lunix.Sensor.{Msr, Sensor}

-- One process with the file open.
abbrev pub alone : ChrdevState → Pc → OpenFile
alone st pc = record { state = st; readers = pc ∷ [] }

-- Where a process stands by what its call returns, if it does.
abbrev pub pc_of : Read → ℕ → ℕ → Pc
pc_of sleeping f_pos cnt = asleep cnt
pc_of r f_pos cnt = returned r f_pos

module _ (lookup : Msr → ℕ → ℤ) (o : OpenFile) where
  -- The process comes to stand at `pc`.
  abbrev Comes : ChrdevState → Pc → Type 0
  Comes st pc = (k : ℕ) × Reach lookup o (alone st pc) k

  goes :
      {st st' : ChrdevState} {pc pc' : Pc} {k : ℕ}
      → Comes st pc
      → Move lookup st pc st' pc' k
      → Comes st' pc'
  goes {k} (j, r) m = (j + k, next r (moves 0 refl m))

  abbrev Ended : ℕ → Waited → Type 0
  Ended cnt (fresh st) = Comes st (copying 0 cnt)
  Ended cnt (out st) = Comes st (leaving 0)
  Ended cnt (Waited.asleep st) = Comes st (asleep cnt)
  Ended cnt crashed = Unit

  module _ (cnt : ℕ) (st : ChrdevState) (checked taken : Sensor)
      (at : Comes st (checking 0 cnt)) where
    last :
        (r : Option (Bool × ChrdevState))
        → state_update lookup st checked taken ≡ r
        → Ended cnt (elim r [
          | none ↦ crashed
          | some (true, st') ↦ fresh st'
          | some (false, st') ↦ Waited.asleep (up st')
        ])
    last none e = tt
    last (some (true, st')) e = goes at (renew checked taken st' e)
    last (some (false, st')) e = goes at (rest checked taken st' e)

    turn :
        (r : Option (Bool × ChrdevState)) (wait down : Ret) (checked' taken' : Sensor)
        (turns : List Turn)
        → state_update lookup st checked taken ≡ r
        → ((st' : ChrdevState)
            → Comes st' (checking 0 cnt)
            → Ended cnt (refresh lookup st' checked' taken' turns))
        → Ended cnt (elim r [
          | none ↦ crashed
          | some (true, st') ↦ fresh st'
          | some (false, st') ↦ elim (is_restart wait) [
            | true ↦ out (up st')
            | false ↦ elim (is_restart down) [
              | true ↦ out (after_down down (up st'))
              | false ↦ refresh lookup (after_down down (up st')) checked' taken' turns
            ]
          ]
        ])
    turn none wait down checked' taken' turns e later = tt
    turn (some (true, st')) wait down checked' taken' turns e later =
        goes at (renew checked taken st' e)
    turn (some (false, st')) wait down checked' taken' turns e later =
        let slept = goes at (rest checked taken st' e) in
        elim (Bool-cases (is_restart wait)) [
          | inl y ↦ rw y (goes slept signalled)
          | inr n ↦ rw n (again down (goes slept woken))
        ]
      where
        again :
            (down : Ret)
            → Comes (up st') (waking cnt)
            → Ended cnt (elim (is_restart down) [
              | true ↦ out (after_down down (up st'))
              | false ↦ refresh lookup (after_down down (up st')) checked' taken' turns
            ])
        again ok awake = later _ (goes awake (enter_again (omega arith)))
        again (err code) awake = elim (Bool-cases (is_restart (err code))) [
          | inl y ↦ rw y (goes awake restarted)
          | inr n ↦ rw n (later _ (goes awake (missed code n)))
        ]

  refresh-Ended :
      (cnt : ℕ) (turns : List Turn) (st : ChrdevState) (checked taken : Sensor)
      → Comes st (checking 0 cnt)
      → Ended cnt (refresh lookup st checked taken turns)
  unfolding refresh
  refresh-Ended cnt [] st checked taken at =
      last cnt st checked taken at (state_update lookup st checked taken) refl
  refresh-Ended cnt (t ∷ turns) st checked taken at =
      turn cnt st checked taken at (state_update lookup st checked taken) t.wait t.down t.checked
        t.taken turns refl (λ st' at'. refresh-Ended cnt turns st' t.checked t.taken at')

  copy_out-awake :
      (copied : Bool) (st : ChrdevState) (f_pos cnt p : ℕ)
      → pc_of (copy_out copied st f_pos cnt).0 p cnt ≡ returned (copy_out copied st f_pos cnt).0 p
  unfolding copy_out
  copy_out-awake copied st f_pos cnt p =
      elim (Bool-cases (leb (f_pos + to_copy st f_pos cnt) (length st.buf_data))) [
        | inr over ↦ rw over refl
        | inl fits ↦ elim (Bool-cases copied) [
          | inl y ↦ rw (fits, y) refl
          | inr n ↦ rw (fits, n) refl
        ]
      ]

  copies :
      (copied : Bool) (st : ChrdevState) (f_pos cnt : ℕ)
      → Comes st (copying f_pos cnt)
      → let (r, st', f_pos') = copy_out copied st f_pos cnt in Comes st' (pc_of r f_pos' cnt)
  copies copied st f_pos cnt at =
      rw (copy_out-awake copied st f_pos cnt (copy_out copied st f_pos cnt).2)
        (goes at (copy copied _ _ _ refl))

  after_refresh-Comes :
      (copied : Bool) (cnt : ℕ) (st : ChrdevState) (w : Waited)
      → Ended cnt w
      → let (r, st', f_pos') = after_refresh copied 0 cnt st w in
        r ≢ faulted → Comes st' (pc_of r f_pos' cnt)
  after_refresh-Comes copied cnt st (fresh st') at ne = copies copied st' 0 cnt at
  after_refresh-Comes copied cnt st (out st') at ne = goes at leave
  after_refresh-Comes copied cnt st (Waited.asleep st') at ne = at
  after_refresh-Comes copied cnt st crashed at ne = absurd (ne refl)

-- A call that finds the semaphore free and does not fault is made of the steps of one process that
-- has the file to itself, whatever the kernel answers: they come to its return, with the same
-- result, position and state, or to its sleep.
pub chrdev_read-Reach :
    (lookup : Msr → ℕ → ℤ) (down : Ret) (copied : Bool) (st : ChrdevState) (checked taken : Sensor)
    (turns : List Turn) (f_pos cnt : ℕ)
    → 0 < st.lock
    → (chrdev_read lookup down copied st checked taken turns f_pos cnt).0 ≢ faulted
    → let (r, st', f_pos') = chrdev_read lookup down copied st checked taken turns f_pos cnt in
      (k : ℕ) × Reach lookup (alone st (wanting f_pos cnt)) (alone st' (pc_of r f_pos' cnt)) k
unfolding chrdev_read
chrdev_read-Reach lookup (err e) copied st checked taken turns f_pos cnt free ne =
    goes lookup (alone st (wanting f_pos cnt)) (0, here) refused
chrdev_read-Reach lookup ok copied st checked taken turns zero cnt free ne =
    let o = alone st (wanting 0 cnt) in
    let entered = goes lookup o (0, here) (enter free) in
    after_refresh-Comes lookup o copied cnt (after_down ok st)
      (refresh lookup (after_down ok st) checked taken turns)
      (refresh-Ended lookup o cnt turns (after_down ok st) checked taken entered) ne
chrdev_read-Reach lookup ok copied st checked taken turns (suc f_pos) cnt free ne =
    let o = alone st (wanting (suc f_pos) cnt) in
    let entered = goes lookup o (0, here) (enter free) in
    let moved : (suc f_pos == 0) ≡ false = ground arith in
    rw moved (
      copies lookup o copied (after_down ok st) (suc f_pos) cnt
        (goes lookup o entered (skip (omega arith))))
