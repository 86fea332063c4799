-- ===== src/Lunix/Chrdev/Locking.antt =====
-- The semaphore of a character device's state (Lunix_Device_Driver/lunix-chrdev.c): what
-- `lunix_chrdev_read` leaves of it.
use operating_systems_lab_nt.Prelude.{
  Bool-cases, inl, inr, ℕ, leb, length, ◌+◌, ◌%◌, ◌^◌, ◌<◌, ◌≡◌, ◌≢◌, refl, ap, ◌∙◌, Bool, true,
  false, List, [], ◌∷◌, arith, if◌then◌else◌, ◌==◌, All, Option, none, some, ◌>>=◌, ◌≤◌, ltb,
}
use operating_systems_lab_nt.Lunix.Chrdev.{
  to_copy, ChrdevState, needs_refresh, sprintf, strlen, state_update, Turn, Waited, fresh, out,
  asleep, crashed, refresh, faulted, copy_out, chrdev_read, after_down, after_refresh, up,
  is_restart, failed, erestartsys,
}
use operating_systems_lab_nt.Lunix.Chrdev.Format.{ℤ, text}
use operating_systems_lab_nt.Lunix.Kernel.{Ret, ok, err}
use operating_systems_lab_nt.Lunix.Sensor.{Msr, MsrData, Sensor, msr_data}

-- The process sleeps and takes the semaphore again with no signal.
pub record IsCalm (t : Turn) : Type 0 where
  pub slept : t.wait ≡ ok
  pub taken : t.down ≡ ok

abbrev pub Locked : ℕ → Option (Bool × ChrdevState) → Type 0
Locked n none = Unit {0}
Locked n (some (b, st)) = st.lock ≡ n

module _ (lookup : Msr → ℕ → ℤ) where
  updated-Locked :
      (st : ChrdevState) (seen : Option Bool) (stamp : ℕ) (page : Option MsrData)
      (printed : MsrData → Option (List ℕ))
      → Locked st.lock (
          seen >>= λ due.
          if due
          then (page >>= λ p.
              (printed p >>= λ d.
              some (record st { buf_timestamp = p.last_update; buf_data = d; buf_lim = strlen d }))
              >>= λ st'. some (true, st'))
          else some (false, st))
  updated-Locked st none stamp page printed = tt
  updated-Locked st (some false) stamp page printed = refl
  updated-Locked st (some true) stamp none printed = tt
  updated-Locked st (some true) stamp (some p) printed = go (printed p)
    where
      go :
          (o : Option (List ℕ))
          → Locked st.lock (
              (o >>= λ d.
              some (record st { buf_timestamp = p.last_update; buf_data = d; buf_lim = strlen d }))
              >>= λ st'. some (true, st'))
      go none = tt
      go (some d) = refl

  pub state_update-Locked :
      (st : ChrdevState) (checked taken : Sensor)
      → Locked st.lock (state_update lookup st checked taken)
  unfolding state_update
  state_update-Locked st checked taken =
      updated-Locked st (needs_refresh st checked) 0 (msr_data taken st.type)
        (λ p. sprintf st.buf_data (text (lookup st.type (p.value % 2 ^ 16))))

-- The semaphore after the loop, for one that counted `n` before it was taken.
abbrev After : ℕ → Waited → Type 0
After n (fresh st) = st.lock + 1 ≡ n
After n (out st) = ⊥
After n (asleep st) = st.lock ≡ n
After n crashed = Unit {0}

module _ (lookup : Msr → ℕ → ℤ) where
  ending :
      (n : ℕ) (st : ChrdevState) (r : Option (Bool × ChrdevState))
      → Locked st.lock r
      → st.lock + 1 ≡ n
      → After n (elim r [
        | none ↦ crashed
        | some (true, st') ↦ fresh st'
        | some (false, st') ↦ asleep (up st')
      ])
  ending n st none h e = tt
  ending n st (some (true, st')) h e = omega (arith, h, e)
  ending n st (some (false, st')) h e = omega (arith, h, e)

  turning :
      (n : ℕ) (st : ChrdevState) (r : Option (Bool × ChrdevState)) (t : Turn) (turns : List Turn)
      → Locked st.lock r
      → st.lock + 1 ≡ n
      → IsCalm t
      → ((st' : ChrdevState)
          → st'.lock + 1 ≡ n
          → After n (refresh lookup st' t.checked t.taken turns))
      → After n (elim r [
        | none ↦ crashed
        | some (true, st') ↦ fresh st'
        | some (false, st') ↦ elim (is_restart t.wait) [
          | true ↦ out (up st')
          | false ↦ elim (is_restart t.down) [
            | true ↦ out (after_down t.down (up st'))
            | false ↦ refresh lookup (after_down t.down (up st')) t.checked t.taken turns
          ]
        ]
      ])
  turning n st none t turns h e calm later = tt
  turning n st (some (true, st')) t turns h e calm later = omega (arith, h, e)
  turning n st (some (false, st')) t turns h e calm later =
      rw (calm.slept, calm.taken)
        (later (after_down t.down (up st')) (rw calm.taken (omega (arith, h, e))))

  refresh-After :
      (n : ℕ) (turns : List Turn) (st : ChrdevState) (checked taken : Sensor)
      → st.lock + 1 ≡ n
      → All IsCalm turns
      → After n (refresh lookup st checked taken turns)
  unfolding refresh
  refresh-After n [] st checked taken e h =
      ending n st (state_update lookup st checked taken)
        (state_update-Locked lookup st checked taken) e
  refresh-After n (t ∷ turns) st checked taken e h =
      turning n st (state_update lookup st checked taken) t turns
        (state_update-Locked lookup st checked taken) e h.0
        (λ st' e'. refresh-After n turns st' t.checked t.taken e' h.1)

  pub copy_out-up :
      (copied : Bool) (st : ChrdevState) (f_pos cnt : ℕ) → (copy_out copied st f_pos cnt).1 ≡ up st
  unfolding copy_out
  copy_out-up copied st f_pos cnt =
      elim (Bool-cases (leb (f_pos + to_copy st f_pos cnt) (length st.buf_data))) [
        | inr over ↦ rw over refl
        | inl fits ↦ elim (Bool-cases copied) [
          | inl y ↦ rw (fits, y) refl
          | inr n ↦ rw (fits, n) refl
        ]
      ]

  pub copy_out-lock :
      (copied : Bool) (st : ChrdevState) (f_pos cnt : ℕ)
      → (copy_out copied st f_pos cnt).1.lock ≡ st.lock + 1
  copy_out-lock copied st f_pos cnt =
      ap (λ (s : ChrdevState). s.lock) (copy_out-up copied st f_pos cnt)

  after_refresh-lock :
      (copied : Bool) (f_pos cnt n : ℕ) (st : ChrdevState) (w : Waited)
      → After n w
      → (after_refresh copied f_pos cnt st w).0 ≢ faulted
      → (after_refresh copied f_pos cnt st w).1.lock ≡ n
  after_refresh-lock copied f_pos cnt n st (fresh st') a ne = copy_out-lock copied st' f_pos cnt ∙ a
  after_refresh-lock copied f_pos cnt n st (out st') a ne = absurd a
  after_refresh-lock copied f_pos cnt n st (asleep st') a ne = a
  after_refresh-lock copied f_pos cnt n st crashed a ne = absurd (ne refl)

  -- Where the semaphore is free, a read that does not fault, and that no signal stops in its loop,
  -- leaves the semaphore as it found it, whether it returns bytes, fails, or sleeps still.
  pub chrdev_read-lock :
      (down : Ret) (copied : Bool) (st : ChrdevState) (checked taken : Sensor) (turns : List Turn)
      (f_pos cnt : ℕ)
      → 0 < st.lock
      → All IsCalm turns
      → (chrdev_read lookup down copied st checked taken turns f_pos cnt).0 ≢ faulted
      → (chrdev_read lookup down copied st checked taken turns f_pos cnt).1.lock ≡ st.lock
  unfolding chrdev_read
  chrdev_read-lock (err e) copied st checked taken turns f_pos cnt free calm ne = refl
  chrdev_read-lock ok copied st checked taken turns f_pos cnt free calm ne = go (f_pos == 0) ne
    where
      go :
          (b : Bool)
          → (if b
              then after_refresh copied f_pos cnt
                  (after_down ok st)
                  (refresh lookup (after_down ok st) checked taken turns)
              else copy_out copied (after_down ok st) f_pos cnt).0
            ≢ faulted
          → (if b
              then after_refresh copied f_pos cnt
                  (after_down ok st)
                  (refresh lookup (after_down ok st) checked taken turns)
              else copy_out copied (after_down ok st) f_pos cnt).1.lock
            ≡ st.lock
      go true ne =
          after_refresh-lock copied f_pos cnt st.lock (after_down ok st) _
            (refresh-After st.lock turns (after_down ok st) checked taken (omega arith) calm) ne
      go false ne = copy_out-lock copied (after_down ok st) f_pos cnt ∙ (omega arith)

  module _ (st : ChrdevState) (checked taken : Sensor) (old : MsrData)
      (h : msr_data checked st.type ≡ some old) (stale : old.last_update ≤ st.buf_timestamp) where
    not_fresh : state_update lookup st checked taken ≡ some (false, st)
    unfolding state_update
    not_fresh =
        let seen : ltb st.buf_timestamp old.last_update ≡ false = ground (arith, stale) in
        rw (h, seen) refl

    interrupted :
        (t : Turn) (turns : List Turn)
        → t.wait ≡ err erestartsys
        → refresh lookup st checked taken (t ∷ turns) ≡ out (up st)
    unfolding refresh
    interrupted t turns signal = rw (not_fresh, signal, refresh) refl

  -- A read at the start of the file that takes the semaphore, finds nothing newer than its cache
  -- and is stopped by a signal in its sleep gives the semaphore back twice: it then counts one more
  -- than before.
  pub chrdev_read-over_releases :
      (copied : Bool) (st : ChrdevState) (checked taken : Sensor) (old : MsrData) (t : Turn)
      (turns : List Turn) (cnt : ℕ)
      → 0 < st.lock
      → msr_data checked st.type ≡ some old
      → old.last_update ≤ st.buf_timestamp
      → t.wait ≡ err erestartsys
      → let (r, st', f_pos') = chrdev_read lookup ok copied st checked taken (t ∷ turns) 0 cnt in
        (r ≡ failed erestartsys) × (st'.lock ≡ st.lock + 1) × (f_pos' ≡ 0)
  unfolding chrdev_read
  chrdev_read-over_releases copied st checked taken old t turns cnt free h stale signal =
      rw (interrupted (after_down ok st) checked taken old h stale t turns signal)
        (refl, omega arith, refl)
