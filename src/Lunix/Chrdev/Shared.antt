-- ===== src/Lunix/Chrdev/Shared.antt =====
-- Processes that read one open file of a character device at the same time: `lunix_chrdev_read`
-- (Lunix_Device_Driver/lunix-chrdev.c) in the steps between its calls of `down` and `up`.
pub mod Exclusion
pub mod Room
pub mod Progress
pub mod Alone
use operating_systems_lab_nt.Prelude.{
  ℕ, ◌+◌, ◌<◌, ◌≡◌, Bool, true, false, List, [], ◌∷◌, some, get_elem?, set, replicate,
}
use operating_systems_lab_nt.Lunix.Chrdev.{
  ChrdevState, state_update, Read, failed, copy_out, after_down, up, erestartsys, is_restart,
}
use operating_systems_lab_nt.Lunix.Chrdev.Format.{ℤ}
use operating_systems_lab_nt.Lunix.Kernel.{ok, err}
use operating_systems_lab_nt.Lunix.Sensor.{Msr, Sensor}

-- Where a process stands, with its file position and the size that it asks for; in the loop the
-- position is 0.
pub data Pc : Type 0 where
  outside : Pc
  -- before the first `down_interruptible`
  wanting : (f_pos cnt : ℕ) → Pc
  -- behind a `down_interruptible`
  checking : (f_pos cnt : ℕ) → Pc
  -- in `wait_event_interruptible`
  asleep : (cnt : ℕ) → Pc
  -- before the second `down_interruptible`
  waking : (cnt : ℕ) → Pc
  -- behind the loop
  copying : (f_pos cnt : ℕ) → Pc
  -- at the label `out`, by `goto`
  leaving : (f_pos : ℕ) → Pc
  returned : (r : Read) (f_pos : ℕ) → Pc

-- One step of one process. The last number is 1 where it goes on without the semaphore to code
-- that will give it back.
pub data Move (lookup : Msr → ℕ → ℤ) (st : ChrdevState) : Pc → ChrdevState → Pc → ℕ → Type 0 where
  call : (f_pos cnt : ℕ) → Move lookup st outside st (wanting f_pos cnt) 0
  again :
      {r : Read} {old : ℕ} (f_pos cnt : ℕ)
      → Move lookup st (returned r old) st (wanting f_pos cnt) 0
  enter :
      {f_pos cnt : ℕ}
      → 0 < st.lock
      → Move lookup st (wanting f_pos cnt) (after_down ok st) (checking f_pos cnt) 0
  refused :
      {f_pos cnt : ℕ}
      → Move lookup st (wanting f_pos cnt) st (returned (failed erestartsys) f_pos) 0
  skip : {f_pos cnt : ℕ} → 0 < f_pos → Move lookup st (checking f_pos cnt) st (copying f_pos cnt) 0
  renew :
      {cnt : ℕ} (checked taken : Sensor) (st' : ChrdevState)
      → state_update lookup st checked taken ≡ some (true, st')
      → Move lookup st (checking 0 cnt) st' (copying 0 cnt) 0
  rest :
      {cnt : ℕ} (checked taken : Sensor) (st' : ChrdevState)
      → state_update lookup st checked taken ≡ some (false, st')
      → Move lookup st (checking 0 cnt) (up st') (asleep cnt) 0
  woken : {cnt : ℕ} → Move lookup st (asleep cnt) st (waking cnt) 0
  signalled : {cnt : ℕ} → Move lookup st (asleep cnt) st (leaving 0) 1
  enter_again :
      {cnt : ℕ} → 0 < st.lock → Move lookup st (waking cnt) (after_down ok st) (checking 0 cnt) 0
  restarted : {cnt : ℕ} → Move lookup st (waking cnt) st (leaving 0) 1
  missed :
      {cnt : ℕ} (e : ℕ)
      → is_restart (err e) ≡ false
      → Move lookup st (waking cnt) st (checking 0 cnt) 1
  copy :
      {f_pos cnt : ℕ} (copied : Bool) (r : Read) (st' : ChrdevState) (f_pos' : ℕ)
      → copy_out copied st f_pos cnt ≡ (r, st', f_pos')
      → Move lookup st (copying f_pos cnt) st' (returned r f_pos') 0
  leave :
      {f_pos : ℕ} → Move lookup st (leaving f_pos) (up st) (returned (failed erestartsys) f_pos) 0

-- An open file and the processes that use it.
pub record OpenFile : Type 0 where
  pub state : ChrdevState
  pub readers : List Pc

-- Any process takes a step.
pub data Step (lookup : Msr → ℕ → ℤ) (o : OpenFile) : OpenFile → ℕ → Type 0 where
  moves :
      (i : ℕ) {pc pc' : Pc} {st' : ChrdevState} {k : ℕ}
      → get_elem? o.readers i ≡ some pc
      → Move lookup o.state pc st' pc' k
      → Step lookup o (record { state = st'; readers = set o.readers i pc' }) k

-- What steps lead to; the number counts those that go on without the semaphore.
pub data Reach (lookup : Msr → ℕ → ℤ) (o : OpenFile) : OpenFile → ℕ → Type 0 where
  here : Reach lookup o o 0
  next :
      {p q : OpenFile} {k j : ℕ} → Reach lookup o p k → Step lookup p q j → Reach lookup o q (k + j)

-- `n` processes that have the file open.
abbrev pub opened_by : ℕ → ChrdevState → OpenFile
opened_by n st = record { state = st; readers = replicate n outside }

-- 1 between `down` and `up`.
abbrev pub holds : Pc → ℕ
holds (checking f_pos cnt) = 1
holds (copying f_pos cnt) = 1
holds (leaving f_pos) = 1
holds _ = 0

abbrev pub holders : List Pc → ℕ
holders [] = 0
holders (pc ∷ readers) = holds pc + holders readers
