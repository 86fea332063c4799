-- ===== src/Attach/Lock/Exclusion.antt =====
-- The lock of Lunix_Device_Driver/lunix-attach.c between processes, on a system whose files hold
-- what is written to them.
use operating_systems_lab_nt.Prelude.{
  ℕ, ◌+◌, ◌-◌, ◌≤◌, ◌<◌, ◌≡◌, ◌≢◌, refl, ◌∙◌, ◌⊎◌, Bool, true, false, List, [], ◌∷◌, ◌++◌, Option,
  none, some, arith, ltb, ◌==◌, length, Bool-cases, inl, inr, length-append, length-replicate,
  replicate,
}
use operating_systems_lab_nt.Lunix.Chrdev.Format.{decimal}
use operating_systems_lab_nt.Lunix.Chrdev.Text.{length-decimal}
use operating_systems_lab_nt.Lunix.Kernel.{Ret, ok, err}
use operating_systems_lab_nt.Attach.System.{System, missing, pid}
use operating_systems_lab_nt.Attach.Lock.{
  path_max, lock_prefix, print_pid, Saved, tty_already_locked, hand_to_uucp, after_write,
  after_creat, take_lock, tty_lock, tty_unlock,
}

-- What is documented of files: one that is created and written holds the number that was printed,
-- its owner does not matter to it, and one that is unlinked is gone.
pub record KeepsFiles {W : Type 0} (sys : System W) : Type 0 where
  pub written :
      (path : List ℕ) (own fd : ℕ) (w w1 w2 : W)
      → sys.creat path w ≡ (some fd, w1)
      → sys.write fd (print_pid own) w1 ≡ (some (length (print_pid own)), w2)
      → sys.read_pid path (sys.close fd w2) ≡ pid own
  pub owned :
      (path other : List ℕ) (owner : ℕ × ℕ) (w : W)
      → sys.read_pid path (sys.chown other owner w) ≡ sys.read_pid path w
  pub unlinked :
      (path : List ℕ) (w w' : W) → sys.unlink path w ≡ (true, w') → sys.read_pid path w' ≡ missing

-- The text of a process number below 2^31, with its NUL, fits the array of 16 bytes.
pub length-print_pid : (own : ℕ) → own < 2147483648 → length (print_pid own) + 1 ≤ 16
length-print_pid own h = omega (
  arith,
  length-decimal own (omega arith),
  length-append (replicate (10 - length (decimal own)) b' ') (decimal own ++ (b'\n' ∷ [])),
  length-append (decimal own) (b'\n' ∷ []),
  length-replicate {A = ℕ} (10 - length (decimal own)) b' ',
)

module _ {W : Type 0} (sys : System W) (files : KeepsFiles sys) where
  -- The lock as a call that succeeds leaves it: the file holds the number of the process, and the
  -- process knows that it has a lock where the system knows the user uucp.
  pub record Holds (own : ℕ) (path : List ℕ) (knew : Bool) (st : Saved) (w : W) : Type 0 where
    pub there : st.saved_path ≡ path
    pub in_file : sys.read_pid path w ≡ pid own
    pub known :
        ((w0 : W) × (sys.uucp w0 ≡ none) × (st.saved_lock ≡ knew))
        ⊎ ((w0 : W) × (owner : ℕ × ℕ) × (sys.uucp w0 ≡ some owner) × (st.saved_lock ≡ true))

  abbrev Locks : ℕ → List ℕ → Bool → Ret × Saved × W → Type 0
  Locks own path knew (ok, st, w) = Holds own path knew st w
  Locks own path knew (err e, st, w) = Unit {0}

  module _ (own : ℕ) (st : Saved) where
    handed-Locks :
        (o : Option (ℕ × ℕ)) (w : W)
        → sys.uucp w ≡ o
        → sys.read_pid st.saved_path w ≡ pid own
        → Locks own st.saved_path st.saved_lock (hand_to_uucp sys o st w)
    handed-Locks none w u r = record { there = refl; in_file = r; known = inl (w, u, refl) }
    handed-Locks (some owner) w u r = record {
      there = refl;
      in_file = files.owned st.saved_path st.saved_path owner w ∙ r;
      known = inr (w, owner, u, refl);
    }

    written-Locks :
        (fd : ℕ) (w w1 w2 : W) (ret : Option ℕ)
        → sys.creat st.saved_path w ≡ (some fd, w1)
        → sys.write fd (print_pid own) w1 ≡ (ret, w2)
        → Locks own st.saved_path st.saved_lock (after_write sys fd (print_pid own) ret st w2)
    written-Locks fd w w1 w2 none c e = tt
    written-Locks fd w w1 w2 (some n) c e = elim (Bool-cases (n == length (print_pid own))) [
      | inr short ↦ rw short tt
      | inl whole ↦
          let all : n ≡ length (print_pid own) = ground arith in
          rw whole (
            handed-Locks (sys.uucp (sys.close fd w2)) (sys.close fd w2) refl
              (files.written st.saved_path own fd w w1 w2 c (rw all at e)))
    ]

    created-Locks :
        (w w1 : W) (fd : Option ℕ)
        → sys.creat st.saved_path w ≡ (fd, w1)
        → Locks own st.saved_path st.saved_lock (after_creat sys own fd st w1)
    created-Locks w w1 none c = tt
    created-Locks w w1 (some fd) c =
        let (ret, w2) = sys.write fd (print_pid own) w1 in written-Locks fd w w1 w2 ret c refl

    take_lock-Locks : (w : W) → Locks own st.saved_path st.saved_lock (take_lock sys own st w)
    take_lock-Locks w = elim (Bool-cases (tty_already_locked sys st.saved_path w)) [
      | inl held ↦ rw held tt
      | inr free ↦
          rw free (created-Locks w (sys.creat st.saved_path w).1 (sys.creat st.saved_path w).0 refl)
    ]

  module _ (own : ℕ) (path : List ℕ) (st st' : Saved) (w w' : W)
      (locked : tty_lock sys own path st w ≡ some (ok, st', w')) where
    pub tty_lock-Holds : Holds own (lock_prefix ++ path) st.saved_lock st' w'
    unfolding tty_lock
    tty_lock-Holds = elim (Bool-cases (ltb (length (lock_prefix ++ path)) path_max)) [
      | inr long ↦ cc (rw long at locked)
      | inl fits ↦
          let st0 : Saved = record st { saved_path = lock_prefix ++ path } in
          let done : take_lock sys own st0 w ≡ (ok, st', w') = cc (rw fits at locked) in
          rw done at (take_lock-Locks own st0 w)
    ]

    fits : ltb (length (lock_prefix ++ path)) path_max ≡ true
    unfolding tty_lock
    fits = elim (Bool-cases (ltb (length (lock_prefix ++ path)) path_max)) [
      | inr long ↦ cc (rw long at locked)
      | inl enough ↦ enough
    ]

    -- In any state in which the lock file reads as the locking left it and the process lives, no
    -- process can lock the line: the call fails and touches no file.
    pub tty_lock-excludes :
        (other : ℕ) (st2 : Saved) (w2 : W)
        → sys.read_pid (lock_prefix ++ path) w2 ≡ sys.read_pid (lock_prefix ++ path) w'
        → sys.alive own w2 ≡ true
        → tty_lock sys other path st2 w2
          ≡ some (err 1, record st2 { saved_path = lock_prefix ++ path }, w2)
    unfolding tty_lock tty_already_locked
    tty_lock-excludes other st2 w2 same live = rw (fits, same ∙ tty_lock-Holds.in_file, live) refl

    -- How an unlocking ends whose `unlink` returns `done` and leaves `w2`.
    abbrev pub Unlocked : Bool → W → Type 0
    Unlocked true w2 =
        (tty_unlock sys st' w' ≡ (ok, record st' { saved_lock = false }, w2))
        × (sys.read_pid (lock_prefix ++ path) w2 ≡ missing)
    Unlocked false w2 = tty_unlock sys st' w' ≡ (err 1, st', w2)

    unlocked :
        (done : Bool) (w2 : W)
        → st'.saved_lock ≡ true
        → sys.unlink (lock_prefix ++ path) w' ≡ (done, w2)
        → Unlocked done w2
    unfolding tty_unlock
    unlocked true w2 knows gone = (
      rw (knows, tty_lock-Holds.there, gone) refl,
      files.unlinked (lock_prefix ++ path) w' w2 gone,
    )
    unlocked false w2 knows gone = rw (knows, tty_lock-Holds.there, gone) refl

    -- Where the user uucp is known, unlocking after locking unlinks the lock file: where that
    -- succeeds the call returns 0, the file is gone and the process knows that it has no lock;
    -- where it fails the call returns an error, and the process still knows that it has the lock.
    pub tty_unlock-tty_lock :
        (done : Bool) (w2 : W)
        → ((w0 : W) → sys.uucp w0 ≢ none)
        → sys.unlink (lock_prefix ++ path) w' ≡ (done, w2)
        → Unlocked done w2
    unfolding tty_unlock
    tty_unlock-tty_lock done w2 uucp gone = elim tty_lock-Holds.known [
      | inl (w0, none_found, _) ↦ absurd (uucp w0 none_found)
      | inr (w0, owner, _, knows) ↦ unlocked done w2 knows gone
    ]

    -- Where the user uucp is not known, the first lock of a process is not removed by unlocking:
    -- the call returns 0 and the lock file stays.
    pub tty_unlock-forgets :
        ((w0 : W) → sys.uucp w0 ≡ none)
        → st.saved_lock ≡ false
        → (tty_unlock sys st' w' ≡ (ok, st', w'))
          × (sys.read_pid (lock_prefix ++ path) w' ≡ pid own)
    unfolding tty_unlock
    tty_unlock-forgets nobody first = elim tty_lock-Holds.known [
      | inl (w0, _, knows) ↦ (rw (knows, first) refl, tty_lock-Holds.in_file)
      | inr (w0, owner, found, _) ↦ cc (nobody w0)
    ]
