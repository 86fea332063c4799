-- ===== src/Attach/Line/Run.antt =====
-- A whole run of Lunix_Device_Driver/lunix-attach.c, from `main` to the signal that ends it.
use operating_systems_lab_nt.Prelude.{
  ℕ, ◌<◌, ◌≡◌, ◌≢◌, refl, ap, ◌⊎◌, inl, inr, true, false, Bool-cases, List, ◌∷◌, ◌++◌, Option, none,
  some, Option-cases, ltb, ◌==◌, arith, get_or, drop,
}
use operating_systems_lab_nt.Attach.Flow.{Flow, next, return, fault, continue}
use operating_systems_lab_nt.Attach.Line.{
  Program, Ending, exited, paused, crashed, paths, length_from, too_long, slash_dev, find_line,
  find_named, lock_line, locked, open_line, opened, set_up, tty_open, after_open, main,
}
use operating_systems_lab_nt.Attach.Line.Close.{PutBack, tty_close-set_up}
use operating_systems_lab_nt.Attach.Line.Restore.{KeepsTty, SetUp, set_up-SetUp}
use operating_systems_lab_nt.Attach.Lock.{Saved, path_max, print_path, tty_lock}
use operating_systems_lab_nt.Attach.Lock.Exclusion.{KeepsFiles, tty_lock-Holds}
use operating_systems_lab_nt.Attach.System.{System}
use operating_systems_lab_nt.Lunix.Kernel.{Ret, ok, err}

-- What is documented of the machine: it knows the user uucp, and an `open` that fails sets errno.
pub record Runs {W : Type 0} (sys : System W) : Type 0 where
  pub knows_uucp : (w : W) → sys.uucp w ≢ none
  pub open_fails : (path : List ℕ) (w w' : W) → sys.open_tty path w ≡ (none, w') → 0 < sys.errno w'

-- A flow that, where it returns, returns an error.
abbrev Fails : {A : Type 0} → Flow A → Type 0
Fails (next a) = Unit {0}
Fails (return r) = r ≢ ok
Fails fault = Unit {0}

print_path-Fails :
    (o : Option (List ℕ)) (name : List ℕ)
    → Fails (elim o as (λ (p : Option (List ℕ)). Flow (List ℕ × List ℕ)) [
      | none ↦ fault
      | some full ↦ next (full, name)
    ])
print_path-Fails none name = tt
print_path-Fails (some full) name = tt

too_long-Fails : (name behind : List ℕ) → Fails (too_long name behind)
too_long-Fails name behind = elim (Option-cases (length_from (drop 6 (name ++ (0 ∷ behind))))) [
  | inl e ↦ rw (e, Fails, too_long) tt
  | inr (n, e) ↦ elim (Bool-cases (ltb path_max n)) [
    | inl long ↦ rw (e, Fails, too_long, long) (λ same. cc)
    | inr short ↦
        rw (e, Fails, too_long, short) (print_path-Fails (print_path (slash_dev ++ name)) name)
  ]
]

paths-Fails : (name behind : List ℕ) → Fails (paths name behind)
unfolding paths
paths-Fails name behind = elim (Bool-cases (get_or name 0 0 == b'/')) [
  | inl slash ↦ rw slash tt
  | inr bare ↦ rw bare (too_long-Fails name behind)
]

module _ {W : Type 0} (sys : System W) (files : KeepsFiles sys) (runs : Runs sys) where
  -- A line that was found is locked, and the program knows it.
  abbrev Found : Flow (Unit {0}) × Program W → Type 0
  Found (next _, st) = st.saved.saved_lock ≡ true
  Found (return r, st) = r ≢ ok
  Found (fault, st) = Unit {0}

  opened-Found :
      (o : Option ℕ) (path : List ℕ) (st : Program W) (w : W)
      → sys.open_tty path st.world ≡ (o, w)
      → st.saved.saved_lock ≡ true
      → Found (opened sys (o, w) st)
  opened-Found none path st w e h =
      let some_error : (sys.errno w == 0) ≡ false =
        ground (arith, runs.open_fails path st.world w e) in
      rw some_error (λ same. cc)
  opened-Found (some fd) path st w e h = h

  module _ (own : ℕ) (path file : List ℕ) (st : Program W) where
    knows :
        (saved : Saved) (w : W)
        → tty_lock sys own path st.saved st.world ≡ some (ok, saved, w)
        → saved.saved_lock ≡ true
    knows saved w e = elim (tty_lock-Holds sys files own path st.saved saved st.world w e).known [
      | inl (w0, none_found, _) ↦ absurd (runs.knows_uucp w0 none_found)
      | inr (w0, owner, _, known) ↦ known
    ]

    locked-Found :
        (r : Option (Ret × Saved × W))
        → tty_lock sys own path st.saved st.world ≡ r
        → Found (continue (locked sys r st).0 (λ _. open_line sys file) (locked sys r st).1)
    unfolding open_line
    locked-Found none e = tt
    locked-Found (some (ok, saved, w)) e =
        opened-Found (sys.open_tty file w).0 file (record st { saved = saved; world = w })
          (sys.open_tty file w).1 refl (knows saved w e)
    locked-Found (some (err n, saved, w)) e = λ same. cc

  named-Found :
      (own : ℕ) (st : Program W) (p : Flow (List ℕ × List ℕ))
      → Fails p
      → Found (
          continue p
            (λ q s.
              continue
                (lock_line sys own q.1 s).0
                (λ _. open_line sys q.0)
                (lock_line sys own q.1 s).1)
            st)
  unfolding lock_line
  named-Found own st (next (file, path)) h =
      locked-Found own path file st (tty_lock sys own path st.saved st.world) refl
  named-Found own st (return r) h = h
  named-Found own st fault h = tt

  find_line-Found :
      (own : ℕ) (name behind : List ℕ) (st : Program W)
      → Found (find_line sys own (some name) behind st)
  unfolding find_line find_named
  find_line-Found own name behind st =
      named-Found own st (paths name behind) (paths-Fails name behind)

module _ {W : Type 0} (sys : System W) (files : KeepsFiles sys) (tty_laws : KeepsTty sys)
    (runs : Runs sys) where
  -- How a run ends, by what finding the line has come to.
  abbrev pub Ran : Flow (Unit {0}) × Program W → Ending W → Type 0
  Ran (next _, st) (exited code st') =
      ((code ≡ 1) × (r : Ret) × ((set_up sys st).0 ≡ return r))
      ⊎ ((code ≡ 0) × PutBack sys files tty_laws st st')
  Ran (next _, st) (paused st') = ⊥
  Ran (next _, st) crashed = ⊥
  Ran (return r, st) (exited code st') = code ≡ 1
  Ran (return r, st) (paused st') = ⊥
  Ran (return r, st) crashed = ⊥
  Ran (fault, st) (exited code st') = ⊥
  Ran (fault, st) (paused st') = ⊥
  Ran (fault, st) crashed = Unit {0}

  set_up-Ran :
      (st : Program W) (out : Flow (Unit {0}) × Program W)
      → set_up sys st ≡ out
      → SetUp sys tty_laws st out
      → st.saved.saved_lock ≡ true
      → Ran (next tt, st) (after_open sys true out)
  set_up-Ran st (next _, st2) e up h = inr (refl, tty_close-set_up sys files tty_laws st st2 e h)
  set_up-Ran st (return ok, st2) e up h = absurd (up refl)
  set_up-Ran st (return (err n), st2) e up h = inl (refl, err n, ap (λ p. p.0) e)
  set_up-Ran st (fault, st2) e up h = absurd up

  opened-Ran :
      (r : Flow (Unit {0}) × Program W)
      → Found sys files runs r
      → Ran r (after_open sys true (continue r.0 (λ _. set_up sys) r.1))
  opened-Ran (next _, st) h = set_up-Ran st (set_up sys st) refl (set_up-SetUp sys tty_laws st) h
  opened-Ran (return ok, st) h = absurd (h refl)
  opened-Ran (return (err n), st) h = refl
  opened-Ran (fault, st) h = tt

  -- Where the user uucp is known, a run with one argument that a signal ends comes out in one of
  -- four ways: it faults where the making of the path or of the lock's name does; it exits with 1
  -- where the line is not found; it exits with 1 where the setting up returns an error; or it exits
  -- with 0, the setting up succeeded, and the last calls ask the TTY for the discipline that it had
  -- and the settings that it reported when it was opened and unlink the lock file, each whatever
  -- the calls before it return; where the unlinking succeeds, the lock file is gone.
  pub main-Ran :
      (own : ℕ) (name behind : List ℕ) (st : Program W)
      → Ran (find_line sys own (some name) behind st) (main sys own 2 name behind true st)
  unfolding main tty_open
  main-Ran own name behind st =
      opened-Ran (find_line sys own (some name) behind st)
        (find_line-Found sys files runs own name behind st)
