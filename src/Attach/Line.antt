-- ===== src/Attach/Line.antt =====
-- Opening and closing the TTY in Lunix_Device_Driver/lunix-attach.c, and its `main`.
pub mod Restore
pub mod Close
pub mod Run
use operating_systems_lab_nt.Prelude.{
  ℕ, ◌+◌, Bool, true, false, List, [], ◌∷◌, ◌++◌, Option, none, some, if◌then◌else◌, ltb, ◌==◌,
  length, take, drop, get_or,
}
use operating_systems_lab_nt.Lunix.Kernel.{Ret, ok, err}
use operating_systems_lab_nt.Attach.Flow.{Flow, next, return, fault, Step, ◌>>=◌, ◌>>◌}
use operating_systems_lab_nt.Attach.Lock.{Saved, path_max, print_path, tty_lock, tty_unlock}
use operating_systems_lab_nt.Attach.System.{System}
use operating_systems_lab_nt.Attach.Termios.{
  Termios, str_eq, tty_set_speed, tty_set_databits, tty_set_stopbits, tty_set_parity, tty_set_raw,
}

-- The global data, with the static variables of `tty_lock` and the state of the system.
pub record Program (W : Type 0) : Type 0 where
  pub tty_fd : ℕ
  pub tty_before : Termios
  pub tty_current : Termios
  pub ldisc_before : ℕ
  pub saved : Saved
  pub world : W

-- How `main` ends: with an exit code, asleep in `pause`, or with a fault.
pub data Ending (W : Type 0) : Type 0 where
  exited : ℕ → Program W → Ending W
  paused : Program W → Ending W
  crashed : Ending W

-- N_LUNIX_LDISC
abbrev pub n_lunix_ldisc : ℕ
n_lunix_ldisc = 8

-- `-errno`
abbrev pub minus : ℕ → Ret
minus e = if e == 0 then ok else err e

abbrev slash_dev : List ℕ
slash_dev = b'/' ∷ b'd' ∷ b'e' ∷ b'v' ∷ b'/' ∷ []

-- `strlen` of what lies in memory from some place on; with no NUL it is a fault.
abbrev pub length_from : List ℕ → Option ℕ
length_from [] = none
length_from (c ∷ rest) = elim (length_from rest) [
  | none ↦ if c == 0 then some 0 else none
  | some n ↦ if c == 0 then some 0 else some (n + 1)
]

-- The path to open and the name to lock; `behind` is the memory behind the argument's NUL.
abbrev too_long : List ℕ → List ℕ → Flow (List ℕ × List ℕ)
too_long name behind = elim (length_from (drop 6 (name ++ (0 ∷ behind)))) [
  | none ↦ fault
  | some n ↦
      if ltb path_max n
      then return (err 1)
      else elim (print_path (slash_dev ++ name)) [ none ↦ fault | some full ↦ next (full, name) ]
]

unfoldable pub paths : List ℕ → List ℕ → Flow (List ℕ × List ℕ)
paths name behind =
    if get_or name 0 0 == b'/'
    then next (if str_eq (take 5 name) slash_dev then (name, drop 5 name) else (name, name))
    else too_long name behind

module _ {W : Type 0} (sys : System W) where
  -- `tty_get_state(&tty_before)` with the copy to `tty_current`, or the return with -errno.
  unfoldable pub get_state : Step (Program W) (Unit {0})
  get_state st = elim (sys.tcgets st.tty_fd st.world) [
    | some tty ↦ (next tt, record st { tty_before = tty; tty_current = tty })
    | none ↦ elim (minus (sys.errno st.world)) [
      | ok ↦ (next tt, record st { tty_current = st.tty_before })
      | err e ↦ (return (minus (sys.errno st.world)), st)
    ]
  ]

  -- `tty_get_ldisc(&ldisc_before)`
  unfoldable pub get_ldisc : Step (Program W) (Unit {0})
  get_ldisc st = elim (sys.tiocgetd st.tty_fd st.world) [
    | some disc ↦ (next tt, record st { ldisc_before = disc })
    | none ↦ elim (minus (sys.errno st.world)) [
      | ok ↦ (next tt, st)
      | err e ↦ (return (minus (sys.errno st.world)), st)
    ]
  ]

  -- A function that sets a mode of `tty_current`, or the return with -errno.
  unfoldable pub set_mode : (Termios → Ret × Termios) → Step (Program W) (Unit {0})
  set_mode f st = elim (f st.tty_current).0 [
    | ok ↦ (next tt, record st { tty_current = (f st.tty_current).1 })
    | err e ↦
        (return (minus (sys.errno st.world)), record st { tty_current = (f st.tty_current).1 })
  ]

  -- `tty_set_state` and `tty_set_ldisc`: the result of an ioctl, by whether it has succeeded.
  abbrev pub ioctl_result : Bool × W → Ret
  ioctl_result (true, w) = ok
  ioctl_result (false, w) = minus (sys.errno w)

  unfoldable pub tty_set_state : Termios → Program W → Ret × Program W
  tty_set_state tty st =
      let r = sys.tcsets st.tty_fd tty st.world in (ioctl_result r, record st { world = r.1 })

  unfoldable pub tty_set_ldisc : ℕ → Program W → Ret × Program W
  tty_set_ldisc disc st =
      let r = sys.tiocsetd st.tty_fd disc st.world in (ioctl_result r, record st { world = r.1 })

  abbrev pub or_return : Ret × Program W → Flow (Unit {0}) × Program W
  or_return (ok, st) = (next tt, st)
  or_return (err e, st) = (return (err e), st)

  -- The end of `tty_open`: the line is set up.
  unfoldable pub set_up : Step (Program W) (Unit {0})
  unfolding get_state get_ldisc set_mode tty_set_state tty_set_ldisc tty_set_raw tty_set_speed
      tty_set_databits tty_set_stopbits tty_set_parity
  set_up = do
    get_state
    get_ldisc
    set_mode tty_set_raw
    set_mode (λ tty. tty_set_speed tty (b'5' ∷ b'7' ∷ b'6' ∷ b'0' ∷ b'0' ∷ []))
    set_mode (λ tty. tty_set_databits tty b'8')
    set_mode (λ tty. tty_set_stopbits tty b'1')
    set_mode (λ tty. tty_set_parity tty b'N')
    (λ st. or_return (tty_set_state st.tty_current st))
    (λ st. or_return (tty_set_ldisc n_lunix_ldisc st))

  abbrev locked : Option (Ret × Saved × W) → Program W → Flow (Unit {0}) × Program W
  locked none st = (fault, st)
  locked (some (ok, saved, w)) st = (next tt, record st { saved = saved; world = w })
  locked (some (err e, saved, w)) st = (return (err 1), record st { saved = saved; world = w })

  unfoldable pub lock_line : ℕ → List ℕ → Step (Program W) (Unit {0})
  unfolding tty_lock
  lock_line own path st = locked (tty_lock sys own path st.saved st.world) st

  abbrev opened : Option ℕ × W → Program W → Flow (Unit {0}) × Program W
  opened (none, w) st = (return (minus (sys.errno w)), record st { world = w })
  opened (some fd, w) st = (next tt, record st { tty_fd = fd; world = w })

  unfoldable pub open_line : List ℕ → Step (Program W) (Unit {0})
  open_line path st = opened (sys.open_tty path st.world) st

  unfoldable pub find_named : ℕ → List ℕ → List ℕ → Step (Program W) (Unit {0})
  unfolding paths lock_line open_line
  find_named own name behind = do
    p ← (λ st. (paths name behind, st))
    lock_line own p.1
    open_line p.0

  -- `tty_open`, up to the setting up; `none` is a name that is NULL.
  unfoldable pub find_line : ℕ → Option (List ℕ) → List ℕ → Step (Program W) (Unit {0})
  unfolding find_named
  find_line own none behind st = (next tt, record st { tty_fd = 0 })
  find_line own (some name) behind st = find_named own name behind st

  -- `tty_open`; `next` is the return of 0 at its end.
  unfoldable pub tty_open : ℕ → Option (List ℕ) → List ℕ → Step (Program W) (Unit {0})
  unfolding find_line set_up
  tty_open own name behind = do find_line own name behind; set_up

  -- `tty_restore`
  unfoldable pub tty_restore : Program W → Ret × Program W
  unfolding tty_set_speed tty_set_state
  tty_restore st = tty_set_state (tty_set_speed st.tty_before (b'0' ∷ [])).1 st

  abbrev unlocked : Program W → Ret × Saved × W → Program W
  unlocked st (r, saved, w) = record st { saved = saved; world = w }

  -- `tty_close`
  unfoldable pub tty_close : Program W → Program W
  unfolding tty_set_ldisc tty_restore tty_unlock
  tty_close st =
      let st1 = (tty_set_ldisc st.ldisc_before st).1 in
      let st2 = (tty_restore st1).1 in unlocked st2 (tty_unlock sys st2.saved st2.world)

  -- `pause` until one of the signals that `sig_catch` handles comes.
  abbrev wait : Bool → Program W → Ending W
  wait true st = exited 0 (tty_close st)
  wait false st = paused st

  abbrev after_open : Bool → Flow (Unit {0}) × Program W → Ending W
  after_open signalled (next _, st) = wait signalled st
  after_open signalled (return ok, st) = wait signalled st
  after_open signalled (return (err e), st) = exited 1 st
  after_open signalled (fault, st) = crashed

  -- `main`, with `argc`, `argv[1]` and whether a signal comes.
  unfoldable pub main : ℕ → ℕ → List ℕ → List ℕ → Bool → Program W → Ending W
  unfolding tty_open tty_close
  main own argc name behind signalled st =
      if argc == 2 then after_open signalled (tty_open own (some name) behind st) else exited 1 st
