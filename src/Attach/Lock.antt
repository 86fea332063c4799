-- ===== src/Attach/Lock.antt =====
-- The lock file of Lunix_Device_Driver/lunix-attach.c.
pub mod Exclusion
use operating_systems_lab_nt.Prelude.{
  ℕ, ◌+◌, ◌-◌, Bool, true, false, not, List, [], ◌∷◌, ◌++◌, Option, none, some, ◌>>=◌,
  if◌then◌else◌, ltb, ◌==◌, length, replicate,
}
use operating_systems_lab_nt.Lunix.Chrdev.Format.{decimal}
use operating_systems_lab_nt.Lunix.Kernel.{Ret, ok, err}
use operating_systems_lab_nt.Attach.System.{System, PidFile, missing, malformed, pid}

abbrev pub path_max : ℕ
path_max = 4096

-- "/var/lock/LCK.."
abbrev pub lock_prefix : List ℕ
lock_prefix =
    b'/' ∷ b'v' ∷ b'a' ∷ b'r' ∷ b'/' ∷ b'l' ∷ b'o' ∷ b'c' ∷ b'k' ∷ b'/' ∷ b'L' ∷ b'C' ∷ b'K' ∷ b'.'
    ∷ b'.' ∷ []

-- `sprintf` into an array of PATH_MAX bytes: text that does not fit with its NUL is a fault.
abbrev pub print_path : List ℕ → Option (List ℕ)
print_path text = if ltb (length text) path_max then some text else none

-- The static variables of `tty_lock`.
pub record Saved : Type 0 where
  pub saved_lock : Bool
  pub saved_path : List ℕ

-- `sprintf("%10d\n")`
abbrev pub print_pid : ℕ → List ℕ
print_pid own = replicate (10 - length (decimal own)) b' ' ++ (decimal own ++ (b'\n' ∷ []))

module _ {W : Type 0} (sys : System W) where
  abbrev pub is_live : PidFile → W → Bool
  is_live missing w = false
  is_live malformed w = false
  is_live (pid n) w = sys.alive n w

  -- `tty_already_locked`
  unfoldable pub tty_already_locked : List ℕ → W → Bool
  tty_already_locked nam w = is_live (sys.read_pid nam w) w

  -- The end of the locking, from what `getpwnam` finds.
  abbrev pub hand_to_uucp : Option (ℕ × ℕ) → Saved → W → Ret × Saved × W
  hand_to_uucp none st w = (ok, st, w)
  hand_to_uucp (some owner) st w =
      (ok, record st { saved_lock = true }, sys.chown st.saved_path owner w)

  -- What follows `write`, from the count that it returns.
  abbrev pub after_write : ℕ → List ℕ → Option ℕ → Saved → W → Ret × Saved × W
  after_write fd apid none st w = (err 1, st, (sys.unlink st.saved_path (sys.close fd w)).1)
  after_write fd apid (some ret) st w =
      if ret == length apid
      then hand_to_uucp (sys.uucp (sys.close fd w)) st (sys.close fd w)
      else (err 1, st, (sys.unlink st.saved_path (sys.close fd w)).1)

  abbrev pub after_creat : ℕ → Option ℕ → Saved → W → Ret × Saved × W
  after_creat own none st w = (err 1, st, w)
  after_creat own (some fd) st w =
      let (ret, w') = sys.write fd (print_pid own) w in after_write fd (print_pid own) ret st w'

  abbrev pub take_lock : ℕ → Saved → W → Ret × Saved × W
  take_lock own st w =
      let (fd, w') = sys.creat st.saved_path w in
      if tty_already_locked st.saved_path w then (err 1, st, w) else after_creat own fd st w'

  -- `tty_lock(path, 1)`: `own` is what `getpid` returns; -1 is `err 1`.
  unfoldable pub tty_lock : ℕ → List ℕ → Saved → W → Option (Ret × Saved × W)
  unfolding tty_already_locked
  tty_lock own path st w = do
    full ← print_path (lock_prefix ++ path)
    some (take_lock own (record st { saved_path = full }) w)

  abbrev pub after_unlink : Bool × W → Saved → Ret × Saved × W
  after_unlink (true, w) st = (ok, record st { saved_lock = false }, w)
  after_unlink (false, w) st = (err 1, st, w)

  -- `tty_lock(path, 0)`
  unfoldable pub tty_unlock : Saved → W → Ret × Saved × W
  tty_unlock st w =
      if st.saved_lock then after_unlink (sys.unlink st.saved_path w) st else (ok, st, w)
