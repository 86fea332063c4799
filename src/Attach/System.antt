-- ===== src/Attach/System.antt =====
-- The system that Lunix_Device_Driver/lunix-attach.c calls: a parameter.
use operating_systems_lab_nt.Prelude.{ℕ, Bool, List, Option}
use operating_systems_lab_nt.Attach.Termios.{Termios}

-- What `fopen` and `fscanf("%d")` find: no file, a file with no number, or a number, by the 32 bits
-- of an `int`.
pub data PidFile : Type 0 where
  missing malformed : PidFile
  pid : ℕ → PidFile

-- The calls, over the system's state `W`. `read_pid` is `fopen`, `fscanf` and `fclose` of a lock
-- file; `alive` is `kill(pid, 0) == 0`; `creat` and `open_tty` return a descriptor or an error;
-- `write` returns a count, or `none` for -1; `uucp` is what `getpwnam` finds.
pub record System (W : Type 0) : Type 0 where
  pub read_pid : List ℕ → W → PidFile
  pub alive : ℕ → W → Bool
  pub creat : List ℕ → W → Option ℕ × W
  pub write : ℕ → List ℕ → W → Option ℕ × W
  pub close : ℕ → W → W
  pub unlink : List ℕ → W → Bool × W
  pub uucp : W → Option (ℕ × ℕ)
  pub chown : List ℕ → ℕ × ℕ → W → W
  pub open_tty : List ℕ → W → Option ℕ × W
  pub tcgets : ℕ → W → Option Termios
  pub tcsets : ℕ → Termios → W → Bool × W
  pub tiocgetd : ℕ → W → Option ℕ
  pub tiocsetd : ℕ → ℕ → W → Bool × W
  pub errno : W → ℕ
