-- ===== src/Attach/Tests.antt =====
-- The theorems on Lunix_Device_Driver/lunix-attach.c at a concrete system: one lock file, one TTY.
use operating_systems_lab_nt.Prelude.{
  ℕ, zero, suc, ◌-◌, ◌≡◌, refl, sym, ap, ◌∙◌, true, false, List, [], ◌∷◌, ◌++◌, Option, none, some,
  arith, ◌==◌, length, take, take-all, take-append, append_assoc, replicate, length-append,
}
use operating_systems_lab_nt.Attach.Flow.{next}
use operating_systems_lab_nt.Attach.Line.{
  Program, exited, paths, lock_line, open_line, find_named, find_line, tty_open, main, tty_restore,
  n_lunix_ldisc, get_state, get_ldisc, set_mode, tty_set_state, tty_set_ldisc, set_up, tty_close,
}
use operating_systems_lab_nt.Attach.Line.Restore.{KeepsTty, SetUp, set_up-SetUp, sensor_mode}
use operating_systems_lab_nt.Attach.Line.Run.{Runs, Ran, main-Ran}
use operating_systems_lab_nt.Attach.Lock.{
  Saved, lock_prefix, print_pid, tty_already_locked, tty_lock, tty_unlock,
}
use operating_systems_lab_nt.Attach.Lock.Exclusion.{
  KeepsFiles, tty_lock-excludes, tty_unlock-tty_lock, tty_unlock-forgets,
}
use operating_systems_lab_nt.Attach.System.{System, PidFile, missing, pid}
use operating_systems_lab_nt.Attach.Termios.{
  Termios, b9600, cs7, tty_set_speed, tty_set_databits, tty_set_stopbits, tty_set_parity,
  tty_set_raw, tty_find_speed, find_row,
}
use operating_systems_lab_nt.Lunix.Chrdev.Format.{decimal, digits}
use operating_systems_lab_nt.Lunix.Chrdev.Text.{value, value-decimal}
use operating_systems_lab_nt.Lunix.Kernel.{ok, err}

-- A lock file, which may not be there, and a TTY.
record Host : Type 0 where
  file : Option (List ℕ)
  tty : Termios
  disc : ℕ

-- The number that a file holds: blanks, digits and the end of the line.
abbrev decode : List ℕ → ℕ
decode text = value 0 (take (length text - 1) text)

abbrev pid_in : Option (List ℕ) → PidFile
pid_in none = missing
pid_in (some text) = pid (decode text)

-- The process 77 lives; `uucp` is what the system knows of that user.
abbrev host : Option (ℕ × ℕ) → System Host
host uucp = record {
  read_pid = λ path w. pid_in w.file;
  alive = λ n w. n == 77;
  creat = λ path w. (some 3, record w { file = some [] });
  write = λ fd buf w. (some (length buf), record w { file = some buf });
  close = λ fd w. w;
  unlink = λ path w. (true, record w { file = none });
  uucp = λ w. uucp;
  chown = λ path owner w. w;
  open_tty = λ path w. (some 4, w);
  tcgets = λ fd w. some w.tty;
  tcsets = λ fd tty w. (true, record w { tty = tty });
  tiocgetd = λ fd w. some w.disc;
  tiocsetd = λ fd disc w. (true, record w { disc = disc });
  errno = λ w. 5;
}

take-front : (xs : List ℕ) (y : ℕ) → take (length (xs ++ (y ∷ [])) - 1) (xs ++ (y ∷ [])) ≡ xs
take-front xs y =
    let e : length (xs ++ (y ∷ [])) - 1 ≡ length xs = omega (arith, length-append xs (y ∷ [])) in
    rw e (take-append (length xs) xs (y ∷ []) (omega arith) ∙ take-all (length xs) xs (omega arith))

value-blanks : (n : ℕ) (l : List ℕ) → value 0 (replicate n b' ' ++ l) ≡ value 0 l
value-blanks zero l = refl
value-blanks (suc n) l = value-blanks n l

decode-print_pid : (own : ℕ) → decode (print_pid own) ≡ own
decode-print_pid own =
    let front : List ℕ = replicate (10 - length (decimal own)) b' ' in
    rw
      (sym (append_assoc front (decimal own) (b'\n' ∷ [])), take-front (front ++ decimal own) b'\n')
      (value-blanks (10 - length (decimal own)) (decimal own) ∙ value-decimal own)

host-KeepsFiles : (uucp : Option (ℕ × ℕ)) → KeepsFiles (host uucp)
host-KeepsFiles uucp = record {
  written =
      λ path own fd w w1 w2 c e. sym (ap (λ p. pid_in p.1.file) e) ∙ ap pid (decode-print_pid own);
  owned = λ path other owner w. refl;
  unlinked = λ path w w' e. sym (ap (λ p. pid_in p.1.file) e);
}

host-KeepsTty : (uucp : Option (ℕ × ℕ)) → KeepsTty (host uucp)
host-KeepsTty uucp = record {
  discipline = λ fd w. w.disc;
  read_discipline = λ fd w disc e. cc;
  read_fails = λ fd w e. cc;
  read_discipline_fails = λ fd w e. cc;
  set_discipline = λ fd disc w w' e. sym (ap (λ p. p.1.disc) e);
  set_fails = λ fd tty w w' e. cc;
  set_discipline_fails = λ fd disc w w' e. cc;
}

abbrev plain : Termios
plain = record {
  c_iflag = record { ignbrk = false; ignpar = false; i_rest = 4 };
  c_oflag = 1;
  c_lflag = 3;
  c_cflag = record {
    cbaud = b9600;
    csize = cs7;
    cstopb = true;
    parenb = true;
    parodd = true;
    crtscts = false;
    hupcl = false;
    cread = true;
    clocal = false;
    c_rest = 0;
  };
  c_cc = record { vmin = 0; vtime = 5; others = 3 ∷ 4 ∷ [] };
}

-- The owner of the lock, a host that no one has touched, and one with a lock of the process 77.
abbrev owner : Option (ℕ × ℕ)
owner = some (10, 14)

abbrev fresh : Host
fresh = record { file = none; tty = plain; disc = 0 }

abbrev locked_host : Host
locked_host = record fresh { file = some (print_pid 77) }

abbrev ttys1 : List ℕ
ttys1 = b't' ∷ b't' ∷ b'y' ∷ b'S' ∷ b'1' ∷ []

abbrev idle : Saved
idle = record { saved_lock = false; saved_path = [] }

abbrev holding : Saved
holding = record { saved_lock = true; saved_path = lock_prefix ++ ttys1 }

abbrev unaware : Saved
unaware = record { saved_lock = false; saved_path = lock_prefix ++ ttys1 }

taken : tty_lock (host owner) 77 ttys1 idle fresh ≡ some (ok, holding, locked_host)
unfolding tty_lock tty_already_locked digits
taken = refl

taken_unaware : tty_lock (host none) 77 ttys1 idle fresh ≡ some (ok, unaware, locked_host)
unfolding tty_lock tty_already_locked digits
taken_unaware = refl

-- The TTY has changed since the locking.
abbrev later_host : Host
later_host = record locked_host { disc = 4 }

tty_lock-excludes_example :
    tty_lock (host owner) 78 ttys1 idle later_host ≡ some (err 1, unaware, later_host)
tty_lock-excludes_example =
    tty_lock-excludes (host owner) (host-KeepsFiles owner) 77 ttys1 idle holding fresh locked_host
      taken 78 idle later_host refl refl

tty_unlock-tty_lock_example :
    (tty_unlock (host owner) holding locked_host ≡ (ok, unaware, fresh))
    × ((host owner).read_pid (lock_prefix ++ ttys1) fresh ≡ missing)
tty_unlock-tty_lock_example =
    tty_unlock-tty_lock (host owner) (host-KeepsFiles owner) 77 ttys1 idle holding fresh locked_host
      taken true fresh (λ w none_known. cc) refl

tty_unlock-forgets_example :
    (tty_unlock (host none) unaware locked_host ≡ (ok, unaware, locked_host))
    × ((host none).read_pid (lock_prefix ++ ttys1) locked_host ≡ pid 77)
tty_unlock-forgets_example =
    tty_unlock-forgets (host none) (host-KeepsFiles none) 77 ttys1 idle unaware fresh locked_host
      taken_unaware (λ w. refl) refl

abbrev program : Program Host
program = record {
  tty_fd = 4;
  tty_before = plain;
  tty_current = plain;
  ldisc_before = 3;
  saved = holding;
  world = locked_host;
}

abbrev set_program : Program Host
set_program = record program {
  tty_current = sensor_mode plain;
  ldisc_before = 0;
  world = record locked_host { tty = sensor_mode plain; disc = n_lunix_ldisc };
}

is_set_up : set_up (host owner) program ≡ (next tt, set_program)
unfolding set_up get_state get_ldisc set_mode tty_set_state tty_set_ldisc tty_set_raw tty_set_speed
    tty_set_databits tty_set_stopbits tty_set_parity tty_find_speed find_row
is_set_up = refl

set_up-SetUp_example :
    SetUp (host owner) (host-KeepsTty owner) program (set_up (host owner) program)
set_up-SetUp_example = set_up-SetUp (host owner) (host-KeepsTty owner) program

host-Runs : Runs (host owner)
host-Runs = record { knows_uucp = λ w none_known. cc; open_fails = λ path w w' e. cc }

-- What lies behind the argument in memory: an environment.
abbrev behind : List ℕ
behind = b'A' ∷ b'=' ∷ 0 ∷ []

abbrev started : Program Host
started = record program { tty_fd = 0; saved = idle; world = fresh }

main-Ran_example :
    Ran
      (host owner)
      (host-KeepsFiles owner)
      (host-KeepsTty owner)
      host-Runs
      (find_line (host owner) 77 (some ttys1) behind started)
      (main (host owner) 77 2 ttys1 behind true started)
main-Ran_example =
    main-Ran (host owner) (host-KeepsFiles owner) (host-KeepsTty owner) host-Runs 77 ttys1 behind
      started

abbrev released : Program Host
released = record set_program { saved = unaware; tty_before = plain; world = fresh }

-- The run of the example leaves the host as it was.
run_to_end : main (host owner) 77 2 ttys1 behind true started ≡ exited 0 released
unfolding main tty_open find_line find_named lock_line open_line paths tty_lock tty_unlock
    tty_already_locked digits tty_close tty_restore set_up get_state get_ldisc set_mode
    tty_set_state tty_set_ldisc tty_set_raw tty_set_speed tty_set_databits tty_set_stopbits
    tty_set_parity tty_find_speed find_row
run_to_end = refl
