-- ===== src/Attach/Line/Restore.antt =====
-- What Lunix_Device_Driver/lunix-attach.c does to the settings of a TTY.
use operating_systems_lab_nt.Prelude.{
  ℕ, ◌<◌, ◌≡◌, ◌≢◌, refl, ap, inl, inr, Bool, true, false, none, some, arith, length, replicate,
  Option-cases, ◌==◌,
}
use operating_systems_lab_nt.Lunix.Kernel.{Ret, ok, err}
use operating_systems_lab_nt.Attach.Flow.{Flow, next, return, fault, Step, ◌>>◌, continue}
use operating_systems_lab_nt.Attach.Line.{
  Program, n_lunix_ldisc, minus, get_state, get_ldisc, tty_set_state, tty_set_ldisc, set_up,
  ioctl_result, or_return,
}
use operating_systems_lab_nt.Attach.System.{System}
use operating_systems_lab_nt.Attach.Termios.{Termios, b57600, cs8}

-- The settings of the line that the program asks for: raw, 57600 bits per second, 8N1.
abbrev pub sensor_mode : Termios → Termios
sensor_mode tty = record {
  c_iflag = record { ignbrk = true; ignpar = true; i_rest = 0 };
  c_oflag = 0;
  c_lflag = 0;
  c_cflag = record {
    cbaud = b57600;
    csize = cs8;
    cstopb = false;
    parenb = false;
    parodd = false;
    crtscts = true;
    hupcl = true;
    cread = true;
    clocal = true;
    c_rest = 0;
  };
  c_cc = record { vmin = 1; vtime = 0; others = replicate (length tty.c_cc.others) 0 };
}

-- What is documented of the ioctls of a TTY: what discipline it has, and that a call that fails
-- sets errno.
pub record KeepsTty {W : Type 0} (sys : System W) : Type 0 where
  pub discipline : ℕ → W → ℕ
  pub read_discipline :
      (fd : ℕ) (w : W) (disc : ℕ) → sys.tiocgetd fd w ≡ some disc → discipline fd w ≡ disc
  pub read_fails : (fd : ℕ) (w : W) → sys.tcgets fd w ≡ none → 0 < sys.errno w
  pub read_discipline_fails : (fd : ℕ) (w : W) → sys.tiocgetd fd w ≡ none → 0 < sys.errno w
  pub set_discipline :
      (fd disc : ℕ) (w w' : W) → sys.tiocsetd fd disc w ≡ (true, w') → discipline fd w' ≡ disc
  pub set_fails :
      (fd : ℕ) (tty : Termios) (w w' : W) → sys.tcsets fd tty w ≡ (false, w') → 0 < sys.errno w'
  pub set_discipline_fails :
      (fd disc : ℕ) (w w' : W) → sys.tiocsetd fd disc w ≡ (false, w') → 0 < sys.errno w'

module _ {W : Type 0} (sys : System W) (tty_laws : KeepsTty sys) where
  open tty_laws use {discipline}

  -- The line that `st` has found is set up in `st'`: the TTY reported settings and a discipline,
  -- which the program remembers; then it accepted the request for the sensor's settings, made of
  -- those that it reported, and then the one for the Lunix discipline, and nothing else was done.
  pub record IsSetUp (st st' : Program W) : Type 0 where
    pub tty : Termios
    pub disc : ℕ
    pub w : W
    pub reported : sys.tcgets st.tty_fd st.world ≡ some tty
    pub had : discipline st.tty_fd st.world ≡ disc
    pub asked : sys.tcsets st.tty_fd (sensor_mode tty) st.world ≡ (true, w)
    pub attached : sys.tiocsetd st.tty_fd n_lunix_ldisc w ≡ (true, st'.world)
    pub has : discipline st.tty_fd st'.world ≡ n_lunix_ldisc
    pub same_line : st'.tty_fd ≡ st.tty_fd
    pub same_lock : st'.saved ≡ st.saved
    pub tty_known : st'.tty_before ≡ tty
    pub disc_known : st'.ldisc_before ≡ disc

  -- How a line that `st` has found is set up.
  abbrev pub SetUp : Program W → Flow (Unit {0}) × Program W → Type 0
  SetUp st (next _, st') = IsSetUp st st'
  SetUp st (return r, st') = r ≢ ok
  SetUp st (fault, st') = ⊥

  minus_pos : (e : ℕ) → 0 < e → minus e ≡ err e
  minus_pos e h = let other : (e == 0) ≡ false = ground arith in rw other refl

  -- The last two calls, on a line that is read and whose new settings are ready.
  abbrev last_calls : Step (Program W) (Unit {0})
  last_calls = do
    (λ st. or_return sys (tty_set_state sys st.tty_current st))
    (λ st. or_return sys (tty_set_ldisc sys n_lunix_ldisc st))

  abbrev Finished : Program W → Flow (Unit {0}) × Program W → Type 0
  Finished st (next _, st') =
      (w : W) × (sys.tcsets st.tty_fd st.tty_current st.world ≡ (true, w))
      × (sys.tiocsetd st.tty_fd n_lunix_ldisc w ≡ (true, st'.world))
      × (st'.tty_fd ≡ st.tty_fd)
      × (st'.saved ≡ st.saved)
      × (st'.tty_before ≡ st.tty_before)
      × (st'.ldisc_before ≡ st.ldisc_before)
  Finished st (return r, st') = r ≢ ok
  Finished st (fault, st') = ⊥

  module _ (st : Program W) where
    activated :
        (w : W) (done : Bool) (w' : W)
        → sys.tcsets st.tty_fd st.tty_current st.world ≡ (true, w)
        → sys.tiocsetd st.tty_fd n_lunix_ldisc w ≡ (done, w')
        → Finished st (or_return sys (ioctl_result sys (done, w'), record st { world = w' }))
    activated w true w' h e = (w, h, e, refl, refl, refl, refl)
    activated w false w' h e =
        rw (minus_pos (sys.errno w') (tty_laws.set_discipline_fails st.tty_fd n_lunix_ldisc w w' e))
          (λ same. cc)

    set_then :
        (done : Bool) (w' : W)
        → sys.tcsets st.tty_fd st.tty_current st.world ≡ (done, w')
        → Finished st (
            continue
              (or_return sys (ioctl_result sys (done, w'), record st { world = w' })).0
              (λ _. λ st1. or_return sys (tty_set_ldisc sys n_lunix_ldisc st1))
              (or_return sys (ioctl_result sys (done, w'), record st { world = w' })).1)
    unfolding tty_set_ldisc
    set_then true w' e =
        activated w' (sys.tiocsetd st.tty_fd n_lunix_ldisc w').0
          (sys.tiocsetd st.tty_fd n_lunix_ldisc w').1 e refl
    set_then false w' e =
        rw (minus_pos (sys.errno w') (tty_laws.set_fails st.tty_fd st.tty_current st.world w' e))
          (λ same. cc)

    last_calls-Finished : Finished st (last_calls st)
    unfolding tty_set_state
    last_calls-Finished =
        set_then (sys.tcsets st.tty_fd st.tty_current st.world).0
          (sys.tcsets st.tty_fd st.tty_current st.world).1 refl

  Finished-SetUp :
      (st : Program W) (tty : Termios) (disc : ℕ)
      → sys.tcgets st.tty_fd st.world ≡ some tty
      → discipline st.tty_fd st.world ≡ disc
      → (out : Flow (Unit {0}) × Program W)
      → Finished
          (record st { tty_before = tty; tty_current = sensor_mode tty; ldisc_before = disc })
          out
      → SetUp st out
  Finished-SetUp st tty disc h g (next _, st') (w, set, attached, line, lock, known, kept) =
      record {
        tty = tty;
        disc = disc;
        w = w;
        reported = h;
        had = g;
        asked = set;
        attached = attached;
        has = tty_laws.set_discipline st.tty_fd n_lunix_ldisc w st'.world attached;
        same_line = line;
        same_lock = lock;
        tty_known = known;
        disc_known = kept;
      }
  Finished-SetUp st tty disc h g (return r, st') f = f
  Finished-SetUp st tty disc h g (fault, st') f = f

  module _ (st : Program W) where
    state_read :
        (tty : Termios)
        → sys.tcgets st.tty_fd st.world ≡ some tty
        → get_state sys st ≡ (next tt, record st { tty_before = tty; tty_current = tty })
    unfolding get_state
    state_read tty e = rw (e, get_state) refl

    state_unread :
        sys.tcgets st.tty_fd st.world ≡ none
        → get_state sys st ≡ (return (err (sys.errno st.world)), st)
    unfolding get_state
    state_unread e =
        let same = minus_pos (sys.errno st.world) (tty_laws.read_fails st.tty_fd st.world e) in
        rw (e, same, get_state) (ap (λ (r : Ret). (return r, st)) same)

    discipline_read :
        (disc : ℕ)
        → sys.tiocgetd st.tty_fd st.world ≡ some disc
        → get_ldisc sys st ≡ (next tt, record st { ldisc_before = disc })
    unfolding get_ldisc
    discipline_read disc e = rw (e, get_ldisc) refl

    discipline_unread :
        sys.tiocgetd st.tty_fd st.world ≡ none
        → get_ldisc sys st ≡ (return (err (sys.errno st.world)), st)
    unfolding get_ldisc
    discipline_unread e =
        let same =
          minus_pos (sys.errno st.world) (tty_laws.read_discipline_fails st.tty_fd st.world e) in
        rw (e, same, get_ldisc) (ap (λ (r : Ret). (return r, st)) same)

  -- On a TTY that has been found, the setting up ends without an error only where the TTY has
  -- reported its settings and its discipline, which the program then remembers, has accepted a
  -- request for raw, 57600 bits per second, 8N1, and after it one for the Lunix discipline, which
  -- it then has; else it returns an error, and it never faults.
  pub set_up-SetUp : (st : Program W) → SetUp st (set_up sys st)
  unfolding set_up
  set_up-SetUp st = elim (Option-cases (sys.tcgets st.tty_fd st.world)) [
    | inl e ↦ rw (state_unread st e) (λ same. cc)
    | inr (tty, e) ↦
        let read : Program W = record st { tty_before = tty; tty_current = tty } in
        elim (Option-cases (sys.tiocgetd st.tty_fd st.world)) [
          | inl g ↦ rw (state_read st tty e, discipline_unread read g) (λ same. cc)
          | inr (disc, g) ↦
              rw (state_read st tty e, discipline_read read disc g)
                (Finished-SetUp st tty disc e (tty_laws.read_discipline st.tty_fd st.world disc g) _
                  (last_calls-Finished (record st {
                    tty_before = tty;
                    tty_current = sensor_mode tty;
                    ldisc_before = disc;
                  })))
        ]
  ]
