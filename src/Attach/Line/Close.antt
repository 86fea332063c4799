-- ===== src/Attach/Line/Close.antt =====
-- What `tty_close` of Lunix_Device_Driver/lunix-attach.c does about what the setting up has changed.
use operating_systems_lab_nt.Prelude.{
  ℕ, ◌≡◌, refl, sym, ap, ◌∙◌, ◌⊎◌, inl, inr, Bool, true, false, List, ◌∷◌, [],
}
use operating_systems_lab_nt.Attach.Flow.{next}
use operating_systems_lab_nt.Attach.Line.{
  Program, tty_set_state, tty_set_ldisc, tty_restore, tty_close, set_up,
}
use operating_systems_lab_nt.Attach.Line.Restore.{KeepsTty, IsSetUp, set_up-SetUp}
use operating_systems_lab_nt.Attach.Lock.{Saved, after_unlink, tty_unlock}
use operating_systems_lab_nt.Attach.Lock.Exclusion.{KeepsFiles}
use operating_systems_lab_nt.Attach.System.{System, missing}
use operating_systems_lab_nt.Attach.Termios.{Termios, tty_set_speed, tty_find_speed}

-- The table of speeds has no row "0".
no_zero : (tty : Termios) → (tty_set_speed tty (b'0' ∷ [])).1 ≡ tty
unfolding tty_set_speed tty_find_speed
no_zero tty = refl

module _ {W : Type 0} (sys : System W) (files : KeepsFiles sys) (tty_laws : KeepsTty sys) where
  -- A closing that has come from `w` to `w'`: the TTY `fd` is asked for the discipline `disc` and
  -- then for the settings `tty`, and the file `path` is unlinked, whatever the calls before return;
  -- the file is gone where that succeeds.
  pub record Closed (fd : ℕ) (tty : Termios) (disc : ℕ) (path : List ℕ) (w w' : W) : Type 0 where
    pub attached : Bool
    pub set : Bool
    pub removed : Bool
    pub w1 : W
    pub w2 : W
    pub discipline_asked : sys.tiocsetd fd disc w ≡ (attached, w1)
    pub settings_asked : sys.tcsets fd tty w1 ≡ (set, w2)
    pub unlinked : sys.unlink path w2 ≡ (removed, w')
    pub gone : (removed ≡ false) ⊎ (sys.read_pid path w' ≡ missing)

  after_unlink-world : (r : Bool × W) (saved : Saved) → (after_unlink sys r saved).2 ≡ r.1
  after_unlink-world (true, w) saved = refl
  after_unlink-world (false, w) saved = refl

  unlinking :
      (path : List ℕ) (w : W) (r : Bool) (w' : W)
      → sys.unlink path w ≡ (r, w')
      → (r ≡ false) ⊎ (sys.read_pid path w' ≡ missing)
  unlinking path w true w' e = inr (files.unlinked path w w' e)
  unlinking path w false w' e = inl refl

  -- `tty_close` of a program that knows that it has a lock.
  closing :
      (st : Program W)
      → st.saved.saved_lock ≡ true
      → Closed st.tty_fd st.tty_before st.ldisc_before st.saved.saved_path st.world
          (tty_close sys st).world
  unfolding tty_close tty_set_ldisc tty_restore tty_set_state tty_unlock
  closing st held =
      let (attached, w1) = sys.tiocsetd st.tty_fd st.ldisc_before st.world in
      let (set, w2) = sys.tcsets st.tty_fd st.tty_before w1 in
      let (removed, w3) = sys.unlink st.saved.saved_path w2 in
      rw
        (
          no_zero st.tty_before,
          held,
          after_unlink-world (sys.unlink st.saved.saved_path w2)
              (record st.saved { saved_lock = true }),
        )
        (record {
          attached = attached;
          set = set;
          removed = removed;
          w1 = w1;
          w2 = w2;
          discipline_asked = refl;
          settings_asked = refl;
          unlinked = refl;
          gone = unlinking st.saved.saved_path w2 removed w3 refl;
        })

  -- A run that has set up the line of `st` and has closed it in `st'`: the TTY is asked again for
  -- the discipline that it had and for the settings that it reported before it was set up.
  pub record PutBack (st st' : Program W) : Type 0 where
    pub between : Program W
    pub was_set : IsSetUp sys tty_laws st between
    pub closed :
        Closed st.tty_fd was_set.tty was_set.disc st.saved.saved_path between.world st'.world

  pub tty_close-set_up :
      (st st' : Program W)
      → set_up sys st ≡ (next tt, st')
      → st.saved.saved_lock ≡ true
      → PutBack st (tty_close sys st')
  tty_close-set_up st st' e held =
      let is : IsSetUp sys tty_laws st st' = rw e at (set_up-SetUp sys tty_laws st) in
      let known : st'.saved.saved_lock ≡ true =
        ap (λ (saved : Saved). saved.saved_lock) is.same_lock ∙ held in
      record {
        between = st';
        was_set = is;
        closed =
            rw (sym is.same_line, sym is.tty_known, sym is.disc_known, sym is.same_lock)
              (closing st' known);
      }
