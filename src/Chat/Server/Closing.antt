-- ===== src/Chat/Server/Closing.antt =====
-- The server of Virtio_Crypto_Chat/encrypted_chat closes what it opens.
use operating_systems_lab_nt.Prelude.{
  ℕ, ◌≡◌, ◌≢◌, refl, sym, ap, ◌∙◌, Bool, true, false, Bool-cases, inl, inr, ◌==◌, arith, List,
  Option, none, some,
}
use operating_systems_lab_nt.Chat.Block.{Chat, key}
use operating_systems_lab_nt.Chat.Flow.{next}
use operating_systems_lab_nt.Chat.Flow.Leaves.{Leaves, continue-Leaves, Leaves-mono}
use operating_systems_lab_nt.Chat.Server.{clear_conn_active, serve, serve_turn, peer_prefix}
use operating_systems_lab_nt.Chat.Session.{
  get_or_exit, open_session, end_session, crypto_fname, crypto_aes_cbc,
}
use operating_systems_lab_nt.Chat.System.{System, Accepted, signalled, refused, accepted}
use operating_systems_lab_nt.Chat.Talk.{or_exit, talk}
use operating_systems_lab_nt.Chat.Talk.Files.{Files, Same, Keeps}
use operating_systems_lab_nt.Chat.Talk.Kept.{talk-Keeps}

module _ {W : Type 0} (sys : System W) (files : Files sys) where
  -- The file `n` may be open now, and was not; any other is as it was.
  abbrev Beside : ℕ → W → W → Type 0
  Beside n w0 w =
      (files.opened n w0 ≡ false) × ((fd : ℕ) → fd ≢ n → files.opened fd w ≡ files.opened fd w0)

  abbrev From : {A : Type 0} → W → A → Chat W → Type 0
  From w0 a st' = Same sys files w0 st'.world

  closed_again : (n : ℕ) (w0 w : W) → Beside n w0 w → Same sys files w0 (sys.close n w).1
  closed_again n w0 w h fd = elim (Bool-cases (fd == n)) [
    | inl here ↦ let same : fd ≡ n = ground arith in rw same ((files.after_close n w).0 ∙ sym h.0)
    | inr there ↦
        let other : fd ≢ n = ground arith in (files.after_close n w).1 fd other ∙ h.1 fd other
  ]

  keep_Beside : (n : ℕ) (w0 w w' : W) → Beside n w0 w → Same sys files w w' → Beside n w0 w'
  keep_Beside n w0 w w' h same = (h.0, λ fd other. same fd ∙ h.1 fd other)

  get_or_exit-Leaves :
      {A : Type 0} (Q : A → Chat W → Type 0) (o : Option A) (st : Chat W)
      → ((a : A) → o ≡ some a → Q a st)
      → Leaves Q (get_or_exit o st)
  get_or_exit-Leaves Q (some a) st h = h a refl
  get_or_exit-Leaves Q none st h = tt

  or_exit-Leaves :
      (P : Chat W → Type 0) (good : Bool) (st : Chat W)
      → P st
      → Leaves (λ (u : Unit {0}) (st' : Chat W). P st') (or_exit good st)
  or_exit-Leaves P true st h = h
  or_exit-Leaves P false st h = tt

  open_session-Beside :
      (name : Option (List ℕ)) (st : Chat W)
      → Leaves (λ (n : ℕ) (st' : Chat W). Beside n st.world st'.world) (open_session sys name st)
  unfolding open_session
  open_session-Beside name st =
      let Q : ℕ → ℕ → Chat W → Type 0 = λ n _ s. Beside n st.world s.world in
      let R : ℕ → Chat W → Type 0 = λ n s. Beside n st.world s.world in
      let (file, w1) = sys.open_file (crypto_fname name) st.world in
      continue-Leaves R R (get_or_exit file (record st { world = w1 })) _
        (get_or_exit-Leaves R file (record st { world = w1 })
          (λ n e. files.after_open (crypto_fname name) n st.world w1 (ap (λ o. (o, w1)) e)))
        λ cfd s2 b.
          let (found, w3) = sys.ciocgsession cfd crypto_aes_cbc key s2.world in
          let s3 : Chat W = record s2 { ses = 0; world = w3 } in
          continue-Leaves (Q cfd) R (get_or_exit found s3) _
            (get_or_exit-Leaves (Q cfd) found s3 (λ number e.
              keep_Beside cfd st.world s2.world w3 b
                (λ fd. files.after_gsession cfd crypto_aes_cbc key fd s2.world)))
            λ number s4 b4. b4

  end_session-Same :
      (cfd : ℕ) (w0 : W) (st : Chat W)
      → Beside cfd w0 st.world
      → Leaves (From w0) (end_session sys cfd st)
  unfolding end_session
  end_session-Same cfd w0 st b =
      let (ended, w1) = sys.ciocfsession cfd st.ses st.world in
      continue-Leaves (λ u s. Beside cfd w0 s.world) (From w0)
        (or_exit ended (record st { world = w1 })) _
        (or_exit-Leaves (λ s. Beside cfd w0 s.world) ended (record st { world = w1 })
          (keep_Beside cfd w0 st.world w1 b (λ fd. files.after_fsession cfd st.ses fd st.world)))
        λ u s2 b2.
          or_exit-Leaves (λ s. Same sys files w0 s.world) (sys.close cfd s2.world).0
            (record s2 { world = (sys.close cfd s2.world).1 }) (closed_again cfd w0 s2.world b2)

  clear_conn_active-Keeps : (sd : ℕ) → Keeps sys files (clear_conn_active sys sd)
  unfolding clear_conn_active
  clear_conn_active-Keeps sd st = elim (Bool-cases st.conn_active) [
    | inl active ↦ rw active (λ fd. refl)
    | inr idle ↦ rw idle tt
  ]

  module _ (turns sd newsd : ℕ) (name : Option (List ℕ)) (w0 : W) where
    talked :
        (cfd : ℕ) (w1 : W) (st : Chat W)
        → Beside cfd w1 st.world
        → Leaves
            (λ (u : Unit {0}) (s : Chat W). Beside cfd w1 s.world)
            (talk sys
              (clear_conn_active sys sd)
              turns
              newsd
              cfd
              peer_prefix
              (record st { conn_active = true }))
    talked cfd w1 st b =
        Leaves-mono (λ u s. Same sys files st.world s.world) (λ u s. Beside cfd w1 s.world) _
          (talk-Keeps sys files (clear_conn_active sys sd) (clear_conn_active-Keeps sd) turns newsd
            cfd peer_prefix (record st { conn_active = true }))
          (λ u s same. keep_Beside cfd w1 st.world s.world b same)

    -- A connection is closed before the next one is awaited.
    served-Same :
        (st : Chat W)
        → Beside newsd w0 st.world
        → Leaves (From w0) (serve sys turns sd name (accepted newsd) st)
    unfolding serve
    served-Same st b =
        continue-Leaves (λ u s. Same sys files st.world s.world) (From w0)
          (or_exit (sys.inet_ntop st.world) st) _
          (or_exit-Leaves (λ s. Same sys files st.world s.world) (sys.inet_ntop st.world) st
            (λ fd. refl))
          λ u s1 same.
            let b1 : Beside newsd w0 s1.world = keep_Beside newsd w0 st.world s1.world b same in
            continue-Leaves (λ cfd s. Beside cfd s1.world s.world) (From w0)
              (open_session sys name s1) _ (open_session-Beside name s1)
              λ cfd s2 b2.
                continue-Leaves (λ u' s. Beside cfd s1.world s.world) (From w0) _ _
                  (talked cfd s1.world s2 b2)
                  λ u' s3 b3.
                    continue-Leaves (From s1.world) (From w0) (end_session sys cfd s3) _
                      (end_session-Same cfd s1.world s3 b3)
                      λ u'' s4 back.
                        closed_again newsd w0 s4.world
                          (keep_Beside newsd w0 s1.world s4.world b1 back)

  accept-Same :
      (turns sd : ℕ) (name : Option (List ℕ)) (w0 : W) (found : Accepted) (w1 : W) (st : Chat W)
      → sys.accept sd w0 ≡ (found, w1)
      → Leaves (From w0) (serve sys turns sd name found (record st { world = w1 }))
  unfolding serve
  accept-Same turns sd name w0 signalled w1 st e =
      Leaves-mono (λ u s. Same sys files w1 s.world) (From w0) _
        (clear_conn_active-Keeps sd (record st { world = w1 }))
        (λ u s same fd. same fd ∙ files.after_signal sd fd w0 w1 e)
  accept-Same turns sd name w0 refused w1 st e = tt
  accept-Same turns sd name w0 (accepted newsd) w1 st e =
      served-Same turns sd newsd name w0 (record st { world = w1 })
        (files.after_accept sd newsd w0 w1 e)

  serve_turn-Same :
      (turns sd : ℕ) (name : Option (List ℕ)) (st : Chat W)
      → Leaves (From st.world) (serve_turn sys turns sd name st)
  unfolding serve_turn
  serve_turn-Same turns sd name st =
      let (found, w1) = sys.accept sd st.world in
      continue-Leaves (From st.world) (From st.world)
        (serve sys turns sd name found (record st { world = w1 })) _
        (accept-Same turns sd name st.world found w1 st refl) λ u s same. same

  -- Each turn of the server's loop that goes on has, at its end, exactly the files open that were
  -- open at its start.
  pub serve_turn-closes :
      (turns sd : ℕ) (name : Option (List ℕ)) (st st' : Chat W) (leave : Bool)
      → serve_turn sys turns sd name st ≡ (next leave, st')
      → (fd : ℕ) → files.opened fd st'.world ≡ files.opened fd st.world
  serve_turn-closes turns sd name st st' leave e = rw e at (serve_turn-Same turns sd name st)
