-- ===== src/Chat/Talk/Files.antt =====
-- Which files are open while the programs of Virtio_Crypto_Chat/encrypted_chat talk.
use operating_systems_lab_nt.Prelude.{
  ℕ, zero, suc, ◌≡◌, ◌≢◌, refl, ◌∙◌, Bool, true, false, List, [], ◌∷◌, length, take, drop,
  replicate, Option, none, some,
}
use operating_systems_lab_nt.Chat.Block.{
  Chat, data_size, key, cop_encrypt, cop_decrypt, encrypt, encrypted, decrypt, decrypted, copied,
  copy_line,
}
use operating_systems_lab_nt.Chat.Flow.{Flow, next, Step, ◌>>=◌, pure}
use operating_systems_lab_nt.Chat.Flow.Leaves.{Leaves, continue-Leaves, Leaves-mono, always-Leaves}
use operating_systems_lab_nt.Chat.System.{System, signalled, accepted}
use operating_systems_lab_nt.Chat.Talk.{repeat, or_exit, when, put, put_anyway, read_in, received}
use operating_systems_lab_nt.Chat.Write.{insist_write, write_rest}

-- What is documented of descriptors: a new one was not open, one that is closed is free, whatever
-- `close` reports, and the other calls, and an `accept` that a signal interrupts, keep all of them.
pub record Files {W : Type 0} (sys : System W) : Type 0 where
  pub opened : ℕ → W → Bool
  pub after_read : (rfd size fd : ℕ) (w : W) → opened fd (sys.read rfd size w).1 ≡ opened fd w
  pub after_write :
      (wfd : ℕ) (buf : List ℕ) (fd : ℕ) (w : W) → opened fd (sys.write wfd buf w).1 ≡ opened fd w
  pub after_select : (sd fd : ℕ) (w : W) → opened fd (sys.select sd w).1 ≡ opened fd w
  pub after_crypt :
      (cfd ses op : ℕ) (src iv : List ℕ) (fd : ℕ) (w : W)
      → opened fd (sys.cioccrypt cfd ses op src iv w).1 ≡ opened fd w
  pub after_gsession :
      (cfd cipher : ℕ) (bytes : List ℕ) (fd : ℕ) (w : W)
      → opened fd (sys.ciocgsession cfd cipher bytes w).1 ≡ opened fd w
  pub after_fsession :
      (cfd ses fd : ℕ) (w : W) → opened fd (sys.ciocfsession cfd ses w).1 ≡ opened fd w
  pub after_open :
      (name : List ℕ) (n : ℕ) (w w' : W)
      → sys.open_file name w ≡ (some n, w')
      → (opened n w ≡ false) × ((fd : ℕ) → fd ≢ n → opened fd w' ≡ opened fd w)
  pub after_accept :
      (sd n : ℕ) (w w' : W)
      → sys.accept sd w ≡ (accepted n, w')
      → (opened n w ≡ false) × ((fd : ℕ) → fd ≢ n → opened fd w' ≡ opened fd w)
  pub after_signal :
      (sd fd : ℕ) (w w' : W) → sys.accept sd w ≡ (signalled, w') → opened fd w' ≡ opened fd w
  pub after_close :
      (n : ℕ) (w : W)
      → (opened n (sys.close n w).1 ≡ false)
        × ((fd : ℕ) → fd ≢ n → opened fd (sys.close n w).1 ≡ opened fd w)

module _ {W : Type 0} (sys : System W) (files : Files sys) where
  abbrev pub Same : W → W → Type 0
  Same w w' = (fd : ℕ) → files.opened fd w' ≡ files.opened fd w

  -- A step that goes on has the same files open as before.
  abbrev pub Keeps : {A : Type 0} → Step (Chat W) A → Type 0
  Keeps {A = A} m =
      (st : Chat W) → Leaves (λ (a : A) (st' : Chat W). Same st.world st'.world) (m st)

  pub bind-Keeps :
      {A B : Type 0} (m : Step (Chat W) A) (f : A → Step (Chat W) B)
      → Keeps m
      → ((a : A) → Keeps (f a))
      → Keeps (m >>= f)
  bind-Keeps m f h k st =
      continue-Leaves (λ a st'. Same st.world st'.world) (λ b st'. Same st.world st'.world) (m st) f
        (h st)
        λ a s q.
          Leaves-mono (λ b st'. Same s.world st'.world) (λ b st'. Same st.world st'.world) (f a s)
            (k a s) (λ b s' g. λ fd. g fd ∙ q fd)

  pub pure-Keeps : {A : Type 0} (a : A) → Keeps (pure a)
  pure-Keeps a st = λ fd. refl

  pub or_exit-Keeps : (good : Bool) → Keeps (or_exit good)
  or_exit-Keeps true st = λ fd. refl
  or_exit-Keeps false st = tt

  pub when-Keeps : (b : Bool) (m : Step (Chat W) (Unit {0})) → Keeps m → Keeps (when b m)
  when-Keeps true m h = h
  when-Keeps false m h = pure-Keeps tt

  turn_on :
      (rest : Step (Chat W) (Unit {0})) (leave : Bool) (s : Chat W)
      → Keeps rest
      → Leaves
          (λ (u : Unit {0}) (st' : Chat W). Same s.world st'.world)
          (elim leave [ true ↦ (next tt, s) | false ↦ rest s ])
  turn_on rest true s h = λ fd. refl
  turn_on rest false s h = h s

  pub repeat-Keeps :
      (turns : ℕ) (turn : Step (Chat W) Bool) → Keeps turn → Keeps (repeat turns turn)
  unfolding repeat
  repeat-Keeps zero turn h st = tt
  repeat-Keeps (suc turns) turn h st =
      bind-Keeps turn (λ leave s. elim leave [ true ↦ (next tt, s) | false ↦ repeat turns turn s ])
        h (λ leave s. turn_on (repeat turns turn) leave s (repeat-Keeps turns turn h)) st

  rest_of :
      {w : W} (r : Option ℕ × W) (rest : ℕ → Step W Bool)
      → Same w r.1
      → ((n : ℕ) (w1 : W) → Same w1 (rest n w1).1)
      → Same w
          (elim r.0 as (λ (o : Option ℕ). Flow Bool × W) [
            | none ↦ (next false, r.1)
            | some n ↦ rest n r.1
          ]).1
  rest_of (none, w1) rest h k = h
  rest_of (some n, w1) rest h k = λ fd. k n w1 fd ∙ h fd

  write_rest-Same : (fuel wfd : ℕ) (buf : List ℕ) (w : W) → Same w (write_rest sys fuel wfd buf w).1
  unfolding write_rest
  write_rest-Same fuel wfd [] w = λ fd. refl
  write_rest-Same zero wfd (b ∷ buf) w = λ fd. refl
  write_rest-Same (suc fuel) wfd (b ∷ buf) w =
      rest_of (sys.write wfd (b ∷ buf) w) (λ n. write_rest sys fuel wfd (drop n (b ∷ buf)))
        (λ fd. files.after_write wfd (b ∷ buf) fd w)
        (λ n w1. write_rest-Same fuel wfd (drop n (b ∷ buf)) w1)

  pub put-Keeps : (wfd : ℕ) (bytes : List ℕ) → Keeps (put sys wfd bytes)
  unfolding insist_write
  put-Keeps wfd bytes st =
      always-Leaves (λ a st'. Same st.world st'.world) (insist_write sys wfd bytes st.world).0 _
        (λ a. write_rest-Same (length bytes) wfd bytes st.world)

  pub put_anyway-Keeps : (wfd : ℕ) (bytes : List ℕ) → Keeps (put_anyway sys wfd bytes)
  put_anyway-Keeps wfd bytes =
      bind-Keeps (put sys wfd bytes) (λ whole. pure tt) (put-Keeps wfd bytes)
        (λ whole. pure-Keeps tt)

  received-Keeps :
      (r : Option (List ℕ) × W) (st : Chat W)
      → Same st.world r.1
      → Leaves (λ (n : Option ℕ) (st' : Chat W). Same st.world st'.world) (received sys r st)
  received-Keeps (none, w) st h = h
  received-Keeps (some bytes, w) st h = h

  pub read_in-Keeps : (rfd : ℕ) → Keeps (read_in sys rfd)
  read_in-Keeps rfd st =
      received-Keeps (sys.read rfd data_size st.world) st
        (λ fd. files.after_read rfd data_size fd st.world)

  encrypted-Keeps :
      (r : Option (List ℕ) × W) (st : Chat W)
      → Same st.world r.1
      → Leaves (λ (good : Bool) (st' : Chat W). Same st.world st'.world) (encrypted sys r st)
  encrypted-Keeps (none, w) st h = h
  encrypted-Keeps (some dst, w) st h = h

  pub encrypt-Keeps : (cfd : ℕ) → Keeps (encrypt sys cfd)
  unfolding encrypt
  encrypt-Keeps cfd st =
      encrypted-Keeps (sys.cioccrypt cfd st.ses cop_encrypt st.buf key st.world) st
        (λ fd. files.after_crypt cfd st.ses cop_encrypt st.buf key fd st.world)

  copied-Keeps :
      (r : Option (List ℕ × ℕ)) (w : W) (st : Chat W)
      → Same st.world w
      → Leaves (λ (good : Bool) (st' : Chat W). Same st.world st'.world) (copied sys r w st)
  copied-Keeps none w st h = tt
  copied-Keeps (some (buf, i)) w st h = h

  decrypted-Keeps :
      (r : Option (List ℕ) × W) (st : Chat W)
      → Same st.world r.1
      → Leaves (λ (good : Bool) (st' : Chat W). Same st.world st'.world) (decrypted sys r st)
  decrypted-Keeps (none, w) st h = h
  decrypted-Keeps (some dst, w) st h =
      copied-Keeps (copy_line (take data_size dst) (replicate data_size b'\r')) w st h

  pub decrypt-Keeps : (cfd : ℕ) → Keeps (decrypt sys cfd)
  unfolding decrypt
  decrypt-Keeps cfd st =
      decrypted-Keeps (sys.cioccrypt cfd st.ses cop_decrypt st.buf key st.world) st
        (λ fd. files.after_crypt cfd st.ses cop_decrypt st.buf key fd st.world)
