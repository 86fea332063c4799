-- ===== src/Crypto/Selftest/Passing.antt =====
-- What it means that the test programs of Virtio_Crypto_Chat/virtio-cryptodev/guest pass.
use operating_systems_lab_nt.Prelude.{
  ℕ, ◌≡◌, refl, sym, ap, ap₂, ◌∙◌, ◌↔◌, Bool, true, false, List, [], ◌∷◌, Option, none, some, arith,
  ◌==◌, if◌then◌else◌, Bool-cases, inl, inr,
}
use operating_systems_lab_nt.Chat.Flow.{
  Flow, next, exit, endless, overrun, Step, continue, ◌>>=◌, ◌>>◌,
}
use operating_systems_lab_nt.Crypto.Message.{user}
use operating_systems_lab_nt.Crypto.Selftest.{
  Calls, Data, test_session, test_crypt, encryption, decryption, same_bytes, filename, call,
  or_fail, hold, fill_urandom_buff, exercise, test_crypto, main, main_forked,
}

same_bytes-eq : (a b : List ℕ) → same_bytes a b ≡ true → a ≡ b
unfolding same_bytes
same_bytes-eq [] [] h = refl
same_bytes-eq [] (y ∷ b) h = cc
same_bytes-eq (x ∷ a) [] h = cc
same_bytes-eq (x ∷ a) (y ∷ b) h = elim (Bool-cases (x == y)) [
  | inl e ↦
      let rest : same_bytes a b ≡ true = rw e at h in
      let same : x ≡ y = ground arith in ap₂ (λ c l. c ∷ l) same (same_bytes-eq a b rest)
  | inr n ↦ let no : false ≡ true = rw n at h in cc
]

pub same_bytes_refl : (a : List ℕ) → same_bytes a a ≡ true
unfolding same_bytes
same_bytes_refl [] = refl
same_bytes_refl (x ∷ a) = let e : (x == x) ≡ true = ground arith in rw (e, same_bytes_refl a) refl

module _ {W A B : Type 0} where
  -- A call that has not ended the program has found something.
  took :
      (f : W → Option A × W) (k : A → Step W B) (w w' : W) (b : B)
      → (call f >>= λ o. or_fail o >>= k) w ≡ (next b, w')
      → (a : A) × (t : W) × (f w ≡ (some a, t)) × (k a t ≡ (next b, w'))
  took f k w w' b h = go (f w) refl h
    where
      go :
          (r : Option A × W)
          → f w ≡ r
          → continue (or_fail r.0 r.1).0 k (or_fail r.0 r.1).1 ≡ (next b, w')
          → (a : A) × (t : W) × (f w ≡ (some a, t)) × (k a t ≡ (next b, w'))
      go (some a, t) e h = (a, t, e, h)
      go (none, t) e h = cc

  -- A step that has come to its end has gone through both of its parts.
  parts :
      (m : Step W A) (f : A → Step W B) (w w' : W) (b : B)
      → (m >>= f) w ≡ (next b, w')
      → (a : A) × (t : W) × (m w ≡ (next a, t)) × (f a t ≡ (next b, w'))
  parts m f w w' b h = go (m w) refl h
    where
      go :
          (r : Flow A × W)
          → m w ≡ r
          → continue r.0 f r.1 ≡ (next b, w')
          → (a : A) × (t : W) × (m w ≡ (next a, t)) × (f a t ≡ (next b, w'))
      go (next a, t) e h = (a, t, e, h)
      go (exit code, t) e h = cc
      go (endless, t) e h = cc
      go (overrun, t) e h = cc

  given :
      (o : Option A) (k : A → Step W B) (w w' : W) (b : B)
      → (or_fail o >>= k) w ≡ (next b, w')
      → (a : A) × (o ≡ some a) × (k a w ≡ (next b, w'))
  given (some a) k w w' b h = (a, refl, h)
  given none k w w' b h = cc

module _ {W B : Type 0} where
  agreed :
      (c : Bool) (k : Step W B) (w w' : W) (b : B)
      → (hold c >> k) w ≡ (next b, w')
      → (c ≡ true) × (k w ≡ (next b, w'))
  agreed true k w w' b h = (refl, h)
  agreed false k w w' b h = cc

  worked :
      (f : W → Bool × W) (k : Step W B) (w w' : W) (b : B)
      → (call f >>= λ c. hold c >> k) w ≡ (next b, w')
      → (t : W) × (f w ≡ (true, t)) × (k t ≡ (next b, w'))
  worked f k w w' b h = go (f w) refl h
    where
      go :
          (r : Bool × W)
          → f w ≡ r
          → continue (hold r.0 r.1).0 (λ _. k) (hold r.0 r.1).1 ≡ (next b, w')
          → (t : W) × (f w ≡ (true, t)) × (k t ≡ (next b, w'))
      go (true, t) e h = (t, e, h)
      go (false, t) e h = cc

module _ {W : Type 0} (sys : Calls W) (cfd : ℕ) (data' : Data) where
  -- A session was opened; what it made of `input` was made into `input` again; it was ended.
  pub record Passed (input : List ℕ) (w w' : W) : Type 0 where
    pub ses : ℕ
    pub encrypted : List ℕ
    pub w1 : W
    pub w2 : W
    pub w3 : W
    pub opens : sys.ciocgsession cfd test_session data'.key w ≡ (some ses, w1)
    pub encrypts :
        sys.cioccrypt cfd
          (test_crypt ses encryption (user 1) (user 2))
          input
          data'.iv
          data'.encrypted
          w1
        ≡ (some encrypted, w2)
    pub decrypts :
        sys.cioccrypt cfd
          (test_crypt ses decryption (user 2) (user 5))
          encrypted
          data'.iv
          data'.decrypted
          w2
        ≡ (some input, w3)
    pub ends : sys.ciocfsession cfd ses w3 ≡ (true, w')

  passes :
      (ses : ℕ) (w w' : W)
      → (call (sys.ciocfsession cfd ses) >>= hold) w ≡ (next tt, w')
      → sys.ciocfsession cfd ses w ≡ (true, w')
  passes ses w w' h = go (sys.ciocfsession cfd ses w) refl h
    where
      go :
          (r : Bool × W)
          → sys.ciocfsession cfd ses w ≡ r
          → hold r.0 r.1 ≡ (next tt, w')
          → sys.ciocfsession cfd ses w ≡ (true, w')
      go (true, t) e h = e ∙ ap (λ t. (true, t)) cc
      go (false, t) e h = cc

  exercise-Passed :
      (input : List ℕ) (w w' : W)
      → exercise sys cfd data' input w ≡ (next tt, w')
      → Passed input w w'
  unfolding exercise
  exercise-Passed input w w' h =
      let (ses, w1, opens, h1) = took (sys.ciocgsession cfd test_session data'.key) _ w w' tt h in
      let (encrypted, w2, encrypts, h2) =
        took
          (sys.cioccrypt cfd (test_crypt ses encryption (user 1) (user 2)) input data'.iv
            data'.encrypted)
          _ w1 w' tt h1 in
      let (decrypted, w3, decrypts, h3) =
        took
          (sys.cioccrypt cfd (test_crypt ses decryption (user 2) (user 5)) encrypted data'.iv
            data'.decrypted)
          _ w2 w' tt h2 in
      let (same, h4) = agreed (same_bytes input decrypted) _ w3 w' tt h3 in
      record {
        ses = ses;
        encrypted = encrypted;
        w1 = w1;
        w2 = w2;
        w3 = w3;
        opens = opens;
        encrypts = encrypts;
        decrypts = decrypts ∙ ap (λ l. (some l, w3)) (sym (same_bytes-eq input decrypted same));
        ends = passes ses w3 w' h4;
      }

  Passed-exercise :
      (input : List ℕ) (w w' : W)
      → Passed input w w'
      → exercise sys cfd data' input w ≡ (next tt, w')
  unfolding exercise
  Passed-exercise input w w' p =
      rw (p.opens, p.encrypts, p.decrypts, same_bytes_refl input, p.ends) refl

module _ {W : Type 0} (sys : Calls W) (argv1 : Option (List ℕ)) (data' : Data) where
  -- A run that returns 0: the device was opened, the input filled, the exercise passed, and the
  -- device was closed.
  pub record Succeeded (w w' : W) : Type 0 where
    pub cfd : ℕ
    pub input : List ℕ
    pub w1 : W
    pub w2 : W
    pub w3 : W
    pub opened : sys.open_file (filename argv1) w ≡ (some cfd, w1)
    pub random : fill_urandom_buff sys data'.input w1 ≡ (next (some input), w2)
    pub passed : Passed sys cfd data' input w2 w3
    pub closed : sys.close cfd w3 ≡ (true, w')

  main-Succeeded-to : (w w' : W) → main sys argv1 data' w ≡ (next 0, w') → Succeeded w w'
  unfolding main test_crypto
  main-Succeeded-to w w' h =
      let (cfd, w1, opened, h1) = took (sys.open_file (filename argv1)) _ w w' 0 h in
      let (u, w3, tested, h2) = parts (test_crypto sys cfd data') _ w1 w' 0 h1 in
      let (random, w2, read, h3) = parts (fill_urandom_buff sys data'.input) _ w1 w3 tt tested in
      let (input, found, h4) = given random _ w2 w3 tt h3 in
      let (t, closed, h5) = worked (sys.close cfd) _ w3 w' 0 h2 in
      let last : t ≡ w' = cc in
      record {
        cfd = cfd;
        input = input;
        w1 = w1;
        w2 = w2;
        w3 = w3;
        opened = opened;
        random = read ∙ ap (λ o. (next o, w2)) found;
        passed = exercise-Passed sys cfd data' input w2 w3 h4;
        closed = closed ∙ ap (λ t. (true, t)) last;
      }

  main-Succeeded-from : (w w' : W) → Succeeded w w' → main sys argv1 data' w ≡ (next 0, w')
  unfolding main test_crypto
  main-Succeeded-from w w' s =
      rw (s.opened, s.random, Passed-exercise sys s.cfd data' s.input s.w2 s.w3 s.passed, s.closed)
        refl

  -- test_crypto.c returns 0 exactly where it has opened the device and filled its input, where a
  -- session of the device has made this input, by an encryption and a decryption, into itself, and
  -- where the session was ended and the device closed.
  pub main-Succeeded : (w w' : W) → (main sys argv1 data' w ≡ (next 0, w')) ↔ Succeeded w w'
  main-Succeeded w w' = (main-Succeeded-to w w', main-Succeeded-from w w')

  -- The forked program returns 0 in each of its processes whose exercise passes; the parent first
  -- waits for its child.
  pub main_forked-Passed :
      (w w1 w2 w3 w4 w' : W) (cfd pid : ℕ) (input : List ℕ)
      → sys.open_file (filename argv1) w ≡ (some cfd, w1)
      → sys.fork w1 ≡ (some pid, w2)
      → fill_urandom_buff sys data'.input w2 ≡ (next (some input), w3)
      → Passed sys cfd data' input w3 w4
      → sys.close cfd w4 ≡ (true, w')
      → main_forked sys argv1 data' w ≡ (next 0, (if pid == 0 then w' else sys.wait w'))
  unfolding main_forked test_crypto
  main_forked-Passed w w1 w2 w3 w4 w' cfd pid input opened forked random passed closed =
      rw (opened, forked, random, Passed-exercise sys cfd data' input w3 w4 passed, closed) refl
