-- ===== src/Crypto/Selftest.antt =====
-- The test programs of the device: test_crypto.c and test_fork_crypto.c of
-- Virtio_Crypto_Chat/virtio-cryptodev/guest. The functions that they share are taken from the first.
pub mod Passing
pub mod InGuest
use operating_systems_lab_nt.Prelude.{
  ℕ, Bool, true, false, ◌&&◌, List, [], ◌∷◌, ◌++◌, Option, none, some, ◌==◌, if◌then◌else◌, length,
  drop,
}
use operating_systems_lab_nt.Chat.Flow.{next, exit, Step, ◌>>=◌, ◌>>◌, pure}
use operating_systems_lab_nt.Crypto.Message.{SessionOp, CryptOp, Pointer, user}

-- The system that the programs call, over its state `W`. `none` is a result below 0, `false` one
-- that the code takes for an error. An ioctl is given its structure and the bytes that its pointers
-- lead to: the key; the source, the initialisation vector and the destination. `ciocgsession` finds
-- the number of the session, `cioccrypt` the bytes of the destination. `fork` is 0 in the child.
pub record Calls (W : Type 0) : Type 0 where
  pub open_file : List ℕ → W → Option ℕ × W
  pub read : ℕ → ℕ → W → Option (List ℕ) × W
  pub close : ℕ → W → Bool × W
  pub ciocgsession : ℕ → SessionOp → List ℕ → W → Option ℕ × W
  pub cioccrypt : ℕ → CryptOp → List ℕ → List ℕ → List ℕ → W → Option (List ℕ) × W
  pub ciocfsession : ℕ → ℕ → W → Bool × W
  pub fork : W → Option ℕ × W
  pub wait : W → W

-- DATA_SIZE
unfoldable pub data_size : ℕ
data_size = 16384

-- KEY_SIZE
abbrev pub key_size : ℕ
key_size = 24

-- The struct `data` of `test_crypto`, which nothing initialises.
pub record Data : Type 0 where
  pub input : List ℕ
  pub encrypted : List ℕ
  pub decrypted : List ℕ
  pub iv : List ℕ
  pub key : List ℕ

-- `struct session_op` as `test_crypto` fills it; the pointers are numbered.
abbrev pub test_session : SessionOp
test_session = record {
  cipher = 11;
  mac = 0;
  keylen = key_size;
  key = user 4;
  mackeylen = 0;
  mackey = user 0;
  ses = 0;
}

-- `struct crypt_op`, for the session `ses` and an operation from `src` to `dst`.
abbrev pub test_crypt : ℕ → ℕ → Pointer → Pointer → CryptOp
test_crypt ses op src dst = record {
  ses = ses;
  op = op;
  flags = 0;
  len = data_size;
  src = src;
  dst = dst;
  mac = user 0;
  iv = user 3;
}

-- COP_ENCRYPT and COP_DECRYPT
abbrev pub encryption : ℕ
encryption = 0

abbrev pub decryption : ℕ
decryption = 1

-- `memcmp(...) == 0`, on arrays of one size.
unfoldable pub same_bytes : List ℕ → List ℕ → Bool
same_bytes [] [] = true
same_bytes (a ∷ first) (b ∷ second) = let rest = same_bytes first second in (a == b) && rest
same_bytes _ _ = false

-- An array, after a read into it.
abbrev pub filled : List ℕ → List ℕ → List ℕ
filled bytes buf = bytes ++ drop (length bytes) buf

-- "/dev/urandom"
abbrev pub urandom : List ℕ
urandom = b'/' ∷ b'd' ∷ b'e' ∷ b'v' ∷ b'/' ∷ b'u' ∷ b'r' ∷ b'a' ∷ b'n' ∷ b'd' ∷ b'o' ∷ b'm' ∷ []

-- "/dev/crypto", or the argument that names another file.
abbrev pub filename : Option (List ℕ) → List ℕ
filename none = b'/' ∷ b'd' ∷ b'e' ∷ b'v' ∷ b'/' ∷ b'c' ∷ b'r' ∷ b'y' ∷ b'p' ∷ b't' ∷ b'o' ∷ []
filename (some name) = name

module _ {W : Type 0} where
  abbrev pub call : {A : Type 0} → (W → A × W) → Step W A
  call f w = let (r, w') = f w in (next r, w')

  -- `return 1`, which ends `test_crypto` and then `main`.
  abbrev pub or_fail : {A : Type 0} → Option A → Step W A
  or_fail (some a) w = (next a, w)
  or_fail none w = (exit 1, w)

  abbrev pub hold : Bool → Step W (Unit {0})
  hold true w = (next tt, w)
  hold false w = (exit 1, w)

module _ {W : Type 0} (sys : Calls W) where
  abbrev pub fill_from : List ℕ → Option ℕ → Step W (Option (List ℕ))
  fill_from buf none = pure none
  fill_from buf (some fd) = do
    ret ← call (sys.read fd data_size)
    closed ← call (sys.close fd)
    pure (elim ret [ none ↦ none | some bytes ↦ some (filled bytes buf) ])

  -- `fill_urandom_buff`: what `in` then holds, where the result is not below 0.
  unfoldable pub fill_urandom_buff : List ℕ → Step W (Option (List ℕ))
  fill_urandom_buff buf = do file ← call (sys.open_file urandom); fill_from buf file

  -- `test_crypto`, behind the filling of `in`.
  unfoldable pub exercise : ℕ → Data → List ℕ → Step W (Unit {0})
  exercise cfd data' input = do
    found ← call (sys.ciocgsession cfd test_session data'.key)
    ses ← or_fail found
    made ← call (
        sys.cioccrypt cfd (test_crypt ses encryption (user 1) (user 2)) input data'.iv
          data'.encrypted)
    encrypted ← or_fail made
    back ← call (
        sys.cioccrypt cfd (test_crypt ses decryption (user 2) (user 5)) encrypted data'.iv
          data'.decrypted)
    decrypted ← or_fail back
    hold (same_bytes input decrypted)
    ended ← call (sys.ciocfsession cfd ses)
    hold ended

  -- `test_crypto`
  unfoldable pub test_crypto : ℕ → Data → Step W (Unit {0})
  test_crypto cfd data' = do
    random ← fill_urandom_buff data'.input
    input ← or_fail random
    exercise cfd data' input

  -- `main` of test_crypto.c, with the code that it returns at its end.
  unfoldable pub main : Option (List ℕ) → Data → Step W ℕ
  main argv1 data' = do
    file ← call (sys.open_file (filename argv1))
    fd ← or_fail file
    test_crypto fd data'
    closed ← call (sys.close fd)
    hold closed
    pure 0

  -- `if (pid) wait(NULL)`
  abbrev pub wait_for : ℕ → Step W (Unit {0})
  wait_for pid w = (next tt, (if pid == 0 then w else sys.wait w))

  -- `return -1`, as the exit code of the process.
  abbrev pub or_minus_one : Option ℕ → Step W ℕ
  or_minus_one (some pid) w = (next pid, w)
  or_minus_one none w = (exit 255, w)

  -- `main` of test_fork_crypto.c, in the process where `fork` returns `pid`.
  unfoldable pub main_forked : Option (List ℕ) → Data → Step W ℕ
  main_forked argv1 data' = do
    file ← call (sys.open_file (filename argv1))
    fd ← or_fail file
    forked ← call sys.fork
    pid ← or_minus_one forked
    test_crypto fd data'
    closed ← call (sys.close fd)
    hold closed
    wait_for pid
    pure 0
