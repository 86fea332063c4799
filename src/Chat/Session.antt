-- ===== src/Chat/Session.antt =====
-- The session with the cryptographic device that `main` of both client.c and server.c of
-- Virtio_Crypto_Chat/encrypted_chat opens and ends, in the same words.
use operating_systems_lab_nt.Prelude.{ℕ, List, [], ◌∷◌, Option, none, some}
use operating_systems_lab_nt.Chat.Block.{Chat, key}
use operating_systems_lab_nt.Chat.Flow.{next, exit, Step, ◌>>=◌, ◌>>◌}
use operating_systems_lab_nt.Chat.System.{System}
use operating_systems_lab_nt.Chat.Talk.{or_exit}

-- CRYPTO_AES_CBC
abbrev pub crypto_aes_cbc : ℕ
crypto_aes_cbc = 11

-- "/dev/crypto", or the argument that names another file.
abbrev pub crypto_fname : Option (List ℕ) → List ℕ
crypto_fname none = b'/' ∷ b'd' ∷ b'e' ∷ b'v' ∷ b'/' ∷ b'c' ∷ b'r' ∷ b'y' ∷ b'p' ∷ b't' ∷ b'o' ∷ []
crypto_fname (some name) = name

module _ {S A : Type 0} where
  -- The result of a call that ends the program where the call fails.
  abbrev pub get_or_exit : Option A → Step S A
  get_or_exit (some a) st = (next a, st)
  get_or_exit none st = (exit 1, st)

module _ {W : Type 0} (sys : System W) where
  -- A call of the system.
  abbrev pub call : {A : Type 0} → (W → A × W) → Step (Chat W) A
  call f st = let (r, w) = f st.world in (next r, record st { world = w })

  unfoldable pub open_session : Option (List ℕ) → Step (Chat W) ℕ
  open_session name = do
    file ← call (sys.open_file (crypto_fname name))
    cfd ← get_or_exit file
    (λ st. (next tt, record st { ses = 0 }))
    found ← call (sys.ciocgsession cfd crypto_aes_cbc key)
    number ← get_or_exit found
    (λ st. (next cfd, record st { ses = number }))

  unfoldable pub end_session : ℕ → Step (Chat W) (Unit {0})
  end_session cfd = do
    ended ← (λ st. call (sys.ciocfsession cfd st.ses) st)
    or_exit ended
    closed ← call (sys.close cfd)
    or_exit closed
