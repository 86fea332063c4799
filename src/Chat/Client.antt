-- ===== src/Chat/Client.antt =====
-- `main` of Virtio_Crypto_Chat/encrypted_chat/client.c.
use operating_systems_lab_nt.Prelude.{ℕ, true, false, List, [], ◌∷◌, Option, if◌then◌else◌, ltb}
use operating_systems_lab_nt.Chat.Block.{Chat}
use operating_systems_lab_nt.Chat.Flow.{next, exit, Step, ◌>>=◌, ◌>>◌, pure}
use operating_systems_lab_nt.Chat.Session.{call, get_or_exit, open_session, end_session}
use operating_systems_lab_nt.Chat.System.{System}
use operating_systems_lab_nt.Chat.Talk.{or_exit, talk}

-- PEER_PREFIX
abbrev pub peer_prefix : List ℕ
peer_prefix = b's' ∷ b'e' ∷ b'r' ∷ b'v' ∷ b'e' ∷ b'r' ∷ b':' ∷ b' ' ∷ []

module _ {W : Type 0} (sys : System W) where
  unfoldable pub clear_conn_active : Step (Chat W) (Unit {0})
  clear_conn_active st = (next tt, record st { conn_active = false })

  unfoldable pub connect_to : List ℕ → ℕ → Step (Chat W) ℕ
  connect_to hostname port = do
    made ← call sys sys.socket
    sd ← get_or_exit made
    address ← (λ st. get_or_exit (sys.gethostbyname hostname st.world) st)
    connected ← call sys (sys.connect sd address port)
    or_exit connected
    pure sd

  -- `main`, with `argc`, `argv[1]`, what `atoi` finds in `argv[2]`, and `argv[3]`.
  unfoldable pub main : ℕ → ℕ → List ℕ → ℕ → Option (List ℕ) → Step (Chat W) ℕ
  unfolding clear_conn_active connect_to open_session end_session talk
  main turns argc hostname port name = if ltb argc 3 then (λ st. (exit 1, st)) else do
    sd ← connect_to hostname port
    cfd ← open_session sys name
    (λ st. (next tt, record st { conn_active = true }))
    talk sys clear_conn_active turns sd cfd peer_prefix
    end_session sys cfd
    down ← call sys (sys.shutdown sd)
    or_exit down
    pure 0
