-- ===== src/Chat/Server.antt =====
-- `main` of Virtio_Crypto_Chat/encrypted_chat/server.c, and its signal handler.
pub mod Closing
use operating_systems_lab_nt.Prelude.{
  ℕ, Bool, true, false, List, [], ◌∷◌, Option, none, some, if◌then◌else◌,
}
use operating_systems_lab_nt.Chat.Block.{Chat}
use operating_systems_lab_nt.Chat.Flow.{Flow, next, exit, Step, ◌>>=◌, ◌>>◌, pure}
use operating_systems_lab_nt.Chat.Session.{call, get_or_exit, open_session, end_session}
use operating_systems_lab_nt.Chat.System.{System, Accepted, signalled, refused, accepted}
use operating_systems_lab_nt.Chat.Talk.{or_exit, talk, repeat}

-- PEER_PREFIX
abbrev pub peer_prefix : List ℕ
peer_prefix = b'c' ∷ b'l' ∷ b'i' ∷ b'e' ∷ b'n' ∷ b't' ∷ b':' ∷ b' ' ∷ []

-- TCP_PORT and TCP_BACKLOG of common.h.
abbrev pub tcp_port : ℕ
tcp_port = 35001

abbrev pub tcp_backlog : ℕ
tcp_backlog = 5

module _ {W : Type 0} (sys : System W) where
  -- `clear_conn_active`, with the global `sd`.
  unfoldable pub clear_conn_active : ℕ → Step (Chat W) (Unit {0})
  clear_conn_active sd st =
      if st.conn_active
      then (next tt, record st { conn_active = false })
      else (exit 0, record st { world = (sys.close sd st.world).1 })

  unfoldable pub listen_on : ℕ → Step (Chat W) ℕ
  listen_on port = do
    made ← call sys sys.socket
    sd ← get_or_exit made
    bound ← call sys (sys.bind sd port)
    or_exit bound
    listening ← call sys (sys.listen sd tcp_backlog)
    or_exit listening
    pure sd

  -- A connection, from what `accept` has found on to its end.
  unfoldable pub serve : ℕ → ℕ → Option (List ℕ) → Accepted → Step (Chat W) (Unit {0})
  unfolding clear_conn_active open_session end_session talk
  serve turns sd name signalled = clear_conn_active sd
  serve turns sd name refused = λ st. (exit 1, st)
  serve turns sd name (accepted newsd) = do
    (λ st. or_exit (sys.inet_ntop st.world) st)
    cfd ← open_session sys name
    (λ st. (next tt, record st { conn_active = true }))
    talk sys (clear_conn_active sd) turns newsd cfd peer_prefix
    end_session sys cfd
    closed ← call sys (sys.close newsd)
    pure tt

  -- A turn of the loop in `main`, which never breaks.
  unfoldable pub serve_turn : ℕ → ℕ → Option (List ℕ) → Step (Chat W) Bool
  unfolding serve
  serve_turn turns sd name = do
    found ← call sys (sys.accept sd)
    serve turns sd name found
    pure false

  -- `main`, with `argv[1]`.
  unfoldable pub main : ℕ → Option (List ℕ) → Step (Chat W) ℕ
  unfolding listen_on serve_turn repeat
  main turns name = do sd ← listen_on tcp_port; repeat turns (serve_turn turns sd name); pure 1
