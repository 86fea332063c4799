-- ===== src/Chat/Talk.antt =====
-- Receiving and sending in Virtio_Crypto_Chat/encrypted_chat/client.c; server.c has the same.
pub mod Steps
pub mod Receive
pub mod Send
pub mod Exchange
pub mod Files
pub mod Kept
use operating_systems_lab_nt.Prelude.{
  ℕ, zero, suc, ◌-◌, Bool, true, false, List, [], ◌∷◌, Option, none, some, if◌then◌else◌, ◌==◌,
  get_or, replicate, length,
}
use operating_systems_lab_nt.Chat.Block.{Chat, data_size, overlay, encrypt, decrypt}
use operating_systems_lab_nt.Chat.Flow.{
  Flow, next, exit, endless, overrun, Step, continue, ◌>>=◌, ◌>>◌, pure,
}
use operating_systems_lab_nt.Chat.System.{System, Selected, interrupted, failed, ready}
use operating_systems_lab_nt.Chat.Write.{insist_write}

module _ {S : Type 0} where
  -- `while (1)` round a body that says whether it breaks.
  unfoldable pub repeat : ℕ → Step S Bool → Step S (Unit {0})
  repeat zero turn st = (endless, st)
  repeat (suc turns) turn st =
      let (r, st') = turn st in
      continue r (λ leave. λ s. elim leave [ true ↦ (next tt, s) | false ↦ repeat turns turn s ])
        st'

  -- A result that ends the program where it is not what is wanted.
  abbrev pub or_exit : Bool → Step S (Unit {0})
  or_exit true st = (next tt, st)
  or_exit false st = (exit 1, st)

  abbrev pub when : Bool → Step S (Unit {0}) → Step S (Unit {0})
  when true step = step
  when false step = pure tt

-- VERIF
abbrev pub verif : List ℕ
verif = b'S' ∷ b'e' ∷ b'n' ∷ b't' ∷ b'.' ∷ b'\n' ∷ []

abbrev pub stdin : ℕ
stdin = 0

abbrev pub stdout : ℕ
stdout = 1

module _ {W : Type 0} (sys : System W) where
  -- `insist_write` on the state of the program.
  abbrev pub put : ℕ → List ℕ → Step (Chat W) Bool
  put fd bytes st = let (r, w) = insist_write sys fd bytes st.world in (r, record st { world = w })

  abbrev received : Option (List ℕ) × W → Chat W → Flow (Option ℕ) × Chat W
  received (none, w) st = (next none, record st { world = w })
  received (some bytes, w) st =
      (next (some (length bytes)), record st { buf = overlay bytes st.buf; world = w })

  -- `n = read(rfd, buf, sizeof(buf))`, where `none` is -1.
  abbrev pub read_in : ℕ → Step (Chat W) (Option ℕ)
  read_in rfd st = received (sys.read rfd data_size st.world) st

  -- `buf[n-1]`, which is in front of the array where nothing was read.
  abbrev pub last_byte : Option ℕ → Chat W → ℕ
  last_byte none st = sys.in_front 2 st.world
  last_byte (some zero) st = sys.in_front 1 st.world
  last_byte (some (suc n)) st = get_or st.buf n 0

  -- A call of `insist_write` whose result is not looked at.
  abbrev pub put_anyway : ℕ → List ℕ → Step (Chat W) (Unit {0})
  put_anyway fd bytes = put fd bytes >>= λ whole. pure tt

-- `handler` is what `raise(SIGINT)` runs.
module _ {W : Type 0} (handler : Step (Chat W) (Unit {0})) where
  -- The end of a turn: the connection is closed, or else `leave` says whether to break.
  abbrev pub closing : Option ℕ → Bool → Step (Chat W) Bool
  closing none leave = pure leave
  closing (some zero) leave = handler >> pure true
  closing (some (suc n)) leave = pure leave

module _ {W : Type 0} (sys : System W) (handler : Step (Chat W) (Unit {0})) where
  unfoldable pub receive_turn : ℕ → ℕ → ℕ → Step (Chat W) Bool
  unfolding decrypt insist_write
  receive_turn rfd cfd wfd = do
    n ← read_in sys rfd
    good ← decrypt sys cfd
    or_exit good
    whole ← (λ st. put sys wfd st.buf st)
    or_exit whole
    (λ st. closing handler n (get_or st.buf st.dec_buf_len 0 == b'\r') st)

  unfoldable pub send_turn : ℕ → ℕ → ℕ → Step (Chat W) Bool
  unfolding encrypt insist_write
  send_turn rfd cfd wfd = do
    n ← read_in sys rfd
    flag ← (λ st. (next (last_byte sys n st == b'\n'), st))
    good ← encrypt sys cfd
    or_exit good
    whole ← (λ st. put sys wfd st.buf st)
    or_exit whole
    closing handler n flag

-- `turns` bounds the turns of a loop.
module _ {W : Type 0} (sys : System W) (handler : Step (Chat W) (Unit {0})) (turns : ℕ) where
  -- `read_decrypt_write`
  unfoldable pub read_decrypt_write : ℕ → ℕ → ℕ → Step (Chat W) (Unit {0})
  unfolding receive_turn repeat
  read_decrypt_write rfd cfd wfd = repeat turns (receive_turn sys handler rfd cfd wfd)

  -- `read_encrypt_write`
  unfoldable pub read_encrypt_write : ℕ → ℕ → ℕ → Step (Chat W) (Unit {0})
  unfolding send_turn repeat
  read_encrypt_write rfd cfd wfd = repeat turns (send_turn sys handler rfd cfd wfd)

  -- What follows a `select`, with the prefix that the peer's lines have.
  unfoldable pub after_select : ℕ → ℕ → List ℕ → Selected → Step (Chat W) Bool
  unfolding read_decrypt_write read_encrypt_write insist_write
  after_select sd cfd prefix interrupted = handler >> pure true
  after_select sd cfd prefix failed = λ st. (exit 1, st)
  after_select sd cfd prefix (ready from_peer from_user) = do
    when from_peer (put_anyway sys stdout prefix >> read_decrypt_write sd cfd stdout)
    when from_user (do
      (λ st. (next tt, record st { buf = replicate data_size 0 }))
      read_encrypt_write stdin cfd sd
      put_anyway sys 0 verif)
    pure false

  -- A turn of `while(conn_active)` in `main`.
  unfoldable pub talk_turn : ℕ → ℕ → List ℕ → Step (Chat W) Bool
  unfolding after_select
  talk_turn sd cfd prefix st =
      if st.conn_active
      then (let (found, w) = sys.select sd st.world in
          after_select sd cfd prefix found (record st { world = w }))
      else (next true, st)

  unfoldable pub talk : ℕ → ℕ → List ℕ → Step (Chat W) (Unit {0})
  unfolding talk_turn repeat
  talk sd cfd prefix = repeat turns (talk_turn sd cfd prefix)
