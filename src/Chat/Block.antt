-- ===== src/Chat/Block.antt =====
-- The state that client.c and server.c of Virtio_Crypto_Chat/encrypted_chat keep, and the encryption
-- and decryption of its array `buf`; both files have the same.
pub mod Copy
pub mod Overrun
use operating_systems_lab_nt.Prelude.{
  ℕ, suc, Bool, true, false, List, [], ◌∷◌, ◌++◌, Option, none, some, if◌then◌else◌, ◌==◌, length,
  take, drop, replicate,
}
use operating_systems_lab_nt.Chat.Flow.{Flow, next, exit, endless, overrun, Step}
use operating_systems_lab_nt.Chat.System.{System}

-- The global data, with the state of the system. `ses` is the number in `sess`.
pub record Chat (W : Type 0) : Type 0 where
  pub conn_active : Bool
  pub buf : List ℕ
  pub dec_buf_len : ℕ
  pub ses : ℕ
  pub world : W

-- DATA_SIZE, and the size of `buf`.
abbrev pub data_size : ℕ
data_size = 512

-- `key`, which is `invect` too.
abbrev pub key : List ℕ
key =
    b'0' ∷ b'1' ∷ b'2' ∷ b'3' ∷ b'4' ∷ b'5' ∷ b'6' ∷ b'7' ∷ b'8' ∷ b'9' ∷ b'a' ∷ b'b' ∷ b'c' ∷ b'd'
    ∷ b'e' ∷ b'f' ∷ []

abbrev pub cop_encrypt : ℕ
cop_encrypt = 0

abbrev pub cop_decrypt : ℕ
cop_decrypt = 1

-- Bytes stored from the start of an array on.
abbrev pub overlay : List ℕ → List ℕ → List ℕ
overlay bytes buf = bytes ++ drop (length bytes) buf

-- The loop of `decrypt`, over what is left of `decrypted` and of `buf`; the number is that of its
-- turns. To go on behind the end of either is a fault.
unfoldable pub copy_line : List ℕ → List ℕ → Option (List ℕ × ℕ)
copy_line [] buf = none
copy_line (c ∷ decrypted) [] = none
copy_line (c ∷ decrypted) (b ∷ buf) = elim (copy_line decrypted buf) [
  | none ↦ if c == 0 then some (b'\r' ∷ buf, 0) else none
  | some (rest, i) ↦ if c == 0 then some (b'\r' ∷ buf, 0) else some (c ∷ rest, suc i)
]

module _ {W : Type 0} (sys : System W) where
  abbrev pub encrypted : Option (List ℕ) × W → Chat W → Flow Bool × Chat W
  encrypted (none, w) st = (next false, record st { world = w })
  encrypted (some dst, w) st =
      (next true, record st { buf = overlay (take data_size dst) st.buf; world = w })

  -- `encrypt`; `false` is its result 1.
  unfoldable pub encrypt : ℕ → Step (Chat W) Bool
  encrypt cfd st = encrypted (sys.cioccrypt cfd st.ses cop_encrypt st.buf key st.world) st

  abbrev pub copied : Option (List ℕ × ℕ) → W → Chat W → Flow Bool × Chat W
  copied none w st = (overrun, record st { world = w })
  copied (some (buf, i)) w st = (next true, record st { buf = buf; dec_buf_len = i; world = w })

  abbrev pub decrypted : Option (List ℕ) × W → Chat W → Flow Bool × Chat W
  decrypted (none, w) st = (next false, record st { world = w })
  decrypted (some dst, w) st =
      copied (copy_line (take data_size dst) (replicate data_size b'\r')) w st

  -- `decrypt`
  unfoldable pub decrypt : ℕ → Step (Chat W) Bool
  unfolding copy_line
  decrypt cfd st = decrypted (sys.cioccrypt cfd st.ses cop_decrypt st.buf key st.world) st
