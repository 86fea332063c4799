-- ===== src/Crypto/Message.antt =====
-- What the guest (Virtio_Crypto_Chat/virtio-cryptodev/guest/crypto-chrdev.c) and the device
-- (Virtio_Crypto_Chat/virtio-cryptodev/qemu_driver/virtio-cryptodev.c) exchange.
use operating_systems_lab_nt.Prelude.{
  ℕ, List, [], ◌∷◌, Option, none, some, ◌>>=◌, get_elem?, set, if◌then◌else◌, ltb, length,
}

-- A pointer inside an argument: of the user's process, or to a buffer as the host maps it.
pub data Pointer : Type 0 where
  user out_buffer in_buffer : ℕ → Pointer

-- `struct session_op` of cryptodev.h.
pub record SessionOp : Type 0 where
  pub cipher : ℕ
  pub mac : ℕ
  pub keylen : ℕ
  pub key : Pointer
  pub mackeylen : ℕ
  pub mackey : Pointer
  pub ses : ℕ

-- `struct crypt_op` of cryptodev.h.
pub record CryptOp : Type 0 where
  pub ses : ℕ
  pub op : ℕ
  pub flags : ℕ
  pub len : ℕ
  pub src : Pointer
  pub dst : Pointer
  pub mac : Pointer
  pub iv : Pointer

-- The numbers of cryptodev.h that the code tells apart, and any other.
pub data Command : Type 0 where
  ciocgsession ciocfsession cioccrypt : Command
  unknown : ℕ → Command

-- The buffer of one scatterlist. A `word` is an `int` or an `unsigned int`, by its 32 bits.
pub data Buffer : Type 0 where
  word : ℕ → Buffer
  octets : List ℕ → Buffer
  session : SessionOp → Buffer
  crypt : CryptOp → Buffer
  command : Command → Buffer

-- An element of the virtqueue: the buffers that the host reads, and those that it writes.
pub record Element : Type 0 where
  pub out_sg : List Buffer
  pub in_sg : List Buffer

abbrev pub syscall_open : ℕ
syscall_open = 0

abbrev pub syscall_close : ℕ
syscall_close = 1

abbrev pub syscall_ioctl : ℕ
syscall_ioctl = 2

-- `OUT_SG(i, cast)` and `IN_SG(i, cast)`: no buffer, or one of another type, is a fault.
abbrev as_word : Buffer → Option ℕ
as_word (word n) = some n
as_word _ = none

abbrev as_octets : Buffer → Option (List ℕ)
as_octets (octets l) = some l
as_octets _ = none

abbrev as_session : Buffer → Option SessionOp
as_session (session s) = some s
as_session _ = none

abbrev as_crypt : Buffer → Option CryptOp
as_crypt (crypt c) = some c
as_crypt _ = none

abbrev as_command : Buffer → Option Command
as_command (command c) = some c
as_command _ = none

abbrev pub word_at : List Buffer → ℕ → Option ℕ
word_at sgs i = get_elem? sgs i >>= as_word

abbrev pub octets_at : List Buffer → ℕ → Option (List ℕ)
octets_at sgs i = get_elem? sgs i >>= as_octets

abbrev pub first_byte : List ℕ → Option ℕ
first_byte [] = none
first_byte (b ∷ rest) = some b

-- `OUT_SG(i, unsigned char)`: an empty buffer has no byte to read.
abbrev pub byte_at : List Buffer → ℕ → Option ℕ
byte_at sgs i = octets_at sgs i >>= first_byte

abbrev pub session_at : List Buffer → ℕ → Option SessionOp
session_at sgs i = get_elem? sgs i >>= as_session

abbrev pub crypt_at : List Buffer → ℕ → Option CryptOp
crypt_at sgs i = get_elem? sgs i >>= as_crypt

abbrev pub command_at : List Buffer → ℕ → Option Command
command_at sgs i = get_elem? sgs i >>= as_command

-- A write through `IN_SG(i, cast)`.
abbrev pub put : List Buffer → ℕ → Buffer → Option (List Buffer)
put sgs i b = if ltb i (length sgs) then some (set sgs i b) else none
