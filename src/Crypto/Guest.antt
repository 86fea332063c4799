-- ===== src/Crypto/Guest.antt =====
-- Virtio_Crypto_Chat/virtio-cryptodev/guest/crypto-chrdev.c: the file operations of the guest's
-- character device. `send` puts an element on the virtqueue and waits until the host has pushed it
-- back; a request for kernel memory is granted, unless a flag tells otherwise.
use operating_systems_lab_nt.Prelude.{
  ℕ, ◌-◌, ◌^◌, ◌%◌, Bool, true, false, List, [], ◌∷◌, ◌++◌, Option, none, some, ◌>>=◌,
  if◌then◌else◌, ltb, ◌==◌, take, drop, replicate,
}
use operating_systems_lab_nt.Lunix.Kernel.{Ret, ok, err, enodev, enomem, einval}
use operating_systems_lab_nt.Crypto.Message.{
  SessionOp, CryptOp, Command, ciocgsession, ciocfsession, cioccrypt, unknown, word, octets,
  session, crypt, command, Buffer, Element, syscall_close, syscall_ioctl, word_at, octets_at,
  session_at,
}

abbrev pub block_size : ℕ
block_size = 16

abbrev efault : ℕ
efault = 14

-- `struct crypto_open_file`; `host_fd` is an `int`, by its 32 bits.
pub record CryptoOpenFile : Type 0 where
  pub minor : ℕ
  pub host_fd : ℕ

-- An `int` below 0.
abbrev pub is_negative : ℕ → Bool
is_negative n = if ltb n (2 ^ 31) then false else true

-- An ioctl: its command, with the argument that the command takes. What the pointers of the user's
-- structures lead to follows them: the key; the source, the initialisation vector and the
-- destination.
pub data Request : Type 0 where
  get_session : SessionOp → List ℕ → Request
  free_session : ℕ → Request
  do_crypt : CryptOp → List ℕ → List ℕ → List ℕ → Request
  unsupported : ℕ → Request

-- Whether the copies from and to the user succeed: of the argument, of the two things that it
-- points to, and back.
pub record Copies : Type 0 where
  pub argument : Bool
  pub first : Bool
  pub second : Bool
  pub back : Bool

-- How an ioctl ends: its result, and what the user's memory then holds.
pub record Done : Type 0 where
  pub ret : Ret
  pub request : Request

module _ {W : Type 0} (send : Element → W → Option (Element × W)) where
  -- `crypto_chrdev_open`: `opened` is what `nonseekable_open` returns, `found` whether
  -- `get_crypto_dev_by_minor` finds the device, and `memory` the answer to the request for the open
  -- file. The host is sent the bytes at `&syscall_type`: the address that this pointer holds.
  unfoldable pub crypto_open :
      Ret → Bool → Bool → ℕ → ℕ → W → Option (Ret × Option CryptoOpenFile × W)
  crypto_open (err e) found memory syscall_type minor w = some (err e, none, w)
  crypto_open ok false memory syscall_type minor w = some (err enodev, none, w)
  crypto_open ok true false syscall_type minor w = some (err enomem, none, w)
  crypto_open ok true true syscall_type minor w = do
    pushed ←
        send (record { out_sg = word (syscall_type % 2 ^ 32) ∷ []; in_sg = word (2 ^ 32 - 1) ∷ [] })
          w
    fd ← word_at pushed.0.in_sg 0
    some (
      (if is_negative fd then err enodev else ok),
      some (record { minor = minor; host_fd = fd }),
      pushed.1,
    )

  -- `crypto_chrdev_release`
  unfoldable pub crypto_release : CryptoOpenFile → W → Option (Ret × W)
  crypto_release crof w = do
    pushed ← send (record { out_sg = word syscall_close ∷ word crof.host_fd ∷ []; in_sg = [] }) w
    some (ok, pushed.1)

  -- The buffers common to all commands.
  abbrev common : ℕ → Command → List Buffer → List Buffer
  common fd cmd rest = word syscall_ioctl ∷ word fd ∷ command cmd ∷ rest

  abbrev ioctl_gsession : Copies → ℕ → SessionOp → List ℕ → W → Option (Done × W)
  ioctl_gsession c fd sess key w =
      if c.argument
      then (if c.first
          then (do
            pushed ←
                send
                  (record {
                    out_sg = common fd ciocgsession (octets (take sess.keylen key) ∷ []);
                    in_sg = session sess ∷ word 0 ∷ [];
                  })
                  w
            sess' ← session_at pushed.0.in_sg 0
            some (
              (if c.back
                  then record { ret = ok; request = get_session sess' key }
                  else record { ret = err efault; request = get_session sess key }),
              pushed.1,
            ))
          else some (record { ret = err efault; request = get_session sess key }, w))
      else some (record { ret = err efault; request = get_session sess key }, w)

  abbrev ioctl_fsession : Copies → ℕ → ℕ → W → Option (Done × W)
  ioctl_fsession c fd ses w =
      if c.argument
      then (do
        pushed ←
            send (record { out_sg = common fd ciocfsession (word ses ∷ []); in_sg = word 0 ∷ [] }) w
        some (record { ret = ok; request = free_session ses }, pushed.1))
      else some (record { ret = err efault; request = free_session ses }, w)

  abbrev send_crypt : Copies → ℕ → CryptOp → List ℕ → List ℕ → List ℕ → W → Option (Done × W)
  send_crypt c fd op src iv dst w = do
    pushed ←
        send
          (record {
            out_sg =
                common fd cioccrypt
                  (crypt op ∷ octets (take op.len src) ∷ octets (take block_size iv) ∷ []);
            in_sg = octets (replicate op.len 0) ∷ word 0 ∷ [];
          })
          w
    dst' ← octets_at pushed.0.in_sg 0
    some (
      (if c.back
          then record {
            ret = ok;
            request = do_crypt op src iv (take op.len dst' ++ drop op.len dst);
          }
          else record { ret = err efault; request = do_crypt op src iv dst }),
      pushed.1,
    )

  -- A length above INT_MAX is a negative `data_length`, of which no copy can be made. The build for
  -- debugging, which the Makefile selects, prints the first byte of the buffers: there is none where
  -- the length is 0.
  abbrev ioctl_crypt : Copies → ℕ → CryptOp → List ℕ → List ℕ → List ℕ → W → Option (Done × W)
  ioctl_crypt c fd op src iv dst w =
      let fails : Option (Done × W) =
        some (record { ret = err efault; request = do_crypt op src iv dst }, w) in
      if c.argument
      then (if is_negative op.len
          then fails
          else if c.first
          then (if op.len == 0
              then none
              else if c.second
              then send_crypt c fd op src iv dst w
              else fails)
          else fails)
      else fails

  abbrev ioctl_unknown : ℕ → ℕ → W → Option (Done × W)
  ioctl_unknown fd n w = do
    pushed ← send (record { out_sg = common fd (unknown n) []; in_sg = [] }) w
    some (record { ret = ok; request = unsupported n }, pushed.1)

  -- `crypto_chrdev_ioctl`
  unfoldable pub crypto_ioctl : Copies → ℕ → Request → W → Option (Done × W)
  crypto_ioctl c fd (get_session sess key) w = ioctl_gsession c fd sess key w
  crypto_ioctl c fd (free_session ses) w = ioctl_fsession c fd ses w
  crypto_ioctl c fd (do_crypt op src iv dst) w = ioctl_crypt c fd op src iv dst w
  crypto_ioctl c fd (unsupported n) w = ioctl_unknown fd n w

-- `crypto_chrdev_read`
unfoldable pub crypto_read : ℕ → Ret
crypto_read cnt = err einval
