-- ===== src/Crypto/Host.antt =====
-- Virtio_Crypto_Chat/virtio-cryptodev/qemu_driver/virtio-cryptodev.c: QEMU's handler of the virtqueue.
use operating_systems_lab_nt.Prelude.{ℕ, List, Option, none, some, ◌>>=◌, if◌then◌else◌, ◌==◌}
use operating_systems_lab_nt.Crypto.Message.{
  SessionOp, CryptOp, Command, ciocgsession, ciocfsession, cioccrypt, unknown, out_buffer,
  in_buffer, word, octets, session, Element, syscall_open, syscall_close, syscall_ioctl, word_at,
  octets_at, byte_at, session_at, crypt_at, command_at, put,
}

-- The host's `/dev/crypto`, whose state is `W`: what the system calls return, as 32 bits, and what
-- they write. A session is opened with its key, and data are crypted from source and
-- initialisation vector over what the destination holds.
pub record Cryptodev (W : Type 0) : Type 0 where
  pub open_file : W → ℕ × W
  pub close_file : ℕ → W → W
  pub get_session : ℕ → SessionOp → List ℕ → W → ℕ × SessionOp × W
  pub free_session : ℕ → ℕ → W → ℕ × W
  pub crypt : ℕ → CryptOp → List ℕ → List ℕ → List ℕ → W → ℕ × List ℕ × W

module _ {W : Type 0} (d : Cryptodev W) where
  abbrev handle_open : Element → W → Option (Element × W)
  handle_open e w =
      let (fd, w') = d.open_file w in
      do sgs ← put e.in_sg 0 (word fd); some (record e { in_sg = sgs }, w')

  abbrev handle_close : Element → W → Option (Element × W)
  handle_close e w = do fd ← word_at e.out_sg 1; some (e, d.close_file fd w)

  abbrev handle_gsession : ℕ → Element → W → Option (Element × W)
  handle_gsession fd e w = do
    printed ← byte_at e.out_sg 3
    key ← octets_at e.out_sg 3
    test ← session_at e.in_sg 0
    answer ← some (d.get_session fd (record test { key = out_buffer 3 }) key w)
    sgs ← put e.in_sg 0 (session answer.1)
    sgs' ← put sgs 1 (word answer.0)
    some (record e { in_sg = sgs' }, answer.2)

  abbrev handle_fsession : ℕ → Element → W → Option (Element × W)
  handle_fsession fd e w = do
    ses ← word_at e.out_sg 3
    answer ← some (d.free_session fd ses w)
    sgs ← put e.in_sg 0 (word answer.0)
    some (record e { in_sg = sgs }, answer.1)

  abbrev handle_crypt : ℕ → Element → W → Option (Element × W)
  handle_crypt fd e w = do
    op ← crypt_at e.out_sg 3
    src ← octets_at e.out_sg 4
    printed ← byte_at e.out_sg 4
    printed_iv ← byte_at e.out_sg 5
    iv ← octets_at e.out_sg 5
    dst ← octets_at e.in_sg 0
    answer ← some (
        d.crypt fd (record op { src = out_buffer 4; iv = out_buffer 5; dst = in_buffer 0 }) src iv
          dst w)
    sgs ← put e.in_sg 0 (octets answer.1)
    sgs' ← put sgs 1 (word answer.0)
    some (record e { in_sg = sgs' }, answer.2)

  abbrev by_command : Command → ℕ → Element → W → Option (Element × W)
  by_command ciocgsession fd e w = handle_gsession fd e w
  by_command ciocfsession fd e w = handle_fsession fd e w
  by_command cioccrypt fd e w = handle_crypt fd e w
  by_command (unknown n) fd e w = some (e, w)

  abbrev handle_ioctl : Element → W → Option (Element × W)
  handle_ioctl e w = do fd ← word_at e.out_sg 1; cmd ← command_at e.out_sg 2; by_command cmd fd e w

  -- The two `switch`es of `vq_handle_output`; the element is then pushed back to the guest.
  unfoldable pub handle : Element → W → Option (Element × W)
  handle e w = do
    syscall_type ← word_at e.out_sg 0
    if syscall_type == syscall_open
        then handle_open e w
        else if syscall_type == syscall_close
        then handle_close e w
        else if syscall_type == syscall_ioctl
        then handle_ioctl e w
        else some (e, w)

  -- `vq_handle_output`, on what `virtqueue_pop` returns.
  unfoldable pub vq_handle_output : Option Element → W → Option (Option Element × W)
  unfolding handle
  vq_handle_output none w = some (none, w)
  vq_handle_output (some e) w = do pushed ← handle e w; some (some pushed.0, pushed.1)
