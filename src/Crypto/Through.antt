-- ===== src/Crypto/Through.antt =====
-- The guest's file operations (guest/crypto-chrdev.c) on a virtqueue that QEMU's handler
-- (qemu_driver/virtio-cryptodev.c) serves, in Virtio_Crypto_Chat/virtio-cryptodev.
use operating_systems_lab_nt.Prelude.{
  ℕ, zero, suc, ◌<◌, List, [], ◌∷◌, length, ◌*◌, ◌^◌, ◌%◌, ◌≡◌, ◌≢◌, refl, arith, true, false, ◌++◌,
  some, ◌==◌, take, drop, replicate,
}
use operating_systems_lab_nt.Lunix.Kernel.{ok, err, enodev}
use operating_systems_lab_nt.Crypto.Message.{out_buffer, in_buffer, first_byte}
use operating_systems_lab_nt.Crypto.Host.{Cryptodev, handle}
use operating_systems_lab_nt.Crypto.Guest.{
  Copies, Request, get_session, free_session, do_crypt, unsupported, block_size, crypto_open,
  CryptoOpenFile, crypto_release, is_negative, crypto_ioctl,
}

-- The copies from and to the user all succeed.
abbrev pub granted : Copies
granted = record { argument = true; first = true; second = true; back = true }

-- What the host's ioctl writes for a request, as the handler makes it: with its own pointers, over a
-- destination of NULs, and whatever it returns.
unfoldable pub direct : {W : Type 0} → Cryptodev W → ℕ → Request → W → Request × W
direct d fd (get_session sess key) w =
    let (_, sess', w') =
      d.get_session fd (record sess { key = out_buffer 3 }) (take sess.keylen key) w in
    (get_session sess' key, w')
direct d fd (free_session ses) w = (free_session ses, (d.free_session fd ses w).1)
direct d fd (do_crypt op src iv dst) w =
    let (_, dst', w') =
      d.crypt fd (record op { src = out_buffer 4; iv = out_buffer 5; dst = in_buffer 0 })
        (take op.len src) (take block_size iv) (replicate op.len 0) w in
    (do_crypt op src iv (take op.len dst' ++ drop op.len dst), w')
direct d fd (unsupported n) w = (unsupported n, w)

-- A first byte can be printed.
abbrev pub Shows : List ℕ → Type 0
Shows l = (b : ℕ) × (first_byte l ≡ some b)

pub take-Shows : (n : ℕ) (l : List ℕ) → 0 < n → 0 < length l → Shows (take n l)
take-Shows zero l h g = let never : ⊥ = omega arith in absurd never
take-Shows (suc n) [] h g = let never : ⊥ = omega arith in absurd never
take-Shows (suc n) (b ∷ l) h g = (b, refl)

-- What the printing of the driver and of the handler needs, and a length that an `int` holds.
abbrev pub IsShown : Request → Type 0
IsShown (get_session sess key) = Shows (take sess.keylen key)
IsShown (do_crypt op src iv dst) =
    (is_negative op.len ≡ false)
    × ((op.len == 0) ≡ false)
    × Shows (take op.len src)
    × Shows (take block_size iv)
IsShown _ = Unit {0}

module _ {W : Type 0} (d : Cryptodev W) where
  -- Where the copies from and to the user succeed, an ioctl through the virtqueue and the host's
  -- handler returns 0, whatever the host's ioctl returns, with what that ioctl has written.
  pub crypto_ioctl-direct :
      (fd : ℕ) (r : Request) (w : W)
      → IsShown r
      → crypto_ioctl (handle d) granted fd r w
        ≡ some (record { ret = ok; request = (direct d fd r w).0 }, (direct d fd r w).1)
  unfolding crypto_ioctl handle direct
  crypto_ioctl-direct fd (get_session sess key) w (b, key_shown) = rw key_shown refl
  crypto_ioctl-direct fd (free_session ses) w h = refl
  crypto_ioctl-direct fd (do_crypt op src iv dst) w
        (fits, some_bytes, (b, src_shown), (b', iv_shown)) =
      rw (fits, some_bytes, src_shown, iv_shown) refl
  crypto_ioctl-direct fd (unsupported n) w h = refl

  -- Where the half address that the host reads is 0, which is the number of the open, a file that
  -- the host opens gets its descriptor, and closing the file closes that descriptor on the host.
  pub crypto_release-crypto_open :
      (a minor : ℕ) (w : W)
      → (8 * a) % 2 ^ 32 ≡ 0
      → is_negative (d.open_file w).0 ≡ false
      → let (fd, w') = d.open_file w in
        let crof : CryptoOpenFile = record { minor = minor; host_fd = fd } in
        (crypto_open (handle d) ok true true (8 * a) minor w ≡ some (ok, some crof, w'))
        × (crypto_release (handle d) crof w' ≡ some (ok, d.close_file fd w'))
  unfolding crypto_open crypto_release handle
  crypto_release-crypto_open a minor w low good = (rw (low, good) refl, refl)

  -- The open sends the address of the system call's number instead of the number: where the low
  -- half of that address, which is a multiple of 8, is not 0, the host opens nothing, and the open
  -- fails although the device is there.
  pub crypto_open-misread :
      (a minor : ℕ) (w : W)
      → (8 * a) % 2 ^ 32 ≢ 0
      → crypto_open (handle d) ok true true (8 * a) minor w
        ≡ some (err enodev, some (record { minor = minor; host_fd = 4294967295 }), w)
  unfolding crypto_open handle
  crypto_open-misread a minor w ne =
      let no0 : (((8 * a) % 2 ^ 32) == 0) ≡ false = ground arith in
      let no1 : (((8 * a) % 2 ^ 32) == 1) ≡ false = ground arith in
      let no2 : (((8 * a) % 2 ^ 32) == 2) ≡ false = ground arith in rw (no0, no1, no2) refl
