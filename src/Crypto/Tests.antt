-- ===== src/Crypto/Tests.antt =====
-- The theorems on Virtio_Crypto_Chat/virtio-cryptodev at concrete inputs.
mod Passes
mod Sharing
use operating_systems_lab_nt.Prelude.{
  ℕ, ◌+◌, ◌*◌, ◌≡◌, refl, arith, true, false, [], ◌∷◌, none, some, ◌==◌, if◌then◌else◌, length,
}
use operating_systems_lab_nt.Lunix.Kernel.{ok, err, enodev}
use operating_systems_lab_nt.Crypto.Devices.{
  CryptoDriverData, get_crypto_dev_by_minor, virtcons_probe, virtcons_probe-get, IsNumbered, probed,
  removed, react_all, react_all-IsNumbered, init, is_ok, init-registers,
}
use operating_systems_lab_nt.Crypto.Guest.{
  Request, do_crypt, crypto_open, crypto_release, crypto_ioctl,
}
use operating_systems_lab_nt.Crypto.Host.{Cryptodev, handle}
use operating_systems_lab_nt.Crypto.Message.{CryptOp, user}
use operating_systems_lab_nt.Crypto.Through.{
  granted, direct, crypto_open-misread, crypto_release-crypto_open,
}

-- A host that counts its descriptors and whose cipher copies.
abbrev copying : Cryptodev ℕ
copying = record {
  open_file = λ w. (w, w + 1);
  close_file = λ fd w. w;
  get_session = λ fd sess key w. (0, record sess { ses = length key }, w);
  free_session = λ fd ses w. (0, w);
  crypt = λ fd op src iv dst w. (0, src, w);
}

abbrev order : CryptOp
order = record {
  ses = 1;
  op = 0;
  flags = 0;
  len = 3;
  src = user 1;
  dst = user 2;
  mac = user 0;
  iv = user 3;
}

abbrev crypting : Request
crypting = do_crypt order (7 ∷ 8 ∷ 9 ∷ 10 ∷ []) (1 ∷ []) (0 ∷ 0 ∷ 0 ∷ 5 ∷ [])

-- Three bytes are crypted, and the fourth stays.
crypted :
    (direct copying 4 crypting 5).0
    ≡ do_crypt order (7 ∷ 8 ∷ 9 ∷ 10 ∷ []) (1 ∷ []) (7 ∷ 8 ∷ 9 ∷ 5 ∷ [])
unfolding direct
crypted = refl

-- The ioctl through the virtqueue does the same, and faults where the length is 0.
crypted_through :
    crypto_ioctl (handle copying) granted 4 crypting 5
    ≡ some (
      record {
        ret = ok;
        request = do_crypt order (7 ∷ 8 ∷ 9 ∷ 10 ∷ []) (1 ∷ []) (7 ∷ 8 ∷ 9 ∷ 5 ∷ []);
      },
      5,
    )
unfolding crypto_ioctl handle
crypted_through = refl

faulting :
    crypto_ioctl (handle copying) granted 4 (do_crypt (record order { len = 0 }) [] [] []) 5 ≡ none
unfolding crypto_ioctl
faulting = refl

crypto_open-misread_example :
    crypto_open (handle copying) ok true true (8 * 3) 0 5
    ≡ some (err enodev, some (record { minor = 0; host_fd = 4294967295 }), 5)
crypto_open-misread_example = crypto_open-misread copying 3 0 5 (omega arith)

abbrev empty : CryptoDriverData
empty = record { devs = []; next_minor = 0 }

virtcons_probe-get_example :
    get_crypto_dev_by_minor (virtcons_probe true true 9 empty).1 0
    ≡ (if 0 == 0 then some (record { vdev = 9; minor = 0 }) else get_crypto_dev_by_minor empty 0)
virtcons_probe-get_example = virtcons_probe-get 9 0 empty tt

react_all-IsNumbered_example :
    IsNumbered (react_all (probed true true 9 ∷ removed 9 ∷ probed true false 8 ∷ []) empty)
react_all-IsNumbered_example =
    react_all-IsNumbered (probed true true 9 ∷ removed 9 ∷ probed true false 8 ∷ []) empty tt
      (omega arith)

init-registers_example :
    let (r, k) = init ok (err 12) ok (record { region = false; cdev = false; driver = false }) in
    (k.region ≡ is_ok r) × (k.cdev ≡ is_ok r) × (k.driver ≡ is_ok r)
init-registers_example = init-registers ok (err 12) ok

crypto_release-crypto_open_example :
    (crypto_open (handle copying) ok true true (8 * 536870912) 0 5
      ≡ some (ok, some (record { minor = 0; host_fd = 5 }), 6))
    × (crypto_release (handle copying) (record { minor = 0; host_fd = 5 }) 6 ≡ some (ok, 6))
crypto_release-crypto_open_example =
    crypto_release-crypto_open copying 536870912 0 5 (omega arith) refl
