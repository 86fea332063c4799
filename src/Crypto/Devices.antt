-- ===== src/Crypto/Devices.antt =====
-- The devices of the guest's driver: crypto-module.c, and `get_crypto_dev_by_minor` and the
-- registration of crypto-chrdev.c, in Virtio_Crypto_Chat/virtio-cryptodev/guest.
use operating_systems_lab_nt.Prelude.{
  ℕ, ◌+◌, ◌^◌, ◌%◌, ◌≤◌, ◌<◌, ◌≡◌, ◌≢◌, refl, arith, Bool, true, false, Bool-cases, inl, inr, List,
  [], ◌∷◌, ◌++◌, Option, none, some, ◌==◌, if◌then◌else◌, All, All-append,
}
use operating_systems_lab_nt.Lunix.Kernel.{Ret, ok, err, enomem}

-- `struct crypto_device`, by the virtio device that it drives.
pub record CryptoDevice : Type 0 where
  pub vdev : ℕ
  pub minor : ℕ

-- `struct crypto_driver_data`
pub record CryptoDriverData : Type 0 where
  pub devs : List CryptoDevice
  pub next_minor : ℕ

abbrev pub enxio : ℕ
enxio = 6

abbrev pub find_minor : List CryptoDevice → ℕ → Option CryptoDevice
find_minor [] minor = none
find_minor (crdev ∷ devs) minor = if crdev.minor == minor then some crdev else find_minor devs minor

-- `get_crypto_dev_by_minor`
unfoldable pub get_crypto_dev_by_minor : CryptoDriverData → ℕ → Option CryptoDevice
get_crypto_dev_by_minor crdrvdata minor = find_minor crdrvdata.devs minor

-- `virtcons_probe`: `memory` is the answer of `kzalloc`, and `vq` whether `find_vq` finds the queue.
unfoldable pub virtcons_probe : Bool → Bool → ℕ → CryptoDriverData → Ret × CryptoDriverData
virtcons_probe memory vq vdev crdrvdata =
    if memory
    then (if vq
        then (
          ok,
          record {
            devs = crdrvdata.devs ++ (record { vdev = vdev; minor = crdrvdata.next_minor } ∷ []);
            next_minor = (crdrvdata.next_minor + 1) % 2 ^ 32;
          },
        )
        else (err enxio, crdrvdata))
    else (err enomem, crdrvdata)

-- `list_del` of the entry of a virtio device.
abbrev pub delete : List CryptoDevice → ℕ → List CryptoDevice
delete [] vdev = []
delete (crdev ∷ devs) vdev = if crdev.vdev == vdev then devs else crdev ∷ delete devs vdev

-- `virtcons_remove`
unfoldable pub virtcons_remove : ℕ → CryptoDriverData → CryptoDriverData
virtcons_remove vdev crdrvdata = record crdrvdata { devs = delete crdrvdata.devs vdev }

abbrev pub is_ok : Ret → Bool
is_ok ok = true
is_ok (err e) = false

-- What the module has registered.
pub record Registered : Type 0 where
  pub region : Bool
  pub cdev : Bool
  pub driver : Bool

abbrev added : Ret → Registered → Ret × Registered
added ok k = (ok, record k { cdev = true })
added (err e) k = (err e, record k { region = false })

abbrev crypto_chrdev_init : Ret → Ret → Registered → Ret × Registered
crypto_chrdev_init ok cdev k = added cdev (record k { region = true })
crypto_chrdev_init (err e) cdev k = (err e, k)

abbrev crypto_chrdev_destroy : Registered → Registered
crypto_chrdev_destroy k = record k { cdev = false; region = false }

abbrev register_driver : Ret → Ret × Registered → Ret × Registered
register_driver ok (ok, k) = (ok, record k { driver = true })
register_driver (err e) (ok, k) = (err e, crypto_chrdev_destroy k)
register_driver driver (err e, k) = (err e, k)

-- `init`, on what `register_chrdev_region`, `cdev_add` and `register_virtio_driver` return.
unfoldable pub init : Ret → Ret → Ret → Registered → Ret × Registered
init region cdev driver k = register_driver driver (crypto_chrdev_init region cdev k)

-- `fini`
unfoldable pub fini : Registered → Registered
fini k = record (crypto_chrdev_destroy k) { driver = false }

-- The minor numbers given are all below the next one.
abbrev IsBelow : ℕ → CryptoDevice → Type 0
IsBelow n crdev = crdev.minor < n

find_minor-append :
    (devs : List CryptoDevice) (new : CryptoDevice)
    → All (IsBelow new.minor) devs
    → find_minor (devs ++ (new ∷ [])) new.minor ≡ some new
find_minor-append [] new h =
    let same : (new.minor == new.minor) ≡ true = ground arith in rw same refl
find_minor-append (crdev ∷ devs) new h =
    let other : (crdev.minor == new.minor) ≡ false = ground (arith, h.0) in
    rw other (find_minor-append devs new h.1)

find_minor-other :
    (devs : List CryptoDevice) (new : CryptoDevice) (minor : ℕ)
    → minor ≢ new.minor
    → find_minor (devs ++ (new ∷ [])) minor ≡ find_minor devs minor
find_minor-other [] new minor ne =
    let other : (new.minor == minor) ≡ false = ground arith in rw other refl
find_minor-other (crdev ∷ devs) new minor ne = elim (Bool-cases (crdev.minor == minor)) [
  | inl e ↦ rw e refl
  | inr n ↦ rw n (find_minor-other devs new minor ne)
]

-- Every minor number given lies before the next one.
abbrev pub IsNumbered : CryptoDriverData → Type 0
IsNumbered crdrvdata = All (IsBelow crdrvdata.next_minor) crdrvdata.devs

-- In a driver whose minor numbers all lie below the next one, a device that is probed is found by
-- that next minor number, and every other minor number still finds what it found.
pub virtcons_probe-get :
    (vdev minor : ℕ) (crdrvdata : CryptoDriverData)
    → IsNumbered crdrvdata
    → get_crypto_dev_by_minor (virtcons_probe true true vdev crdrvdata).1 minor ≡ (
        if minor == crdrvdata.next_minor
        then some (record { vdev = vdev; minor = crdrvdata.next_minor })
        else get_crypto_dev_by_minor crdrvdata minor)
unfolding get_crypto_dev_by_minor virtcons_probe
virtcons_probe-get vdev minor crdrvdata h = elim (Bool-cases (minor == crdrvdata.next_minor)) [
  | inl e ↦
      let same : minor ≡ crdrvdata.next_minor = ground arith in
      rw (e, same)
        (find_minor-append crdrvdata.devs (record { vdev = vdev; minor = crdrvdata.next_minor }) h)
  | inr n ↦
      let ne : minor ≢ crdrvdata.next_minor = ground arith in
      rw n (
        find_minor-other crdrvdata.devs (record { vdev = vdev; minor = crdrvdata.next_minor }) minor
          ne)
]

-- What the kernel tells the driver: of a virtio device that it has found, and of one that goes.
pub data Event : Type 0 where
  probed : Bool → Bool → ℕ → Event
  removed : ℕ → Event

abbrev pub react : Event → CryptoDriverData → CryptoDriverData
react (probed memory vq vdev) crdrvdata = (virtcons_probe memory vq vdev crdrvdata).1
react (removed vdev) crdrvdata = virtcons_remove vdev crdrvdata

abbrev pub react_all : List Event → CryptoDriverData → CryptoDriverData
react_all [] crdrvdata = crdrvdata
react_all (e ∷ events) crdrvdata = react_all events (react e crdrvdata)

IsBelow-mono :
    (m n : ℕ) (devs : List CryptoDevice) → m ≤ n → All (IsBelow m) devs → All (IsBelow n) devs
IsBelow-mono m n [] h b = tt
IsBelow-mono m n (crdev ∷ devs) h b = (omega (arith, b.0), IsBelow-mono m n devs h b.1)

delete-IsBelow :
    (n vdev : ℕ) (devs : List CryptoDevice)
    → All (IsBelow n) devs
    → All (IsBelow n) (delete devs vdev)
delete-IsBelow n vdev [] b = tt
delete-IsBelow n vdev (crdev ∷ devs) b = elim (Bool-cases (crdev.vdev == vdev)) [
  | inl y ↦ rw y b.1
  | inr other ↦ rw other (b.0, delete-IsBelow n vdev devs b.1)
]

-- How many minor numbers an event, and many events, give: a probe does that succeeds.
abbrev pub gives : Event → ℕ
gives (probed true true vdev) = 1
gives (probed true false vdev) = 0
gives (probed false vq vdev) = 0
gives (removed vdev) = 0

abbrev pub given : List Event → ℕ
given [] = 0
given (e ∷ events) = gives e + given events

-- One event keeps the numbering, and goes on by the numbers that it gives.
react-IsNumbered :
    (e : Event) (crdrvdata : CryptoDriverData)
    → IsNumbered crdrvdata
    → crdrvdata.next_minor + gives e < 2 ^ 32
    → IsNumbered (react e crdrvdata)
      × ((react e crdrvdata).next_minor ≤ crdrvdata.next_minor + gives e)
unfolding virtcons_probe virtcons_remove
react-IsNumbered (probed true true vdev) crdrvdata b room =
    let n = crdrvdata.next_minor in
    let small : (n + 1) % 2 ^ 32 ≡ n + 1 = omega arith in
    rw small (
      (
        All-append (IsBelow (n + 1)) crdrvdata.devs _
            (IsBelow-mono n (n + 1) crdrvdata.devs (omega arith) b) (omega arith, tt),
        omega arith,
      ))
react-IsNumbered (probed true false vdev) crdrvdata b room = (b, omega arith)
react-IsNumbered (probed false vq vdev) crdrvdata b room = (b, omega arith)
react-IsNumbered (removed vdev) crdrvdata b room =
    (delete-IsBelow crdrvdata.next_minor vdev crdrvdata.devs b, omega arith)

-- However devices come and go, a driver whose minor numbers all lie below the next one keeps them
-- there, where the next number and the numbers that the successful probes give stay below 2^32
-- together.
pub react_all-IsNumbered :
    (events : List Event) (crdrvdata : CryptoDriverData)
    → IsNumbered crdrvdata
    → crdrvdata.next_minor + given events < 2 ^ 32
    → IsNumbered (react_all events crdrvdata)
react_all-IsNumbered [] crdrvdata b room = b
react_all-IsNumbered (e ∷ events) crdrvdata b room =
    let k = react-IsNumbered e crdrvdata b (omega (arith, room)) in
    react_all-IsNumbered events (react e crdrvdata) k.0 (omega (arith, k.1, room))

-- Where nothing is registered, a module that fails to load leaves nothing registered, and one that
-- loads has everything.
pub init-registers :
    (region cdev driver : Ret)
    → let (r, k) =
        init region cdev driver (record { region = false; cdev = false; driver = false }) in
      (k.region ≡ is_ok r) × (k.cdev ≡ is_ok r) × (k.driver ≡ is_ok r)
unfolding init
init-registers ok ok ok = (refl, refl, refl)
init-registers ok ok (err e) = (refl, refl, refl)
init-registers ok (err e) driver = (refl, refl, refl)
init-registers (err e) cdev driver = (refl, refl, refl)
