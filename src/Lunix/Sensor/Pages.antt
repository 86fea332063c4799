-- ===== src/Lunix/Sensor/Pages.antt =====
-- The life of a sensor's pages in Lunix_Device_Driver/lunix-sensors.c.
use operating_systems_lab_nt.Prelude.{
  ℕ, ◌+◌, ◌-◌, ◌≤◌, ◌≡◌, refl, true, false, List, [], ◌∷◌, arith, Option, none, some, Bool-cases,
  inl, inr,
}
use operating_systems_lab_nt.Lunix.Kernel.{
  Ret, ok, err, enomem, Answers, Kernel, granted, refused, free_page,
}
use operating_systems_lab_nt.Lunix.Sensor.{
  Msr, batt, temp, light, MsrData, Sensor, msr_magic, IsReady,
}

abbrev pub set_data : Sensor → Msr → Option MsrData → Sensor
set_data s batt d = record s { batt_data = d }
set_data s temp d = record s { temp_data = d }
set_data s light d = record s { light_data = d }

-- A fresh page: zeroed, with the magic number.
abbrev pub fresh_page : MsrData
fresh_page = record { magic = msr_magic; last_update = 0; value = 0 }

-- The second loop of `lunix_sensor_init`, over the measurements left.
unfoldable pub alloc_pages : Answers → List Msr → Kernel → Sensor → Ret × Kernel × Sensor
alloc_pages a [] k s = (ok, k, s)
alloc_pages a (m ∷ rest) k s = elim (a.page k.requests) [
  | true ↦ alloc_pages a rest (granted k) (set_data s m (some fresh_page))
  | false ↦ (err enomem, refused k, s)
]

-- `lunix_sensor_init`: the fields are set, the pointers to NULL, and one page is allocated for each
-- measurement.
unfoldable pub sensor_init : Answers → Kernel → Sensor → Ret × Kernel × Sensor
unfolding alloc_pages
sensor_init a k s =
    alloc_pages a (batt ∷ temp ∷ light ∷ []) k
      (record { batt_data = none; temp_data = none; light_data = none; wakeups = 0 })

abbrev pub free_data : Option MsrData → Kernel → Kernel
free_data none k = k
free_data (some page) k = free_page k

-- `lunix_sensor_destroy`
unfoldable pub sensor_destroy : Sensor → Kernel → Kernel
sensor_destroy s k = free_data s.light_data (free_data s.temp_data (free_data s.batt_data k))

abbrev pub loaded : Option MsrData → ℕ
loaded none = 0
loaded (some page) = 1

-- The pages that a sensor holds.
abbrev pub held : Sensor → ℕ
held s = loaded s.batt_data + loaded s.temp_data + loaded s.light_data

-- Only the pages change.
pub record SameRest (k k' : Kernel) : Type 0 where
  pub tables : k'.tables ≡ k.tables
  pub ldisc : k'.ldisc ≡ k.ldisc
  pub region : k'.region ≡ k.region
  pub cdev : k'.cdev ≡ k.cdev

-- `lunix_sensor_init` succeeds with all three pages, or fails for want of memory with some of them
-- missing; it keeps what it has allocated either way.
abbrev pub Initialised : Kernel → Ret × Kernel × Sensor → Type 0
Initialised k (ok, k', s') = IsReady s' × (k'.pages ≡ k.pages + 3) × SameRest k k'
Initialised k (err e, k', s') =
    (e ≡ enomem) × (held s' ≤ 2) × (k'.pages ≡ k.pages + held s') × SameRest k k'

module _ (a : Answers) (m : Msr) (rest : List Msr) (k : Kernel) (s : Sensor) where
  alloc_granted :
      a.page k.requests ≡ true
      → alloc_pages a (m ∷ rest) k s
        ≡ alloc_pages a rest (granted k) (set_data s m (some fresh_page))
  unfolding alloc_pages
  alloc_granted y = rw (y, alloc_pages)

  alloc_refused :
      a.page k.requests ≡ false → alloc_pages a (m ∷ rest) k s ≡ (err enomem, refused k, s)
  unfolding alloc_pages
  alloc_refused n = rw (n, alloc_pages)

-- Initialising a sensor either succeeds with all three pages allocated, or fails with -ENOMEM and
-- keeps the at most two pages that it has; nothing else of the kernel changes.
pub sensor_init-Initialised :
    (a : Answers) (k : Kernel) (s : Sensor) → Initialised k (sensor_init a k s)
unfolding sensor_init
sensor_init-Initialised a k s = elim (Bool-cases (a.page k.requests)) [
  | inr n ↦ rw (alloc_refused a batt _ k _ n) (refl, omega arith, omega arith, same _ _)
  | inl y ↦ rw (alloc_granted a batt _ k _ y) (elim (Bool-cases (a.page (k.requests + 1))) [
    | inr n ↦ rw (alloc_refused a temp _ (granted k) _ n) (refl, omega arith, omega arith, same _ _)
    | inl y' ↦
        rw (alloc_granted a temp _ (granted k) _ y')
          (elim (Bool-cases (a.page (k.requests + 1 + 1))) [
            | inr n ↦
                rw (alloc_refused a light _ (granted (granted k)) _ n)
                  (refl, omega arith, omega arith, same _ _)
            | inl y'' ↦
                rw (alloc_granted a light _ (granted (granted k)) _ y'')
                  (record { has_batt = tt; has_temp = tt; has_light = tt }, omega arith, same _ _)
          ])
  ])
]
  where
    same : (r p : ℕ) → SameRest k (record k { requests = r; pages = p })
    same r p = record { tables = refl; ldisc = refl; region = refl; cdev = refl }

pub sensor_destroy_frees :
    (s : Sensor) (k : Kernel)
    → ((sensor_destroy s k).pages ≡ k.pages - held s) × SameRest k (sensor_destroy s k)
unfolding sensor_destroy
sensor_destroy_frees s k = ground arith
