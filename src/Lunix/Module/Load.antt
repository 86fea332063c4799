-- ===== src/Lunix/Module/Load.antt =====
-- What `lunix_module_init` and `lunix_module_cleanup` (Lunix_Device_Driver/lunix-module.c) take of
-- the kernel and give back.
use operating_systems_lab_nt.Prelude.{
  ℕ, suc, ◌+◌, ◌-◌, ◌*◌, ◌≤◌, ◌≡◌, refl, sym, ◌∙◌, Bool, true, false, List, [], ◌∷◌, Option, none,
  some, arith, replicate, length, All, length-replicate,
}
use operating_systems_lab_nt.Lunix.Chrdev.Register.{chrdev_init, register_region}
use operating_systems_lab_nt.Lunix.Kernel.{Ret, ok, err, enomem, Answers, Kernel}
use operating_systems_lab_nt.Lunix.Ldisc.{ldisc_init, ldisc_destroy, register_ldisc}
use operating_systems_lab_nt.Lunix.Module.{
  Driver, zero_sensor, init_sensors, destroy_sensors, out_with_sensors, after_chrdev, after_ldisc,
  after_sensors, after_table, reverse_onto, module_init,
}
use operating_systems_lab_nt.Lunix.Protocol.{ProtocolState, protocol_init}
use operating_systems_lab_nt.Lunix.Sensor.{Sensor, IsReady}
use operating_systems_lab_nt.Lunix.Sensor.Pages.{
  SameRest, held, sensor_init, sensor_destroy, Initialised, sensor_init-Initialised,
  sensor_destroy_frees,
}

SameRest-trans : {k l m : Kernel} → SameRest k l → SameRest l m → SameRest k m
SameRest-trans p q = record {
  tables = q.tables ∙ p.tables;
  ldisc = q.ldisc ∙ p.ldisc;
  region = q.region ∙ p.region;
  cdev = q.cdev ∙ p.cdev;
}

held-ready : (s : Sensor) → IsReady s → held s ≡ 3
held-ready s r = ground (arith, r.has_batt, r.has_temp, r.has_light)

-- Where the loop over the sensors ends.
abbrev Started : ℕ → ℕ → Kernel → Ret × List Sensor × Kernel → Type 0
Started todo before k (ok, done, k') =
    All IsReady done
    × (length done ≡ before + todo)
    × (k'.pages ≡ k.pages + 3 * todo)
    × SameRest k k'
Started todo before k (err e, done, k') =
    (e ≡ enomem)
    × All IsReady done
    × (before ≤ length done)
    × (k.pages + 3 * (length done - before) ≤ k'.pages)
    × (k'.pages ≤ k.pages + 3 * (length done - before) + 2)
    × SameRest k k'

Started-next :
    (todo before : ℕ) (k k' : Kernel) (out : Ret × List Sensor × Kernel)
    → k'.pages ≡ k.pages + 3
    → SameRest k k'
    → Started todo (suc before) k' out
    → Started (suc todo) before k out
Started-next todo before k k' (ok, done, k'') p s (r, l, q, t) =
    (r, omega arith, omega arith, SameRest-trans s t)
Started-next todo before k k' (err e, done, k'') p s (n, r, b, lo, hi, t) =
    (n, r, omega arith, omega arith, omega arith, SameRest-trans s t)

-- One round, by the result of `lunix_sensor_init`; `later` is the rest of the loop.
start_one :
    (a : Answers) (todo done : List Sensor) (k : Kernel) (out : Ret × Kernel × Sensor)
    → Initialised k out
    → All IsReady done
    → ((k' : Kernel) (s' : Sensor)
        → All IsReady (s' ∷ done)
        → Started (length todo) (length (s' ∷ done)) k' (init_sensors a todo (s' ∷ done) k'))
    → Started (suc (length todo)) (length done) k (elim out.0 [
      | ok ↦ init_sensors a todo (out.2 ∷ done) out.1
      | err e ↦ (err e, done, out.1)
    ])
start_one a todo done k (ok, k', s') i h later =
    Started-next (length todo) (length done) k k' _ i.1 i.2 (later k' s' (i.0, h))
start_one a todo done k (err e, k', s') i h later =
    (i.0, h, omega arith, omega arith, omega arith, i.3)

init_sensors-Started :
    (a : Answers) (todo done : List Sensor) (k : Kernel)
    → All IsReady done
    → Started (length todo) (length done) k (init_sensors a todo done k)
unfolding init_sensors
init_sensors-Started a [] done k h = (
  h,
  omega arith,
  omega arith,
  record { tables = refl; ldisc = refl; region = refl; cdev = refl },
)
init_sensors-Started a (s ∷ todo) done k h =
    start_one a todo done k (sensor_init a k s) (sensor_init-Initialised a k s) h
      (λ k' s' h'. init_sensors-Started a todo (s' ∷ done) k' h')

pub destroy_sensors_frees :
    (done : List Sensor) (k : Kernel)
    → All IsReady done
    → ((destroy_sensors done k).pages ≡ k.pages - 3 * length done)
      × SameRest k (destroy_sensors done k)
unfolding destroy_sensors
destroy_sensors_frees [] k h =
    (omega arith, record { tables = refl; ldisc = refl; region = refl; cdev = refl })
destroy_sensors_frees (s ∷ done) k h =
    let f = sensor_destroy_frees s k in
    let g = destroy_sensors_frees done (sensor_destroy s k) h.1 in
    (omega (arith, f.0, g.0, held-ready s h.0), SameRest-trans f.1 g.1)

pub reverse_onto-IsReady :
    (l acc : List Sensor)
    → All IsReady l
    → All IsReady acc
    → All IsReady (reverse_onto l acc) × (length (reverse_onto l acc) ≡ length l + length acc)
reverse_onto-IsReady [] acc h g = (g, omega arith)
reverse_onto-IsReady (s ∷ l) acc h g =
    let r = reverse_onto-IsReady l (s ∷ acc) h.1 (h.0, g) in (r.0, omega (arith, r.1))

-- A loaded module: every sensor is ready, and the kernel has its pages and registrations.
pub record IsLoaded (cnt : ℕ) (st : ProtocolState) (k : Kernel) (d : Driver) (k' : Kernel)
    : Type 0 where
  pub ready : All IsReady d.sensors
  pub count : length d.sensors ≡ cnt
  pub protocol : d.protocol ≡ protocol_init st
  pub available : d.available ≡ 1
  pub pages : k'.pages ≡ k.pages + 3 * cnt
  pub tables : k'.tables ≡ k.tables + 1
  pub ldisc : k'.ldisc ≡ true
  pub region : k'.region ≡ true
  pub cdev : k'.cdev ≡ true

-- How a load ends: all is there, or all but at most two pages is given back.
abbrev pub Outcome : ℕ → ProtocolState → Kernel → Ret × Option Driver × Kernel → Type 0
Outcome cnt st k (ok, some d, k') = IsLoaded cnt st k d k'
Outcome cnt st k (ok, none, k') = ⊥
Outcome cnt st k (err e, some d, k') = ⊥
Outcome cnt st k (err e, none, k') = (k.pages ≤ k'.pages) × (k'.pages ≤ k.pages + 2) × SameRest k k'

-- Nothing of the driver is registered.
pub record IsUnloaded (k : Kernel) : Type 0 where
  pub no_ldisc : k.ldisc ≡ false
  pub no_region : k.region ≡ false
  pub no_cdev : k.cdev ≡ false

abbrev with_table : Kernel → Kernel
with_table k = record k { tables = k.tables + 1 }

module _ (cnt : ℕ) (a : Answers) (st : ProtocolState) (k : Kernel) (u : IsUnloaded k) where
  undone :
      (done : List Sensor) (k' : Kernel) (leak : ℕ)
      → All IsReady done
      → leak ≤ 2
      → k'.pages ≡ k.pages + 3 * length done + leak
      → SameRest (with_table k) k'
      → (k.pages ≤ (out_with_sensors done k').pages)
        × ((out_with_sensors done k').pages ≤ k.pages + 2)
        × SameRest k (out_with_sensors done k')
  undone done k' leak h l p s =
      let f = destroy_sensors_frees done k' h in
      (
        omega (arith, f.0),
        omega (arith, f.0),
        record {
          tables = omega (arith, f.1.tables, s.tables);
          ldisc = f.1.ldisc ∙ s.ldisc;
          region = f.1.region ∙ s.region;
          cdev = f.1.cdev ∙ s.cdev;
        },
      )

  -- All sensors are ready; what is left to do are the registrations.
  module _ (done : List Sensor) (k' : Kernel) (h : All IsReady done) (l : length done ≡ cnt)
      (p : k'.pages ≡ k.pages + 3 * cnt) (s : SameRest (with_table k) k') where
    chrdev-Outcome :
        (region cdev : Ret)
        → Outcome cnt st k (
            after_chrdev done
              (protocol_init st)
              1
              (register_region region cdev (record k' { ldisc = true })))
    unfolding ldisc_destroy
    chrdev-Outcome (err e) cdev =
        undone done (ldisc_destroy (record k' { ldisc = true })) 0 h (omega arith)
          (omega (arith, p, l))
          (record { tables = s.tables; ldisc = sym u.no_ldisc; region = s.region; cdev = s.cdev })
    chrdev-Outcome ok (err e) =
        undone done (ldisc_destroy (record k' { ldisc = true; region = false })) 0 h (omega arith)
          (omega (arith, p, l))
          (record {
            tables = s.tables;
            ldisc = sym u.no_ldisc;
            region = sym u.no_region;
            cdev = s.cdev;
          })
    chrdev-Outcome ok ok =
        let r = reverse_onto-IsReady done [] h tt in
        record {
          ready = r.0;
          count = omega (arith, r.1, l);
          protocol = refl;
          available = refl;
          pages = p;
          tables = s.tables;
          ldisc = refl;
          region = refl;
          cdev = refl;
        }

    ldisc-Outcome :
        (answer : Ret)
        → Outcome cnt st k
            (after_ldisc a done (protocol_init st) (answer, 1, register_ldisc answer k'))
    unfolding chrdev_init
    ldisc-Outcome ok = chrdev-Outcome a.region a.cdev
    ldisc-Outcome (err e) = undone done k' 0 h (omega arith) (omega (arith, p, l)) s

  sensors-Outcome :
      (out : Ret × List Sensor × Kernel)
      → Started cnt 0 (with_table k) out
      → Outcome cnt st k (after_sensors a (protocol_init st) out)
  unfolding ldisc_init
  sensors-Outcome (ok, done, k') (h, l, p, s) =
      ldisc-Outcome done k' h (omega (arith, l)) p s a.ldisc
  sensors-Outcome (err e, done, k') (n, h, b, lo, hi, s) =
      undone done k' (k'.pages - (k.pages + 3 * length done)) h (omega (arith, hi))
        (omega (arith, lo)) s

  table-Outcome : (answer : Bool) → Outcome cnt st k (after_table answer cnt a st k)
  table-Outcome false =
      (omega arith, omega arith, record { tables = refl; ldisc = refl; region = refl; cdev = refl })
  table-Outcome true = sensors-Outcome _ (
      rw (length-replicate cnt zero_sensor) at
        (init_sensors-Started a (replicate cnt zero_sensor) [] (with_table k) tt))

-- Where nothing of the driver is registered, loading either succeeds with every sensor ready, the
-- protocol at a start byte and everything registered, or fails with nothing registered, no sensor
-- table, and at most two pages lost.
pub module_init-Outcome :
    (cnt : ℕ) (a : Answers) (st : ProtocolState) (k : Kernel)
    → IsUnloaded k
    → Outcome cnt st k (module_init cnt a st k)
module_init-Outcome cnt a st k u = unfold module_init in table-Outcome cnt a st k u a.table

-- Where the sensor table and the first page are granted and the second page of the first sensor is
-- refused, the load fails with -ENOMEM and one page is lost.
pub module_init-leaks :
    (cnt : ℕ) (a : Answers) (st : ProtocolState) (k : Kernel)
    → a.table ≡ true
    → a.page k.requests ≡ true
    → a.page (k.requests + 1) ≡ false
    → let (r, d, k') = module_init (suc cnt) a st k in
      (r ≡ err enomem) × (d ≡ none) × (k'.pages ≡ k.pages + 1)
unfolding module_init
module_init-leaks cnt a st k t y n = ground arith
