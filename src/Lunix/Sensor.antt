-- ===== src/Lunix/Sensor.antt =====
-- Lunix_Device_Driver/lunix.h and lunix-sensors.c: the measurement pages of one sensor.
pub mod Pages
use operating_systems_lab_nt.Prelude.{ℕ, ◌+◌, ◌≡◌, refl, arith, Option, none, some, ◌>>=◌}

-- `enum lunix_msr_enum`; N_LUNIX_MSR is 3.
pub data Msr : Type 0 where
  batt temp light : Msr

-- `struct lunix_msr_data_struct`, with the one element of `values` that the driver uses.
pub record MsrData : Type 0 where
  pub magic : ℕ
  pub last_update : ℕ
  pub value : ℕ

-- `struct lunix_sensor_struct`: `msr_data[i]` is `none` where the pointer is NULL. `wakeups` counts
-- the calls of `wake_up_interruptible` on the wait queue.
pub record Sensor : Type 0 where
  pub batt_data : Option MsrData
  pub temp_data : Option MsrData
  pub light_data : Option MsrData
  pub wakeups : ℕ

abbrev pub msr_magic : ℕ
msr_magic = 0xF00DF00D

abbrev pub msr_data : Sensor → Msr → Option MsrData
msr_data s batt = s.batt_data
msr_data s temp = s.temp_data
msr_data s light = s.light_data

abbrev measured : ℕ → ℕ → MsrData
measured now v = record { magic = msr_magic; last_update = now; value = v }

abbrev refreshed : ℕ → Sensor → ℕ → ℕ → ℕ → Sensor
refreshed now s b t l = record s {
  batt_data = some (measured now b);
  temp_data = some (measured now t);
  light_data = some (measured now l);
  wakeups = s.wakeups + 1;
}

-- `lunix_sensor_update`; `now` is what `get_seconds` returns, cut to 32 bits. A NULL page is a fault.
unfoldable pub sensor_update : ℕ → Sensor → ℕ → ℕ → ℕ → Option Sensor
sensor_update now s b t l = do
  _ ← s.batt_data
  _ ← s.temp_data
  _ ← s.light_data
  some (refreshed now s b t l)

abbrev pub IsLoaded : Option MsrData → Type 0
IsLoaded none = ⊥
IsLoaded (some page) = Unit {0}

-- All pages of a sensor are allocated.
pub record IsReady (s : Sensor) : Type 0 where
  pub has_batt : IsLoaded s.batt_data
  pub has_temp : IsLoaded s.temp_data
  pub has_light : IsLoaded s.light_data

-- On a ready sensor the update writes all three measurements with one time stamp and one wake-up,
-- and leaves the sensor ready.
pub sensor_update_ready :
    (now : ℕ) (s : Sensor) (b t l : ℕ)
    → IsReady s
    → (s' : Sensor) × (sensor_update now s b t l ≡ some s')
      × IsReady s'
      × (msr_data s' batt ≡ some (record { magic = msr_magic; last_update = now; value = b }))
      × (msr_data s' temp ≡ some (record { magic = msr_magic; last_update = now; value = t }))
      × (msr_data s' light ≡ some (record { magic = msr_magic; last_update = now; value = l }))
      × (s'.wakeups ≡ s.wakeups + 1)
unfolding sensor_update
sensor_update_ready now s b t l r = (
  refreshed now s b t l,
  ground arith,
  record { has_batt = tt; has_temp = tt; has_light = tt },
  refl,
  refl,
  refl,
  refl,
)
