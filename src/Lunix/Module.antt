-- ===== src/Lunix/Module.antt =====
-- Lunix_Device_Driver/lunix-module.c: loading and unloading the driver.
pub mod Load
pub mod Unload
use operating_systems_lab_nt.Prelude.{
  ℕ, zero, suc, ◌+◌, ◌-◌, ◌*◌, ◌≤◌, ◌≡◌, refl, Bool, true, false, List, [], ◌∷◌, Option, none, some,
  arith, replicate,
}
use operating_systems_lab_nt.Lunix.Chrdev.Register.{chrdev_init, chrdev_destroy}
use operating_systems_lab_nt.Lunix.Kernel.{Ret, ok, err, enomem, Answers, Kernel}
use operating_systems_lab_nt.Lunix.Ldisc.{ldisc_init, ldisc_destroy}
use operating_systems_lab_nt.Lunix.Protocol.{ProtocolState, protocol_init}
use operating_systems_lab_nt.Lunix.Sensor.{Sensor}
use operating_systems_lab_nt.Lunix.Sensor.Pages.{sensor_init, sensor_destroy}

-- The state of the loaded module: `lunix_sensors`, `lunix_protocol_state` and
-- `lunix_disc_available`.
pub record Driver : Type 0 where
  pub sensors : List Sensor
  pub protocol : ProtocolState
  pub available : ℕ

-- `kzalloc` of the sensor table.
abbrev pub zero_sensor : Sensor
zero_sensor = record { batt_data = none; temp_data = none; light_data = none; wakeups = 0 }

-- The loop of `lunix_module_init`: the sensors not yet initialised, and those that are, the last
-- one (`si_done`) first. A sensor whose initialisation fails is in neither list.
unfoldable pub init_sensors :
    Answers → List Sensor → List Sensor → Kernel → Ret × List Sensor × Kernel
init_sensors a [] done k = (ok, done, k)
init_sensors a (s ∷ todo) done k =
    let (r, k', s') = sensor_init a k s in
    elim r [ ok ↦ init_sensors a todo (s' ∷ done) k' | err e ↦ (err e, done, k') ]

-- The loops that call `lunix_sensor_destroy` from the last initialised sensor down.
unfoldable pub destroy_sensors : List Sensor → Kernel → Kernel
destroy_sensors [] k = k
destroy_sensors (s ∷ done) k = destroy_sensors done (sensor_destroy s k)

abbrev pub free_table : Kernel → Kernel
free_table k = record k { tables = k.tables - 1 }

-- The label `out_with_sensors`.
abbrev pub out_with_sensors : List Sensor → Kernel → Kernel
out_with_sensors done k = free_table (destroy_sensors done k)

abbrev pub reverse_onto : List Sensor → List Sensor → List Sensor
reverse_onto [] acc = acc
reverse_onto (s ∷ rest) acc = reverse_onto rest (s ∷ acc)

-- The end of `lunix_module_init`, from the result of `lunix_chrdev_init`.
abbrev pub after_chrdev :
    List Sensor → ProtocolState → ℕ → Ret × Kernel → Ret × Option Driver × Kernel
after_chrdev done st available (ok, k) =
    (ok, some (record { sensors = reverse_onto done []; protocol = st; available = available }), k)
after_chrdev done st available (err e, k) = (err e, none, out_with_sensors done (ldisc_destroy k))

abbrev pub after_ldisc :
    Answers → List Sensor → ProtocolState → Ret × ℕ × Kernel → Ret × Option Driver × Kernel
after_ldisc a done st (ok, available, k) = after_chrdev done st available (chrdev_init a k)
after_ldisc a done st (err e, available, k) = (err e, none, out_with_sensors done k)

abbrev pub after_sensors :
    Answers → ProtocolState → Ret × List Sensor × Kernel → Ret × Option Driver × Kernel
after_sensors a st (ok, done, k) = after_ldisc a done st (ldisc_init a k)
after_sensors a st (err e, done, k) = (err e, none, out_with_sensors done k)

-- The rest of `lunix_module_init`, from the answer to `kzalloc` of the sensor table.
abbrev pub after_table : Bool → ℕ → Answers → ProtocolState → Kernel → Ret × Option Driver × Kernel
after_table false cnt a st k = (err enomem, none, k)
after_table true cnt a st k =
    after_sensors a (protocol_init st)
      (init_sensors a (replicate cnt zero_sensor) [] (record k { tables = k.tables + 1 }))

-- `lunix_module_init` for `cnt` sensors; `st` is the protocol state that the kernel loads.
unfoldable pub module_init : ℕ → Answers → ProtocolState → Kernel → Ret × Option Driver × Kernel
unfolding init_sensors destroy_sensors sensor_init sensor_destroy ldisc_init ldisc_destroy
    chrdev_init
module_init cnt a st k = after_table a.table cnt a st k

-- `lunix_module_cleanup`
unfoldable pub module_cleanup : Driver → Kernel → Kernel
unfolding destroy_sensors sensor_destroy ldisc_destroy chrdev_destroy
module_cleanup d k =
    free_table (destroy_sensors (reverse_onto d.sensors []) (ldisc_destroy (chrdev_destroy k)))
