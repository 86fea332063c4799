-- ===== src/Lunix/Module/Unload.antt =====
-- What `lunix_module_cleanup` (Lunix_Device_Driver/lunix-module.c) gives back of what
-- `lunix_module_init` took.
use operating_systems_lab_nt.Prelude.{ℕ, ◌≡◌, sym, ◌∙◌, false, [], some, arith}
use operating_systems_lab_nt.Lunix.Kernel.{ok, Answers, Kernel}
use operating_systems_lab_nt.Lunix.Module.{Driver, reverse_onto, module_init, module_cleanup}
use operating_systems_lab_nt.Lunix.Protocol.{ProtocolState}
use operating_systems_lab_nt.Lunix.Sensor.Pages.{SameRest}
use operating_systems_lab_nt.Lunix.Module.Load.{
  reverse_onto-IsReady, destroy_sensors_frees, IsLoaded, IsUnloaded, module_init-Outcome,
}

unloaded :
    (cnt : ℕ) (st : ProtocolState) (k : Kernel) (d : Driver) (k' : Kernel)
    → IsUnloaded k
    → IsLoaded cnt st k d k'
    → ((module_cleanup d k').pages ≡ k.pages) × SameRest k (module_cleanup d k')
unfolding module_cleanup
unloaded cnt st k d k' u w =
    let r = reverse_onto-IsReady d.sensors [] w.ready tt in
    let f =
      destroy_sensors_frees (reverse_onto d.sensors [])
        (record k' { ldisc = false; cdev = false; region = false }) r.0 in
    (
      omega (arith, f.0, r.1, w.pages, w.count),
      record {
        tables = omega (arith, f.1.tables, w.tables);
        ldisc = f.1.ldisc ∙ sym u.no_ldisc;
        region = f.1.region ∙ sym u.no_region;
        cdev = f.1.cdev ∙ sym u.no_cdev;
      },
    )

-- Unloading after a load that succeeded where nothing of the driver was registered gives back every
-- page, the table and all registrations.
pub module_cleanup-module_init :
    (cnt : ℕ) (a : Answers) (st : ProtocolState) (k : Kernel) {d : Driver} {k' : Kernel}
    → IsUnloaded k
    → module_init cnt a st k ≡ (ok, some d, k')
    → ((module_cleanup d k').pages ≡ k.pages) × SameRest k (module_cleanup d k')
module_cleanup-module_init cnt a st k {d} {k'} u e =
    unloaded cnt st k d k' u (rw e at (module_init-Outcome cnt a st k u))
