-- ===== src/Lunix/Chrdev/Minor.antt =====
-- The minor numbers of Lunix_Device_Driver/lunix-chrdev.c: eight for each sensor.
use operating_systems_lab_nt.Prelude.{
  ℕ, ◌+◌, ◌*◌, ◌/◌, ◌%◌, ◌≤◌, ◌<◌, ◌≡◌, refl, Bool, true, false, List, arith, none, some, ◌==◌,
}
use operating_systems_lab_nt.Lunix.Chrdev.{chrdev_open}
use operating_systems_lab_nt.Lunix.Kernel.{ok, err, enodev}
use operating_systems_lab_nt.Lunix.Sensor.{Msr, batt, temp, light}

abbrev pub code : Msr → ℕ
code batt = 0
code temp = 1
code light = 2

-- Minor number 8 * s + m opens measurement m of sensor s, with nothing cached and the semaphore
-- free, where nonseekable_open succeeds and there is memory.
pub chrdev_open-minor :
    (s : ℕ) (m : Msr) (garbage : List ℕ)
    → chrdev_open (8 * s + code m) ok true garbage ≡ (
      ok,
      some (record {
        type = m;
        sensor = s;
        buf_lim = 0;
        buf_data = garbage;
        buf_timestamp = 0;
        lock = 1;
      }),
    )
unfolding chrdev_open
chrdev_open-minor s batt garbage =
    let at : (8 * s + 0) % 8 ≡ 0 = omega arith in
    let of : (8 * s + 0) / 8 ≡ s = omega arith in rw (at, of, chrdev_open) refl
chrdev_open-minor s temp garbage =
    let at : (8 * s + 1) % 8 ≡ 1 = omega arith in
    let of : (8 * s + 1) / 8 ≡ s = omega arith in rw (at, of, chrdev_open) refl
chrdev_open-minor s light garbage =
    let at : (8 * s + 2) % 8 ≡ 2 = omega arith in
    let of : (8 * s + 2) / 8 ≡ s = omega arith in rw (at, of, chrdev_open) refl

-- The other five minor numbers of a sensor are no devices, whatever memory there is, where
-- nonseekable_open succeeds.
pub chrdev_open-enodev :
    (s t : ℕ) (memory : Bool) (garbage : List ℕ)
    → 3 ≤ t
    → t < 8
    → chrdev_open (8 * s + t) ok memory garbage ≡ (err enodev, none)
unfolding chrdev_open
chrdev_open-enodev s t memory garbage lo hi =
    let at : (8 * s + t) % 8 ≡ t = omega arith in
    let no0 : (t == 0) ≡ false = ground arith in
    let no1 : (t == 1) ≡ false = ground arith in
    let no2 : (t == 2) ≡ false = ground arith in rw (at, no0, no1, no2, chrdev_open) refl
