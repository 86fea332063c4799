-- ===== src/Lunix/Chrdev.antt =====
-- Lunix_Device_Driver/lunix-chrdev.c and lunix-chrdev.h: the character devices.
pub mod Register
pub mod Format
pub mod Text
pub mod Reading
pub mod Reads
pub mod Locking
pub mod Minor
pub mod Shared
use operating_systems_lab_nt.Prelude.{
  ℕ, ◌+◌, ◌-◌, ◌/◌, ◌%◌, ◌^◌, Bool, true, false, List, [], ◌∷◌, ◌++◌, Option, none, some, ◌>>=◌,
  if◌then◌else◌, ltb, leb, ◌==◌, length, take, drop, get_elem?,
}
use operating_systems_lab_nt.Lunix.Chrdev.Format.{ℤ, text}
use operating_systems_lab_nt.Lunix.Kernel.{Ret, ok, err, enomem, enodev, einval}
use operating_systems_lab_nt.Lunix.Sensor.{Msr, batt, temp, light, Sensor, msr_data}

-- `struct lunix_chrdev_state_struct`: `sensor` is the index in `lunix_sensors`, `lock` the count of
-- the semaphore.
pub record ChrdevState : Type 0 where
  pub type : Msr
  pub sensor : ℕ
  pub buf_lim : ℕ
  pub buf_data : List ℕ
  pub buf_timestamp : ℕ
  pub lock : ℕ

abbrev pub chrdev_bufsz : ℕ
chrdev_bufsz = 20

-- `lunix_chrdev_state_needs_refresh`; a NULL page is a fault.
abbrev pub needs_refresh : ChrdevState → Sensor → Option Bool
needs_refresh st s = do page ← msr_data s st.type; some (ltb st.buf_timestamp page.last_update)

-- `sprintf` into a buffer; text that does not fit with its NUL is a fault.
abbrev pub sprintf : List ℕ → List ℕ → Option (List ℕ)
sprintf buf chars =
    if leb (length chars + 1) (length buf)
    then some (chars ++ (0 ∷ drop (length chars + 1) buf))
    else none

abbrev pub strlen : List ℕ → ℕ
strlen [] = 0
strlen (c ∷ rest) = if c == 0 then 0 else strlen rest + 1

-- What `lunix_chrdev_state_update` does with the page that it reads under the sensor's lock.
abbrev pub format_page : (Msr → ℕ → ℤ) → ChrdevState → ℕ → ℕ → Option ChrdevState
format_page lookup st value stamp = do
  data' ← sprintf st.buf_data (text (lookup st.type (value % 2 ^ 16)))
  some (record st { buf_timestamp = stamp; buf_data = data'; buf_lim = strlen data' })

-- `lunix_chrdev_state_update`: `false` is -EAGAIN. `checked` is the sensor at the unlocked check,
-- `taken` the sensor under its lock; `lookup` holds the generated tables.
unfoldable pub state_update :
    (Msr → ℕ → ℤ) → ChrdevState → Sensor → Sensor → Option (Bool × ChrdevState)
state_update lookup st checked taken = do
  fresh ← needs_refresh st checked
  if fresh
      then (do
        page ← msr_data taken st.type
        st' ← format_page lookup st page.value page.last_update
        some (true, st'))
      else some (false, st)

abbrev type_of : ℕ → Option Msr
type_of n =
    if n == 0 then some batt else if n == 1 then some temp else if n == 2 then some light else none

-- `lunix_chrdev_open`: `opened` is what `nonseekable_open` returns, `memory` the answer of
-- `kmalloc`, and `garbage` what the fresh buffer holds.
unfoldable pub chrdev_open : ℕ → Ret → Bool → List ℕ → Ret × Option ChrdevState
chrdev_open minor opened memory garbage = elim opened [
  | err e ↦ (err e, none)
  | ok ↦ elim (type_of (minor % 8)) [
    | none ↦ (err enodev, none)
    | some m ↦
        if memory
        then (
          ok,
          some (record {
            type = m;
            sensor = minor / 8;
            buf_lim = 0;
            buf_data = garbage;
            buf_timestamp = 0;
            lock = 1;
          }),
        )
        else (err enomem, none)
  ]
]

-- `lunix_chrdev_release`, on `filp->private_data`, which it frees where there is one.
unfoldable pub chrdev_release : Option ChrdevState → Ret × Option ChrdevState
chrdev_release st = (ok, none)

-- `lunix_chrdev_ioctl` and `lunix_chrdev_mmap`
unfoldable pub chrdev_ioctl : ℕ → ℕ → Ret
chrdev_ioctl cmd arg = err einval

unfoldable pub chrdev_mmap : Ret
chrdev_mmap = err einval

abbrev pub erestartsys : ℕ
erestartsys = 512

abbrev pub efault : ℕ
efault = 14

-- One turn of the sleeping loop: what `wait_event_interruptible` and `down_interruptible` return,
-- and the sensor at the two reads of the next `lunix_chrdev_state_update`.
pub record Turn : Type 0 where
  pub wait : Ret
  pub down : Ret
  pub checked : Sensor
  pub taken : Sensor

abbrev pub is_restart : Ret → Bool
is_restart ok = false
is_restart (err e) = e == erestartsys

abbrev pub up : ChrdevState → ChrdevState
up st = record st { lock = st.lock + 1 }

abbrev pub after_down : Ret → ChrdevState → ChrdevState
after_down ok st = record st { lock = st.lock - 1 }
after_down (err e) st = st

-- How the loop ends: with fresh data, by `goto out`, still asleep, or with a fault.
pub data Waited : Type 0 where
  fresh : ChrdevState → Waited
  out : ChrdevState → Waited
  asleep : ChrdevState → Waited
  crashed : Waited

-- The `while` of `lunix_chrdev_read`, over the turns that the kernel gives it.
unfoldable pub refresh : (Msr → ℕ → ℤ) → ChrdevState → Sensor → Sensor → List Turn → Waited
refresh lookup st checked taken [] = elim (state_update lookup st checked taken) [
  | none ↦ crashed
  | some (true, st') ↦ fresh st'
  | some (false, st') ↦ asleep (up st')
]
refresh lookup st checked taken (t ∷ turns) = elim (state_update lookup st checked taken) [
  | none ↦ crashed
  | some (true, st') ↦ fresh st'
  | some (false, st') ↦ elim (is_restart t.wait) [
    | true ↦ out (up st')
    | false ↦ elim (is_restart t.down) [
      | true ↦ out (after_down t.down (up st'))
      | false ↦ refresh lookup (after_down t.down (up st')) t.checked t.taken turns
    ]
  ]
]

-- What a read returns: bytes, an error, or nothing yet.
pub data Read : Type 0 where
  bytes : List ℕ → Read
  failed : ℕ → Read
  sleeping : Read
  faulted : Read

-- `cnt`, cut to what is cached; `size_t` arithmetic.
abbrev pub to_copy : ChrdevState → ℕ → ℕ → ℕ
to_copy st f_pos cnt =
    if ltb st.buf_lim ((f_pos + cnt) % 2 ^ 64) then (st.buf_lim + 2 ^ 64 - f_pos) % 2 ^ 64 else cnt

-- The end of `lunix_chrdev_read`, with `up` at the label `out`; `copied` tells that
-- `copy_to_user` copied all. A copy from behind the buffer is a fault.
unfoldable pub copy_out : Bool → ChrdevState → ℕ → ℕ → Read × ChrdevState × ℕ
copy_out copied st f_pos cnt =
    let n = to_copy st f_pos cnt in
    if leb (f_pos + n) (length st.buf_data)
    then (if copied
        then (
          bytes (take n (drop f_pos st.buf_data)),
          up st,
          (if leb st.buf_lim (f_pos + n) then 0 else f_pos + n),
        )
        else (failed efault, up st, f_pos))
    else (faulted, up st, f_pos)

abbrev pub after_refresh : Bool → ℕ → ℕ → ChrdevState → Waited → Read × ChrdevState × ℕ
after_refresh copied f_pos cnt st (fresh st') = copy_out copied st' f_pos cnt
after_refresh copied f_pos cnt st (out st') = (failed erestartsys, up st', f_pos)
after_refresh copied f_pos cnt st (asleep st') = (sleeping, st', f_pos)
after_refresh copied f_pos cnt st crashed = (faulted, st, f_pos)

-- `lunix_chrdev_read`: `down` is the first `down_interruptible`; the rest is as above.
unfoldable pub chrdev_read :
    (Msr → ℕ → ℤ)
    → Ret
    → Bool
    → ChrdevState
    → Sensor
    → Sensor
    → List Turn
    → ℕ
    → ℕ
    → Read × ChrdevState × ℕ
unfolding refresh copy_out state_update
chrdev_read lookup (err e) copied st checked taken turns f_pos cnt = (failed erestartsys, st, f_pos)
chrdev_read lookup ok copied st checked taken turns f_pos cnt =
    let held = after_down ok st in
    if f_pos == 0
    then after_refresh copied f_pos cnt held (refresh lookup held checked taken turns)
    else copy_out copied held f_pos cnt
