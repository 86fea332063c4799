-- ===== src/Lunix/Ldisc.antt =====
-- Lunix_Device_Driver/lunix-ldisc.c: the line discipline.
use operating_systems_lab_nt.Prelude.{
  ℕ, ◌+◌, ◌-◌, ◌≤◌, ◌<◌, ◌≡◌, refl, Bool, true, false, List, Option, arith, ◌==◌, if◌then◌else◌,
}
use operating_systems_lab_nt.Lunix.Kernel.{Ret, ok, err, eperm, ebusy, eio, Answers, Kernel}
use operating_systems_lab_nt.Lunix.Protocol.{ProtocolState, received_buf}
use operating_systems_lab_nt.Lunix.Sensor.{Sensor}

-- `lunix_ldisc_open`, on the value of `lunix_disc_available`; `capable` is the answer of
-- `capable(CAP_SYS_ADMIN)`. The last result is `receive_room`, where it is set.
unfoldable pub ldisc_open : Bool → ℕ → ℕ → Ret × ℕ × ℕ
ldisc_open capable room available =
    if capable
    then (if available == 0 then (err ebusy, available, room) else (ok, available - 1, 65536))
    else (err eperm, available, room)

-- `lunix_ldisc_close`
unfoldable pub ldisc_close : ℕ → ℕ
ldisc_close available = available + 1

-- `lunix_ldisc_receive`
unfoldable pub ldisc_receive :
    Bool → ℕ → ℕ → ProtocolState → List Sensor → List ℕ → Option (ProtocolState × List Sensor)
unfolding received_buf
ldisc_receive debug cnt now st sensors cp = received_buf debug cnt now st sensors cp

-- `lunix_ldisc_read` and `lunix_ldisc_write`
unfoldable pub ldisc_read : ℕ → Ret
ldisc_read cnt = err eio

unfoldable pub ldisc_write : ℕ → Ret
ldisc_write cnt = err eio

abbrev pub register_ldisc : Ret → Kernel → Kernel
register_ldisc ok k = record k { ldisc = true }
register_ldisc (err e) k = k

-- `lunix_ldisc_init`: it returns what `tty_register_ldisc` does, and the counter is 1.
unfoldable pub ldisc_init : Answers → Kernel → Ret × ℕ × Kernel
ldisc_init a k = (a.ldisc, 1, register_ldisc a.ldisc k)

-- `lunix_ldisc_destroy`
unfoldable pub ldisc_destroy : Kernel → Kernel
ldisc_destroy k = record k { ldisc = false }

-- The discipline as its users see it: the counter, and the TTYs that it is set on.
pub record Line : Type 0 where
  pub available : ℕ
  pub attached : ℕ

-- A TTY is attached where the open succeeds; the kernel closes only a TTY that is attached.
pub data Step (l : Line) : Line → Type 0 where
  attach :
      (capable : Bool) (room room' available' : ℕ)
      → ldisc_open capable room l.available ≡ (ok, available', room')
      → Step l (record { available = available'; attached = l.attached + 1 })
  refuse :
      (capable : Bool) (room room' available' e : ℕ)
      → ldisc_open capable room l.available ≡ (err e, available', room')
      → Step l (record { available = available'; attached = l.attached })
  detach :
      0 < l.attached
      → Step l (record { available = ldisc_close l.available; attached = l.attached - 1 })

pub data Reach (l : Line) : Line → Type 0 where
  here : Reach l l
  next : {m n : Line} → Reach l m → Step m n → Reach l n

abbrev pub fresh_line : Line
fresh_line = record { available = 1; attached = 0 }

Step-sum : {l m : Line} → Step l m → m.available + m.attached ≡ l.available + l.attached
unfolding ldisc_open ldisc_close
Step-sum (attach c r r' a e) = ground arith
Step-sum (refuse c r r' a n e) = ground arith
Step-sum (detach h) = ground arith

Reach-sum : {l m : Line} → Reach l m → m.available + m.attached ≡ l.available + l.attached
Reach-sum here = refl
Reach-sum (next r s) = omega (arith, Reach-sum r, Step-sum s)

-- In whatever order TTYs are attached, refused and closed, the discipline is on one TTY at most,
-- and the administrator can set it on a TTY exactly when it is on none.
pub Reach-exclusive :
    {l : Line} (room : ℕ)
    → Reach fresh_line l
    → (l.attached ≤ 1)
      × (ldisc_open true room l.available
          ≡ (if l.attached == 0 then (ok, 0, 65536) else (err ebusy, 0, room)))
unfolding ldisc_open
Reach-exclusive {l} room r =
    let sum : l.available + l.attached ≡ 1 = Reach-sum r in (omega arith, ground arith)
