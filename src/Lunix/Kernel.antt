-- ===== src/Lunix/Kernel.antt =====
-- What the driver of Lunix_Device_Driver asks of the kernel: memory, and the registration of its
-- line discipline and its character device. The kernel's answers are parameters.
use operating_systems_lab_nt.Prelude.{ℕ, ◌+◌, ◌-◌, Bool}

-- A return value: 0, or a negative error number.
pub data Ret : Type 0 where
  ok : Ret
  err : ℕ → Ret

abbrev pub enomem : ℕ
enomem = 12

abbrev pub enodev : ℕ
enodev = 19

abbrev pub eperm : ℕ
eperm = 1

abbrev pub ebusy : ℕ
ebusy = 16

abbrev pub eio : ℕ
eio = 5

abbrev pub einval : ℕ
einval = 22

-- The answers: `page n` to the n-th request of a page, `table` to the request of the sensor table,
-- and what `tty_register_ldisc`, `register_chrdev_region` and `cdev_add` return.
pub record Answers : Type 0 where
  pub page : ℕ → Bool
  pub table : Bool
  pub ldisc : Ret
  pub region : Ret
  pub cdev : Ret

-- What the driver holds of the kernel: pages, sensor tables, and its registrations.
pub record Kernel : Type 0 where
  pub requests : ℕ
  pub pages : ℕ
  pub tables : ℕ
  pub ldisc : Bool
  pub region : Bool
  pub cdev : Bool

-- A call of `get_zeroed_page` that returns a page, one that returns 0, and `free_page`.
abbrev pub granted : Kernel → Kernel
granted k = record k { requests = k.requests + 1; pages = k.pages + 1 }

abbrev pub refused : Kernel → Kernel
refused k = record k { requests = k.requests + 1 }

abbrev pub free_page : Kernel → Kernel
free_page k = record k { pages = k.pages - 1 }
