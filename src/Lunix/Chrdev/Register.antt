-- ===== src/Lunix/Chrdev/Register.antt =====
-- The registration of the character device in Lunix_Device_Driver/lunix-chrdev.c.
use operating_systems_lab_nt.Prelude.{true, false}
use operating_systems_lab_nt.Lunix.Kernel.{Ret, ok, err, Answers, Kernel}

abbrev pub add_cdev : Ret → Kernel → Ret × Kernel
add_cdev ok k = (ok, record k { cdev = true })
add_cdev (err e) k = (err e, record k { region = false })

abbrev pub register_region : Ret → Ret → Kernel → Ret × Kernel
register_region ok cdev k = add_cdev cdev (record k { region = true })
register_region (err e) cdev k = (err e, k)

-- `lunix_chrdev_init`: where the device cannot be added, the region is given back.
unfoldable pub chrdev_init : Answers → Kernel → Ret × Kernel
chrdev_init a k = register_region a.region a.cdev k

-- `lunix_chrdev_destroy`
unfoldable pub chrdev_destroy : Kernel → Kernel
chrdev_destroy k = record k { cdev = false; region = false }
