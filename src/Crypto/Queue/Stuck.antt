-- ===== src/Crypto/Queue/Stuck.antt =====
-- The loop on `virtqueue_get_buf` (Virtio_Crypto_Chat/virtio-cryptodev/guest/crypto-chrdev.c) after
-- an error of `virtqueue_add_sgs`, which the driver keeps in `err` and never looks at.
use operating_systems_lab_nt.Prelude.{ℕ, ◌≡◌, true, [], some, get_elem?}
use operating_systems_lab_nt.Crypto.Host.{Cryptodev}
use operating_systems_lab_nt.Crypto.Message.{Element}
use operating_systems_lab_nt.Crypto.Queue.{Virtqueue, Ordered, waiting, Machine}

module _ {Q W : Type 0} (v : Virtqueue Q) (d : Cryptodev W) (o : Ordered v) where
  -- A process is in the loop with the lock, and nothing is in the virtqueue.
  pub record Stuck (i : ℕ) (e : Element) (m : Machine Q W) : Type 0 where
    pub in_loop : get_elem? m.senders i ≡ some (waiting e)
    pub holds : m.locked ≡ true
    pub none_available : o.available m.queue ≡ []
    pub none_used : o.used m.queue ≡ []
