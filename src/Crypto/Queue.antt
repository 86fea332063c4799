-- ===== src/Crypto/Queue.antt =====
-- Processes of a guest that use one device at the same time: the spinlock and the virtqueue in
-- `crypto_chrdev_open`, `crypto_chrdev_release` and `crypto_chrdev_ioctl`
-- (Virtio_Crypto_Chat/virtio-cryptodev/guest/crypto-chrdev.c), with QEMU's handler at the other end.
pub mod Pending
pub mod Atomic
pub mod Answer
pub mod Stuck
use operating_systems_lab_nt.Prelude.{
  ℕ, Bool, true, false, List, [], ◌∷◌, ◌++◌, Option, none, some, ◌≡◌, get_elem?, set, replicate,
}
use operating_systems_lab_nt.Crypto.Host.{Cryptodev, vq_handle_output}
use operating_systems_lab_nt.Crypto.Message.{Element}

-- A virtqueue: the guest's `virtqueue_add_sgs` with its kick, which may fail and then queues nothing,
-- and `virtqueue_get_buf`; the host's `virtqueue_pop`, and `virtqueue_push` with its notification.
pub record Virtqueue (Q : Type 0) : Type 0 where
  pub add : Element → Q → Option Q
  pub get_buf : Q → Option (Element × Q)
  pub pop : Q → Option (Element × Q)
  pub push : Element → Q → Q

-- What is documented of it: elements wait for the host, and then for the guest, in their order, and
-- an element that waits is found.
pub record Ordered {Q : Type 0} (v : Virtqueue Q) : Type 0 where
  pub available : Q → List Element
  pub used : Q → List Element
  pub available-add :
      (e : Element) (q q' : Q) → v.add e q ≡ some q' → available q' ≡ available q ++ (e ∷ [])
  pub used-add : (e : Element) (q q' : Q) → v.add e q ≡ some q' → used q' ≡ used q
  pub available-get_buf :
      (e : Element) (q q' : Q) → v.get_buf q ≡ some (e, q') → available q' ≡ available q
  pub used-get_buf : (e : Element) (q q' : Q) → v.get_buf q ≡ some (e, q') → used q ≡ e ∷ used q'
  pub available-pop :
      (e : Element) (q q' : Q) → v.pop q ≡ some (e, q') → available q ≡ e ∷ available q'
  pub used-pop : (e : Element) (q q' : Q) → v.pop q ≡ some (e, q') → used q' ≡ used q
  pub pop-available :
      (e : Element) (rest : List Element) (q : Q)
      → available q ≡ e ∷ rest
      → (q' : Q) × (v.pop q ≡ some (e, q'))
  pub get_buf-used :
      (e : Element) (rest : List Element) (q : Q)
      → used q ≡ e ∷ rest
      → (q' : Q) × (v.get_buf q ≡ some (e, q'))
  pub available-push : (e : Element) (q : Q) → available (v.push e q) ≡ available q
  pub used-push : (e : Element) (q : Q) → used (v.push e q) ≡ used q ++ (e ∷ [])

-- Where a process stands: before `spin_lock_irqsave` with an element to send, in the loop on
-- `virtqueue_get_buf`, and behind `spin_unlock_irqrestore` with what it sent and what came back.
pub data Sender : Type 0 where
  outside : Sender
  sending waiting : Element → Sender
  received : (sent answer : Element) → Sender

pub record Machine (Q W : Type 0) : Type 0 where
  pub queue : Q
  pub host : W
  pub locked : Bool
  pub senders : List Sender

module _ {Q W : Type 0} (v : Virtqueue Q) (d : Cryptodev W) where
  pub data Turn (m : Machine Q W) : Machine Q W → Type 0 where
    prepare :
        (i : ℕ) (e : Element)
        → get_elem? m.senders i ≡ some outside
        → Turn m (record m { senders = set m.senders i (sending e) })
    return :
        (i : ℕ) (e answer : Element)
        → get_elem? m.senders i ≡ some (received e answer)
        → Turn m (record m { senders = set m.senders i outside })
    send :
        (i : ℕ) (e : Element) (q : Q)
        → get_elem? m.senders i ≡ some (sending e)
        → m.locked ≡ false
        → v.add e m.queue ≡ some q
        → Turn m (record m { queue = q; locked = true; senders = set m.senders i (waiting e) })
    -- `virtqueue_add_sgs` returns an error: nobody looks at it, and the loop is entered all the same.
    send_failing :
        (i : ℕ) (e : Element)
        → get_elem? m.senders i ≡ some (sending e)
        → m.locked ≡ false
        → v.add e m.queue ≡ none
        → Turn m (record m { locked = true; senders = set m.senders i (waiting e) })
    receive :
        (i : ℕ) (e answer : Element) (q : Q)
        → get_elem? m.senders i ≡ some (waiting e)
        → v.get_buf m.queue ≡ some (answer, q)
        → Turn m
            (record m { queue = q; locked = false; senders = set m.senders i (received e answer) })
    -- `vq_handle_output` in QEMU, which may run at any time.
    serve :
        (e answer : Element) (q : Q) (w : W)
        → v.pop m.queue ≡ some (e, q)
        → vq_handle_output d (some e) m.host ≡ some (some answer, w)
        → Turn m (record m { queue = v.push answer q; host = w })

  pub data Reach (m : Machine Q W) : Machine Q W → Type 0 where
    here : Reach m m
    next : {n p : Machine Q W} → Reach m n → Turn n p → Reach m p

module _ {W : Type 0} (d : Cryptodev W) where
  -- The host served these elements, the last first, each by one call of its handler.
  pub data Served (from : W) : List (Element × Element) → W → Type 0 where
    none_yet : Served from [] from
    then_served :
        {log : List (Element × Element)} {w w' : W} {e answer : Element}
        → Served from log w
        → vq_handle_output d (some e) w ≡ some (some answer, w')
        → Served from ((e, answer) ∷ log) w'

-- `n` processes, none of which uses the device.
abbrev pub resting : {Q W : Type 0} → Q → W → ℕ → Machine Q W
resting q w n = record { queue = q; host = w; locked = false; senders = replicate n outside }
