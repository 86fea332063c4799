-- ===== src/Crypto/Queue/Answer.antt =====
-- How the loop on `virtqueue_get_buf` (Virtio_Crypto_Chat/virtio-cryptodev/guest/crypto-chrdev.c)
-- comes to its end.
use operating_systems_lab_nt.Prelude.{
  ℕ, zero, suc, ◌≡◌, ◌≢◌, ◌⊎◌, inl, inr, refl, sym, ap, ◌∙◌, false, List, [], ◌∷◌, ◌++◌, some,
  get_elem?, set,
}
use operating_systems_lab_nt.Crypto.Host.{Cryptodev, vq_handle_output}
use operating_systems_lab_nt.Crypto.Message.{Element}
use operating_systems_lab_nt.Crypto.Queue.{
  Virtqueue, Ordered, Sender, waiting, received, Machine, receive, serve, Reach, here, next,
  resting,
}
use operating_systems_lab_nt.Crypto.Queue.Atomic.{
  Phase, free, asked, answered, refused, resting-Kept,
}
use operating_systems_lab_nt.Crypto.Queue.Pending.{pending-some, pending_only}

pub set_self :
    (l : List Sender) (i : ℕ) (s s' : Sender)
    → get_elem? l i ≡ some s
    → get_elem? (set l i s') i ≡ some s'
set_self [] i s s' at = cc
set_self (x ∷ l) zero s s' at = refl
set_self (x ∷ l) (suc i) s s' at = set_self l i s s' at

module _ {Q W : Type 0} (v : Virtqueue Q) (d : Cryptodev W) (o : Ordered v) where
  -- The process comes behind its loop.
  abbrev pub Comes : Machine Q W → ℕ → Element → Type 0
  Comes m i e =
      (n : Machine Q W) × (answer : Element) × Reach v d m n
      × (get_elem? n.senders i ≡ some (received e answer))

  -- An element is in the virtqueue, or an answer.
  abbrev pub IsThere : Machine Q W → Type 0
  IsThere m = (o.available m.queue ≢ []) ⊎ (o.used m.queue ≢ [])

  receiving :
      (m n : Machine Q W) (i : ℕ) (e answer : Element)
      → Reach v d m n
      → get_elem? n.senders i ≡ some (waiting e)
      → (rest : List Element) → o.used n.queue ≡ answer ∷ rest
      → Comes m i e
  receiving m n i e answer r at rest u =
      let (q, found) = o.get_buf-used answer rest n.queue u in
      (
        record n { queue = q; locked = false; senders = set n.senders i (received e answer) },
        answer,
        next r (receive i e answer q at found),
        set_self n.senders i (waiting e) (received e answer) at,
      )

  coming :
      (m : Machine Q W) (log : List (Element × Element)) (i : ℕ) (e answer : Element) (w : W)
      → get_elem? m.senders i ≡ some (waiting e)
      → vq_handle_output d (some e) m.host ≡ some (some answer, w)
      → IsThere m
      → Phase v d o m log
      → Comes m i e
  coming m log i e answer w at h there (free k p a u) =
      absurd (pending-some m.senders i (waiting e) e at refl p)
  coming m log i e answer w at h (inl there) (refused x k p a u) = absurd (there a)
  coming m log i e answer w at h (inr there) (refused x k p a u) = absurd (there u)
  coming m log i e answer w at h there (answered x y k p a u n) = receiving m m i e y here at [] u
  coming m log i e answer w at h there (asked x k p a u) =
      let (same, _) = pending_only m.senders i e x at p in
      let (q, popped) = o.pop-available e [] m.queue (a ∙ ap (λ y. y ∷ []) (sym same)) in
      receiving m (record m { queue = v.push answer q; host = w }) i e answer
        (next here (serve e answer q w popped h)) at []
        (o.used-push answer q ∙ ap (λ l. l ++ (answer ∷ [])) (o.used-pop e m.queue q popped ∙ u))

  -- Over a virtqueue that keeps its elements in order, finds them, and is empty at first, a process
  -- in the loop on virtqueue_get_buf can come behind it, whatever the other processes are doing,
  -- where an element or an answer is in the virtqueue, and where the host's handler takes the
  -- process's element without a fault.
  pub waiting-Comes :
      (q : Q) (from : W) (n : ℕ) (m : Machine Q W) (i : ℕ) (e answer : Element) (w : W)
      → o.available q ≡ []
      → o.used q ≡ []
      → Reach v d (resting q from n) m
      → get_elem? m.senders i ≡ some (waiting e)
      → IsThere m
      → vq_handle_output d (some e) m.host ≡ some (some answer, w)
      → Comes m i e
  waiting-Comes q from n m i e answer w a u r at there h =
      let k = resting-Kept v d o q from n m a u r in coming m k.log i e answer w at h there k.phase
