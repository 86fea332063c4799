-- ===== src/Crypto/Queue/Atomic.antt =====
-- The spinlock makes a call over the virtqueue one call of the host's handler
-- (Virtio_Crypto_Chat/virtio-cryptodev/guest/crypto-chrdev.c).
use operating_systems_lab_nt.Prelude.{
  ℕ, suc, ◌≡◌, refl, sym, ap, ◌∙◌, true, false, List, [], ◌∷◌, ◌++◌, some, get_elem?, set, All,
  All-set, All-replicate,
}
use operating_systems_lab_nt.Crypto.Host.{Cryptodev}
use operating_systems_lab_nt.Crypto.Message.{Element}
use operating_systems_lab_nt.Crypto.Queue.{
  Virtqueue, Ordered, Sender, outside, sending, waiting, received, Machine, Turn, prepare, return,
  send, send_failing, receive, serve, Reach, here, next, Served, none_yet, then_served, resting,
}
use operating_systems_lab_nt.Crypto.Queue.Pending.{
  pending, pending-replicate, pending_same, pending_first, pending_only,
}

-- The log has an exchange.
abbrev pub In : Element × Element → List (Element × Element) → Type 0
In x log = (n : ℕ) × (get_elem? log n ≡ some x)

-- What a process has received was served.
abbrev pub IsServed : List (Element × Element) → Sender → Type 0
IsServed log (received e answer) = In (e, answer) log
IsServed log _ = Unit {0}

IsServed-later :
    (log : List (Element × Element)) (x : Element × Element) (s : Sender)
    → IsServed log s
    → IsServed (x ∷ log) s
IsServed-later log x (received e answer) h = (suc h.0, h.1)
IsServed-later log x _ h = tt

all_later :
    (log : List (Element × Element)) (x : Element × Element) (l : List Sender)
    → All (IsServed log) l
    → All (IsServed (x ∷ log)) l
all_later log x [] h = tt
all_later log x (s ∷ l) h = (IsServed-later log x s h.0, all_later log x l h.1)

module _ {Q W : Type 0} (v : Virtqueue Q) (d : Cryptodev W) (o : Ordered v) where
  -- The lock is free and the queue empty; or a process waits, and its element is in the queue, or
  -- the answer to it, or nothing is, since the element could not be added.
  pub data Phase (m : Machine Q W) (log : List (Element × Element)) : Type 0 where
    free :
        m.locked ≡ false
        → pending m.senders ≡ []
        → o.available m.queue ≡ []
        → o.used m.queue ≡ []
        → Phase m log
    asked :
        (e : Element)
        → m.locked ≡ true
        → pending m.senders ≡ e ∷ []
        → o.available m.queue ≡ e ∷ []
        → o.used m.queue ≡ []
        → Phase m log
    answered :
        (e answer : Element)
        → m.locked ≡ true
        → pending m.senders ≡ e ∷ []
        → o.available m.queue ≡ []
        → o.used m.queue ≡ answer ∷ []
        → In (e, answer) log
        → Phase m log
    refused :
        (e : Element)
        → m.locked ≡ true
        → pending m.senders ≡ e ∷ []
        → o.available m.queue ≡ []
        → o.used m.queue ≡ []
        → Phase m log

  pub record Kept (from : W) (m : Machine Q W) : Type 0 where
    pub log : List (Element × Element)
    pub served : Served d from log m.host
    pub phase : Phase m log
    pub done : All (IsServed log) m.senders

  moved :
      (m : Machine Q W) (log : List (Element × Element)) (l : List Sender)
      → pending l ≡ pending m.senders
      → Phase m log
      → Phase (record m { senders = l }) log
  moved m log l e (free k p a u) = free k (e ∙ p) a u
  moved m log l e (asked x k p a u) = asked x k (e ∙ p) a u
  moved m log l e (answered x y k p a u i) = answered x y k (e ∙ p) a u i
  moved m log l e (refused x k p a u) = refused x k (e ∙ p) a u

  module _ (m : Machine Q W) (log : List (Element × Element)) where
    sent :
        (i : ℕ) (e : Element) (q : Q)
        → get_elem? m.senders i ≡ some (sending e)
        → m.locked ≡ false
        → v.add e m.queue ≡ some q
        → Phase m log
        → Phase (record m { queue = q; locked = true; senders = set m.senders i (waiting e) }) log
    sent i e q at k h (free k' p a u) =
        asked e refl (pending_first m.senders i (sending e) (waiting e) e at p refl)
          (o.available-add e m.queue q h ∙ ap (λ l. l ++ (e ∷ [])) a) (o.used-add e m.queue q h ∙ u)
    sent i e q at k h (asked x k' p a u) = cc
    sent i e q at k h (answered x y k' p a u n) = cc
    sent i e q at k h (refused x k' p a u) = cc

    not_sent :
        (i : ℕ) (e : Element)
        → get_elem? m.senders i ≡ some (sending e)
        → m.locked ≡ false
        → Phase m log
        → Phase (record m { locked = true; senders = set m.senders i (waiting e) }) log
    not_sent i e at k (free k' p a u) =
        refused e refl (pending_first m.senders i (sending e) (waiting e) e at p refl) a u
    not_sent i e at k (asked x k' p a u) = cc
    not_sent i e at k (answered x y k' p a u n) = cc
    not_sent i e at k (refused x k' p a u) = cc

    got :
        (i : ℕ) (e answer : Element) (q : Q)
        → get_elem? m.senders i ≡ some (waiting e)
        → v.get_buf m.queue ≡ some (answer, q)
        → Phase m log
        → In (e, answer) log
          × Phase
              (record m {
                queue = q;
                locked = false;
                senders = set m.senders i (received e answer);
              })
              log
    got i e answer q at h (free k p a u) =
        let none_used : [] ≡ answer ∷ o.used q = sym u ∙ o.used-get_buf answer m.queue q h in cc
    got i e answer q at h (asked x k p a u) =
        let none_used : [] ≡ answer ∷ o.used q = sym u ∙ o.used-get_buf answer m.queue q h in cc
    got i e answer q at h (refused x k p a u) =
        let none_used : [] ≡ answer ∷ o.used q = sym u ∙ o.used-get_buf answer m.queue q h in cc
    got i e answer q at h (answered x y k p a u n) =
        let one : y ∷ [] ≡ answer ∷ o.used q = sym u ∙ o.used-get_buf answer m.queue q h in
        let rest : o.used q ≡ [] = cc in
        let same_answer : y ≡ answer = cc in
        let (same, leaves) = pending_only m.senders i e x at p in
        (
          rw (same, sym same_answer) n,
          free refl (leaves (received e answer) refl) (o.available-get_buf answer m.queue q h ∙ a)
              rest,
        )

    handled :
        (e answer : Element) (q : Q) (w : W)
        → v.pop m.queue ≡ some (e, q)
        → Phase m log
        → Phase (record m { queue = v.push answer q; host = w }) ((e, answer) ∷ log)
    handled e answer q w h (free k p a u) =
        let none_there : [] ≡ e ∷ o.available q = sym a ∙ o.available-pop e m.queue q h in cc
    handled e answer q w h (refused x k p a u) =
        let none_there : [] ≡ e ∷ o.available q = sym a ∙ o.available-pop e m.queue q h in cc
    handled e answer q w h (answered x y k p a u n) =
        let none_there : [] ≡ e ∷ o.available q = sym a ∙ o.available-pop e m.queue q h in cc
    handled e answer q w h (asked x k p a u) =
        let one : x ∷ [] ≡ e ∷ o.available q = sym a ∙ o.available-pop e m.queue q h in
        let rest : o.available q ≡ [] = cc in
        let same : x ≡ e = cc in
        answered e answer k (p ∙ ap (λ y. y ∷ []) same) (o.available-push answer q ∙ rest)
          (o.used-push answer q ∙ ap (λ l. l ++ (answer ∷ [])) (o.used-pop e m.queue q h ∙ u))
          (0, refl)

  Kept-Turn : (from : W) (m n : Machine Q W) → Kept from m → Turn v d m n → Kept from n
  Kept-Turn from m n k (prepare i e at) = record {
    log = k.log;
    served = k.served;
    phase = moved m k.log _ (pending_same m.senders i outside (sending e) at refl refl) k.phase;
    done = All-set (IsServed k.log) m.senders i (sending e) k.done tt;
  }
  Kept-Turn from m n k (return i e answer at) = record {
    log = k.log;
    served = k.served;
    phase =
        moved m k.log _ (pending_same m.senders i (received e answer) outside at refl refl) k.phase;
    done = All-set (IsServed k.log) m.senders i outside k.done tt;
  }
  Kept-Turn from m n k (send i e q at unlocked added) = record {
    log = k.log;
    served = k.served;
    phase = sent m k.log i e q at unlocked added k.phase;
    done = All-set (IsServed k.log) m.senders i (waiting e) k.done tt;
  }
  Kept-Turn from m n k (send_failing i e at unlocked failed) = record {
    log = k.log;
    served = k.served;
    phase = not_sent m k.log i e at unlocked k.phase;
    done = All-set (IsServed k.log) m.senders i (waiting e) k.done tt;
  }
  Kept-Turn from m n k (receive i e answer q at found) =
      let (logged, phase) = got m k.log i e answer q at found k.phase in
      record {
        log = k.log;
        served = k.served;
        phase = phase;
        done = All-set (IsServed k.log) m.senders i (received e answer) k.done logged;
      }
  Kept-Turn from m n k (serve e answer q w popped handled_it) = record {
    log = (e, answer) ∷ k.log;
    served = then_served k.served handled_it;
    phase = handled m k.log e answer q w popped k.phase;
    done = all_later k.log (e, answer) m.senders k.done;
  }

  Kept-Reach : (from : W) (m n : Machine Q W) → Kept from m → Reach v d m n → Kept from n
  Kept-Reach from m n k here = k
  Kept-Reach from m n k (next {n = middle} r t) =
      Kept-Turn from middle n (Kept-Reach from m middle k r) t

  pub resting-Kept :
      (q : Q) (from : W) (n : ℕ) (m : Machine Q W)
      → o.available q ≡ []
      → o.used q ≡ []
      → Reach v d (resting q from n) m
      → Kept from m
  resting-Kept q from n m a u r =
      Kept-Reach from (resting q from n) m
        (record {
          log = [];
          served = none_yet;
          phase = free refl (pending-replicate n) a u;
          done = All-replicate (IsServed []) n outside tt;
        })
        r

  -- Over a virtqueue that keeps its elements in order and is empty at first, however the processes
  -- of a guest and the host's handler take turns on one device, and whichever elements the
  -- virtqueue refuses: the host's state is what its handler makes, one element after the other, and
  -- every process that has received an answer has received what one call of the handler made of the
  -- element that it has sent. The spinlock makes a call over the virtqueue one call of the handler.
  pub Reach-Served :
      (q : Q) (from : W) (n : ℕ) (m : Machine Q W)
      → o.available q ≡ []
      → o.used q ≡ []
      → Reach v d (resting q from n) m
      → (log : List (Element × Element)) × Served d from log m.host × All (IsServed log) m.senders
  Reach-Served q from n m a u r = let k = resting-Kept q from n m a u r in (k.log, k.served, k.done)
