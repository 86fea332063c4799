-- ===== src/Crypto/Queue/Pending.antt =====
-- The processes of a guest that wait for an answer over the virtqueue
-- (Virtio_Crypto_Chat/virtio-cryptodev/guest/crypto-chrdev.c).
use operating_systems_lab_nt.Prelude.{
  ℕ, zero, suc, ◌≡◌, refl, sym, ap, ◌∙◌, List, [], ◌∷◌, ◌++◌, some, get_elem?, set, replicate,
}
use operating_systems_lab_nt.Crypto.Message.{Element}
use operating_systems_lab_nt.Crypto.Queue.{Sender, outside, sending, waiting, received}

-- The element for which a process waits.
abbrev pub wants : Sender → List Element
wants (waiting e) = e ∷ []
wants _ = []

abbrev pub pending : List Sender → List Element
pending [] = []
pending (s ∷ l) = wants s ++ pending l

pub pending-replicate : (n : ℕ) → pending (replicate n outside) ≡ []
pending-replicate zero = refl
pending-replicate (suc n) = pending-replicate n

both_nil : (a b : List Element) → a ++ b ≡ [] → (a ≡ []) × (b ≡ [])
both_nil [] b h = (refl, h)
both_nil (e ∷ a) b h = cc

wants_at : (x s : Sender) → some x ≡ some s → wants x ≡ wants s
wants_at x s h = let same : x ≡ s = cc in ap wants same

-- A process that does not wait, before and after.
pub pending_same :
    (l : List Sender) (i : ℕ) (s s' : Sender)
    → get_elem? l i ≡ some s
    → wants s ≡ []
    → wants s' ≡ []
    → pending (set l i s') ≡ pending l
pending_same [] i s s' at a b = refl
pending_same (x ∷ l) zero s s' at a b = rw (b, wants_at x s at, a) refl
pending_same (x ∷ l) (suc i) s s' at a b = ap (λ p. wants x ++ p) (pending_same l i s s' at a b)

-- The first that waits.
pub pending_first :
    (l : List Sender) (i : ℕ) (s s' : Sender) (e : Element)
    → get_elem? l i ≡ some s
    → pending l ≡ []
    → wants s' ≡ e ∷ []
    → pending (set l i s') ≡ e ∷ []
pending_first [] i s s' e at h b = cc
pending_first (x ∷ l) zero s s' e at h b = rw (b, (both_nil (wants x) (pending l) h).1) refl
pending_first (x ∷ l) (suc i) s s' e at h b =
    let (here_none, later_none) = both_nil (wants x) (pending l) h in
    rw (here_none, pending_first l i s s' e at later_none b) refl

pub pending-some :
    (l : List Sender) (i : ℕ) (s : Sender) (e : Element)
    → get_elem? l i ≡ some s
    → wants s ≡ e ∷ []
    → pending l ≡ []
    → ⊥
pending-some [] i s e at a h = cc
pending-some (x ∷ l) zero s e at a h =
    let (here_none, _) = both_nil (wants x) (pending l) h in
    let it : wants x ≡ e ∷ [] = wants_at x s at ∙ a in cc
pending-some (x ∷ l) (suc i) s e at a h =
    pending-some l i s e at a (both_nil (wants x) (pending l) h).1

-- The one that waits.
pub pending_only :
    (l : List Sender) (i : ℕ) (e first : Element)
    → get_elem? l i ≡ some (waiting e)
    → pending l ≡ first ∷ []
    → (e ≡ first) × ((s' : Sender) → wants s' ≡ [] → pending (set l i s') ≡ [])
pending_only [] i e first at h = cc
pending_only (x ∷ l) zero e first at h =
    let it : e ∷ pending l ≡ first ∷ [] =
      ap (λ w. w ++ pending l) (sym (wants_at x (waiting e) at)) ∙ h in
    let rest : pending l ≡ [] = cc in (cc, λ s' b. rw (b, rest) refl)
pending_only (waiting other ∷ l) (suc i) e first at h =
    let rest : pending l ≡ [] = cc in absurd (pending-some l i (waiting e) e at refl rest)
pending_only (outside ∷ l) (suc i) e first at h = pending_only l i e first at h
pending_only (sending other ∷ l) (suc i) e first at h = pending_only l i e first at h
pending_only (received sent answer ∷ l) (suc i) e first at h = pending_only l i e first at h
