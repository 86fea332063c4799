-- ===== src/Crypto/Tests/Sharing.antt =====
-- Two processes of a guest on one device of Virtio_Crypto_Chat/virtio-cryptodev, at concrete inputs.
use operating_systems_lab_nt.Prelude.{
  ℕ, ◌-◌, ◌^◌, ◌≡◌, refl, sym, ap, true, false, List, [], ◌∷◌, ◌++◌, Bool, inl, Option, none, some,
  All,
}
use operating_systems_lab_nt.Crypto.Host.{handle, vq_handle_output}
use operating_systems_lab_nt.Crypto.Message.{Element, word, syscall_open}
use operating_systems_lab_nt.Crypto.Queue.{
  Virtqueue, Ordered, Sender, sending, waiting, received, Machine, prepare, send, receive, serve,
  Reach, here, next, Served, resting,
}
use operating_systems_lab_nt.Crypto.Queue.Answer.{Comes, waiting-Comes}
use operating_systems_lab_nt.Crypto.Queue.Atomic.{IsServed, Reach-Served}
use operating_systems_lab_nt.Crypto.Queue.Stuck.{Stuck}
use operating_systems_lab_nt.Crypto.Tests.Passes.{adder}

-- Two lists, that have room or refuse all: what is available to the host, and what it has used.
abbrev Lists : Type 0
Lists = List Element × List Element

abbrev first_of : List Element → (List Element → Lists) → Option (Element × Lists)
first_of [] f = none
first_of (e ∷ l) f = some (e, f l)

abbrev if_room : Bool → Lists → Option Lists
if_room true q = some q
if_room false q = none

abbrev lists : Bool → Virtqueue Lists
lists room = record {
  add = λ e q. if_room room (q.0 ++ (e ∷ []), q.1);
  get_buf = λ q. first_of q.1 (λ l. (q.0, l));
  pop = λ q. first_of q.0 (λ l. (l, q.1));
  push = λ e q. (q.0, q.1 ++ (e ∷ []));
}

first_of-some :
    (l : List Element) (f : List Element → Lists) (e : Element) (q : Lists)
    → first_of l f ≡ some (e, q)
    → (rest : List Element) × (l ≡ e ∷ rest) × (q ≡ f rest)
first_of-some [] f e q h = cc
first_of-some (x ∷ l) f e q h =
    let both : (x, f l) ≡ (e, q) = cc in
    (l, ap (λ (p : Element × Lists). p.0 ∷ l) both, sym (ap (λ (p : Element × Lists). p.1) both))

if_room-some : (room : Bool) (q q' : Lists) → if_room room q ≡ some q' → q' ≡ q
if_room-some true q q' h = cc
if_room-some false q q' h = cc

lists-Ordered : (room : Bool) → Ordered (lists room)
lists-Ordered room = record {
  available = λ q. q.0;
  used = λ q. q.1;
  available-add = λ e q q' h. ap (λ p. p.0) (if_room-some room (q.0 ++ (e ∷ []), q.1) q' h);
  used-add = λ e q q' h. ap (λ p. p.1) (if_room-some room (q.0 ++ (e ∷ []), q.1) q' h);
  available-get_buf = λ e q q' h. let (l, _, is) = first_of-some q.1 _ e q' h in rw is refl;
  used-get_buf = λ e q q' h. let (l, was, is) = first_of-some q.1 _ e q' h in rw is was;
  available-pop = λ e q q' h. let (l, was, is) = first_of-some q.0 _ e q' h in rw is was;
  used-pop = λ e q q' h. let (l, _, is) = first_of-some q.0 _ e q' h in rw is refl;
  pop-available = λ e rest q h. ((rest, q.1), rw h refl);
  get_buf-used = λ e rest q h. ((q.0, rest), rw h refl);
  available-push = λ e q. refl;
  used-push = λ e q. refl;
}

-- An open, and the answer with the host's descriptor.
abbrev asks : Element
asks = record { out_sg = word syscall_open ∷ []; in_sg = word (2 ^ 32 - 1) ∷ [] }

abbrev told : Element
told = record { out_sg = word syscall_open ∷ []; in_sg = word 3 ∷ [] }

abbrev machine : Lists → Bool → List Sender → Machine Lists ℕ
machine q locked l = record { queue = q; host = 0; locked = locked; senders = l }

opens : vq_handle_output adder (some asks) 0 ≡ some (some told, 0)
unfolding vq_handle_output handle
opens = refl

abbrev start : Machine Lists ℕ
start = resting ([], []) 0 2

both_ready :
    Reach (lists true) adder start (machine ([], []) false (sending asks ∷ sending asks ∷ []))
both_ready = next (next here (prepare 0 asks refl)) (prepare 1 asks refl)

first_sends :
    Reach (lists true) adder start (machine (asks ∷ [], []) true (waiting asks ∷ sending asks ∷ []))
first_sends = next both_ready (send 0 asks (asks ∷ [], []) refl refl refl)

host_serves :
    Reach (lists true) adder start (machine ([], told ∷ []) true (waiting asks ∷ sending asks ∷ []))
host_serves = next first_sends (serve asks told ([], []) 0 refl opens)

first_receives :
    Reach (lists true) adder start (machine ([], []) false (received asks told ∷ sending asks ∷ []))
first_receives = next host_serves (receive 0 asks told ([], []) refl refl)

Reach-Served_example :
    (log : List (Element × Element)) × Served adder 0 log 0
    × All (IsServed log) (received asks told ∷ sending asks ∷ [])
unfolding lists-Ordered
Reach-Served_example =
    Reach-Served (lists true) adder (lists-Ordered true) ([], []) 0 2
      (machine ([], []) false (received asks told ∷ sending asks ∷ [])) refl refl first_receives

waiting-Comes_example :
    Comes
      (lists true)
      adder
      (lists-Ordered true)
      (machine (asks ∷ [], []) true (waiting asks ∷ sending asks ∷ []))
      0
      asks
unfolding lists-Ordered
waiting-Comes_example =
    waiting-Comes (lists true) adder (lists-Ordered true) ([], []) 0 2
      (machine (asks ∷ [], []) true (waiting asks ∷ sending asks ∷ [])) 0 asks told 0 refl refl
      first_sends refl (inl (λ h. cc)) opens
