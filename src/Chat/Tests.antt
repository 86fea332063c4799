-- ===== src/Chat/Tests.antt =====
-- The theorems on Virtio_Crypto_Chat/encrypted_chat at a concrete system.
mod Machines
mod Serving
use operating_systems_lab_nt.Prelude.{
  ℕ, zero, suc, ◌+◌, ◌-◌, ◌≤◌, ◌<◌, ◌≡◌, ◌≢◌, ◌↔◌, refl, sym, ap, ◌∙◌, Bool, true, false,
  if◌then◌else◌, List, [], ◌∷◌, ◌++◌, Option, none, some, arith, ◌==◌, length, take, replicate,
  take-all,
}
use operating_systems_lab_nt.Chat.Block.{Chat, data_size, encrypt, decrypt, copy_line}
use operating_systems_lab_nt.Chat.Block.Copy.{IsText}
use operating_systems_lab_nt.Chat.Block.Overrun.{decrypt-overrun}
use operating_systems_lab_nt.Chat.Flow.{next, overrun}
use operating_systems_lab_nt.Chat.Flow.Ends.{Ends}
use operating_systems_lab_nt.Chat.Server.{peer_prefix, clear_conn_active, serve, serve_turn}
use operating_systems_lab_nt.Chat.Server.Closing.{serve_turn-closes}
use operating_systems_lab_nt.Chat.Session.{open_session, end_session}
use operating_systems_lab_nt.Chat.System.{
  System, Selected, interrupted, ready, Accepted, signalled, refused, accepted,
}
use operating_systems_lab_nt.Chat.Talk.{
  repeat, receive_turn, read_decrypt_write, send_turn, read_encrypt_write, after_select, talk_turn,
  talk,
}
use operating_systems_lab_nt.Chat.Talk.Exchange.{
  End, outs, sends, receives, read_decrypt_write-read_encrypt_write,
}
use operating_systems_lab_nt.Chat.Talk.Files.{Files}
use operating_systems_lab_nt.Chat.Talk.Send.{typed}
use operating_systems_lab_nt.Chat.Talk.Steps.{Cipher, Crypts, sent_block, shown_block}
use operating_systems_lab_nt.Chat.Write.{write_rest, insist_write}
use operating_systems_lab_nt.Chat.Write.Delivery.{Writes, Delivered, insist_write-Delivered}

-- What there is to read, what was written, how often something can be read, and two descriptors.
record Net : Type 0 where
  input : List ℕ
  output : List ℕ
  waiting : ℕ
  has_crypto : Bool
  has_peer : Bool

-- A cipher that adds one to each byte.
abbrev each : (ℕ → ℕ) → List ℕ → List ℕ
each f [] = []
each f (b ∷ block) = f b ∷ each f block

each-each : (block : List ℕ) → each (λ b. b - 1) (each (λ b. b + 1) block) ≡ block
each-each [] = refl
each-each (b ∷ block) = let e : b + 1 - 1 ≡ b = omega arith in rw (e, each-each block) refl

length-each : (f : ℕ → ℕ) (block : List ℕ) → length (each f block) ≡ length block
length-each f [] = refl
length-each f (b ∷ block) = ap suc (length-each f block)

abbrev shift : Cipher
shift = record {
  E = each (λ b. b + 1);
  D = each (λ b. b - 1);
  D-E = λ block h. each-each block;
  length-D = length-each (λ b. b - 1);
  length-E = length-each (λ b. b + 1);
}

abbrev found : ℕ → Net → Selected × Net
found zero w = (interrupted, w)
found (suc n) w = (ready true false, record w { waiting = n })

abbrev opening : Bool → Net → Option ℕ × Net
opening true w = (none, w)
opening false w = (some 7, record w { has_crypto = true })

abbrev accepting : Bool → Net → Accepted × Net
accepting true w = (refused, w)
accepting false w = (accepted 5, record w { has_peer = true })

abbrev closed : ℕ → Net → Net
closed n w =
    if n == 7
    then record w { has_crypto = false }
    else if n == 5
    then record w { has_peer = false }
    else w

abbrev is_open : ℕ → Net → Bool
is_open n w = if n == 7 then w.has_crypto else if n == 5 then w.has_peer else false

-- `write` takes all that it is given.
abbrev net : System Net
net = record {
  read = λ fd size w. (some w.input, w);
  write = λ fd buf w. (some (length buf), record w { output = w.output ++ buf });
  open_file = λ name w. opening w.has_crypto w;
  close = λ n w. (true, closed n w);
  select = λ sd w. found w.waiting w;
  ciocgsession = λ cfd cipher bytes w. (some 1, w);
  cioccrypt = λ cfd ses op src iv w.
      (some (if op == 0 then each (λ b. b + 1) src else each (λ b. b - 1) src), w);
  ciocfsession = λ cfd ses w. (true, w);
  socket = λ w. (some 3, w);
  gethostbyname = λ name w. none;
  connect = λ sd address port w. (true, w);
  shutdown = λ sd w. (true, w);
  bind = λ sd port w. (true, w);
  listen = λ sd backlog w. (true, w);
  accept = λ sd w. accepting w.has_peer w;
  inet_ntop = λ w. true;
  in_front = λ n w. 0;
}

-- Here `write` takes one byte of what it is given.
abbrev first_byte : List ℕ → Net → Option ℕ × Net
first_byte [] w = (some 0, w)
first_byte (b ∷ buf) w = (some 1, record w { output = w.output ++ (b ∷ []) })

abbrev slow : System Net
slow = record net { write = λ fd buf w. first_byte buf w }

net_progress :
    (buf : List ℕ) (n : ℕ) (w w' : Net)
    → 0 < length buf
    → net.write 0 buf w ≡ (some n, w')
    → (0 < n) × (n ≤ length buf) × (w'.output ≡ w.output ++ take n buf)
net_progress buf n w w' h e =
    let n_is : length buf ≡ n = cc in
    (
      rw (sym n_is) h,
      omega (arith, n_is),
      sym (ap (λ p. p.1.output) e)
          ∙ ap (◌++◌ w.output) (sym (take-all n buf (omega (arith, n_is)))),
    )

abbrev net_writes : Writes net
net_writes = record {
  out = λ fd w. w.output;
  progress = λ fd buf n w w' h e. net_progress buf n w w' h e;
}

slow_progress :
    (buf : List ℕ) (n : ℕ) (w w' : Net)
    → 0 < length buf
    → first_byte buf w ≡ (some n, w')
    → (0 < n) × (n ≤ length buf) × (w'.output ≡ w.output ++ take n buf)
slow_progress [] n w w' h e = absurd (omega arith)
slow_progress (b ∷ buf) n w w' h e =
    let n_is : 1 ≡ n = cc in rw (sym n_is) (omega arith, omega arith, sym (ap (λ p. p.1.output) e))

abbrev slow_writes : Writes slow
slow_writes = record {
  out = λ fd w. w.output;
  progress = λ fd buf n w w' h e. slow_progress buf n w w' h e;
}

abbrev quiet : Net
quiet = record { input = []; output = []; waiting = 0; has_crypto = false; has_peer = false }

insist_write-Delivered_example :
    Delivered slow slow_writes 1
      (b'h' ∷ b'i' ∷ b'!' ∷ [])
      quiet
      (insist_write slow 1 (b'h' ∷ b'i' ∷ b'!' ∷ []) quiet)
insist_write-Delivered_example =
    insist_write-Delivered slow slow_writes 1 (b'h' ∷ b'i' ∷ b'!' ∷ []) quiet

net-Crypts : Crypts net net_writes shift 7 1
net-Crypts = record {
  encrypts = λ src dst w w' h e. cc;
  decrypts = λ src dst w w' h e. cc;
  crypt_out = λ op src fd w. refl;
  read_out = λ rfd fd w. refl;
}

abbrev hi : List ℕ
hi = b'h' ∷ b'i' ∷ []

abbrev wire : List ℕ
wire = each (λ b. b + 1) (sent_block (typed hi))

abbrev talking : List ℕ → ℕ → Net → Chat Net
talking buf n w = record { conn_active = true; buf = buf; dec_buf_len = n; ses = 1; world = w }

abbrev client_end : End shift
client_end = record {
  W = Net;
  sys = net;
  writes = net_writes;
  handler = clear_conn_active net 3;
  turns = 0;
  from = 0;
  cfd = 7;
  to = 3;
  st = talking (replicate data_size 0) 1 (record quiet { input = typed hi });
  crypts = net-Crypts;
}

abbrev server_end : End shift
server_end = record {
  W = Net;
  sys = net;
  writes = net_writes;
  handler = clear_conn_active net 3;
  turns = 0;
  from = 5;
  cfd = 7;
  to = 1;
  st = talking (replicate data_size b'\r') 4 (record quiet { input = wire });
  crypts = net-Crypts;
}

abbrev after_sending : Chat Net
after_sending = talking wire 1 (record quiet { input = typed hi; output = wire })

hi_sent : sends client_end ≡ (next tt, after_sending)
unfolding read_encrypt_write repeat send_turn encrypt insist_write write_rest
hi_sent = refl

read_decrypt_write-read_encrypt_write_example :
    Ends
      (λ (u : Unit {0}) (st : Chat Net). outs server_end st ≡ shown_block (typed hi))
      (receives server_end)
read_decrypt_write-read_encrypt_write_example =
    read_decrypt_write-read_encrypt_write client_end server_end hi wire
      (record quiet { input = typed hi }) (record quiet { input = wire }) after_sending
      (omega arith, (omega arith, tt)) (omega arith) refl refl hi_sent refl refl refl

decrypt-overrun_example :
    ((decrypt net 7 (talking (replicate data_size b'B') 1 quiet)).0 ≡ overrun)
    ↔ IsText (replicate data_size b'A')
decrypt-overrun_example =
    decrypt-overrun net 7 (talking (replicate data_size b'B') 1 quiet) (replicate data_size b'A')
      quiet refl refl
