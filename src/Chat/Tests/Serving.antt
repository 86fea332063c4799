-- ===== src/Chat/Tests/Serving.antt =====
-- A connection to the server of Virtio_Crypto_Chat/encrypted_chat at concrete inputs.
use operating_systems_lab_nt.Prelude.{
  ℕ, zero, suc, ◌≡◌, ◌≢◌, refl, sym, ap, Bool, true, false, ◌++◌, none, some, arith, replicate,
}
use operating_systems_lab_nt.Chat.Block.{Chat, data_size, decrypt, copy_line}
use operating_systems_lab_nt.Chat.Flow.{next}
use operating_systems_lab_nt.Chat.Server.{peer_prefix, clear_conn_active, serve, serve_turn}
use operating_systems_lab_nt.Chat.Server.Closing.{serve_turn-closes}
use operating_systems_lab_nt.Chat.Session.{open_session, end_session}
use operating_systems_lab_nt.Chat.System.{signalled, accepted}
use operating_systems_lab_nt.Chat.Talk.{
  repeat, receive_turn, read_decrypt_write, after_select, talk_turn, talk,
}
use operating_systems_lab_nt.Chat.Talk.Files.{Files}
use operating_systems_lab_nt.Chat.Talk.Send.{typed}
use operating_systems_lab_nt.Chat.Talk.Steps.{shown_block}
use operating_systems_lab_nt.Chat.Write.{write_rest, insist_write}
use operating_systems_lab_nt.Chat.Tests.{
  Net, net, is_open, opening, accepting, closed, found, quiet, hi, wire,
}

closed-frees :
    (n : ℕ) (w : Net)
    → (is_open n (closed n w) ≡ false)
      × ((fd : ℕ) → fd ≢ n → is_open fd (closed n w) ≡ is_open fd w)
closed-frees n w = (ground arith, λ fd other. ground (arith, other))

opening-Beside :
    (b : Bool) (n : ℕ) (w w' : Net)
    → w.has_crypto ≡ b
    → opening b w ≡ (some n, w')
    → (is_open n w ≡ false) × ((fd : ℕ) → fd ≢ n → is_open fd w' ≡ is_open fd w)
opening-Beside true n w w' h e = cc
opening-Beside false n w w' h e =
    let n_is : 7 ≡ n = cc in
    let same : record w { has_crypto = true } ≡ w' = ap (λ p. p.1) e in
    rw (sym n_is, sym same) (h, λ fd other. ground (arith, other))

accepting-Beside :
    (b : Bool) (n : ℕ) (w w' : Net)
    → w.has_peer ≡ b
    → accepting b w ≡ (accepted n, w')
    → (is_open n w ≡ false) × ((fd : ℕ) → fd ≢ n → is_open fd w' ≡ is_open fd w)
accepting-Beside true n w w' h e = cc
accepting-Beside false n w w' h e =
    let n_is : 5 ≡ n = cc in
    let same : record w { has_peer = true } ≡ w' = ap (λ p. p.1) e in
    rw (sym n_is, sym same) (h, λ fd other. ground (arith, other))

found-keeps : (n fd : ℕ) (w : Net) → is_open fd (found n w).1 ≡ is_open fd w
found-keeps zero fd w = refl
found-keeps (suc n) fd w = refl

accepting-keeps :
    (b : Bool) (fd : ℕ) (w w' : Net)
    → accepting b w ≡ (signalled, w')
    → is_open fd w' ≡ is_open fd w
accepting-keeps true fd w w' e = cc
accepting-keeps false fd w w' e = cc

net_files : Files net
net_files = record {
  opened = is_open;
  after_read = λ rfd size fd w. refl;
  after_write = λ wfd buf fd w. refl;
  after_select = λ sd fd w. found-keeps w.waiting fd w;
  after_crypt = λ cfd ses op src iv fd w. refl;
  after_gsession = λ cfd cipher bytes fd w. refl;
  after_fsession = λ cfd ses fd w. refl;
  after_open = λ name n w w' e. opening-Beside w.has_crypto n w w' refl e;
  after_accept = λ sd n w w' e. accepting-Beside w.has_peer n w w' refl e;
  after_signal = λ sd fd w w' e. accepting-keeps w.has_peer fd w w' e;
  after_close = λ n w. closed-frees n w;
}

-- A peer sends a line, and a signal ends the connection.
abbrev before_serving : Chat Net
before_serving = record {
  conn_active = false;
  buf = replicate data_size 0;
  dec_buf_len = 1;
  ses = 0;
  world = record quiet { input = wire; waiting = 1 };
}

abbrev after_serving : Chat Net
after_serving = record {
  conn_active = false;
  buf = shown_block (typed hi);
  dec_buf_len = 3;
  ses = 1;
  world = record quiet { input = wire; output = peer_prefix ++ shown_block (typed hi) };
}

served : serve_turn net 2 3 none before_serving ≡ (next false, after_serving)
unfolding serve_turn serve clear_conn_active open_session end_session talk talk_turn after_select
    read_decrypt_write receive_turn decrypt copy_line insist_write write_rest repeat
served = refl

serve_turn-closes_example :
    net_files.opened 7 after_serving.world ≡ net_files.opened 7 before_serving.world
serve_turn-closes_example =
    serve_turn-closes net net_files 2 3 none before_serving after_serving false served 7
