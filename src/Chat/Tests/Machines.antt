-- ===== src/Chat/Tests/Machines.antt =====
-- A line between two virtual machines at concrete inputs.
use operating_systems_lab_nt.Prelude.{
  ℕ, suc, ◌+◌, ◌-◌, refl, true, List, ◌==◌, if◌then◌else◌, replicate,
}
use operating_systems_lab_nt.Chat.Block.{Chat, data_size}
use operating_systems_lab_nt.Chat.Flow.Ends.{Ends}
use operating_systems_lab_nt.Chat.Guest.Guests.{Ciphers, Serves, GuestEnd}
use operating_systems_lab_nt.Chat.Server.{clear_conn_active}
use operating_systems_lab_nt.Chat.Guest.{through}
use operating_systems_lab_nt.Chat.Talk.Send.{typed}
use operating_systems_lab_nt.Chat.Tests.{Net, each, shift, net, net_writes, quiet, hi, wire}
use operating_systems_lab_nt.Crypto.Host.{Cryptodev}

-- A host whose cipher adds one to each byte, and which counts the blocks.
abbrev adding : Cryptodev ℕ
adding = record {
  open_file = λ v. (3, v);
  close_file = λ fd v. v;
  get_session = λ fd sess key v. (0, record sess { ses = 1 }, v);
  free_session = λ fd ses v. (0, v);
  crypt = λ fd op src iv dst v.
      (0, (if op.op == 0 then each (λ b. b + 1) src else each (λ b. b - 1) src), suc v);
}

adding-Ciphers : Ciphers adding shift 3 1
adding-Ciphers = record {
  host_encrypts = λ op src dst v session is_op size zero. rw is_op refl;
  host_decrypts = λ op src dst v session is_op size zero. rw is_op refl;
}

adding-Serves : Serves adding 3 1
adding-Serves = record {
  encrypts_returns = λ op src dst v session is_op size. refl;
  decrypts_returns = λ op src dst v session is_op size. refl;
}

abbrev machine : List ℕ → List ℕ → ℕ → ℕ → GuestEnd shift
machine input buf from to = record {
  W = Net;
  V = ℕ;
  sys = net;
  writes = net_writes;
  reads = λ rfd wfd w. refl;
  d = adding;
  fd = 3;
  handler = clear_conn_active (through net adding 3) 3;
  turns = 0;
  from = from;
  cfd = 7;
  to = to;
  st = record {
    conn_active = true;
    buf = buf;
    dec_buf_len = 1;
    ses = 1;
    world = (record quiet { input = input }, 0);
  };
  host = adding-Ciphers;
  serves = adding-Serves;
}

abbrev client_machine : GuestEnd shift
client_machine = machine (typed hi) (replicate data_size 0) 0 3

abbrev server_machine : GuestEnd shift
server_machine = machine wire (replicate data_size b'\r') 5 1

abbrev sent_state : Chat (Net × ℕ)
sent_state = record {
  conn_active = true;
  buf = wire;
  dec_buf_len = 1;
  ses = 1;
  world = (record quiet { input = typed hi; output = wire }, 1);
}
