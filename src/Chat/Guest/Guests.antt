-- ===== src/Chat/Guest/Guests.antt =====
-- A line from a virtual machine to another, each with a device of
-- Virtio_Crypto_Chat/virtio-cryptodev.
use operating_systems_lab_nt.Prelude.{
  ℕ, ◌≡◌, refl, sym, ap, ◌∙◌, List, append-nil, Option, none, some, arith, length, replicate, take,
  take-all,
}
use operating_systems_lab_nt.Chat.Block.{Chat, data_size, key, cop_encrypt, cop_decrypt}
use operating_systems_lab_nt.Chat.Flow.{Step}
use operating_systems_lab_nt.Chat.Flow.Ends.{Ends}
use operating_systems_lab_nt.Chat.Guest.{filled_crypt, dst_of, returned, through}
use operating_systems_lab_nt.Chat.System.{System}
use operating_systems_lab_nt.Chat.Talk.Exchange.{End}
use operating_systems_lab_nt.Chat.Talk.Steps.{Cipher, Crypts}
use operating_systems_lab_nt.Chat.Write.Delivery.{Writes}
use operating_systems_lab_nt.Lunix.Kernel.{Ret}
use operating_systems_lab_nt.Crypto.Guest.{Done, Request, do_crypt, block_size}
use operating_systems_lab_nt.Crypto.Host.{Cryptodev}
use operating_systems_lab_nt.Crypto.Message.{CryptOp, out_buffer, in_buffer}
use operating_systems_lab_nt.Crypto.Through.{direct, take-Shows, crypto_ioctl-direct}

-- What is documented of a session on the host, for ioctls that return 0: it encrypts and decrypts
-- blocks by its cipher. An ioctl that fails is free to do anything.
pub record Ciphers {V : Type 0} (d : Cryptodev V) (c : Cipher) (fd ses : ℕ) : Type 0 where
  pub host_encrypts :
      (op : CryptOp) (src dst : List ℕ) (v : V)
      → op.ses ≡ ses
      → op.op ≡ cop_encrypt
      → length src ≡ data_size
      → (d.crypt fd op src key dst v).0 ≡ 0
      → (d.crypt fd op src key dst v).1 ≡ c.E src
  pub host_decrypts :
      (op : CryptOp) (src dst : List ℕ) (v : V)
      → op.ses ≡ ses
      → op.op ≡ cop_decrypt
      → length src ≡ data_size
      → (d.crypt fd op src key dst v).0 ≡ 0
      → (d.crypt fd op src key dst v).1 ≡ c.D src

-- A host whose ioctls on a session return 0 for every block. The guest's driver does not look at
-- what they return: where one fails, the guest's ioctl still returns 0.
pub record Serves {V : Type 0} (d : Cryptodev V) (fd ses : ℕ) : Type 0 where
  pub encrypts_returns :
      (op : CryptOp) (src dst : List ℕ) (v : V)
      → op.ses ≡ ses
      → op.op ≡ cop_encrypt
      → length src ≡ data_size
      → (d.crypt fd op src key dst v).0 ≡ 0
  pub decrypts_returns :
      (op : CryptOp) (src dst : List ℕ) (v : V)
      → op.ses ≡ ses
      → op.op ≡ cop_decrypt
      → length src ≡ data_size
      → (d.crypt fd op src key dst v).0 ≡ 0

module _ {W V : Type 0} (sys : System W) (writes : Writes sys) (d : Cryptodev V) (fd : ℕ) where
  abbrev pub through_writes : Writes (through sys d fd)
  through_writes = record {
    out = λ wfd p. writes.out wfd p.0;
    progress =
        λ wfd buf n p p' h e. writes.progress wfd buf n p.0 p'.0 h (ap (λ q. (q.0, q.1.0)) e);
  }

  -- What the host makes of a block.
  abbrev hosted : ℕ → ℕ → List ℕ → V → ℕ × List ℕ × V
  hosted ses op src v =
      d.crypt fd
        (record (filled_crypt ses op) { src = out_buffer 4; iv = out_buffer 5; dst = in_buffer 0 })
        src key (replicate data_size 0) v

  cioccrypt-host :
      (cfd ses op : ℕ) (src : List ℕ) (p : W × V)
      → length src ≡ data_size
      → (through sys d fd).cioccrypt cfd ses op src key p
        ≡ (some (take data_size (hosted ses op src p.1).1), (p.0, (hosted ses op src p.1).2))
  unfolding direct
  cioccrypt-host cfd ses op src p h =
      rw
        (
          crypto_ioctl-direct d fd (do_crypt (filled_crypt ses op) src key (replicate data_size 0))
              p.1
              (
                refl,
                refl,
                take-Shows data_size src (omega arith) (omega (arith, h)),
                take-Shows block_size key (omega arith) (omega arith),
              ),
          take-all data_size src (omega (arith, h)),
          append-nil (take data_size (hosted ses op src p.1).1),
        )
        refl

  returned-kept :
      {A : Type 0} (f : Ret → Request → A) (bad : A) (r : Option (Done × V)) (p : W × V)
      → (returned f bad r p).1.0 ≡ p.0
  returned-kept f bad none p = refl
  returned-kept f bad (some (done, v)) p = refl

  module _ (c : Cipher) (cfd ses : ℕ) (host : Ciphers d c fd ses) (serves : Serves d fd ses)
      (reads : (rfd wfd : ℕ) (w : W)
        → writes.out wfd (sys.read rfd data_size w).1 ≡ writes.out wfd w) where
    found_by :
        (op : ℕ) (f : List ℕ → List ℕ) (src dst : List ℕ) (p p' : W × V)
        → length src ≡ data_size
        → length (f src) ≡ data_size
        → (hosted ses op src p.1).1 ≡ f src
        → (through sys d fd).cioccrypt cfd ses op src key p ≡ (some dst, p')
        → dst ≡ f src
    found_by op f src dst p p' h g made e =
        let block : take data_size (hosted ses op src p.1).1 ≡ f src =
          ap (take data_size) made ∙ take-all data_size (f src) (omega (arith, g)) in
        let same : some dst ≡ some (take data_size (hosted ses op src p.1).1) =
          sym (ap (λ q. q.0) e) ∙ ap (λ q. q.0) (cioccrypt-host cfd ses op src p h) in
        cc

    pub through-Crypts : Crypts (through sys d fd) through_writes c cfd ses
    through-Crypts = record {
      encrypts = λ src dst p p' h e.
          found_by cop_encrypt c.E src dst p p' h (c.length-E src ∙ h)
            (host.host_encrypts _ src (replicate data_size 0) p.1 refl refl h
              (serves.encrypts_returns _ src (replicate data_size 0) p.1 refl refl h))
            e;
      decrypts = λ src dst p p' h e.
          found_by cop_decrypt c.D src dst p p' h (c.length-D src ∙ h)
            (host.host_decrypts _ src (replicate data_size 0) p.1 refl refl h
              (serves.decrypts_returns _ src (replicate data_size 0) p.1 refl refl h))
            e;
      crypt_out = λ op src wfd p. ap (writes.out wfd) (returned-kept dst_of none _ p);
      read_out = λ rfd wfd p. reads rfd wfd p.0;
    }

-- A program in a virtual machine: its system, its machine's device on the host, and its state.
pub record GuestEnd (c : Cipher) : Type 1 where
  pub W : Type 0
  pub V : Type 0
  pub sys : System W
  pub writes : Writes sys
  pub reads : (rfd wfd : ℕ) (w : W) → writes.out wfd (sys.read rfd data_size w).1 ≡ writes.out wfd w
  pub d : Cryptodev V
  pub fd : ℕ
  pub handler : Step (Chat (W × V)) (Unit {0})
  pub turns : ℕ
  pub from : ℕ
  pub cfd : ℕ
  pub to : ℕ
  pub st : Chat (W × V)
  pub host : Ciphers d c fd st.ses
  pub serves : Serves d fd st.ses

abbrev pub end_of : {c : Cipher} → GuestEnd c → End c
end_of {c = c} g = record {
  W = g.W × g.V;
  sys = through g.sys g.d g.fd;
  writes = through_writes g.sys g.writes g.d g.fd;
  handler = g.handler;
  turns = g.turns;
  from = g.from;
  cfd = g.cfd;
  to = g.to;
  st = g.st;
  crypts = through-Crypts g.sys g.writes g.d g.fd c g.cfd g.st.ses g.host g.serves g.reads;
}
