-- ===== src/Chat/Guest.antt =====
-- The chat of Virtio_Crypto_Chat/encrypted_chat in a virtual machine, where the ioctls go to the
-- driver and the device of Virtio_Crypto_Chat/virtio-cryptodev.
pub mod Guests
use operating_systems_lab_nt.Prelude.{
  ℕ, Bool, true, false, List, Option, none, some, length, replicate,
}
use operating_systems_lab_nt.Chat.Block.{data_size}
use operating_systems_lab_nt.Chat.System.{System}
use operating_systems_lab_nt.Crypto.Devices.{is_ok}
use operating_systems_lab_nt.Crypto.Guest.{
  Done, Request, get_session, free_session, do_crypt, unsupported, crypto_ioctl,
}
use operating_systems_lab_nt.Crypto.Host.{Cryptodev, handle}
use operating_systems_lab_nt.Crypto.Message.{SessionOp, CryptOp, user}
use operating_systems_lab_nt.Crypto.Through.{granted}
use operating_systems_lab_nt.Lunix.Kernel.{Ret, ok, err}

-- `struct crypt_op` as `encrypt` and `decrypt` fill it, with its pointers numbered.
abbrev pub filled_crypt : ℕ → ℕ → CryptOp
filled_crypt ses op = record {
  ses = ses;
  op = op;
  flags = 0;
  len = data_size;
  src = user 1;
  dst = user 2;
  mac = user 0;
  iv = user 3;
}

-- `struct session_op` as `main` fills it.
abbrev pub filled_session : ℕ → List ℕ → SessionOp
filled_session cipher bytes = record {
  cipher = cipher;
  mac = 0;
  keylen = length bytes;
  key = user 4;
  mackeylen = 0;
  mackey = user 0;
  ses = 0;
}

-- What the program finds in its structure after an ioctl that returns 0.
abbrev pub dst_of : Ret → Request → Option (List ℕ)
dst_of ok (do_crypt op src iv dst) = some dst
dst_of ok other = none
dst_of (err e) other = none

abbrev pub ses_of : Ret → Request → Option ℕ
ses_of ok (get_session sess key) = some sess.ses
ses_of ok other = none
ses_of (err e) other = none

module _ {W V : Type 0} where
  -- The end of an ioctl; a driver that faults never returns to the program.
  abbrev pub returned :
      {A : Type 0} → (Ret → Request → A) → A → Option (Done × V) → W × V → A × (W × V)
  returned f bad none p = (bad, p)
  returned f bad (some (done, v)) p = (f done.ret done.request, (p.0, v))

  abbrev pub beside : {A : Type 0} → (W → A × W) → W × V → A × (W × V)
  beside f p = let (a, w) = f p.0 in (a, (w, p.1))

  -- A system with the host's device `d` behind the guest's, on a file that is `fd` on the host.
  abbrev pub through : System W → Cryptodev V → ℕ → System (W × V)
  through sys d fd = record {
    read = λ rfd size. beside (sys.read rfd size);
    write = λ wfd buf. beside (sys.write wfd buf);
    open_file = λ name. beside (sys.open_file name);
    close = λ n. beside (sys.close n);
    select = λ sd. beside (sys.select sd);
    ciocgsession = λ cfd cipher bytes p.
        returned ses_of none
          (crypto_ioctl (handle d) granted fd (get_session (filled_session cipher bytes) bytes) p.1)
          p;
    cioccrypt = λ cfd ses op src iv p.
        returned dst_of none
          (crypto_ioctl (handle d) granted fd
            (do_crypt (filled_crypt ses op) src iv (replicate data_size 0)) p.1)
          p;
    ciocfsession = λ cfd ses p.
        returned (λ r q. is_ok r) false (crypto_ioctl (handle d) granted fd (free_session ses) p.1)
          p;
    socket = beside sys.socket;
    gethostbyname = λ name p. sys.gethostbyname name p.0;
    connect = λ sd address port. beside (sys.connect sd address port);
    shutdown = λ sd. beside (sys.shutdown sd);
    bind = λ sd port. beside (sys.bind sd port);
    listen = λ sd backlog. beside (sys.listen sd backlog);
    accept = λ sd. beside (sys.accept sd);
    inet_ntop = λ p. sys.inet_ntop p.0;
    in_front = λ n p. sys.in_front n p.0;
  }
