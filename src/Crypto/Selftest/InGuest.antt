-- ===== src/Crypto/Selftest/InGuest.antt =====
-- test_crypto.c in a virtual machine of Virtio_Crypto_Chat/virtio-cryptodev: its ioctls go to the
-- guest's driver, over the virtqueue and to the host's device.
use operating_systems_lab_nt.Prelude.{
  ℕ, ◌≤◌, ◌≡◌, Bool, true, false, List, Option, none, some, length, replicate, take,
}
use operating_systems_lab_nt.Chat.Guest.{dst_of, ses_of, returned, beside}
use operating_systems_lab_nt.Crypto.Devices.{is_ok}
use operating_systems_lab_nt.Crypto.Guest.{
  get_session, free_session, do_crypt, block_size, crypto_ioctl,
}
use operating_systems_lab_nt.Crypto.Host.{Cryptodev, handle}
use operating_systems_lab_nt.Crypto.Message.{SessionOp, CryptOp, user, out_buffer, in_buffer}
use operating_systems_lab_nt.Crypto.Selftest.{
  Calls, Data, data_size, key_size, test_session, test_crypt, encryption, decryption, urandom,
  filename,
}
use operating_systems_lab_nt.Crypto.Through.{granted}

-- The system of a virtual machine, with the host's device `d` behind the guest's, on a file that is
-- `fd` on the host.
abbrev pub guest_calls : {W V : Type 0} → Calls W → Cryptodev V → ℕ → Calls (W × V)
guest_calls sys d fd = record {
  open_file = λ name. beside (sys.open_file name);
  read = λ rfd size. beside (sys.read rfd size);
  close = λ n. beside (sys.close n);
  ciocgsession = λ cfd sess key p.
      returned ses_of none (crypto_ioctl (handle d) granted fd (get_session sess key) p.1) p;
  cioccrypt = λ cfd op src iv dst p.
      returned dst_of none (crypto_ioctl (handle d) granted fd (do_crypt op src iv dst) p.1) p;
  ciocfsession = λ cfd ses p.
      returned (λ r q. is_ok r) false (crypto_ioctl (handle d) granted fd (free_session ses) p.1) p;
  fork = beside sys.fork;
  wait = λ p. (sys.wait p.0, p.1);
}

-- What is documented of the sessions of the host's device, for ioctls that return 0: a session is
-- open from its making on; an open session keeps the number of bytes, and takes back by a
-- decryption what it has made by an encryption with the same initialisation vector. An ioctl that
-- fails is free to do anything.
pub record Lawful {V : Type 0} (d : Cryptodev V) (fd : ℕ) : Type 1 where
  pub IsOpen : ℕ → V → Type 0
  pub opens :
      (sess : SessionOp) (key : List ℕ) (v : V)
      → (d.get_session fd sess key v).0 ≡ 0
      → IsOpen (d.get_session fd sess key v).1.ses (d.get_session fd sess key v).2
  pub keeps :
      (ses : ℕ) (op : CryptOp) (src iv dst : List ℕ) (v : V)
      → IsOpen ses v
      → (d.crypt fd op src iv dst v).0 ≡ 0
      → IsOpen ses (d.crypt fd op src iv dst v).2
  pub size :
      (op : CryptOp) (src iv dst : List ℕ) (v : V)
      → IsOpen op.ses v
      → (d.crypt fd op src iv dst v).0 ≡ 0
      → length (d.crypt fd op src iv dst v).1 ≡ length src
  pub inverse :
      (op back : CryptOp) (src iv dst dst' : List ℕ) (v v' : V)
      → op.op ≡ encryption
      → back.op ≡ decryption
      → back.ses ≡ op.ses
      → length src ≡ data_size
      → IsOpen op.ses v
      → IsOpen op.ses v'
      → (d.crypt fd op src iv dst v).0 ≡ 0
      → (d.crypt fd back (d.crypt fd op src iv dst v).1 iv dst' v').0 ≡ 0
      → (d.crypt fd back (d.crypt fd op src iv dst v).1 iv dst' v').1 ≡ src

module _ {V : Type 0} (d : Cryptodev V) (fd : ℕ) where
  -- What the host makes of the bytes of an ioctl.
  abbrev hosted : CryptOp → List ℕ → List ℕ → V → ℕ × List ℕ × V
  hosted op src iv v =
      d.crypt fd (record op { src = out_buffer 4; iv = out_buffer 5; dst = in_buffer 0 }) src
        (take block_size iv) (replicate data_size 0) v

  -- What the host makes of the request for a session.
  abbrev session_of : Data → V → ℕ × SessionOp × V
  session_of data' v =
      d.get_session fd (record test_session { key = out_buffer 3 }) (take key_size data'.key) v

  abbrev there : Data → List ℕ → V → ℕ × List ℕ × V
  there data' input v =
      let (r, sess, v1) = session_of data' v in
      hosted (test_crypt sess.ses encryption (user 1) (user 2)) input data'.iv v1

  abbrev back : Data → List ℕ → V → ℕ × List ℕ × V
  back data' input v =
      let (r, sess, v1) = session_of data' v in
      let (r', made, v2) = there data' input v in
      hosted (test_crypt sess.ses decryption (user 2) (user 5)) made data'.iv v2

  -- The host's three ioctls for a session, an encryption of `input` and the decryption of what it
  -- has made return 0 when they are made one after the other from `v`.
  pub record Serves (data' : Data) (input : List ℕ) (v : V) : Type 0 where
    pub session : (session_of data' v).0 ≡ 0
    pub encrypts : (there data' input v).0 ≡ 0
    pub decrypts : (back data' input v).0 ≡ 0

-- The arrays of the struct `data` have their sizes.
pub record IsData (data' : Data) : Type 0 where
  pub input : length data'.input ≡ data_size
  pub encrypted : length data'.encrypted ≡ data_size
  pub decrypted : length data'.decrypted ≡ data_size
  pub iv : length data'.iv ≡ block_size
  pub key : length data'.key ≡ key_size

-- A run of the program on the system from `w` to `w'`, in which the device's file is opened and
-- closed and /dev/urandom gives some bytes.
pub record Answered {W : Type 0} (sys : Calls W) (argv1 : Option (List ℕ)) (w w' : W) : Type 0 where
  pub cfd : ℕ
  pub rfd : ℕ
  pub bytes : List ℕ
  pub shut : Bool
  pub w1 : W
  pub w2 : W
  pub w3 : W
  pub w4 : W
  pub device : sys.open_file (filename argv1) w ≡ (some cfd, w1)
  pub source : sys.open_file urandom w1 ≡ (some rfd, w2)
  pub bytes_read : sys.read rfd data_size w2 ≡ (some bytes, w3)
  pub source_closed : sys.close rfd w3 ≡ (shut, w4)
  pub closed : sys.close cfd w4 ≡ (true, w')
  pub within : length bytes ≤ data_size
