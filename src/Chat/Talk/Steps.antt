-- ===== src/Chat/Talk/Steps.antt =====
-- What the calls in a turn of the loops of Virtio_Crypto_Chat/encrypted_chat/client.c leave.
use operating_systems_lab_nt.Prelude.{
  ℕ, suc, ◌≤◌, ◌<◌, ◌≡◌, refl, ap, ◌∙◌, Bool, true, false, List, ◌++◌, append-nil, Option, none,
  some, arith, length, take-all, drop-all,
}
use operating_systems_lab_nt.Chat.Block.{
  Chat, data_size, key, cop_encrypt, cop_decrypt, overlay, encrypt, encrypted, decrypt, decrypted,
}
use operating_systems_lab_nt.Chat.Block.Copy.{IsText, filled, length-filled, copy_line-filled}
use operating_systems_lab_nt.Chat.Flow.{Flow, next, exit, endless, overrun, Step}
use operating_systems_lab_nt.Chat.Flow.Ends.{Ends, continue-Ends}
use operating_systems_lab_nt.Chat.System.{System}
use operating_systems_lab_nt.Chat.Talk.{repeat, or_exit, put}
use operating_systems_lab_nt.Chat.Write.{insist_write}
use operating_systems_lab_nt.Chat.Write.Delivery.{Writes, Delivered, insist_write-Delivered}

-- A cipher on blocks: `D` takes back what `E` does, and neither changes a block's length.
pub record Cipher : Type 0 where
  pub E : List ℕ → List ℕ
  pub D : List ℕ → List ℕ
  pub D-E : (block : List ℕ) → length block ≡ data_size → D (E block) ≡ block
  pub length-D : (block : List ℕ) → length (D block) ≡ length block
  pub length-E : (block : List ℕ) → length (E block) ≡ length block

-- What is documented of a session that was opened for a cipher: it encrypts and decrypts by it, and
-- this, like a read, is no write.
pub record Crypts {W : Type 0} (sys : System W) (writes : Writes sys) (c : Cipher) (cfd ses : ℕ)
    : Type 0 where
  pub encrypts :
      (src dst : List ℕ) (w w' : W)
      → length src ≡ data_size
      → sys.cioccrypt cfd ses cop_encrypt src key w ≡ (some dst, w')
      → dst ≡ c.E src
  pub decrypts :
      (src dst : List ℕ) (w w' : W)
      → length src ≡ data_size
      → sys.cioccrypt cfd ses cop_decrypt src key w ≡ (some dst, w')
      → dst ≡ c.D src
  pub crypt_out :
      (op : ℕ) (src : List ℕ) (fd : ℕ) (w : W)
      → writes.out fd (sys.cioccrypt cfd ses op src key w).1 ≡ writes.out fd w
  pub read_out : (rfd fd : ℕ) (w : W) → writes.out fd (sys.read rfd data_size w).1 ≡ writes.out fd w

pub overlay-all : (bytes buf : List ℕ) → length buf ≤ length bytes → overlay bytes buf ≡ bytes
overlay-all bytes buf h = rw (drop-all (length bytes) buf h) (append-nil bytes)

module _ {W : Type 0} (sys : System W) (writes : Writes sys) (fd : ℕ) where
  -- `whole` is true only where `bytes` has been written, and the rest of the state is kept.
  abbrev pub Put : List ℕ → Chat W → Bool → Chat W → Type 0
  Put bytes st whole st' =
      whole ≡ true
      → (writes.out fd st'.world ≡ writes.out fd st.world ++ bytes)
        × (st'.buf ≡ st.buf)
        × (st'.dec_buf_len ≡ st.dec_buf_len)

  module _ (bytes : List ℕ) (st : Chat W) where
    written-Ends :
        (r : Flow Bool × W)
        → Delivered sys writes fd bytes st.world r
        → Ends (Put bytes st) (r.0, record st { world = r.1 })
    written-Ends (next true, w) h = λ e. (h, refl, refl)
    written-Ends (next false, w) h = λ e. cc
    written-Ends (exit code, w) h = absurd h
    written-Ends (endless, w) h = h
    written-Ends (overrun, w) h = h

    pub put-Ends : Ends (Put bytes st) (put sys fd bytes st)
    put-Ends =
        written-Ends (insist_write sys fd bytes st.world)
          (insist_write-Delivered sys writes fd bytes st.world)

pub or_exit-Ends :
    {S : Type 0} (P : S → Type 0) (good : Bool) (st : S)
    → (good ≡ true → P st)
    → Ends (λ (_ : Unit {0}) (st' : S). P st') (or_exit good st)
or_exit-Ends P true st h = h refl
or_exit-Ends P false st h = refl

-- A loop whose first turn is its last.
pub repeat-Ends :
    {S : Type 0} (turn : Step S Bool) (P : S → Type 0) (turns : ℕ) (st : S)
    → Ends (λ (leave : Bool) (st' : S). (leave ≡ true) × P st') (turn st)
    → Ends (λ (u : Unit {0}) (st' : S). P st') (repeat (suc turns) turn st)
unfolding repeat
repeat-Ends turn P turns st h =
    continue-Ends (λ leave st'. (leave ≡ true) × P st') (λ u st'. P st') (turn st) _ h
      λ leave s q. rw q.0 q.1

-- The array as the sender encrypts it and as the receiver shows it.
abbrev pub sent_block : List ℕ → List ℕ
sent_block line = filled 0 line

abbrev pub shown_block : List ℕ → List ℕ
shown_block line = filled b'\r' line

module _ {W : Type 0} (sys : System W) (writes : Writes sys) (c : Cipher) (cfd : ℕ) (fd : ℕ)
    (line : List ℕ) (text : IsText line) (short : length line < data_size) (st : Chat W)
    (crypts : Crypts sys writes c cfd st.ses) where
  abbrev pub Decrypted : Bool → Chat W → Type 0
  Decrypted good st' =
      good ≡ true
      → (writes.out fd st'.world ≡ writes.out fd st.world)
        × (st'.buf ≡ shown_block line)
        × (st'.dec_buf_len ≡ length line)

  decrypted-Ends :
      (r : Option (List ℕ)) (w : W)
      → sys.cioccrypt cfd st.ses cop_decrypt st.buf key st.world ≡ (r, w)
      → st.buf ≡ c.E (sent_block line)
      → Ends Decrypted (decrypted sys (r, w) st)
  decrypted-Ends none w e h = λ g. cc
  decrypted-Ends (some dst) w e h =
      let clear : c.D (c.E (sent_block line)) ≡ sent_block line =
        c.D-E (sent_block line) (length-filled 0 line (omega arith)) in
      let size : length st.buf ≡ data_size =
        ap length h ∙ c.length-E (sent_block line) ∙ length-filled 0 line (omega arith) in
      let plain : dst ≡ sent_block line =
        crypts.decrypts st.buf dst st.world w size e ∙ ap c.D h ∙ clear in
      let kept : writes.out fd w ≡ writes.out fd st.world =
        rw e at (crypts.crypt_out cop_decrypt st.buf fd st.world) in
      rw (plain, copy_line-filled line text short) (λ good. (kept, refl, refl))

  pub decrypt-Ends : st.buf ≡ c.E (sent_block line) → Ends Decrypted (decrypt sys cfd st)
  unfolding decrypt
  decrypt-Ends h =
      let (r, w) = sys.cioccrypt cfd st.ses cop_decrypt st.buf key st.world in
      decrypted-Ends r w refl h

-- What `encrypt` leaves in `buf`.
module _ {W : Type 0} (sys : System W) (writes : Writes sys) (c : Cipher) (cfd : ℕ) (fd : ℕ)
    (st : Chat W) (crypts : Crypts sys writes c cfd st.ses) (full : length st.buf ≡ data_size) where
  abbrev pub Encrypted : Bool → Chat W → Type 0
  Encrypted good st' =
      good ≡ true → (writes.out fd st'.world ≡ writes.out fd st.world) × (st'.buf ≡ c.E st.buf)

  encrypted-Ends :
      (r : Option (List ℕ)) (w : W)
      → sys.cioccrypt cfd st.ses cop_encrypt st.buf key st.world ≡ (r, w)
      → Ends Encrypted (encrypted sys (r, w) st)
  encrypted-Ends none w e = λ g. cc
  encrypted-Ends (some dst) w e =
      let size : length (c.E st.buf) ≡ data_size = c.length-E st.buf ∙ full in
      let kept : writes.out fd w ≡ writes.out fd st.world =
        rw e at (crypts.crypt_out cop_encrypt st.buf fd st.world) in
      rw
        (
          crypts.encrypts st.buf dst st.world w full e,
          take-all data_size (c.E st.buf) (omega (arith, size)),
          overlay-all (c.E st.buf) st.buf (omega (arith, size, full)),
        )
        (λ good. (kept, refl))

  pub encrypt-Ends : Ends Encrypted (encrypt sys cfd st)
  unfolding encrypt
  encrypt-Ends =
      let (r, w) = sys.cioccrypt cfd st.ses cop_encrypt st.buf key st.world in
      encrypted-Ends r w refl
