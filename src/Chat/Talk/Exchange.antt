-- ===== src/Chat/Talk/Exchange.antt =====
-- A line from the user of one program of Virtio_Crypto_Chat/encrypted_chat to the user of the other.
use operating_systems_lab_nt.Prelude.{
  ℕ, suc, ◌+◌, ◌<◌, ◌≡◌, ◌≢◌, refl, sym, ◌∙◌, List, [], ◌∷◌, ◌++◌, append_cancel_left, some, arith,
  length, replicate, All-append, length-append,
}
use operating_systems_lab_nt.Chat.Block.{Chat, data_size}
use operating_systems_lab_nt.Chat.Block.Copy.{IsText}
use operating_systems_lab_nt.Chat.Flow.{Flow, next, Step}
use operating_systems_lab_nt.Chat.Flow.Ends.{Ends}
use operating_systems_lab_nt.Chat.System.{System}
use operating_systems_lab_nt.Chat.Talk.{read_decrypt_write, read_encrypt_write}
use operating_systems_lab_nt.Chat.Talk.Receive.{read_decrypt_write-Shown}
use operating_systems_lab_nt.Chat.Talk.Send.{typed, read_encrypt_write-Sent}
use operating_systems_lab_nt.Chat.Talk.Steps.{Cipher, Crypts, sent_block, shown_block}
use operating_systems_lab_nt.Chat.Write.Delivery.{Writes}

-- An end of a connection: its system, what its descriptors are, and its state.
pub record End (c : Cipher) : Type 1 where
  pub W : Type 0
  pub sys : System W
  pub writes : Writes sys
  pub handler : Step (Chat W) (Unit {0})
  pub turns : ℕ
  pub from : ℕ
  pub cfd : ℕ
  pub to : ℕ
  pub st : Chat W
  pub crypts : Crypts sys writes c cfd st.ses

-- What was written to `to` before and after a step.
module _ {c : Cipher} (e : End c) where
  abbrev pub outs : Chat e.W → List ℕ
  outs st = e.writes.out e.to st.world

  abbrev pub sends : Flow (Unit {0}) × Chat e.W
  sends = read_encrypt_write e.sys e.handler (suc e.turns) e.from e.cfd e.to e.st

  abbrev pub receives : Flow (Unit {0}) × Chat e.W
  receives = read_decrypt_write e.sys e.handler (suc e.turns) e.from e.cfd e.to e.st

-- One program reads a line of at most 510 bytes that are not NUL, and its end, over an array of
-- NULs, and sends it; the other finds all that was sent in one read. Where the one does not exit,
-- the other shows the line with carriage returns behind it up to 512 bytes, or exits with 1; it
-- neither hangs nor runs out of an array. Writes may be partial, and both have sessions for the
-- same cipher.
pub read_decrypt_write-read_encrypt_write :
    {c : Cipher} (a b : End c) (body wire : List ℕ) (w : a.W) (w' : b.W) (a' : Chat a.W)
    → IsText body
    → length body + 1 < data_size
    → a.st.buf ≡ replicate data_size 0
    → a.sys.read a.from data_size a.st.world ≡ (some (typed body), w)
    → sends a ≡ (next tt, a')
    → outs a a' ≡ outs a a.st ++ wire
    → length b.st.buf ≡ data_size
    → b.sys.read b.from data_size b.st.world ≡ (some wire, w')
    → Ends
        (λ (u : Unit {0}) (b' : Chat b.W). outs b b' ≡ outs b b.st ++ shown_block (typed body))
        (receives b)
read_decrypt_write-read_encrypt_write {c = c} a b body wire w w' a' text short zeros input sent
      on_wire full found =
    let out =
      read_encrypt_write-Sent a.sys a.writes c a.handler a.from a.cfd a.to body short a.st a.crypts
        a.turns w input zeros in
    let same : wire ≡ c.E (sent_block (typed body)) =
      append_cancel_left (outs a a.st) wire (c.E (sent_block (typed body)))
        (sym on_wire ∙ (rw sent at out)) in
    read_decrypt_write-Shown b.sys b.writes c b.handler b.from b.cfd b.to (typed body)
      (All-append (λ x. x ≢ 0) body (b'\n' ∷ []) text (omega arith, tt))
      (omega (arith, short, length-append body (b'\n' ∷ []))) b.st b.crypts b.turns w'
      (found ∙ rw same refl) full
