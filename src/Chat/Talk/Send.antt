-- ===== src/Chat/Talk/Send.antt =====
-- How `read_encrypt_write` of Virtio_Crypto_Chat/encrypted_chat/client.c sends a line.
use operating_systems_lab_nt.Prelude.{
  ℕ, zero, suc, ◌+◌, ◌-◌, ◌<◌, ◌≡◌, refl, ap, ◌∙◌, Bool, true, List, [], ◌∷◌, ◌++◌, append_assoc,
  some, arith, ◌==◌, length, drop, replicate, get_or, length-append,
}
use operating_systems_lab_nt.Chat.Block.{Chat, data_size, overlay, encrypt}
use operating_systems_lab_nt.Chat.Block.Copy.{length-filled, get_or-behind}
use operating_systems_lab_nt.Chat.Flow.{Step}
use operating_systems_lab_nt.Chat.Flow.Ends.{Ends, continue-Ends}
use operating_systems_lab_nt.Chat.System.{System}
use operating_systems_lab_nt.Chat.Talk.{
  or_exit, put, closing, last_byte, send_turn, read_encrypt_write,
}
use operating_systems_lab_nt.Chat.Talk.Steps.{
  Cipher, Crypts, Put, put-Ends, or_exit-Ends, repeat-Ends, sent_block, Encrypted, encrypt-Ends,
}
use operating_systems_lab_nt.Chat.Write.Delivery.{Writes}

-- What is typed: a text and the end of its line.
abbrev pub typed : List ℕ → List ℕ
typed body = body ++ (b'\n' ∷ [])

drop-replicate : {A : Type 0} (n m : ℕ) (a : A) → drop n (replicate m a) ≡ replicate (m - n) a
drop-replicate zero m a = let e : m - 0 ≡ m = omega arith in rw e refl
drop-replicate (suc n) zero a = let e : 0 - suc n ≡ 0 = omega arith in rw e refl
drop-replicate (suc n) (suc m) a =
    let e : suc m - suc n ≡ m - n = omega arith in rw e (drop-replicate n m a)

overlay-typed :
    (body : List ℕ) → overlay (typed body) (replicate data_size 0) ≡ sent_block (typed body)
overlay-typed body = ap (◌++◌ (typed body)) (drop-replicate (length (typed body)) data_size 0)

length-typed : (body : List ℕ) → length (typed body) ≡ suc (length body)
length-typed body = omega (arith, length-append body (b'\n' ∷ []))

last_of_typed : (body : List ℕ) → get_or (sent_block (typed body)) (length body) 0 ≡ b'\n'
last_of_typed body =
    rw (append_assoc body (b'\n' ∷ []) (replicate (data_size - length (typed body)) 0))
      (get_or-behind body (replicate (data_size - length (typed body)) 0) b'\n' 0)

module _ {W : Type 0} (sys : System W) (writes : Writes sys) (c : Cipher)
    (handler : Step (Chat W) (Unit {0})) (rfd cfd wfd : ℕ) (body : List ℕ)
    (short : length body + 1 < data_size) (st : Chat W)
    (crypts : Crypts sys writes c cfd st.ses) where
  abbrev Sent : Bool → Chat W → Type 0
  Sent leave st' =
      (leave ≡ true)
      × (writes.out wfd st'.world ≡ writes.out wfd st.world ++ c.E (sent_block (typed body)))

  abbrev Ready : Chat W → Type 0
  Ready st' =
      (writes.out wfd st'.world ≡ writes.out wfd st.world)
      × (st'.buf ≡ c.E (sent_block (typed body)))

  abbrev Out : Chat W → Type 0
  Out st' = writes.out wfd st'.world ≡ writes.out wfd st.world ++ c.E (sent_block (typed body))

  -- Where what was read ends with the end of a line, the turn is the last.
  closing-Sent :
      (s1 s5 : Chat W)
      → get_or s1.buf (length body) 0 ≡ b'\n'
      → Out s5
      → Ends Sent (
          closing handler
            (some (length (typed body)))
            (last_byte sys (some (length (typed body))) s1 == b'\n')
            s5)
  closing-Sent s1 s5 l a = rw (length-typed body, l) (refl, a)

  send_turn-Ends :
      (w : W)
      → sys.read rfd data_size st.world ≡ (some (typed body), w)
      → st.buf ≡ replicate data_size 0
      → Ends Sent (send_turn sys handler rfd cfd wfd st)
  unfolding send_turn
  send_turn-Ends w e h =
      let s1 : Chat W = record st { buf = overlay (typed body) st.buf; world = w } in
      let block : s1.buf ≡ sent_block (typed body) =
        ap (overlay (typed body)) h ∙ overlay-typed body in
      let size : length s1.buf ≡ data_size =
        ap length block ∙ length-filled 0 (typed body) (omega (arith, length-typed body)) in
      let kept : writes.out wfd w ≡ writes.out wfd st.world =
        rw e at (crypts.read_out rfd wfd st.world) in
      let last : get_or s1.buf (length body) 0 ≡ b'\n' = rw block (last_of_typed body) in
      rw (e, send_turn)
        (continue-Ends (Encrypted sys writes c cfd wfd s1 crypts size) Sent (encrypt sys cfd s1) _
          (encrypt-Ends sys writes c cfd wfd s1 crypts size)
          λ good s2 q.
            continue-Ends (λ u s. Ready s) Sent (or_exit good s2) _
              (or_exit-Ends Ready good s2 (λ g. ((q g).0 ∙ kept, (q g).1 ∙ ap c.E block)))
              λ u s3 b.
                continue-Ends (Put sys writes wfd s3.buf s3) Sent (put sys wfd s3.buf s3) _
                  (put-Ends sys writes wfd s3.buf s3)
                  λ all s4 p.
                    continue-Ends (λ u' s. Out s) Sent (or_exit all s4) _
                      (or_exit-Ends Out all s4 (λ g. (p g).0 ∙ rw (b.0, b.1) refl))
                      λ u' s5 a. closing-Sent s1 s5 last a)

  -- The loop, on a line that one read finds.
  pub read_encrypt_write-Sent :
      (turns : ℕ) (w : W)
      → sys.read rfd data_size st.world ≡ (some (typed body), w)
      → st.buf ≡ replicate data_size 0
      → Ends
          (λ (u : Unit {0}) (st' : Chat W). Out st')
          (read_encrypt_write sys handler (suc turns) rfd cfd wfd st)
  unfolding read_encrypt_write
  read_encrypt_write-Sent turns w e h =
      repeat-Ends (send_turn sys handler rfd cfd wfd) Out turns st (send_turn-Ends w e h)
