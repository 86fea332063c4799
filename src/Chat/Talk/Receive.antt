-- ===== src/Chat/Talk/Receive.antt =====
-- How `read_decrypt_write` of Virtio_Crypto_Chat/encrypted_chat/client.c shows a line.
use operating_systems_lab_nt.Prelude.{
  ℕ, suc, ◌<◌, ◌≡◌, refl, ◌∙◌, Bool, true, List, ◌++◌, some, arith, ◌==◌, length, get_or,
}
use operating_systems_lab_nt.Chat.Block.{Chat, data_size, overlay, decrypt}
use operating_systems_lab_nt.Chat.Block.Copy.{IsText, length-filled, get_or-filled}
use operating_systems_lab_nt.Chat.Flow.{Step}
use operating_systems_lab_nt.Chat.Flow.Ends.{Ends, continue-Ends}
use operating_systems_lab_nt.Chat.System.{System}
use operating_systems_lab_nt.Chat.Talk.{or_exit, put, closing, receive_turn, read_decrypt_write}
use operating_systems_lab_nt.Chat.Talk.Steps.{
  Cipher, Crypts, overlay-all, Put, put-Ends, or_exit-Ends, repeat-Ends, sent_block, shown_block,
  Decrypted, decrypt-Ends,
}
use operating_systems_lab_nt.Chat.Write.Delivery.{Writes}

module _ {W : Type 0} (sys : System W) (writes : Writes sys) (c : Cipher)
    (handler : Step (Chat W) (Unit {0})) (rfd cfd wfd : ℕ) (line : List ℕ) (text : IsText line)
    (short : length line < data_size) (st : Chat W) (crypts : Crypts sys writes c cfd st.ses) where
  abbrev pub Shown : Bool → Chat W → Type 0
  Shown leave st' =
      (leave ≡ true) × (writes.out wfd st'.world ≡ writes.out wfd st.world ++ shown_block line)

  abbrev Before : Chat W → Type 0
  Before st' =
      (writes.out wfd st'.world ≡ writes.out wfd st.world)
      × (st'.buf ≡ shown_block line)
      × (st'.dec_buf_len ≡ length line)

  abbrev After : Chat W → Type 0
  After st' =
      (writes.out wfd st'.world ≡ writes.out wfd st.world ++ shown_block line)
      × (st'.buf ≡ shown_block line)
      × (st'.dec_buf_len ≡ length line)

  -- Where a whole block was read, the turn is the last.
  closing-Shown :
      (st' : Chat W)
      → After st'
      → Ends Shown (
          closing handler
            (some (length (c.E (sent_block line))))
            (get_or st'.buf st'.dec_buf_len 0 == b'\r')
            st')
  closing-Shown st' a =
      let whole : length (c.E (sent_block line)) ≡ data_size =
        c.length-E (sent_block line) ∙ length-filled 0 line (omega arith) in
      rw (whole, a.1, a.2, get_or-filled b'\r' line short) (refl, a.0)

  shown-After :
      (s whole_st : Chat W)
      → Before s
      → (whole : Bool) → Put sys writes wfd s.buf s whole whole_st
      → whole ≡ true
      → After whole_st
  shown-After s s' b whole q g = let p = q g in (p.0 ∙ rw (b.0, b.1) refl, p.1 ∙ b.1, p.2 ∙ b.2)

  receive_turn-Ends :
      (w : W)
      → sys.read rfd data_size st.world ≡ (some (c.E (sent_block line)), w)
      → length st.buf ≡ data_size
      → Ends Shown (receive_turn sys handler rfd cfd wfd st)
  unfolding receive_turn
  receive_turn-Ends w e h =
      let s1 : Chat W = record st { buf = overlay (c.E (sent_block line)) st.buf; world = w } in
      let whole : length (c.E (sent_block line)) ≡ data_size =
        c.length-E (sent_block line) ∙ length-filled 0 line (omega arith) in
      let kept : writes.out wfd w ≡ writes.out wfd st.world =
        rw e at (crypts.read_out rfd wfd st.world) in
      rw (e, receive_turn)
        (continue-Ends (Decrypted sys writes c cfd wfd line text short s1 crypts) Shown
          (decrypt sys cfd s1) _
          (decrypt-Ends sys writes c cfd wfd line text short s1 crypts
            (overlay-all (c.E (sent_block line)) st.buf (omega (arith, h, whole))))
          λ good s2 q.
            continue-Ends (λ u s. Before s) Shown (or_exit good s2) _
              (or_exit-Ends Before good s2 (λ g. ((q g).0 ∙ kept, (q g).1, (q g).2)))
              λ u s3 b.
                continue-Ends (Put sys writes wfd s3.buf s3) Shown (put sys wfd s3.buf s3) _
                  (put-Ends sys writes wfd s3.buf s3)
                  λ all s4 p.
                    continue-Ends (λ u' s. After s) Shown (or_exit all s4) _
                      (or_exit-Ends After all s4 (shown-After s3 s4 b all p))
                      λ u' s5 a. closing-Shown s5 a)

  -- The loop, on a block that is whole.
  pub read_decrypt_write-Shown :
      (turns : ℕ) (w : W)
      → sys.read rfd data_size st.world ≡ (some (c.E (sent_block line)), w)
      → length st.buf ≡ data_size
      → Ends
          (λ (u : Unit {0}) (st' : Chat W).
            writes.out wfd st'.world ≡ writes.out wfd st.world ++ shown_block line)
          (read_decrypt_write sys handler (suc turns) rfd cfd wfd st)
  unfolding read_decrypt_write
  read_decrypt_write-Shown turns w e h =
      repeat-Ends (receive_turn sys handler rfd cfd wfd)
        (λ st'. writes.out wfd st'.world ≡ writes.out wfd st.world ++ shown_block line) turns st
        (receive_turn-Ends w e h)
