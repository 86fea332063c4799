-- ===== src/Chat/Block/Overrun.antt =====
-- Where `decrypt` of Virtio_Crypto_Chat/encrypted_chat/client.c runs out of its arrays.
use operating_systems_lab_nt.Prelude.{
  ℕ, ◌≤◌, ◌≡◌, refl, ◌↔◌, List, [], ◌∷◌, Option, none, some, Option-cases, Bool-cases, inl, inr,
  arith, ◌==◌, length, take, take-all, replicate, length-replicate,
}
use operating_systems_lab_nt.Chat.Block.{
  Chat, data_size, key, cop_decrypt, copy_line, copied, decrypt,
}
use operating_systems_lab_nt.Chat.Block.Copy.{IsText, copy_line-none}
use operating_systems_lab_nt.Chat.Flow.{overrun}
use operating_systems_lab_nt.Chat.System.{System}

-- The copying misses no NUL.
copy_line-IsText :
    (block buf : List ℕ) → length block ≤ length buf → copy_line block buf ≡ none → IsText block
unfolding copy_line
copy_line-IsText [] buf h e = tt
copy_line-IsText (c ∷ block) [] h e = absurd (omega arith)
copy_line-IsText (c ∷ block) (b ∷ buf) h e = elim (Option-cases (copy_line block buf)) [
  | inl rest ↦ elim (Bool-cases (c == 0)) [
    | inl nul ↦ cc (rw (rest, nul) at e)
    | inr char ↦ ((λ z. ground arith), copy_line-IsText block buf (omega arith) rest)
  ]
  | inr (p, rest) ↦ elim (Bool-cases (c == 0)) [
    | inl nul ↦ cc (rw (rest, nul) at e)
    | inr char ↦ cc (rw (rest, char) at e)
  ]
]

module _ {W : Type 0} (sys : System W) where
  copied-overrun :
      (r : Option (List ℕ × ℕ)) (w : W) (st : Chat W) → (copied sys r w st).0 ≡ overrun → r ≡ none
  copied-overrun none w st e = refl
  copied-overrun (some (buf, i)) w st e = cc

  -- Where the device decrypts to 512 bytes, decrypt goes on behind the end of its arrays exactly if
  -- none of them is a NUL.
  pub decrypt-overrun :
      (cfd : ℕ) (st : Chat W) (dst : List ℕ) (w : W)
      → sys.cioccrypt cfd st.ses cop_decrypt st.buf key st.world ≡ (some dst, w)
      → length dst ≡ data_size
      → ((decrypt sys cfd st).0 ≡ overrun) ↔ IsText dst
  unfolding decrypt
  decrypt-overrun cfd st dst w e h =
      let whole : take data_size dst ≡ dst = take-all data_size dst (omega (arith, h)) in
      rw (e, whole)
        (
          (λ over.
              copy_line-IsText dst (replicate data_size b'\r')
                (omega (arith, h, length-replicate {A = ℕ} data_size b'\r'))
                (copied-overrun (copy_line dst (replicate data_size b'\r')) w st over)),
          (λ text. rw (copy_line-none dst (replicate data_size b'\r') text) refl),
        )
