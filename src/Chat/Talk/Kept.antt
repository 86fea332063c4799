-- ===== src/Chat/Talk/Kept.antt =====
-- To talk, in Virtio_Crypto_Chat/encrypted_chat, opens and closes no file.
use operating_systems_lab_nt.Prelude.{
  ℕ, zero, suc, refl, ◌∙◌, Bool, true, false, Bool-cases, inl, inr, ◌==◌, List, replicate, Option,
  none, some,
}
use operating_systems_lab_nt.Chat.Block.{Chat, data_size, encrypt, decrypt}
use operating_systems_lab_nt.Chat.Flow.{next, Step, pure}
use operating_systems_lab_nt.Chat.Flow.Leaves.{Leaves-mono}
use operating_systems_lab_nt.Chat.System.{System, Selected, interrupted, failed, ready}
use operating_systems_lab_nt.Chat.Talk.{
  or_exit, put, put_anyway, read_in, closing, receive_turn, send_turn, read_decrypt_write,
  read_encrypt_write, after_select, talk_turn, talk, last_byte, stdin, stdout, verif,
}
use operating_systems_lab_nt.Chat.Talk.Files.{
  Files, bind-Keeps, pure-Keeps, or_exit-Keeps, when-Keeps, repeat-Keeps, put-Keeps,
  put_anyway-Keeps, read_in-Keeps, encrypt-Keeps, decrypt-Keeps, Keeps, Same,
}

module _ {W : Type 0} (sys : System W) (files : Files sys) (handler : Step (Chat W) (Unit {0}))
    (handled : Keeps sys files handler) where
  closing-Keeps : (n : Option ℕ) (leave : Bool) → Keeps sys files (closing handler n leave)
  closing-Keeps none leave = pure-Keeps sys files leave
  closing-Keeps (some zero) leave =
      bind-Keeps sys files handler (λ u. pure true) handled (λ u. pure-Keeps sys files true)
  closing-Keeps (some (suc n)) leave = pure-Keeps sys files leave

  receive_turn-Keeps : (rfd cfd wfd : ℕ) → Keeps sys files (receive_turn sys handler rfd cfd wfd)
  unfolding receive_turn
  receive_turn-Keeps rfd cfd wfd =
      bind-Keeps sys files (read_in sys rfd) _ (read_in-Keeps sys files rfd) λ n.
        bind-Keeps sys files (decrypt sys cfd) _ (decrypt-Keeps sys files cfd) λ good.
          bind-Keeps sys files (or_exit good) _ (or_exit-Keeps sys files good) λ u.
            bind-Keeps sys files (λ st. put sys wfd st.buf st) _
              (λ st. put-Keeps sys files wfd st.buf st)
              λ whole.
                bind-Keeps sys files (or_exit whole) _ (or_exit-Keeps sys files whole)
                  λ u' st. closing-Keeps n _ st

  send_turn-Keeps : (rfd cfd wfd : ℕ) → Keeps sys files (send_turn sys handler rfd cfd wfd)
  unfolding send_turn
  send_turn-Keeps rfd cfd wfd =
      bind-Keeps sys files (read_in sys rfd) _ (read_in-Keeps sys files rfd) λ n.
        bind-Keeps sys files (λ st. (next (last_byte sys n st == b'\n'), st)) _ (λ st fd. refl)
          λ flag. bind-Keeps sys files (encrypt sys cfd) _ (encrypt-Keeps sys files cfd) λ good.
            bind-Keeps sys files (or_exit good) _ (or_exit-Keeps sys files good) λ u.
              bind-Keeps sys files (λ st. put sys wfd st.buf st) _
                (λ st. put-Keeps sys files wfd st.buf st)
                λ whole.
                  bind-Keeps sys files (or_exit whole) _ (or_exit-Keeps sys files whole)
                    λ u'. closing-Keeps n flag

  module _ (turns : ℕ) where
    read_decrypt_write-Keeps :
        (rfd cfd wfd : ℕ) → Keeps sys files (read_decrypt_write sys handler turns rfd cfd wfd)
    unfolding read_decrypt_write
    read_decrypt_write-Keeps rfd cfd wfd =
        repeat-Keeps sys files turns (receive_turn sys handler rfd cfd wfd)
          (receive_turn-Keeps rfd cfd wfd)

    read_encrypt_write-Keeps :
        (rfd cfd wfd : ℕ) → Keeps sys files (read_encrypt_write sys handler turns rfd cfd wfd)
    unfolding read_encrypt_write
    read_encrypt_write-Keeps rfd cfd wfd =
        repeat-Keeps sys files turns (send_turn sys handler rfd cfd wfd)
          (send_turn-Keeps rfd cfd wfd)

    after_select-Keeps :
        (sd cfd : ℕ) (prefix : List ℕ) (found : Selected)
        → Keeps sys files (after_select sys handler turns sd cfd prefix found)
    unfolding after_select
    after_select-Keeps sd cfd prefix interrupted =
        bind-Keeps sys files handler (λ u. pure true) handled (λ u. pure-Keeps sys files true)
    after_select-Keeps sd cfd prefix failed = λ st. tt
    after_select-Keeps sd cfd prefix (ready from_peer from_user) =
        bind-Keeps sys files _ _
          (when-Keeps sys files from_peer _ (
            bind-Keeps sys files (put_anyway sys stdout prefix) _
              (put_anyway-Keeps sys files stdout prefix)
              λ u. read_decrypt_write-Keeps sd cfd stdout))
          λ u.
            bind-Keeps sys files _ _
              (when-Keeps sys files from_user _ (
                bind-Keeps sys files (λ st. (next tt, record st { buf = replicate data_size 0 })) _
                  (λ st fd. refl)
                  λ u'.
                    bind-Keeps sys files (read_encrypt_write sys handler turns stdin cfd sd) _
                      (read_encrypt_write-Keeps stdin cfd sd)
                      λ u''. put_anyway-Keeps sys files 0 verif))
              λ u'. pure-Keeps sys files false

    talk_turn-Keeps :
        (sd cfd : ℕ) (prefix : List ℕ) → Keeps sys files (talk_turn sys handler turns sd cfd prefix)
    unfolding talk_turn
    talk_turn-Keeps sd cfd prefix st = elim (Bool-cases st.conn_active) [
      | inr idle ↦ rw idle (λ fd. refl)
      | inl active ↦
          let (found, w) = sys.select sd st.world in
          let s1 : Chat W = record st { conn_active = true; world = w } in
          rw active (
            Leaves-mono (λ a st'. Same sys files w st'.world)
              (λ a st'. Same sys files st.world st'.world) _
              (after_select-Keeps sd cfd prefix found s1)
              (λ a s h. λ fd. h fd ∙ files.after_select sd fd st.world))
    ]

    pub talk-Keeps :
        (sd cfd : ℕ) (prefix : List ℕ) → Keeps sys files (talk sys handler turns sd cfd prefix)
    unfolding talk
    talk-Keeps sd cfd prefix =
        repeat-Keeps sys files turns (talk_turn sys handler turns sd cfd prefix)
          (talk_turn-Keeps sd cfd prefix)
