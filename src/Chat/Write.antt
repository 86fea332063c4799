-- ===== src/Chat/Write.antt =====
-- `insist_write` of Virtio_Crypto_Chat/encrypted_chat/client.c; server.c has the same.
pub mod Delivery
use operating_systems_lab_nt.Prelude.{
  ℕ, zero, suc, Bool, true, false, List, [], ◌∷◌, Option, none, some, length, drop,
}
use operating_systems_lab_nt.Chat.Flow.{Flow, next, endless, Step}
use operating_systems_lab_nt.Chat.System.{System}

module _ {W : Type 0} (sys : System W) where
  -- The loop, over the bytes that are left; `true` is the count that was asked for, `false` -1.
  -- A loop that runs out of fuel has not come to its end.
  unfoldable pub write_rest : ℕ → ℕ → List ℕ → Step W Bool
  write_rest fuel fd [] w = (next true, w)
  write_rest zero fd (b ∷ buf) w = (endless, w)
  write_rest (suc fuel) fd (b ∷ buf) w =
      let (ret, w') = sys.write fd (b ∷ buf) w in
      elim ret [ none ↦ (next false, w') | some n ↦ write_rest fuel fd (drop n (b ∷ buf)) w' ]

  unfoldable pub insist_write : ℕ → List ℕ → Step W Bool
  unfolding write_rest
  insist_write fd buf = write_rest (length buf) fd buf
