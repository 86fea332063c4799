-- ===== src/Chat/Flow.antt =====
-- The control flow of Virtio_Crypto_Chat/encrypted_chat: steps on a state, any of which may end the
-- program.
pub mod Ends
pub mod Leaves
use operating_systems_lab_nt.Prelude.{ℕ}

-- A step goes on with a value, ends the program with a code, has a loop that has not come to its
-- end, or runs out of an array.
pub data Flow (A : Type 0) : Type 0 where
  next : A → Flow A
  exit : ℕ → Flow A
  endless overrun : Flow A

abbrev pub Step : Type 0 → Type 0 → Type 0
Step S A = S → Flow A × S

module _ {S : Type 0} where
  abbrev pub continue : {A B : Type 0} → Flow A → (A → Step S B) → Step S B
  continue (next a) f s = f a s
  continue (exit code) f s = (exit code, s)
  continue endless f s = (endless, s)
  continue overrun f s = (overrun, s)

  infixl 5 ◌>>=◌ ◌>>◌
  abbrev pub ◌>>=◌ : {A B : Type 0} → Step S A → (A → Step S B) → Step S B
  ◌>>=◌ m f s = let (r, s') = m s in continue r f s'

  abbrev pub ◌>>◌ : {B : Type 0} → Step S (Unit {0}) → Step S B → Step S B
  m >> k = m >>= λ _. k

  abbrev pub pure : {A : Type 0} → A → Step S A
  pure a s = (next a, s)
