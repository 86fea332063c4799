-- ===== src/Chat/Flow/Leaves.antt =====
-- Conditions on what a step of Virtio_Crypto_Chat/encrypted_chat leaves, where the program goes on.
use operating_systems_lab_nt.Chat.Flow.{Flow, next, exit, endless, overrun, Step, continue}

module _ {S : Type 0} where
  -- What a step leaves where the program goes on.
  abbrev pub Leaves : {A : Type 0} → (A → S → Type 0) → Flow A × S → Type 0
  Leaves Q (next a, s) = Q a s
  Leaves Q (exit code, s) = Unit {0}
  Leaves Q (endless, s) = Unit {0}
  Leaves Q (overrun, s) = Unit {0}

  pub continue-Leaves :
      {A B : Type 0} (Q : A → S → Type 0) (R : B → S → Type 0) (r : Flow A × S) (f : A → Step S B)
      → Leaves Q r
      → ((a : A) (s : S) → Q a s → Leaves R (f a s))
      → Leaves R (continue r.0 f r.1)
  continue-Leaves Q R (next a, s) f h k = k a s h
  continue-Leaves Q R (exit code, s) f h k = tt
  continue-Leaves Q R (endless, s) f h k = tt
  continue-Leaves Q R (overrun, s) f h k = tt

  pub Leaves-mono :
      {A : Type 0} (Q R : A → S → Type 0) (r : Flow A × S)
      → Leaves Q r
      → ((a : A) (s : S) → Q a s → R a s)
      → Leaves R r
  Leaves-mono Q R (next a, s) h k = k a s h
  Leaves-mono Q R (exit code, s) h k = tt
  Leaves-mono Q R (endless, s) h k = tt
  Leaves-mono Q R (overrun, s) h k = tt

  -- A state that does not depend on how the step ends.
  pub always-Leaves :
      {A : Type 0} (Q : A → S → Type 0) (r : Flow A) (s : S) → ((a : A) → Q a s) → Leaves Q (r, s)
  always-Leaves Q (next a) s h = h a
  always-Leaves Q (exit code) s h = tt
  always-Leaves Q endless s h = tt
  always-Leaves Q overrun s h = tt
