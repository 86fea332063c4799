-- ===== src/Chat/Flow/Ends.antt =====
-- Conditions on how a step of Virtio_Crypto_Chat/encrypted_chat ends, and how they compose.
use operating_systems_lab_nt.Prelude.{◌≡◌}
use operating_systems_lab_nt.Chat.Flow.{Flow, next, exit, endless, overrun, Step, continue}

module _ {S : Type 0} where
  -- A step ends: it goes on and leaves what `Q` says, or it ends the program with the code 1.
  abbrev pub Ends : {A : Type 0} → (A → S → Type 0) → Flow A × S → Type 0
  Ends Q (next a, s) = Q a s
  Ends Q (exit code, s) = code ≡ 1
  Ends Q (endless, s) = ⊥
  Ends Q (overrun, s) = ⊥

  pub continue-Ends :
      {A B : Type 0} (Q : A → S → Type 0) (R : B → S → Type 0) (r : Flow A × S) (f : A → Step S B)
      → Ends Q r
      → ((a : A) (s : S) → Q a s → Ends R (f a s))
      → Ends R (continue r.0 f r.1)
  continue-Ends Q R (next a, s) f h k = k a s h
  continue-Ends Q R (exit code, s) f h k = h
  continue-Ends Q R (endless, s) f h k = h
  continue-Ends Q R (overrun, s) f h k = h

  pub Ends-mono :
      {A : Type 0} (Q R : A → S → Type 0) (r : Flow A × S)
      → Ends Q r
      → ((a : A) (s : S) → Q a s → R a s)
      → Ends R r
  Ends-mono Q R (next a, s) h k = k a s h
  Ends-mono Q R (exit code, s) h k = h
  Ends-mono Q R (endless, s) h k = h
  Ends-mono Q R (overrun, s) h k = h
