-- ===== src/Attach/Flow.antt =====
-- Functions of Lunix_Device_Driver/lunix-attach.c that change the program's state and return early.
use operating_systems_lab_nt.Lunix.Kernel.{Ret}

-- A step goes on with a value, leaves its function by `return`, or is a fault.
pub data Flow (A : Type 0) : Type 0 where
  next : A → Flow A
  return : Ret → Flow A
  fault : Flow A

abbrev pub Step : Type 0 → Type 0 → Type 0
Step S A = S → Flow A × S

module _ {S : Type 0} where
  abbrev pub continue : {A B : Type 0} → Flow A → (A → Step S B) → Step S B
  continue (next a) f s = f a s
  continue (return r) f s = (return r, s)
  continue fault f s = (fault, s)

  infixl 5 ◌>>=◌ ◌>>◌
  abbrev pub ◌>>=◌ : {A B : Type 0} → Step S A → (A → Step S B) → Step S B
  ◌>>=◌ m f s = continue (m s).0 f (m s).1

  abbrev pub ◌>>◌ : {B : Type 0} → Step S (Unit {0}) → Step S B → Step S B
  m >> k = m >>= λ _. k
