-- ===== src/Chat/System.antt =====
-- The system that Virtio_Crypto_Chat/encrypted_chat calls: a parameter.
use operating_systems_lab_nt.Prelude.{ℕ, Bool, List, Option}

-- What `select` finds: a signal (EINTR), another error, or which of the connection and the standard
-- input can be read.
pub data Selected : Type 0 where
  interrupted failed : Selected
  ready : (from_peer from_user : Bool) → Selected

-- `accept`: a signal, an error, or a descriptor.
pub data Accepted : Type 0 where
  signalled refused : Accepted
  accepted : ℕ → Accepted

-- The calls, over the system's state `W`. `none` is the result -1, `false` a result that the code
-- takes for an error. `read` is given a descriptor and a size; `ciocgsession` the cipher and the
-- key; `cioccrypt` the session, the operation, the bytes of `src` and the `iv`, and it finds the
-- bytes of `dst`. `in_front` is the byte that lies so many places in front of the array `buf`.
pub record System (W : Type 0) : Type 0 where
  pub read : ℕ → ℕ → W → Option (List ℕ) × W
  pub write : ℕ → List ℕ → W → Option ℕ × W
  pub open_file : List ℕ → W → Option ℕ × W
  pub close : ℕ → W → Bool × W
  pub select : ℕ → W → Selected × W
  pub ciocgsession : ℕ → ℕ → List ℕ → W → Option ℕ × W
  pub cioccrypt : ℕ → ℕ → ℕ → List ℕ → List ℕ → W → Option (List ℕ) × W
  pub ciocfsession : ℕ → ℕ → W → Bool × W
  pub socket : W → Option ℕ × W
  pub gethostbyname : List ℕ → W → Option ℕ
  pub connect : ℕ → ℕ → ℕ → W → Bool × W
  pub shutdown : ℕ → W → Bool × W
  pub bind : ℕ → ℕ → W → Bool × W
  pub listen : ℕ → ℕ → W → Bool × W
  pub accept : ℕ → W → Accepted × W
  pub inet_ntop : W → Bool
  pub in_front : ℕ → W → ℕ
