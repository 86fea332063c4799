-- ===== src/Lunix/Protocol/Keeps.antt =====
-- What every call of `lunix_protocol_received_buf` (lunix-protocol.c) leaves behind, in either build
-- and on any chunk.
use operating_systems_lab_nt.Prelude.{
  ℕ, ◌≤◌, ◌≡◌, refl, sym, ap, ◌∙◌, ◌≢◌, ◌⊎◌, inl, inr, Bool, true, false, List, [], ◌∷◌, ◌++◌,
  arith, Bool-cases, All, IsByte, length, Option, none, some, ◌>>=◌, All-append, length-append, ◌+◌,
}
use operating_systems_lab_nt.Lunix.Sensor.{Sensor}
use operating_systems_lab_nt.Lunix.Protocol.{
  end_byte, Parsed, complete, incomplete, failed, parse_state, ProtocolState, in_state,
  received_buf, last_block, read_fields, protocol_init, take_byte,
}
use operating_systems_lab_nt.Lunix.Protocol.Blocks.{IsQuiet, WantsMore, in_state→eq}
use operating_systems_lab_nt.Lunix.Protocol.Machine.{
  deliver, whole, run, run-append, run-append_whole,
}
use operating_systems_lab_nt.Lunix.Protocol.Refine.{
  read_fields_keeps, last-nil, last-cons, run_end, end_full, received_buf-run,
}
use operating_systems_lab_nt.Lunix.Protocol.Stages.{
  Ended, parse_loop-Parses, take_byte-IsValid, state-take_byte,
}
use operating_systems_lab_nt.Lunix.Protocol.Valid.{IsValid, pos-le, specials}

-- The state between two calls.
pub record IsWaiting (st : ProtocolState) : Type 0 where
  pub valid : IsValid st
  pub more : WantsMore st

pub protocol_init-IsWaiting :
    (st : ProtocolState)
    → length st.packet ≡ 300
    → All IsByte st.packet
    → IsWaiting (protocol_init st)
unfolding protocol_init
protocol_init-IsWaiting st l b = record {
  valid = record {
    within = omega arith;
    wanted = refl;
    placed = omega arith;
    buffer = l;
    bytes = b;
    escape = inl refl;
  };
  more = omega arith;
}

-- The state of a call that does not fault.
abbrev Leaves : Option (ProtocolState × List Sensor) → Type 0
Leaves none = Unit
Leaves (some (st, sensors)) = IsWaiting st

bind-Leaves :
    (m : Option (List Sensor)) (st : ProtocolState)
    → IsWaiting st
    → Leaves (m >>= λ sensors. some (st, sensors))
bind-Leaves none st w = tt
bind-Leaves (some sensors) st w = w

module _ (cnt now : ℕ) (sensors : List Sensor) where
  deliver-Leaves :
      (t : ProtocolState)
      → IsValid t
      → WantsMore t ⊎ (whole t ≡ true)
      → Leaves (deliver cnt now sensors t)
  unfolding deliver
  deliver-Leaves t v h = elim (Bool-cases (whole t)) [
    | inl w ↦ rw w (bind-Leaves _ (protocol_init t) (protocol_init-IsWaiting t v.buffer v.bytes))
    | inr w ↦ rw w (record { valid = v; more = ground arith })
  ]

  last_block-Leaves :
      (debug : Bool) (st : ProtocolState) (rest : List ℕ)
      → IsValid st
      → WantsMore st
      → All IsByte rest
      → Leaves (last_block debug cnt now sensors (st, rest))
  last_block-Leaves debug st [] v more bs =
      rw (last-nil debug cnt now sensors st v more (in_state end_byte st) refl)
        (record { valid = v; more = more })
  last_block-Leaves debug st (b ∷ rest) v more bs = elim (Bool-cases (in_state end_byte st)) [
    | inl e ↦
        let here = in_state→eq end_byte st.state e in
        let plain : specials st.state ≡ false = ap specials here in
        rw
          (
            last-cons debug cnt now sensors st v more b rest here,
            run_end debug st v more here b rest,
          )
          (deliver-Leaves (take_byte false b st) (rw plain at (take_byte-IsValid b v more bs.0))
            (inr (ground (arith, end_full debug st v more here b, state-take_byte false b st))))
    | inr ne ↦ unfold last_block in rw ne (record { valid = v; more = more })
  ]

Leaves→IsWaiting :
    (r : Option (ProtocolState × List Sensor)) {st : ProtocolState} {sensors : List Sensor}
    → Leaves r
    → r ≡ some (st, sensors)
    → IsWaiting st
Leaves→IsWaiting r h e = rw e at h

-- Every call on a waiting machine that takes a chunk of bytes without a fault leaves a waiting
-- machine, in either build: each field lies where the packet format puts it, and the position in
-- the packet buffer is at most 265.
pub received_buf-IsWaiting :
    (debug : Bool) (cnt now : ℕ) (st : ProtocolState) (sensors : List Sensor) (buf : List ℕ)
    {st' : ProtocolState} {sensors' : List Sensor}
    → IsWaiting st
    → All IsByte buf
    → received_buf debug cnt now st sensors buf ≡ some (st', sensors')
    → IsWaiting st' × (st'.pos ≤ 265)
received_buf-IsWaiting debug cnt now st sensors buf {st'} {sensors'} w bs e =
    let k = read_fields_keeps debug st buf w.valid w.more bs in
    let q = read_fields debug st buf in
    let l = last_block-Leaves cnt now sensors debug q.0 q.1 k.0 k.1 k.2 in
    let w' : IsWaiting st' =
      Leaves→IsWaiting (last_block debug cnt now sensors q) {sensors = sensors'} l
        (unfold received_buf in e) in
    (w', pos-le w'.valid)

not_failed :
    (buf : List ℕ) (out : Parsed × ProtocolState × List ℕ) → Ended false 0 buf out → out.0 ≢ failed
not_failed buf (complete, st, rest) h = cc
not_failed buf (incomplete, st, rest) h = cc
not_failed buf (failed, st, rest) h = cc

-- On a valid state and a chunk of bytes the release build never gives the chunk up: the check
-- against MAX_PACKET_LEN does not fire.
pub parse_state-ne-failed :
    (st : ProtocolState) (buf : List ℕ)
    → IsValid st
    → All IsByte buf
    → (parse_state false st buf (specials st.state)).0 ≢ failed
unfolding parse_state
parse_state-ne-failed st buf v bs e =
    not_failed buf _ (parse_loop-Parses false 0 (specials st.state) st buf refl v bs).ended e

-- The two parts of a quiet chunk are quiet.
quiet_parts :
    (debug : Bool) (xs ys : List ℕ) → IsQuiet debug (xs ++ ys) → IsQuiet debug xs × IsQuiet debug ys
quiet_parts debug xs ys (inl release) = (inl release, inl release)
quiet_parts debug xs ys (inr few) =
    let sum : length (xs ++ ys) ≡ length xs + length ys = length-append xs ys in
    (inr (omega (arith, few, sum)), inr (omega (arith, few, sum)))

module _ (debug : Bool) (cnt now : ℕ) (sensors : List Sensor) where
  waiting-run :
      (st : ProtocolState) (xs : List ℕ)
      → IsWaiting st
      → All IsByte xs
      → IsQuiet debug xs
      → whole (run st xs).0 ≡ false
      → received_buf debug cnt now st sensors xs ≡ some ((run st xs).0, sensors)
  waiting-run st xs w bx quiet h =
      received_buf-run debug cnt now st sensors xs w.valid w.more bx quiet ∙ unfold deliver in rw h

  -- On a waiting machine, a chunk in which no packet ends may be joined with the next chunk, in the
  -- debugging build where both together have fewer than 50 bytes.
  pub received_buf-append :
      (st : ProtocolState) (xs ys : List ℕ)
      → IsWaiting st
      → All IsByte xs
      → All IsByte ys
      → IsQuiet debug (xs ++ ys)
      → whole (run st xs).0 ≡ false
      → received_buf debug cnt now st sensors (xs ++ ys) ≡ (
          received_buf debug cnt now st sensors xs >>= λ (t, sensors').
          received_buf debug cnt now t sensors' ys)
  received_buf-append st xs ys w bx by quiet h =
      let (quiet_xs, quiet_ys) = quiet_parts debug xs ys quiet in
      let first = waiting-run st xs w bx quiet_xs h in
      let t = (run st xs).0 in
      let w' = (received_buf-IsWaiting debug cnt now st sensors xs w bx first).0 in
      received_buf-run debug cnt now st sensors (xs ++ ys) w.valid w.more
        (All-append IsByte xs ys bx by) quiet
      ∙ rw (first, run-append xs ys st h)
          (sym (received_buf-run debug cnt now t sensors ys w'.valid w'.more by quiet_ys))

  -- On a waiting machine, the bytes behind the end of a packet in the same chunk are lost, whatever
  -- they are, in the debugging build where the chunk has fewer than 50 bytes.
  pub received_buf-drops :
      (st : ProtocolState) (xs ys : List ℕ)
      → IsWaiting st
      → All IsByte xs
      → All IsByte ys
      → IsQuiet debug (xs ++ ys)
      → whole (run st xs).0 ≡ true
      → received_buf debug cnt now st sensors (xs ++ ys) ≡ received_buf debug cnt now st sensors xs
  received_buf-drops st xs ys w bx by quiet h =
      let (quiet_xs, _) = quiet_parts debug xs ys quiet in
      let idle : whole st ≡ false = ground (arith, w.more) in
      received_buf-run debug cnt now st sensors (xs ++ ys) w.valid w.more
        (All-append IsByte xs ys bx by) quiet
      ∙ ap (deliver cnt now sensors) (run-append_whole xs ys st idle h)
      ∙ sym (received_buf-run debug cnt now st sensors xs w.valid w.more bx quiet_xs)
