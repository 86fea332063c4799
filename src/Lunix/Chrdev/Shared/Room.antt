-- ===== src/Lunix/Chrdev/Shared/Room.antt =====
-- The size of the buffer that the readers of one open file share
-- (Lunix_Device_Driver/lunix-chrdev.c).
use operating_systems_lab_nt.Prelude.{
  ℕ, ap, ◌∙◌, ◌+◌, ◌%◌, ◌^◌, ◌≤◌, ◌≡◌, refl, Bool, true, false, List, ◌∷◌, ◌++◌, Option, some, none,
  ◌>>=◌, arith, if◌then◌else◌, length, length-append, drop, length-drop, leb, Bool-cases, inl, inr,
}
use operating_systems_lab_nt.Lunix.Chrdev.{
  ChrdevState, needs_refresh, sprintf, strlen, state_update, up,
}
use operating_systems_lab_nt.Lunix.Chrdev.Format.{ℤ, text}
use operating_systems_lab_nt.Lunix.Chrdev.Locking.{copy_out-up}
use operating_systems_lab_nt.Lunix.Chrdev.Shared.{
  Pc, Move, call, again, enter, refused, skip, renew, rest, woken, signalled, enter_again,
  restarted, missed, copy, leave, OpenFile, moves, Reach, here, next,
}
use operating_systems_lab_nt.Lunix.Sensor.{Msr, MsrData, Sensor, msr_data}

sprintf-length : (buf chars d : List ℕ) → sprintf buf chars ≡ some d → length d ≡ length buf
sprintf-length buf chars d e = elim (Bool-cases (leb (length chars + 1) (length buf))) [
  | inr n ↦ let stuck : none ≡ some d = rw n at e in cc
  | inl y ↦
      let made : some (chars ++ (0 ∷ drop (length chars + 1) buf)) ≡ some d = rw y at e in
      let same : length (chars ++ (0 ∷ drop (length chars + 1) buf)) ≡ length d = cc in
      let fits : length chars + 1 ≤ length buf = ground (arith, y) in
      omega (
        arith,
        same,
        fits,
        length-append chars (0 ∷ drop (length chars + 1) buf),
        length-drop (length chars + 1) buf,
      )
]

abbrev Roomy : ℕ → Option (Bool × ChrdevState) → Type 0
Roomy n none = Unit {0}
Roomy n (some (b, st)) = length st.buf_data ≡ n

module _ (lookup : Msr → ℕ → ℤ) where
  updated-Roomy :
      (st : ChrdevState) (seen : Option Bool) (page : Option MsrData)
      (printed : MsrData → Option (List ℕ))
      → ((p : MsrData) (d : List ℕ) → printed p ≡ some d → length d ≡ length st.buf_data)
      → Roomy (length st.buf_data) (
          seen >>= λ due.
          if due
          then (page >>= λ p.
              (printed p >>= λ d.
              some (record st { buf_timestamp = p.last_update; buf_data = d; buf_lim = strlen d }))
              >>= λ st'. some (true, st'))
          else some (false, st))
  updated-Roomy st none page printed h = tt
  updated-Roomy st (some false) page printed h = refl
  updated-Roomy st (some true) none printed h = tt
  updated-Roomy st (some true) (some p) printed h = go (printed p) refl
    where
      go :
          (o : Option (List ℕ))
          → printed p ≡ o
          → Roomy (length st.buf_data) (
              (o >>= λ d.
              some (record st { buf_timestamp = p.last_update; buf_data = d; buf_lim = strlen d }))
              >>= λ st'. some (true, st'))
      go none e = tt
      go (some d) e = h p d e

  state_update-Roomy :
      (st : ChrdevState) (checked taken : Sensor)
      → Roomy (length st.buf_data) (state_update lookup st checked taken)
  unfolding state_update
  state_update-Roomy st checked taken =
      updated-Roomy st (needs_refresh st checked) (msr_data taken st.type)
        (λ p. sprintf st.buf_data (text (lookup st.type (p.value % 2 ^ 16))))
        (λ p d. sprintf-length st.buf_data (text (lookup st.type (p.value % 2 ^ 16))) d)

  updated-room :
      (st st' : ChrdevState) (b : Bool) (checked taken : Sensor)
      → state_update lookup st checked taken ≡ some (b, st')
      → length st'.buf_data ≡ length st.buf_data
  updated-room st st' b checked taken e =
      let kept : Roomy (length st.buf_data) (some (b, st')) =
        rw e at (state_update-Roomy st checked taken) in
      kept

  Move-room :
      {st st' : ChrdevState} {pc pc' : Pc} {k : ℕ}
      → Move lookup st pc st' pc' k
      → length st'.buf_data ≡ length st.buf_data
  Move-room {st} (renew checked taken st' e) = updated-room st st' true checked taken e
  Move-room {st} (rest checked taken st' e) = updated-room st st' false checked taken e
  Move-room {st} (copy {f_pos} {cnt} copied r st' f_pos' e) =
      let same : st' ≡ up st = rw e at (copy_out-up lookup copied st f_pos cnt) in
      ap (λ (s : ChrdevState). length s.buf_data) same
  Move-room (call f_pos cnt) = refl
  Move-room (again f_pos cnt) = refl
  Move-room (enter free) = refl
  Move-room refused = refl
  Move-room (skip some_way) = refl
  Move-room woken = refl
  Move-room signalled = refl
  Move-room (enter_again free) = refl
  Move-room restarted = refl
  Move-room (missed e other) = refl
  Move-room leave = refl

  -- The buffer keeps its size.
  pub Reach-room :
      {o p : OpenFile} {k : ℕ}
      → Reach lookup o p k
      → length p.state.buf_data ≡ length o.state.buf_data
  Reach-room here = refl
  Reach-room (next r (moves i at m)) = Move-room m ∙ Reach-room r
