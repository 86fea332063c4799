-- ===== src/Chat/Write/Delivery.antt =====
-- What comes of `insist_write`, on a system whose writes make progress.
use operating_systems_lab_nt.Prelude.{
  ℕ, zero, suc, ◌≤◌, ◌<◌, ◌≡◌, refl, sym, ap, ◌∙◌, Bool, true, false, List, [], ◌∷◌, ◌++◌,
  append_assoc, append-nil, Option, none, some, arith, length, take, drop, length-drop,
}
use operating_systems_lab_nt.Chat.Flow.{Flow, next, exit, endless, overrun}
use operating_systems_lab_nt.Chat.System.{System}
use operating_systems_lab_nt.Chat.Write.{write_rest, insist_write}

-- What is documented of `write` on a stream: it takes at least one byte and at most what it is
-- given, and what it has taken follows what was written before. `out` is what was written so far.
pub record Writes {W : Type 0} (sys : System W) : Type 0 where
  pub out : ℕ → W → List ℕ
  pub progress :
      (fd : ℕ) (buf : List ℕ) (n : ℕ) (w w' : W)
      → 0 < length buf
      → sys.write fd buf w ≡ (some n, w')
      → (0 < n) × (n ≤ length buf) × (out fd w' ≡ out fd w ++ take n buf)

take-drop : {A : Type 0} (n : ℕ) (xs : List A) → take n xs ++ drop n xs ≡ xs
take-drop zero xs = refl
take-drop (suc n) [] = refl
take-drop (suc n) (x ∷ xs) = ap (◌∷◌ x) (take-drop n xs)

module _ {W : Type 0} (sys : System W) (writes : Writes sys) where
  -- The writing of `buf` to `fd` from `w` on ends; where it does not report an error, all of `buf`
  -- has been written.
  abbrev pub Delivered : ℕ → List ℕ → W → Flow Bool × W → Type 0
  Delivered fd buf w (next true, w') = writes.out fd w' ≡ writes.out fd w ++ buf
  Delivered fd buf w (next false, w') = Unit {0}
  Delivered fd buf w (exit code, w') = ⊥
  Delivered fd buf w (endless, w') = ⊥
  Delivered fd buf w (overrun, w') = ⊥

  module _ (fd : ℕ) (buf : List ℕ) (n : ℕ) (w w1 : W)
      (more : writes.out fd w1 ≡ writes.out fd w ++ take n buf) where
    rest-Delivered : (r : Flow Bool × W) → Delivered fd (drop n buf) w1 r → Delivered fd buf w r
    rest-Delivered (next true, w') h =
        h
        ∙ rw (more, append_assoc (writes.out fd w) (take n buf) (drop n buf), take-drop n buf) refl
    rest-Delivered (next false, w') h = tt
    rest-Delivered (exit code, w') h = h
    rest-Delivered (endless, w') h = h
    rest-Delivered (overrun, w') h = h

  -- One turn of the loop, where `rest` is what it does with the bytes left.
  write-Delivered :
      (fuel fd : ℕ) (buf : List ℕ) (rest : List ℕ → W → Flow Bool × W) (w : W)
      → 0 < length buf
      → length buf ≤ fuel
      → ((n : ℕ) (w1 : W)
          → length (drop n buf) < fuel
          → Delivered fd (drop n buf) w1 (rest (drop n buf) w1))
      → (ret : Option ℕ) (w1 : W) → sys.write fd buf w ≡ (ret, w1)
      → Delivered fd buf w (elim ret [ none ↦ (next false, w1) | some n ↦ rest (drop n buf) w1 ])
  write-Delivered fuel fd buf rest w h l ih none w1 e = tt
  write-Delivered fuel fd buf rest w h l ih (some n) w1 e =
      let p = writes.progress fd buf n w w1 h e in
      rest-Delivered fd buf n w w1 p.2 _ (ih n w1 (omega (arith, length-drop n buf, p.0)))

  write_rest-Delivered :
      (fuel fd : ℕ) (buf : List ℕ) (w : W)
      → length buf ≤ fuel
      → Delivered fd buf w (write_rest sys fuel fd buf w)
  unfolding write_rest
  write_rest-Delivered fuel fd [] w h = sym (append-nil _)
  write_rest-Delivered zero fd (b ∷ buf) w h = absurd (omega arith)
  write_rest-Delivered (suc fuel) fd (b ∷ buf) w h =
      write-Delivered (suc fuel) fd (b ∷ buf) (write_rest sys fuel fd) w (omega arith) h
        (λ n w1 l. write_rest-Delivered fuel fd (drop n (b ∷ buf)) w1 (omega arith)) _ _ refl

  -- Where every write takes one byte or more or fails, insist_write comes to its end, whatever part
  -- of the bytes each write takes; where it does not report an error, all the bytes have been
  -- written, in order and once.
  pub insist_write-Delivered :
      (fd : ℕ) (buf : List ℕ) (w : W) → Delivered fd buf w (insist_write sys fd buf w)
  unfolding insist_write
  insist_write-Delivered fd buf w = write_rest-Delivered (length buf) fd buf w (omega arith)
