-- ===== src/Random/Sampling.antt =====
-- What `std::sample` and `pick_random` can answer.
use libonionrequests.Common.{
  ℕ, zero, suc, ◌+◌, ◌≤◌, ◌≡◌, refl, ap, List, [], ◌∷◌, length, ltb, lt→ltb, Bool-cases, inl, inr,
  min, ok, arith,
}
use mathlib.Core.List.{Sublistᴰ}
use libonionrequests.Random.{Draw, sample_loop, sample, pick_random}

-- The documented range of `std::uniform_int_distribution`.
abbrev pub InRange : Draw → Type 0
InRange draw = (r m : ℕ) → draw r m ≤ m

module _ {A : Type 0} (draw : Draw) (fair : InRange draw) where
  sample_loop_all :
      (xs : List A) (n r : ℕ) → n ≡ length xs → sample_loop draw n xs r ≡ (xs, r + length xs)
  unfolding sample_loop
  sample_loop_all [] zero r h = ap (λ (k : ℕ). ([], k)) (omega arith)
  sample_loop_all [] (suc n) r h = absurd (omega arith)
  sample_loop_all (x ∷ xs) zero r h = absurd (omega arith)
  sample_loop_all (x ∷ xs) (suc n) r h =
      let e = lt→ltb (draw r (length xs)) (suc n) (omega (arith, fair r (length xs))) in
      let rest = sample_loop_all xs n (suc r) (omega arith) in
      rw (e, sample_loop, rest) (ap (λ (k : ℕ). (x ∷ xs, k)) (omega arith))

  length-sample_loop :
      (n : ℕ) (xs : List A) (r : ℕ) → n ≤ length xs → length (sample_loop draw n xs r).0 ≡ n
  unfolding sample_loop
  length-sample_loop zero xs r h = refl
  length-sample_loop (suc n) [] r h = absurd (omega arith)
  length-sample_loop (suc n) (x ∷ xs) r h = elim (Bool-cases (ltb (draw r (length xs)) (suc n))) [
    | inl e ↦ rw (e, sample_loop) (ap suc (length-sample_loop n xs (suc r) (omega arith)))
    | inr e ↦
        rw (e, sample_loop)
          (length-sample_loop (suc n) xs (suc r) (ground (arith, fair r (length xs))))
  ]

  -- What is sampled stands in the range in the same order.
  pub sample_loop-Sublistᴰ : (n : ℕ) (xs : List A) (r : ℕ) → Sublistᴰ (sample_loop draw n xs r).0 xs
  unfolding sample_loop
  sample_loop-Sublistᴰ zero [] r = Sublistᴰ.slnil
  sample_loop-Sublistᴰ zero (x ∷ xs) r =
      Sublistᴰ.cons (unfold sample_loop in sample_loop-Sublistᴰ zero xs r)
  sample_loop-Sublistᴰ (suc n) [] r = Sublistᴰ.slnil
  sample_loop-Sublistᴰ (suc n) (x ∷ xs) r = elim (Bool-cases (ltb (draw r (length xs)) (suc n))) [
    | inl e ↦ rw (e, sample_loop) (Sublistᴰ.cons-cons refl (sample_loop-Sublistᴰ n xs (suc r)))
    | inr e ↦ rw (e, sample_loop) (Sublistᴰ.cons (sample_loop-Sublistᴰ (suc n) xs (suc r)))
  ]

  -- A sample has the size asked for, or that of the range if it is smaller.
  pub length-sample :
      (n : ℕ) (xs : List A) (r : ℕ) → length (sample draw n xs r).0 ≡ min n (length xs)
  unfolding sample
  length-sample n xs r = length-sample_loop (min n (length xs)) xs r (omega arith)

  -- Whatever numbers the generator draws within the bounds that it is given, `pick_random` picks the
  -- first element of a range that is not empty, after as many draws as the range has elements.
  pub pick_random_first :
      (x : A) (xs : List A) (r : ℕ) → pick_random draw (x ∷ xs) r ≡ ok (x, r + suc (length xs))
  unfolding pick_random sample
  pick_random_first x xs r =
      let e : min (length (x ∷ xs)) (length (x ∷ xs)) ≡ length (x ∷ xs) = omega arith in
      rw (e, sample_loop_all (x ∷ xs) (suc (length xs)) r refl)
