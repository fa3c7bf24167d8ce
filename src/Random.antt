-- ===== src/Random.antt =====
-- onionreq/random.hpp: `pick_random`, over the selection sampling of `std::sample` on forward
-- iterators. `draw r m` is the number between 0 and `m` that the generator gives at draw `r`.
pub mod Sampling
pub mod Prng
use libonionrequests.Common.{
  ℕ, zero, suc, ◌-◌, min, Bool, true, false, List, [], ◌∷◌, length, ltb, Result, ok, err,
  invalid_argument, Random,
}

abbrev pub Draw : Type 0
Draw = ℕ → ℕ → ℕ

module _ {A : Type 0} (draw : Draw) where
  -- The loop of `std::sample`: `n` elements are still wanted; the element at hand is taken if a
  -- number below the count of those left is less than `n`.
  unfoldable pub sample_loop : ℕ → List A → ℕ → List A × ℕ
  sample_loop zero xs r = ([], r)
  sample_loop (suc n) [] r = ([], r)
  sample_loop (suc n) (x ∷ xs) r = elim (ltb (draw r (length xs)) (suc n)) [
    | true ↦ let (ys, r') = sample_loop n xs (suc r) in (x ∷ ys, r')
    | false ↦ sample_loop (suc n) xs (suc r)
  ]

  -- `std::sample(begin, end, out, n, generator)`.
  unfoldable pub sample : ℕ → List A → ℕ → List A × ℕ
  sample n xs r = sample_loop (min n (length xs)) xs r

  -- `_vec[0]`, after the test for an empty vector.
  unfoldable pub first_picked : List A → Random A
  first_picked [] r = err invalid_argument
  first_picked (x ∷ xs) r = ok (x, r)

  -- `pick_random`: a sample of the whole range, and its first element.
  unfoldable pub pick_random : List A → Random A
  unfolding first_picked
  pick_random xs r = let (vec, r') = sample (length xs) xs r in first_picked vec r'
