-- ===== src/Common/Digits.antt =====
-- Decimal digits, read back, and texts that are cut at a character.
use Prim.Native.Nat.{ℕ, zero, suc, ◌+◌, ◌-◌, ◌*◌, ◌/◌, ◌%◌, ◌^◌, ◌≤◌, ◌<◌}
use mathlib.Core.Path.{◌≡◌, refl, sym, ap, ap₂, ◌∙◌}
use mathlib.Core.Logic.{◌≢◌, inl, inr}
use mathlib.Core.List.{List, [], ◌∷◌, ◌++◌}
use native.Mathlib.Nat.{pow-suc}
use native.Mathlib.Omega.{arith}
use libonionrequests.Common.Tests.{ltb, ltb→lt, Bool-cases}
use libonionrequests.Common.Lists.{length, All, take, drop, length-append, take-append, drop-append}
use libonionrequests.Common.Text.{Bytes, digits_of, to_decimal}

-- The number of a decimal text behind a number.
abbrev pub number_of : ℕ → Bytes → ℕ
number_of n [] = n
number_of n (c ∷ text) = number_of (10 * n + (c - b'0')) text

abbrev pub IsDigit : ℕ → Type 0
IsDigit c = (b'0' ≤ c) × (c ≤ b'9')

number_of-digits_of :
    (f n : ℕ) (rest : Bytes) → n < 10 ^ f → number_of 0 (digits_of f n rest) ≡ number_of n rest
number_of-digits_of zero n rest h = ap (λ m. number_of m rest) (omega arith)
number_of-digits_of (suc f) n rest h = elim (Bool-cases (ltb n 10)) [
  | inl few ↦ rw few (ap (λ m. number_of m rest) (omega (arith, ltb→lt n 10 few)))
  | inr many ↦ rw many (
      number_of-digits_of f (n / 10) ((b'0' + n % 10) ∷ rest) (omega (arith, pow-suc 10 f))
      ∙ ap (λ m. number_of m rest) (omega arith))
]

digits_of-All : (f n : ℕ) (rest : Bytes) → All IsDigit rest → All IsDigit (digits_of f n rest)
digits_of-All zero n rest h = h
digits_of-All (suc f) n rest h = elim (Bool-cases (ltb n 10)) [
  | inl few ↦ rw few ((omega arith, omega arith), h)
  | inr many ↦ rw many (digits_of-All f (n / 10) _ ((omega arith, omega arith), h))
]

-- Twenty digits are enough: a number of 64 bits is read back.
pub number_of-to_decimal : (n : ℕ) → n < 2 ^ 64 → number_of 0 (to_decimal n) ≡ n
unfolding to_decimal
number_of-to_decimal n h = number_of-digits_of 20 n [] (omega arith)

pub to_decimal-All : (n : ℕ) → All IsDigit (to_decimal n)
unfolding to_decimal
to_decimal-All n = digits_of-All 20 n [] tt

pub to_decimal_injective : (n m : ℕ) → n < 2 ^ 64 → m < 2 ^ 64 → to_decimal n ≡ to_decimal m → n ≡ m
to_decimal_injective n m hn hm e =
    sym (number_of-to_decimal n hn) ∙ ap (number_of 0) e ∙ number_of-to_decimal m hm

module _ {A : Type 0} where
  -- Two lists with ends of one length are cut before the ends.
  pub cut_at_end :
      (xs ys t u : List A) → length t ≡ length u → xs ++ t ≡ ys ++ u → (xs ≡ ys) × (t ≡ u)
  cut_at_end xs ys t u same e =
      let n = length xs in
      let size : length ys ≡ n =
        omega (arith, length-append xs t, length-append ys u, ap length e) in
      (
        sym (take-append n xs t refl) ∙ ap (take n) e ∙ take-append n ys u size,
        sym (drop-append n xs t refl) ∙ ap (drop n) e ∙ drop-append n ys u size,
      )

  not_behind : (c : A) (t xs u : List A) → All (λ x. x ≢ c) t → t ≢ xs ++ c ∷ u
  not_behind c [] [] u h e = cc
  not_behind c [] (x ∷ xs) u h e = cc
  not_behind c (y ∷ t) [] u h e = h.0 cc
  not_behind c (y ∷ t) (x ∷ xs) u h e = not_behind c t xs u h.1 cc

  -- Two lists are cut at the last place where an element stands.
  pub cut_at_last :
      (c : A) (xs ys t u : List A)
      → All (λ x. x ≢ c) t
      → All (λ x. x ≢ c) u
      → xs ++ c ∷ t ≡ ys ++ c ∷ u
      → (xs ≡ ys) × (t ≡ u)
  cut_at_last c [] [] t u ht hu e = (refl, cc)
  cut_at_last c [] (y ∷ ys) t u ht hu e = absurd (not_behind c t ys u ht cc)
  cut_at_last c (x ∷ xs) [] t u ht hu e = absurd (not_behind c u xs t hu cc)
  cut_at_last c (x ∷ xs) (y ∷ ys) t u ht hu e =
      let (front, back) = cut_at_last c xs ys t u ht hu cc in
      let head : x ≡ y = cc in (ap₂ (λ a more. a ∷ more) head front, back)
