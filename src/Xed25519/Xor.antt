-- ===== src/Xed25519/Xor.antt =====
-- The laws of `^` on which a masked assignment rests.
use Prim.Native.Nat.{bit_xor, bit_and, digits, differ, bit_xor-bitwise}
use native.Mathlib.Nat.{pow-suc}
use libonionrequests.Common.{
  ℕ, zero, suc, ◌+◌, ◌*◌, ◌/◌, ◌%◌, ◌^◌, ◌≤◌, ◌<◌, ◌≡◌, refl, ◌∙◌, Bool, true, ◌&&◌, ◌==◌, arith,
}

abbrev xor_by : ℕ → ℕ → ℕ → ℕ
xor_by fuel a b = digits (λ rest. rest) differ fuel a b

-- More fuel than the first number needs changes nothing.
same_digits : (n a b : ℕ) → a ≤ n → (m : ℕ) → a ≤ m → xor_by n a b ≡ xor_by m a b
same_digits zero zero b p zero q = refl
same_digits zero zero b p (suc m) q = refl
same_digits (suc n) zero b p zero q = refl
same_digits (suc n) zero b p (suc m) q = refl
same_digits zero (suc a) b p m q = absurd (omega arith)
same_digits (suc n) (suc a) b p zero q = absurd (omega arith)
same_digits (suc n) (suc a) b p (suc m) q =
    omega (arith, same_digits n (suc a / 2) (b / 2) (omega arith) m (omega arith))

zero-bit_xor : (b : ℕ) → bit_xor 0 b ≡ b
zero-bit_xor b = bit_xor-bitwise 0 b

last_digit : (a b : ℕ) → bit_xor a b ≡ bit_xor (a / 2) (b / 2) * 2 + differ (a % 2) (b % 2)
last_digit zero b = omega (arith, zero-bit_xor b, zero-bit_xor (b / 2))
last_digit (suc a) b = omega (
  arith,
  bit_xor-bitwise (suc a / 2) (b / 2),
  same_digits a (suc a / 2) (b / 2) (omega arith) (suc a / 2) (omega arith),
  bit_xor-bitwise (suc a) b,
)

-- The difference of two digits.
differ-lt-two : (x y : ℕ) → x < 2 → y < 2 → differ x y < 2
differ-lt-two zero y h k = k
differ-lt-two (suc x) zero h k = h
differ-lt-two (suc zero) (suc y) h k = omega arith
differ-lt-two (suc (suc x)) (suc y) h k = absurd (omega arith)

differ-differ : (x y : ℕ) → x < 2 → y < 2 → differ x (differ x y) ≡ y
differ-differ zero y h k = refl
differ-differ (suc zero) zero h k = refl
differ-differ (suc zero) (suc zero) h k = refl
differ-differ (suc x) (suc (suc y)) h k = absurd (omega arith)
differ-differ (suc (suc x)) y h k = absurd (omega arith)

differ-zero : (x : ℕ) → differ x 0 ≡ x
differ-zero zero = refl
differ-zero (suc x) = refl

bit_xor-zero_fuel : (n a : ℕ) → a ≤ n → bit_xor a 0 ≡ a
bit_xor-zero_fuel n zero h = zero-bit_xor 0
bit_xor-zero_fuel zero (suc a) h = absurd (omega arith)
bit_xor-zero_fuel (suc n) (suc a) h = omega (
  arith,
  last_digit (suc a) 0,
  differ-zero (suc a % 2),
  bit_xor-zero_fuel n (suc a / 2) (omega arith),
)

pub bit_xor-zero : (a : ℕ) → bit_xor a 0 ≡ a
bit_xor-zero a = bit_xor-zero_fuel a a (omega arith)

bit_xor_back : (n a b : ℕ) → a ≤ n → bit_xor a (bit_xor a b) ≡ b
bit_xor_back n zero b h = zero-bit_xor (bit_xor 0 b) ∙ zero-bit_xor b
bit_xor_back zero (suc a) b h = absurd (omega arith)
bit_xor_back (suc n) (suc a) b h =
    let low = differ-lt-two (suc a % 2) (b % 2) (omega arith) (omega arith) in
    let step = last_digit (suc a) b in
    let half : bit_xor (suc a) b / 2 ≡ bit_xor (suc a / 2) (b / 2) = omega arith in
    let digit : bit_xor (suc a) b % 2 ≡ differ (suc a % 2) (b % 2) = omega arith in
    last_digit (suc a) (bit_xor (suc a) b)
    ∙ rw
        (
          half,
          digit,
          bit_xor_back n (suc a / 2) (b / 2) (omega arith),
          differ-differ (suc a % 2) (b % 2) (omega arith) (omega arith),
        )
        (omega arith)

-- A number xored twice is gone.
pub bit_xor-bit_xor : (a b : ℕ) → bit_xor a (bit_xor a b) ≡ b
bit_xor-bit_xor a b = bit_xor_back a a b (omega arith)

bit_xor-lt_pow : (k a b : ℕ) → a < 2 ^ k → b < 2 ^ k → bit_xor a b < 2 ^ k
bit_xor-lt_pow zero zero b h k = rw (zero-bit_xor b) k
bit_xor-lt_pow zero (suc a) b h k = absurd (omega arith)
bit_xor-lt_pow (suc n) a b h k = omega (
  arith,
  pow-suc 2 n,
  last_digit a b,
  differ-lt-two (a % 2) (b % 2) (omega arith) (omega arith),
  bit_xor-lt_pow n (a / 2) (b / 2) (omega (arith, pow-suc 2 n)) (omega (arith, pow-suc 2 n)),
)

-- Bytes stay bytes.
pub bit_xor-lt_byte : (a b : ℕ) → a < 256 → b < 256 → bit_xor a b < 256
bit_xor-lt_byte a b h k = bit_xor-lt_pow 8 a b h k

-- The masks of all ones and of no ones.
all_below : ℕ → (ℕ → Bool) → Bool
all_below zero test = true
all_below (suc n) test = test n && all_below n test

all_below_lem : (n x : ℕ) (test : ℕ → Bool) → x < n → all_below n test ≡ true → test x ≡ true
unfolding all_below
all_below_lem zero x test h e = absurd (omega arith)
all_below_lem (suc n) x test h e = ground (arith, all_below_lem n x test)

masks : all_below 256 (λ x. bit_and x 255 == x && bit_and x 0 == 0) ≡ true
unfolding all_below
masks = refl

pub bit_and-masks : (x : ℕ) → x < 256 → (bit_and x 255 ≡ x) × (bit_and x 0 ≡ 0)
bit_and-masks x h =
    let e = all_below_lem 256 x (λ x. bit_and x 255 == x && bit_and x 0 == 0) h masks in
    ground arith
