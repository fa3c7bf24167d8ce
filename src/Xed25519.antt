-- ===== src/Xed25519.antt =====
-- onionreq/signal-xed25519.hpp and signal-xed25519.cpp: signatures with x25519 keys.
pub mod Xor
pub mod Assign
pub mod Laws
pub mod Scheme
use Prim.Native.Nat.{bit_xor, bit_and}
use libonionrequests.Common.{
  ℕ, suc, ◌+◌, ◌%◌, ◌/◌, Bool, true, false, not, List, [], ◌∷◌, ◌++◌, Bytes, codes, length, map,
  take, drop, leb, ◌==◌, Option, none, some, get_elem?, Result, ok, requires, ◌>>=◌, ◌>>◌, Random,
  if◌then◌else◌,
}
use libonionrequests.Libs.Sodium.{Sodium}
use libonionrequests.Libs.Ed25519.{Ed25519}
use libonionrequests.Libs.Xed.{Xed}
use libonionrequests.Signature.{update}

-- A loop over two arrays of one size.
abbrev pub zip_with : (ℕ → ℕ → ℕ) → Bytes → Bytes → Bytes
zip_with op [] g = []
zip_with op (a ∷ f) [] = []
zip_with op (a ∷ f) (b ∷ g) = op a b ∷ zip_with op f g

-- `(unsigned char) (-(signed char) b)`.
unfoldable pub mask_of : Bool → ℕ
mask_of true = 255
mask_of false = 0

-- The three loops: the differences, the mask over them, and the result in the place of `f`.
unfoldable pub constant_time_conditional_assign : Bytes → Bytes → Bool → Bytes
unfolding mask_of
constant_time_conditional_assign f g b =
    let x = zip_with bit_xor f g in
    let x' = map (λ d. bit_and d (mask_of b)) x in zip_with bit_xor f x'

-- `A[31] >> 7`, as a flag, and `A[31] &= 0x7f`.
unfoldable pub is_negative : Bytes → Bool
is_negative point = elim (get_elem? point 31) [ some top ↦ not (top / 128 == 0) | none ↦ false ]

unfoldable pub clear_sign : Bytes → Bytes
clear_sign point = update 31 (λ x. x % 128) point

abbrev pub personality : Bytes
personality = codes "xed25519signatur"

module _ (sodium : Sodium) (e : Ed25519) (x : Xed) where
  unfoldable pub montx_to_edy : x.Field → x.Field
  montx_to_edy u = let um1 = x.sub u x.one in let up1 = x.invert (x.add u x.one) in x.mul um1 up1

  -- r = H(a || M || Z) mod L, for 64 random bytes Z.
  unfoldable pub compute_r : Bytes → Bytes → ℕ → Bytes
  compute_r a msg draw =
      e.scalar_reduce (x.blake2b personality (a ∷ msg ∷ sodium.random_bytes draw 64 ∷ []))

  -- H(R || A || M) mod L, of the first 32 bytes at `R`.
  unfoldable pub hram : Bytes → Bytes → Bytes → Bytes
  hram R A msg = e.scalar_reduce (x.sha512 (R ∷ A ∷ msg ∷ []))

  -- The keys a and A that a signature is made with: negated if the sign bit of the point is set.
  unfoldable pub signing_keys : Bytes → Bytes × Bytes
  signing_keys privkey =
      let point = (x.base privkey).1 in
      let negative = is_negative point in
      (
        constant_time_conditional_assign privkey (x.scalar_negate privkey) negative,
        clear_sign point,
      )

  -- `sign` asserts the size of the key, whose first 32 bytes it copies.
  unfoldable pub sign : Bytes → Bytes → Random Bytes
  sign curve25519_privkey msg draw = do
    requires (length curve25519_privkey == 32)
    let (a, A) = signing_keys curve25519_privkey
    let r = compute_r a msg draw
    let R = (e.base_noclamp r).1
    let S = x.scalar_add (e.scalar_mul (hram R A msg) a) r
    ok (R ++ S, suc draw)

  -- `pubkey` reads 32 bytes of its argument, whose size it does not test.
  unfoldable pub pubkey : Bytes → Result Bytes
  pubkey curve25519_pubkey = do
    requires (leb 32 (length curve25519_pubkey))
    ok (x.to_bytes (montx_to_edy (x.from_bytes curve25519_pubkey)))

  unfoldable pub verify : Bytes → Bytes → Bytes → Result Bool
  verify signature curve25519_pubkey msg = do
    requires (length signature == 64)
    requires (length curve25519_pubkey == 32)
    ed_pubkey ← pubkey curve25519_pubkey
    ok (x.verify_detached signature msg ed_pubkey)
