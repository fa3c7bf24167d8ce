-- ===== src/Samples/Xed.antt =====
-- A stand-in for the group and the field of xed25519: a scalar's point is the scalar, brought to 32
-- bytes, with the top bit turned over. A signature is accepted if its second half is the key's point.
use libonionrequests.Common.{
  ℕ, zero, suc, ◌+◌, ◌%◌, ◌≡◌, refl, sym, ap, ◌∙◌, Bool, true, [], ◌∷◌, ◌++◌, Bytes, length,
  length-append, length-map, length-take, take, drop, drop-append, take-append, replicate, map, All,
  bytes_eq, bytes_eq_refl, arith, ok,
}
use libonionrequests.Libs.Oxenc.{IsByte, IsKey32}
use libonionrequests.Libs.Ed25519.{Ed25519}
use libonionrequests.Libs.Xed.{Xed}
use libonionrequests.Samples.Sodium.{sample_sodium}
use libonionrequests.Signature.{update, clamp}
use libonionrequests.Xed25519.{
  clear_sign, signing_keys, compute_r, sign, verify, constant_time_conditional_assign,
}
use libonionrequests.Xed25519.Laws.{IsClamped, flip_sign, XedLaws}
use libonionrequests.Xed25519.Assign.{constant_time_conditional_assign_lem}
use libonionrequests.Xed25519.Scheme.{verify-sign}

abbrev fit : Bytes → Bytes
fit s = take 32 (s ++ replicate 32 0)

abbrev point_of : Bytes → Bytes
point_of s = flip_sign (fit s)

abbrev pub group : Ed25519
group = record {
  scalar_reduce = λ s. s;
  scalar_mul = λ h a. a;
  scalar_sub = λ a b. a;
  base_noclamp = λ s. (true, point_of s);
  scalarmult_noclamp = λ s p. (true, p);
  add = λ p q. (true, p);
  is_valid_point = λ p. true;
}

abbrev pub field : Xed
field = record {
  base = λ s. (true, point_of s);
  scalar_negate = flip_sign;
  scalar_add = λ s t. point_of s;
  sha512 = λ parts. [];
  blake2b = λ personal parts. replicate 64 3;
  verify_detached = λ sig msg A. bytes_eq (drop 32 sig) A;
  Field = Bytes;
  from_bytes = λ b. b;
  to_bytes = λ f. clear_sign (flip_sign f);
  one = [];
  add = λ f g. f;
  sub = λ f g. f;
  mul = λ f g. f;
  invert = λ f. f;
}

length-update : (n : ℕ) (f : ℕ → ℕ) (s : Bytes) → length (update n f s) ≡ length s
unfolding update
length-update n f [] = refl
length-update zero f (y ∷ s) = refl
length-update (suc n) f (y ∷ s) = ap suc (length-update n f s)

flip-All : (n : ℕ) (s : Bytes) → All IsByte s → All IsByte (update n (λ t. (t + 128) % 256) s)
unfolding update
flip-All n [] h = tt
flip-All zero (y ∷ s) h = (omega arith, h.1)
flip-All (suc n) (y ∷ s) h = (h.0, flip-All n s h.1)

flip-IsKey32 : (s : Bytes) → IsKey32 s → IsKey32 (flip_sign s)
flip-IsKey32 s (size, bytes) = (length-update 31 _ s ∙ size, flip-All 31 s bytes)

fit_full : (s : Bytes) → length s ≡ 32 → fit s ≡ s
fit_full s h = take-append 32 s (replicate 32 0) h

length-point_of : (s : Bytes) → length (point_of s) ≡ 32
length-point_of s = omega (
  arith,
  length-update 31 (λ t. (t + 128) % 256) (fit s),
  length-take 32 (s ++ replicate 32 0),
  length-append s (replicate 32 0),
)

bytes_mod : (s : Bytes) → All IsByte s → map (λ y. y % 256) s ≡ s
bytes_mod [] h = refl
bytes_mod (y ∷ s) h = rw (bytes_mod s h.1) (ap (λ (z : ℕ). z ∷ s) (omega arith))

accepted_lem :
    (a A R : Bytes) → point_of a ≡ A → length R ≡ 32 → bytes_eq (drop 32 (R ++ point_of a)) A ≡ true
accepted_lem a A R h size = rw (drop-append 32 R (point_of a) size, h) (bytes_eq_refl A)

abbrev second {ℓ} : {A : Type ℓ} → Bool × A → A
second p = p.1

group-XedLaws : XedLaws sample_sodium group field
group-XedLaws = record {
  base_point = λ k c. (point_of k, refl, refl, rw (fit_full k (c.key.0)) (flip-IsKey32 k c.key));
  opposite = λ k A c h.
      ap (λ (s : Bytes). (true, flip_sign s))
        (fit_full (flip_sign k) ((flip-IsKey32 k c.key).0)
          ∙ ap flip_sign (sym (fit_full k (c.key.0)))
          ∙ ap second h);
  scalar_negate-IsKey32 = flip-IsKey32;
  length-base_noclamp = length-point_of;
  length-scalarmult_base = λ k h. length-map k (λ y. y % 256) ∙ h;
  length-scalar_add = λ s t. length-point_of s;
  accepted = λ a A r R msg h k.
      accepted_lem a A R (ap second h) (ap length (sym (ap second k)) ∙ length-point_of r);
  birational = λ k c.
      ap (λ (s : Bytes). clear_sign (flip_sign s))
        (bytes_mod k (c.key.1) ∙ sym (fit_full k (c.key.0)));
}

-- Its point has the sign bit set, so that signing takes the opposite scalar.
abbrev pub clamped_key : Bytes
clamped_key = 8 ∷ replicate 30 7 ++ 65 ∷ []

clamped_key-IsClamped : IsClamped clamped_key
unfolding clamp update
clamped_key-IsClamped = record { key = (refl, omega arith); clamped = refl }

verify-sign_example :
    (sig : Bytes) × (sign sample_sodium group field clamped_key (replicate 5 1) 4 ≡ ok (sig, 5))
    × (verify sample_sodium group field sig
          (sample_sodium.scalarmult_base clamped_key)
          (replicate 5 1)
        ≡ ok true)
verify-sign_example =
    verify-sign sample_sodium group field group-XedLaws clamped_key (replicate 5 1)
      (point_of (
        compute_r sample_sodium group field (signing_keys sample_sodium group field clamped_key).0
          (replicate 5 1) 4))
      4 clamped_key-IsClamped refl

constant_time_conditional_assign_lem_example :
    constant_time_conditional_assign (1 ∷ 200 ∷ []) (7 ∷ 255 ∷ []) true ≡ 7 ∷ 255 ∷ []
constant_time_conditional_assign_lem_example =
    constant_time_conditional_assign_lem (1 ∷ 200 ∷ []) (7 ∷ 255 ∷ []) true refl (omega arith)
      (omega arith)
