-- ===== src/Xed25519/Scheme.antt =====
-- What is signed with an x25519 key is accepted for its public key.
use libonionrequests.Common.{
  ℕ, zero, suc, ◌+◌, ◌%◌, ◌<◌, ◌≤◌, ◌≡◌, refl, sym, ap, subst, ◌∙◌, Bool, true, false, [], ◌∷◌,
  ◌++◌, Bytes, length, length-append, get_elem?, some, All, Bool-cases, inl, inr, ok, arith, eq→==,
  le→leb,
}
use libonionrequests.Libs.Sodium.{Sodium}
use libonionrequests.Libs.Oxenc.{IsByte, IsKey32}
use libonionrequests.Libs.Ed25519.{Ed25519}
use libonionrequests.Libs.Xed.{Xed}
use libonionrequests.Signature.{update}
use libonionrequests.Xed25519.{
  is_negative, clear_sign, montx_to_edy, compute_r, hram, signing_keys, sign, pubkey, verify,
}
use libonionrequests.Xed25519.Assign.{constant_time_conditional_assign_lem}
use libonionrequests.Xed25519.Laws.{IsClamped, flip_sign, XedLaws}

-- What an update of one byte does depends on that byte only.
update_ext :
    (n : ℕ) (f g : ℕ → ℕ) (s : Bytes) (t : ℕ)
    → get_elem? s n ≡ some t
    → f t ≡ g t
    → update n f s ≡ update n g s
unfolding update
update_ext n f g [] t h e = cc
update_ext zero f g (y ∷ s) t h e = ground (arith)
update_ext (suc n) f g (y ∷ s) t h e = ap (◌∷◌ y) (update_ext n f g s t h e)

update_id : (n : ℕ) (s : Bytes) → update n (λ t. t) s ≡ s
unfolding update
update_id n [] = refl
update_id zero (y ∷ s) = refl
update_id (suc n) (y ∷ s) = ap (◌∷◌ y) (update_id n s)

byte_at :
    (n : ℕ) (s : Bytes)
    → n < length s
    → All IsByte s
    → (t : ℕ) × (get_elem? s n ≡ some t) × (t < 256)
byte_at n [] h b = absurd (omega arith)
byte_at zero (y ∷ s) h b = (y, refl, b.0)
byte_at (suc n) (y ∷ s) h b = byte_at n s (omega arith) b.1

top_byte_set : (A : Bytes) (t : ℕ) → get_elem? A 31 ≡ some t → is_negative A ≡ true → 128 ≤ t
unfolding is_negative
top_byte_set A t e h = ground (arith)

top_byte_clear : (A : Bytes) (t : ℕ) → get_elem? A 31 ≡ some t → is_negative A ≡ false → t < 128
unfolding is_negative
top_byte_clear A t e h = ground (arith)

clear_sign_negative : (A : Bytes) → IsKey32 A → is_negative A ≡ true → flip_sign A ≡ clear_sign A
unfolding is_negative clear_sign
clear_sign_negative A (size, bytes) h =
    let (t, e, small) = byte_at 31 A (omega arith) bytes in
    let sign_set = top_byte_set A t e h in
    update_ext 31 (λ t. (t + 128) % 256) (λ t. t % 128) A t e (omega arith)

clear_sign_positive : (A : Bytes) → IsKey32 A → is_negative A ≡ false → clear_sign A ≡ A
unfolding clear_sign
clear_sign_positive A (size, bytes) h =
    let (t, e, small) = byte_at 31 A (omega arith) bytes in
    let sign_clear = top_byte_clear A t e h in
    update_ext 31 (λ t. t % 128) (λ t. t) A t e (omega arith) ∙ update_id 31 A

module _ (sodium : Sodium) (e : Ed25519) (x : Xed) (laws : XedLaws sodium e x) where
  -- The scalar and the point with which a clamped key signs belong together, and the point is the one
  -- that the verifier derives from the public key.
  signing_keys_lem :
      (k : Bytes)
      → IsClamped k
      → let (a, A) = signing_keys sodium e x k in
        (e.base_noclamp a ≡ (true, A)) × (pubkey sodium e x (sodium.scalarmult_base k) ≡ ok A)
  unfolding signing_keys pubkey montx_to_edy
  signing_keys_lem k c =
      let (A, noclamp, base, key) = laws.base_point k c in
      let negated = laws.scalar_negate-IsKey32 k c.key in
      let long =
        le→leb 32 (length (sodium.scalarmult_base k))
          (omega (arith, laws.length-scalarmult_base k c.key.0)) in
      let choice =
        constant_time_conditional_assign_lem k (x.scalar_negate k) (is_negative A)
          (c.key.0 ∙ sym negated.0) c.key.1 negated.1 in
      elim (Bool-cases (is_negative A)) [
        | inl n ↦ (
          rw (base, choice, n)
              (laws.opposite k A c noclamp
                ∙ ap (λ (p : Bytes). (true, p)) (clear_sign_negative A key n)),
          rw (long, base)
              (ap ok (laws.birational k c ∙ ap (λ (p : Bool × Bytes). clear_sign p.1) base)),
        )
        | inr n ↦ (
          rw (base, choice, n)
              (noclamp ∙ ap (λ (p : Bytes). (true, p)) (sym (clear_sign_positive A key n))),
          rw (long, base)
              (ap ok (laws.birational k c ∙ ap (λ (p : Bool × Bytes). clear_sign p.1) base)),
        )
      ]

  -- A message signed with a clamped x25519 key is accepted for the public key of that key, unless the
  -- scalar drawn is a multiple of the group's order.
  pub verify-sign :
      (k msg R : Bytes) (draw : ℕ)
      → IsClamped k
      → e.base_noclamp (compute_r sodium e x (signing_keys sodium e x k).0 msg draw) ≡ (true, R)
      → (sig : Bytes) × (sign sodium e x k msg draw ≡ ok (sig, suc draw))
        × (verify sodium e x sig (sodium.scalarmult_base k) msg ≡ ok true)
  unfolding sign verify hram
  verify-sign k msg R draw c drawn =
      let (a, A) = signing_keys sodium e x k in
      let (pair, same) = signing_keys_lem k c in
      let r = compute_r sodium e x a msg draw in
      let S = x.scalar_add (e.scalar_mul (hram sodium e x R A msg) a) r in
      let point : (e.base_noclamp r).1 ≡ R = ap (λ (p : Bool × Bytes). p.1) drawn in
      let point_size = subst (λ (b : Bytes). length b ≡ 32) point (laws.length-base_noclamp r) in
      let key_test = eq→== (length k) 32 c.key.0 in
      let sig_test = eq→== (length (R ++ S)) 64 (
        omega (
          arith,
          length-append R S,
          laws.length-scalar_add (e.scalar_mul (hram sodium e x R A msg) a) r,
        )) in
      let public_test =
        eq→== (length (sodium.scalarmult_base k)) 32 (laws.length-scalarmult_base k c.key.0) in
      (
        R ++ S,
        rw (key_test, point) refl,
        rw (sig_test, public_test, same) (ap ok (laws.accepted a A r R msg pair drawn)),
      )
