-- ===== src/Signature/Scheme.antt =====
-- What the calls of the scheme come to, with a `cn_fast_hash` that aborts.
use libonionrequests.Common.{◌≡◌, ◌⊎◌, ◌↔◌, refl, ap, true, false, inl, inr, Bool-cases, Bytes}
use libonionrequests.Libs.Sodium.{Sodium}
use libonionrequests.Libs.Ed25519.{Ed25519}
use libonionrequests.Signature.{
  returned, aborted, Signature, cn_fast_hash, monero_hash_to_scalar, generate_signature,
  check_challenge, check_signature,
}

module _ (sodium : Sodium) (e : Ed25519) where
  -- The point X = rG + cA of a signature and a key can be computed, and is valid.
  pub record HasPoint (sig : Signature) (pub_key : Bytes) : Type 0 where
    pub r_point : Bytes
    pub c_point : Bytes
    pub point : Bytes
    pub base_multiple : e.base_noclamp sig.r ≡ (true, r_point)
    pub key_multiple : e.scalarmult_noclamp sig.c pub_key ≡ (true, c_point)
    pub sum : e.add r_point c_point ≡ (true, point)
    pub valid : e.is_valid_point point ≡ true

  refused_or_HasPoint :
      (sig : Signature) (prefix_hash pub_key : Bytes)
      → (check_signature sodium e cn_fast_hash sig prefix_hash pub_key ≡ returned false)
        ⊎ ((check_signature sodium e cn_fast_hash sig prefix_hash pub_key ≡ aborted)
            × HasPoint sig pub_key)
  unfolding check_signature check_challenge monero_hash_to_scalar cn_fast_hash
  refused_or_HasPoint sig prefix_hash pub_key =
      let (ok_r, rG) = e.base_noclamp sig.r in
      let (ok_c, cA) = e.scalarmult_noclamp sig.c pub_key in
      let (ok_sum, point) = e.add rG cA in
      elim (Bool-cases ok_r) [
        | inr f ↦ inl (rw f refl)
        | inl r ↦ elim (Bool-cases ok_c) [
          | inr f ↦ inl (rw (r, f) refl)
          | inl c ↦ elim (Bool-cases ok_sum) [
            | inr f ↦ inl (rw (r, c, f) refl)
            | inl a ↦ elim (Bool-cases (e.is_valid_point point)) [
              | inr f ↦ inl (rw (r, c, a, f) refl)
              | inl v ↦ inr (
                rw (r, c, a, v) refl,
                record {
                  r_point = rG;
                  c_point = cA;
                  point = point;
                  base_multiple = ap (λ b. (b, rG)) r;
                  key_multiple = ap (λ b. (b, cA)) c;
                  sum = ap (λ b. (b, point)) a;
                  valid = v;
                },
              )
            ]
          ]
        ]
      ]

  -- As the program is built, `check_signature` accepts nothing, and it aborts on a signature exactly if the
  -- point rG + cA can be computed, its two multiples and their sum, and is valid; on any other it returns
  -- `false`. `generate_signature` always aborts.
  pub check_signature_aborts_iff :
      (sig : Signature) (prefix_hash pub_key : Bytes)
      → ((check_signature sodium e cn_fast_hash sig prefix_hash pub_key ≡ aborted)
          ↔ HasPoint sig pub_key)
        × ((check_signature sodium e cn_fast_hash sig prefix_hash pub_key ≡ returned false)
            ⊎ (check_signature sodium e cn_fast_hash sig prefix_hash pub_key ≡ aborted))
        × ((seckey : Bytes)
            → generate_signature sodium e cn_fast_hash prefix_hash pub_key seckey ≡ aborted)
  unfolding generate_signature check_signature check_challenge monero_hash_to_scalar cn_fast_hash
  check_signature_aborts_iff sig prefix_hash pub_key =
      let cases = refused_or_HasPoint sig prefix_hash pub_key in
      (
        (
          λ a. elim cases [ inl f ↦ cc | inr (b, h) ↦ h ],
          λ h. rw (h.base_multiple, h.key_multiple, h.sum, h.valid) refl,
        ),
        elim cases [ inl f ↦ inl f | inr (b, h) ↦ inr b ],
        λ seckey. refl,
      )
