-- ===== src/Signature.antt =====
-- onionreq/signature.hpp and signature.cpp: signatures in Monero's form.
pub mod Scheme
pub mod Base64
use libonionrequests.Common.{
  ℕ, zero, suc, ◌+◌, ◌-◌, ◌%◌, Bool, true, false, not, ◌||◌, List, [], ◌∷◌, ◌++◌, Bytes, bytes_eq,
  replicate, if◌then◌else◌, ◌==◌, ◌&&◌, codes, length, take, drop, Result, ok, guard, runtime_error,
  ◌>>=◌, ◌>>◌,
}
use libonionrequests.Libs.Oxenc.{Oxenc}
use libonionrequests.Keys.{write_out}
use libonionrequests.Libs.Sodium.{Sodium}
use libonionrequests.Libs.Ed25519.{Ed25519}

-- A call returns, or the process aborts.
pub data Ended {ℓ} (A : Type ℓ) : Type ℓ where
  returned : A → Ended A
  aborted : Ended A

abbrev pub and_then : {A B : Type 0} → Ended A → (A → Ended B) → Ended B
and_then (returned a) f = f a
and_then aborted f = aborted

pub record Signature : Type 0 where
  pub c : Bytes
  pub r : Bytes

-- `size() == 86 || (size() == 88 && substr(86) == "==")`.
unfoldable pub has_signature_size : Bytes → Bool
has_signature_size text =
    length text == 86 || (length text == 88 && bytes_eq (drop 86 text) (codes "=="))

-- `raw` is the memory of the signature, which is not initialised.
unfoldable pub from_base64 : Oxenc → Bytes → Bytes → Result Signature
from_base64 o raw text = do
  guard (o.is_base64 text) runtime_error
  guard (has_signature_size text) runtime_error
  sig ← write_out (o.from_base64 text) raw
  ok (record { c = take 32 sig; r = drop 32 sig })

-- `cn_fast_hash` calls `abort`.
unfoldable pub cn_fast_hash : Bytes → Ended Bytes
cn_fast_hash data_bytes = aborted

-- One byte of a scalar is changed.
unfoldable pub update : ℕ → (ℕ → ℕ) → Bytes → Bytes
update n f [] = []
update zero f (x ∷ s) = f x ∷ s
update (suc n) f (x ∷ s) = x ∷ update n f s

-- `s[0] &= 248; s[31] &= 63; s[31] |= 64;`
unfoldable pub clamp : Bytes → Bytes
clamp s = update 31 (λ x. x % 64 + 64) (update 0 (λ x. x - x % 8) s)

unfoldable pub hash_data : Sodium → Bytes → Bytes
hash_data sodium text = sodium.generichash 32 (text ∷ [])

-- The bytes of the parts, one after another.
abbrev pub concatenate : List Bytes → Bytes
concatenate [] = []
concatenate (part ∷ []) = part
concatenate (part ∷ next ∷ parts) = part ++ concatenate (next ∷ parts)

abbrev pub hash_concatenate : Sodium → ℕ → List Bytes → Bytes
hash_concatenate sodium size parts = sodium.generichash size parts

module _ (sodium : Sodium) (e : Ed25519) where
  -- The scalar x that stands for a random one.
  unfoldable pub nonce : Bytes → Bytes → Bytes → Bytes
  nonce prefix_hash pubkey seckey =
      let hashed_key = sodium.generichash 32 (seckey ∷ []) in
      clamp (e.scalar_reduce (hash_concatenate sodium 64 (hashed_key ∷ pubkey ∷ prefix_hash ∷ [])))

-- `cn_hash` is `cn_fast_hash` in the program.
module _ (sodium : Sodium) (e : Ed25519) (cn_hash : Bytes → Ended Bytes) where
  -- The 32 bytes of the hash stand before 32 zeros.
  unfoldable pub monero_hash_to_scalar : Bytes → Ended Bytes
  monero_hash_to_scalar input =
      and_then (cn_hash input) λ h. returned (e.scalar_reduce (h ++ replicate 32 0))

  unfoldable pub generate_signature : Bytes → Bytes → Bytes → Ended Signature
  generate_signature prefix_hash pubkey seckey =
      let x = nonce sodium e prefix_hash pubkey seckey in
      let point = (e.base_noclamp x).1 in
      and_then (monero_hash_to_scalar (concatenate (prefix_hash ∷ pubkey ∷ point ∷ [])))
        λ c. returned (record { c = c; r = e.scalar_sub x (e.scalar_mul seckey c) })

  -- The last part of `check_signature`, for the point X.
  unfoldable pub check_challenge : Signature → Bytes → Bytes → Bytes → Ended Bool
  check_challenge sig prefix_hash pub_key point =
      and_then (monero_hash_to_scalar (concatenate (prefix_hash ∷ pub_key ∷ point ∷ [])))
        λ expected_c. returned (bytes_eq expected_c sig.c)

  unfoldable pub check_signature : Signature → Bytes → Bytes → Ended Bool
  check_signature sig prefix_hash pub_key =
      let (ok_r, rG) = e.base_noclamp sig.r in
      let (ok_c, cA) = e.scalarmult_noclamp sig.c pub_key in
      let (ok_sum, point) = e.add rG cA in
      if not ok_r
      then returned false
      else if not ok_c
      then returned false
      else if not ok_sum
      then returned false
      else if not (e.is_valid_point point)
      then returned false
      else check_challenge sig prefix_hash pub_key point
