-- ===== src/Libs/Xed.antt =====
-- What signal-xed25519.cpp calls of libsodium beside the ed25519 group: hashes, the checking of
-- ed25519 signatures, and the field of 2 ^ 255 - 19.
use libonionrequests.Common.{Bool, List, Bytes}

pub record Xed : Type 1 where
  -- `crypto_scalarmult_ed25519_base`, with its flag of success; it clamps the scalar.
  pub base : Bytes → Bool × Bytes
  pub scalar_negate : Bytes → Bytes
  pub scalar_add : Bytes → Bytes → Bytes
  -- `crypto_hash_sha512` and a personalised `crypto_generichash_blake2b` of 64 bytes, of the parts in
  -- order.
  pub sha512 : List Bytes → Bytes
  pub blake2b : Bytes → List Bytes → Bytes
  -- `crypto_sign_ed25519_verify_detached`: signature, message, key.
  pub verify_detached : Bytes → Bytes → Bytes → Bool
  -- `crypto_internal_fe25519`; 32 bytes of an encoding are read.
  pub Field : Type 0
  pub from_bytes : Bytes → Field
  pub to_bytes : Field → Bytes
  pub one : Field
  pub add : Field → Field → Field
  pub sub : Field → Field → Field
  pub mul : Field → Field → Field
  pub invert : Field → Field
