-- ===== src/Libs/Ed25519.antt =====
-- The ed25519 group of libsodium, on encoded points and scalars. A call gives its flag of success and
-- what it leaves in the output buffer.
use libonionrequests.Common.{Bool, Bytes}

pub record Ed25519 : Type 0 where
  pub scalar_reduce : Bytes → Bytes
  pub scalar_mul : Bytes → Bytes → Bytes
  pub scalar_sub : Bytes → Bytes → Bytes
  pub base_noclamp : Bytes → Bool × Bytes
  pub scalarmult_noclamp : Bytes → Bytes → Bool × Bytes
  pub add : Bytes → Bytes → Bool × Bytes
  pub is_valid_point : Bytes → Bool
