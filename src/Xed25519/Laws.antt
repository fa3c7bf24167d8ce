-- ===== src/Xed25519/Laws.antt =====
-- What the documentation of libsodium and the ed25519 standard promise to xed25519.
use libonionrequests.Common.{◌+◌, ◌%◌, ◌≡◌, true, [], ◌∷◌, ◌++◌, Bytes, length}
use libonionrequests.Libs.Sodium.{Sodium}
use libonionrequests.Libs.Oxenc.{IsKey32}
use libonionrequests.Libs.Ed25519.{Ed25519}
use libonionrequests.Libs.Xed.{Xed}
use libonionrequests.Signature.{clamp, update}
use libonionrequests.Xed25519.{clear_sign}

-- A scalar on which clamping has no effect.
pub record IsClamped (k : Bytes) : Type 0 where
  pub key : IsKey32 k
  pub clamped : clamp k ≡ k

-- The encoding of the opposite point.
abbrev pub flip_sign : Bytes → Bytes
flip_sign point = update 31 (λ t. (t + 128) % 256) point

pub record XedLaws (sodium : Sodium) (e : Ed25519) (x : Xed) : Type 0 where
  -- A clamped scalar is no multiple of the group's order, so its point is not the neutral one.
  pub base_point :
      (k : Bytes)
      → IsClamped k
      → (A : Bytes) × (e.base_noclamp k ≡ (true, A)) × (x.base k ≡ (true, A)) × IsKey32 A
  -- The opposite scalar gives the opposite point.
  pub opposite :
      (k A : Bytes)
      → IsClamped k
      → e.base_noclamp k ≡ (true, A)
      → e.base_noclamp (x.scalar_negate k) ≡ (true, flip_sign A)
  pub scalar_negate-IsKey32 : (k : Bytes) → IsKey32 k → IsKey32 (x.scalar_negate k)
  pub length-base_noclamp : (s : Bytes) → length (e.base_noclamp s).1 ≡ 32
  pub length-scalarmult_base : (k : Bytes) → length k ≡ 32 → length (sodium.scalarmult_base k) ≡ 32
  pub length-scalar_add : (s t : Bytes) → length (x.scalar_add s t) ≡ 32
  -- The standard's signature R || (H(R || A || M) a + r) is accepted for A = aB and R = rB.
  pub accepted :
      (a A r R msg : Bytes)
      → e.base_noclamp a ≡ (true, A)
      → e.base_noclamp r ≡ (true, R)
      → x.verify_detached
          (R ++ x.scalar_add (e.scalar_mul (e.scalar_reduce (x.sha512 (R ∷ A ∷ msg ∷ []))) a) r)
          msg
          A
        ≡ true
  -- The birational map y = (u - 1) / (u + 1) takes the x25519 key of a scalar to the ed25519 point
  -- of that scalar, but for the sign.
  pub birational :
      (k : Bytes)
      → IsClamped k
      → let u = x.from_bytes (sodium.scalarmult_base k) in
        x.to_bytes (x.mul (x.sub u x.one) (x.invert (x.add u x.one))) ≡ clear_sign (x.base k).1
