-- ===== src/Samples/Signing.antt =====
-- The theorems on signatures at concrete inputs, over a stand-in for the ed25519 group in which the
-- scalars are their own points and a product is nothing.
use libonionrequests.Common.{◌≡◌, ◌⊎◌, ◌↔◌, true, false, [], Bytes, replicate}
use libonionrequests.Samples.Sodium.{sample_sodium}
use libonionrequests.Libs.Ed25519.{Ed25519}
use libonionrequests.Signature.{
  returned, aborted, Signature, cn_fast_hash, generate_signature, check_signature,
}
use libonionrequests.Signature.Scheme.{HasPoint, check_signature_aborts_iff}

abbrev sample_ed25519 : Ed25519
sample_ed25519 = record {
  scalar_reduce = λ s. s;
  scalar_mul = λ a b. [];
  scalar_sub = λ a b. a;
  base_noclamp = λ s. (true, s);
  scalarmult_noclamp = λ s p. (true, []);
  add = λ p q. (true, p);
  is_valid_point = λ p. true;
}

abbrev ones : Bytes
ones = replicate 32 1

abbrev twos : Bytes
twos = replicate 32 2

abbrev sample_signature : Signature
sample_signature = record { c = ones; r = twos }

check_signature_aborts_iff_example :
    ((check_signature sample_sodium sample_ed25519 cn_fast_hash sample_signature ones twos
        ≡ aborted)
      ↔ HasPoint sample_sodium sample_ed25519 sample_signature twos)
    × ((check_signature sample_sodium sample_ed25519 cn_fast_hash sample_signature ones twos
          ≡ returned false)
        ⊎ (check_signature sample_sodium sample_ed25519 cn_fast_hash sample_signature ones twos
            ≡ aborted))
    × ((seckey : Bytes)
        → generate_signature sample_sodium sample_ed25519 cn_fast_hash ones twos seckey ≡ aborted)
check_signature_aborts_iff_example =
    check_signature_aborts_iff sample_sodium sample_ed25519 sample_signature ones twos
