-- ===== src/Samples/Base64.antt =====
-- A stand-in for base64 that keeps the lengths, and the reading of a signature.
use libonionrequests.Common.{
  ℕ, ◌-◌, ◌*◌, ◌/◌, ◌%◌, ◌≡◌, ◌∙◌, ◌≢◌, ◌⊎◌, refl, true, false, ◌||◌, ◌==◌, [], ◌∷◌, ◌++◌, Bytes,
  codes, length, length-replicate, length-append, replicate, drop, arith, ok, err, runtime_error,
  if◌then◌else◌,
}
use libonionrequests.Libs.Oxenc.{Oxenc, Base64Laws}
use libonionrequests.Samples.Oxenc.{sample_oxenc}
use libonionrequests.Signature.{Signature, from_base64}
use libonionrequests.Signature.Base64.{from_base64_cases}

-- The number of padding characters at the end, two at most.
abbrev padding : Bytes → ℕ
padding [] = 0
padding (x ∷ []) = if x == b'=' then 1 else 0
padding (x ∷ y ∷ []) = if y == b'=' then (if x == b'=' then 2 else 1) else 0
padding (x ∷ y ∷ z ∷ s) = padding (y ∷ z ∷ s)

abbrev base64_oxenc : Oxenc
base64_oxenc = record sample_oxenc {
  is_base64 = λ s. padding s == 0 || length s % 4 == 0;
  from_base64 = λ s. replicate (3 * (length s - padding s) / 4) 9;
}

two_padded : (t : Bytes) → padding (t ++ b'=' ∷ b'=' ∷ []) ≡ 2
two_padded [] = refl
two_padded (x ∷ []) = refl
two_padded (x ∷ y ∷ []) = refl
two_padded (x ∷ y ∷ z ∷ t) = two_padded (y ∷ z ∷ t)

no_padding : (p m : ℕ) → (p == 0 || m == 0) ≡ true → m ≢ 0 → p ≡ 0
no_padding p m h k = ground arith

base64_laws : Base64Laws base64_oxenc
base64_laws = record {
  from_base64_unpadded = λ s h m.
      length-replicate (3 * (length s - padding s) / 4) 9
      ∙ omega (arith, no_padding (padding s) (length s % 4) h m);
  from_base64_two_padded = λ t h.
      length-replicate (3 * (length (t ++ b'=' ∷ b'=' ∷ []) - padding (t ++ b'=' ∷ b'=' ∷ [])) / 4)
        9
      ∙ rw (two_padded t) (omega (arith, length-append t (b'=' ∷ b'=' ∷ [])));
}

-- 86 characters, and two of padding.
abbrev text : Bytes
text = replicate 86 b'A' ++ codes "=="

from_base64_cases_example :
    ((base64_oxenc.is_base64 text ≡ true)
      × ((length text ≡ 86) ⊎ ((length text ≡ 88) × (drop 86 text ≡ codes "==")))
      × ((sig : Signature) × (from_base64 base64_oxenc (replicate 64 0) text ≡ ok sig)
          × (sig.c ++ sig.r ≡ base64_oxenc.from_base64 text)
          × (length sig.c ≡ 32)
          × (length sig.r ≡ 32)))
    ⊎ (((base64_oxenc.is_base64 text ≡ false)
          ⊎ ((length text ≢ 86) × ¬ ((length text ≡ 88) × (drop 86 text ≡ codes "=="))))
        × (from_base64 base64_oxenc (replicate 64 0) text ≡ err runtime_error))
from_base64_cases_example = from_base64_cases base64_oxenc base64_laws (replicate 64 0) text refl
