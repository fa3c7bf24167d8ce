-- ===== src/Samples/Oxenc.antt =====
-- A stand-in for oxenc: real hex and little-endian numbers, no base64, and a base32z that only
-- keeps the lengths.
use libonionrequests.Common.{
  ℕ, suc, ◌+◌, ◌-◌, ◌*◌, ◌/◌, ◌%◌, ◌<◌, ◌≡◌, refl, ap, ap₂, Bool, true, false, ◌&&◌, ◌||◌, [], ◌∷◌,
  ◌++◌, Bytes, All, length, length-append, length-map, length-replicate, map, replicate, ltb, leb,
  le→leb, if◌then◌else◌, arith, zero,
}
use libonionrequests.Libs.Oxenc.{
  Oxenc, HexLaws, LittleLaws, DecodeLaws, Base32Laws, IsByte, IsAscii,
}

abbrev digit : ℕ → ℕ
digit n = if ltb n 10 then 48 + n else if ltb n 16 then 87 + n else 0

abbrev nibble : ℕ → ℕ
nibble c = if ltb c 58 then c - 48 else c - 87

abbrev is_digit : ℕ → Bool
is_digit c = (leb 48 c && ltb c 58) || (leb 97 c && ltb c 103)

abbrev sample_to_hex : Bytes → Bytes
sample_to_hex [] = []
sample_to_hex (x ∷ b) = digit (x / 16) ∷ digit (x % 16) ∷ sample_to_hex b

abbrev sample_from_hex : Bytes → Bytes
sample_from_hex [] = []
sample_from_hex (c ∷ []) = []
sample_from_hex (c ∷ d ∷ h) = (nibble c * 16 + nibble d) ∷ sample_from_hex h

abbrev sample_is_hex : Bytes → Bool
sample_is_hex [] = true
sample_is_hex (c ∷ []) = false
sample_is_hex (c ∷ d ∷ h) = (is_digit c && is_digit d) && sample_is_hex h

abbrev strip : Bytes → Bytes
strip [] = []
strip (zero ∷ s) = []
strip (suc c ∷ s) = c ∷ strip s

abbrev pad : Bytes → Bytes
pad b = map suc b ++ replicate ((8 * length b + 4) / 5 - length b) 0

abbrev pub sample_oxenc : Oxenc
sample_oxenc = record {
  is_hex = sample_is_hex;
  from_hex = sample_from_hex;
  to_hex = sample_to_hex;
  from_hex_size = λ n. n / 2;
  is_base64 = λ s. false;
  from_base64 = λ s. [];
  is_base32z = λ s. leb (8 * length (strip s)) (5 * length s);
  from_base32z = strip;
  to_base32z = pad;
  write_little32 = λ n. n % 256 ∷ n / 256 % 256 ∷ n / 65536 % 256 ∷ n / 16777216 % 256 ∷ [];
  load_little32 = load;
}
  where
    load : Bytes → ℕ
    load (a ∷ b ∷ c ∷ d ∷ s) = a + 256 * b + 65536 * c + 16777216 * d
    load s = 0

digit_lem :
    (n : ℕ) → n < 16 → (is_digit (digit n) ≡ true) × (nibble (digit n) ≡ n) × (digit n < 128)
digit_lem n h = ground arith

is_hex_lem : (b : Bytes) → All IsByte b → sample_is_hex (sample_to_hex b) ≡ true
is_hex_lem [] h = refl
is_hex_lem (x ∷ b) h =
    rw
      ((digit_lem (x / 16) (omega arith)).0, (digit_lem (x % 16) (omega arith)).0, is_hex_lem b h.1)

from_hex_lem : (b : Bytes) → All IsByte b → sample_from_hex (sample_to_hex b) ≡ b
from_hex_lem [] h = refl
from_hex_lem (x ∷ b) h =
    let hi = (digit_lem (x / 16) (omega arith)).1 in
    let lo = (digit_lem (x % 16) (omega arith)).1 in
    ap₂ (λ y c. y ∷ c) (omega arith) (from_hex_lem b h.1)

ascii_lem : (b : Bytes) → All IsByte b → IsAscii (sample_to_hex b)
ascii_lem [] h = tt
ascii_lem (x ∷ b) h =
    ((digit_lem (x / 16) (omega arith)).2, ((digit_lem (x % 16) (omega arith)).2, ascii_lem b h.1))

length_lem : (b : Bytes) → length (sample_to_hex b) ≡ 2 * length b
length_lem [] = refl
length_lem (x ∷ b) = omega (arith, length_lem b)

and_right : (a b : Bool) → (a && b) ≡ true → b ≡ true
and_right true b e = e
and_right false b e = cc

decode_lem : (h : Bytes) → sample_is_hex h ≡ true → 2 * length (sample_from_hex h) ≡ length h
decode_lem [] e = refl
decode_lem (c ∷ []) e = cc
decode_lem (c ∷ d ∷ h) e =
    omega (arith, decode_lem h (and_right (is_digit c && is_digit d) (sample_is_hex h) e))

strip_pad : (b : Bytes) (k : ℕ) → strip (map suc b ++ replicate k 0) ≡ b
strip_pad [] zero = refl
strip_pad [] (suc k) = refl
strip_pad (x ∷ b) k = ap (◌∷◌ x) (strip_pad b k)

length-pad : (b : Bytes) → length (pad b) ≡ (8 * length b + 4) / 5
length-pad b = omega (
  arith,
  length-append (map suc b) (replicate ((8 * length b + 4) / 5 - length b) 0),
  length-map b suc,
  length-replicate {0} {A = ℕ} ((8 * length b + 4) / 5 - length b) 0,
)

pub sample_hex : HexLaws sample_oxenc
sample_hex = record {
  is_hex-to_hex = is_hex_lem;
  from_hex-to_hex = from_hex_lem;
  length-to_hex = length_lem;
  to_hex-IsAscii = ascii_lem;
}

pub sample_little : LittleLaws sample_oxenc
sample_little = record {
  length-write_little32 = λ n. refl;
  load-write_little32 = λ n h. omega arith;
}

pub sample_decode : DecodeLaws sample_oxenc
sample_decode = record {
  length-from_hex = decode_lem;
  length-from_base64 = λ s e. cc;
  length-from_base64_padded = λ t e. cc;
  length-from_base32z = λ s e. ground arith;
}

pub sample_base32 : Base32Laws sample_oxenc
sample_base32 = record {
  is_base32z-to_base32z = λ b h. is_pad b;
  from_base32z-to_base32z = λ b h. strip_pad b _;
  length-to_base32z = length-pad;
}
  where
    is_pad : (b : Bytes) → leb (8 * length (strip (pad b))) (5 * length (pad b)) ≡ true
    is_pad b = rw (strip_pad b _, length-pad b) (le→leb _ _ (omega arith))
