-- ===== src/Libs/Oxenc.antt =====
-- oxenc: hex, base64 and base32z text, and 32-bit little-endian integers.
use libonionrequests.Common.{
  ℕ, ◌+◌, ◌*◌, ◌/◌, ◌^◌, ◌≤◌, ◌<◌, ◌%◌, ◌≡◌, ◌≢◌, Bool, true, Bytes, All, length, ◌++◌, ◌∷◌, [],
}

pub record Oxenc : Type 0 where
  pub is_hex : Bytes → Bool
  pub from_hex : Bytes → Bytes
  pub to_hex : Bytes → Bytes
  -- The number of bytes that so many digits decode to.
  pub from_hex_size : ℕ → ℕ
  pub is_base64 : Bytes → Bool
  pub from_base64 : Bytes → Bytes
  pub is_base32z : Bytes → Bool
  pub from_base32z : Bytes → Bytes
  pub to_base32z : Bytes → Bytes
  -- `write_host_as_little<uint32_t>` and `load_little_to_host<uint32_t>`.
  pub write_little32 : ℕ → Bytes
  pub load_little32 : Bytes → ℕ

abbrev pub IsAscii : Bytes → Type 0
IsAscii = All (λ c. c < 128)

abbrev pub IsByte : ℕ → Type 0
IsByte x = x < 256

-- A key of 32 bytes.
abbrev pub IsKey32 : Bytes → Type 0
IsKey32 key = (length key ≡ 32) × All IsByte key

-- Hex printing: two digits a byte, and decoding inverts it.
pub record HexLaws (o : Oxenc) : Type 0 where
  pub is_hex-to_hex : (b : Bytes) → All IsByte b → o.is_hex (o.to_hex b) ≡ true
  pub from_hex-to_hex : (b : Bytes) → All IsByte b → o.from_hex (o.to_hex b) ≡ b
  pub length-to_hex : (b : Bytes) → length (o.to_hex b) ≡ 2 * length b
  pub to_hex-IsAscii : (b : Bytes) → All IsByte b → IsAscii (o.to_hex b)

-- Four bytes hold a 32-bit number, and loading them gives it back.
pub record LittleLaws (o : Oxenc) : Type 0 where
  pub length-write_little32 : (n : ℕ) → length (o.write_little32 n) ≡ 4
  pub load-write_little32 : (n : ℕ) → n < 2 ^ 32 → o.load_little32 (o.write_little32 n) ≡ n

-- Decoding: two digits make a byte, four characters of base64 at most three bytes, where a
-- padding character stands for none, and eight of base32z at most five.
pub record DecodeLaws (o : Oxenc) : Type 0 where
  pub length-from_hex : (h : Bytes) → o.is_hex h ≡ true → 2 * length (o.from_hex h) ≡ length h
  pub length-from_base64 :
      (s : Bytes) → o.is_base64 s ≡ true → 4 * length (o.from_base64 s) ≤ 3 * length s
  pub length-from_base64_padded :
      (t : Bytes)
      → o.is_base64 (t ++ b'=' ∷ []) ≡ true
      → 4 * length (o.from_base64 (t ++ b'=' ∷ [])) ≤ 3 * length t
  pub length-from_base32z :
      (s : Bytes) → o.is_base32z s ≡ true → 8 * length (o.from_base32z s) ≤ 5 * length s

-- Printing in base32z: five bits a character, and decoding inverts it.
pub record Base32Laws (o : Oxenc) : Type 0 where
  pub is_base32z-to_base32z : (b : Bytes) → All IsByte b → o.is_base32z (o.to_base32z b) ≡ true
  pub from_base32z-to_base32z : (b : Bytes) → All IsByte b → o.from_base32z (o.to_base32z b) ≡ b
  pub length-to_base32z : (b : Bytes) → length (o.to_base32z b) ≡ (8 * length b + 4) / 5

-- Base64: text whose length is no multiple of four has no padding, and two padding characters stand
-- for the bytes that are missing from the last three.
pub record Base64Laws (o : Oxenc) : Type 0 where
  pub from_base64_unpadded :
      (s : Bytes)
      → o.is_base64 s ≡ true
      → length s % 4 ≢ 0
      → length (o.from_base64 s) ≡ 3 * length s / 4
  pub from_base64_two_padded :
      (t : Bytes)
      → o.is_base64 (t ++ b'=' ∷ b'=' ∷ []) ≡ true
      → length (o.from_base64 (t ++ b'=' ∷ b'=' ∷ [])) ≡ 3 * length t / 4
