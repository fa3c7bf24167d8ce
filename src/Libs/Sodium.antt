-- ===== src/Libs/Sodium.antt =====
-- libsodium. Random values are a function of the number of draws made before: nothing is assumed
-- of that function but the sizes.
use libonionrequests.Libs.Oxenc.{IsKey32}
use libonionrequests.Common.{ℕ, ◌+◌, ◌≡◌, List, Option, some, Bytes, length}

pub record Sodium : Type 0 where
  -- `randombytes_buf` at a draw, for a size.
  pub random_bytes : ℕ → ℕ → Bytes
  -- `crypto_box_keypair` at a draw: the public and the secret key.
  pub box_keypair : ℕ → Bytes × Bytes
  -- `crypto_scalarmult` of a secret and a public key; it may fail.
  pub scalarmult : Bytes → Bytes → Option Bytes
  pub scalarmult_base : Bytes → Bytes
  -- `crypto_sign_ed25519_sk_to_pk` and `crypto_scalarmult_ed25519_base_noclamp`.
  pub sign_sk_to_pk : Bytes → Bytes
  pub ed25519_base_noclamp : Bytes → Bytes
  -- `crypto_auth_hmacsha256_init` with a key, the updates in order, and `_final`.
  pub hmac_sha256 : Bytes → List Bytes → Bytes
  -- `crypto_generichash_init` for an output size, the updates in order, and `_final`.
  pub generichash : ℕ → List Bytes → Bytes
  -- `crypto_aead_xchacha20poly1305_ietf_encrypt` and `_decrypt`: nonce, key, text.
  pub aead_encrypt : Bytes → Bytes → Bytes → Bytes
  pub aead_decrypt : Bytes → Bytes → Bytes → Option Bytes

-- crypto_scalarmult_BYTES; crypto_aead_xchacha20poly1305_ietf_NPUBBYTES, _ABYTES and _KEYBYTES.
abbrev pub scalarmult_bytes : ℕ
scalarmult_bytes = 32

abbrev pub npubbytes : ℕ
npubbytes = 24

abbrev pub abytes : ℕ
abytes = 16

abbrev pub keybytes : ℕ
keybytes = 32

-- X25519: key pairs are made by `crypto_scalarmult_base`, and the two sides of an exchange between
-- such pairs compute the same secret.
pub record ExchangeLaws (s : Sodium) : Type 0 where
  pub box_keypair_public : (r : ℕ) → (s.box_keypair r).0 ≡ s.scalarmult_base (s.box_keypair r).1
  pub length-box_keypair : (r : ℕ) → length (s.box_keypair r).1 ≡ 32
  pub scalarmult_base-IsKey32 : (a : Bytes) → length a ≡ 32 → IsKey32 (s.scalarmult_base a)
  pub agreement :
      (a b : Bytes)
      → length a ≡ 32
      → length b ≡ 32
      → (z : Bytes) × (s.scalarmult a (s.scalarmult_base b) ≡ some z)
        × (s.scalarmult b (s.scalarmult_base a) ≡ some z)
        × (length z ≡ scalarmult_bytes)

-- The sizes of what is drawn and hashed.
pub record SizeLaws (s : Sodium) : Type 0 where
  pub length-random_bytes : (r n : ℕ) → length (s.random_bytes r n) ≡ n
  pub length-hmac_sha256 : (k : Bytes) (ms : List Bytes) → length (s.hmac_sha256 k ms) ≡ 32
  pub length-generichash : (n : ℕ) (ms : List Bytes) → length (s.generichash n ms) ≡ n

-- XChaCha20-Poly1305: a tag is added, decryption strips it, and undoes encryption.
pub record AeadLaws (s : Sodium) : Type 0 where
  pub length-aead_encrypt :
      (nonce key text : Bytes) → length (s.aead_encrypt nonce key text) ≡ length text + abytes
  pub length-aead_decrypt :
      (nonce key cipher text : Bytes)
      → s.aead_decrypt nonce key cipher ≡ some text
      → length text + abytes ≡ length cipher
  pub aead_decrypt-aead_encrypt :
      (nonce key text : Bytes)
      → length nonce ≡ npubbytes
      → length key ≡ keybytes
      → s.aead_decrypt nonce key (s.aead_encrypt nonce key text) ≡ some text
