-- ===== src/Libs/Evp.antt =====
-- OpenSSL's EVP cipher interface. A context is abstract; a call that reports failure (a result of
-- 0 or less) has no result here. A size handed over as an `int` is its 32-bit pattern.
use libonionrequests.Common.{ℕ, ◌+◌, ◌^◌, ◌≤◌, ◌<◌, ◌≡◌, Option, some, Bytes, length, [], ◌++◌, ◌⊎◌}

pub data Cipher : Type 0 where
  aes_256_cbc aes_256_gcm : Cipher

pub record Evp : Type 1 where
  pub Context : Type 0
  pub iv_length : Cipher → ℕ
  pub block_size : Cipher → ℕ
  pub encrypt_init : Cipher → Bytes → Bytes → Option Context
  pub encrypt_update : Context → Bytes → ℕ → Option (Bytes × Context)
  pub encrypt_final : Context → Option (Bytes × Context)
  pub get_tag : Context → ℕ → Option Bytes
  pub decrypt_init : Cipher → Bytes → Bytes → Option Context
  pub decrypt_update : Context → Bytes → ℕ → Option (Bytes × Context)
  pub set_tag : Context → ℕ → Bytes → Option Context
  pub decrypt_final : Context → Option (Bytes × Context)

-- The documented sizes. What is written up to the end of a message is at most a block more than
-- what was read, whether or not a tag was taken or set before the end; on its own, the update
-- keeps to that bound too. A tag has the size asked for.
pub record EvpSizes (e : Evp) : Type 0 where
  pub iv_cbc : e.iv_length aes_256_cbc ≡ 16
  pub iv_gcm : e.iv_length aes_256_gcm ≡ 12
  pub block_cbc : e.block_size aes_256_cbc ≡ 16
  pub block_gcm : e.block_size aes_256_gcm ≡ 1
  pub encrypt_update_size :
      (c : Cipher) (key iv text : Bytes) {s t : e.Context} {a : Bytes}
      → e.encrypt_init c key iv ≡ some s
      → e.encrypt_update s text (length text) ≡ some (a, t)
      → length a ≤ length text + e.block_size c
  pub encrypt_final_size :
      (c : Cipher) (key iv text : Bytes) {s t u : e.Context} {a b : Bytes}
      → e.encrypt_init c key iv ≡ some s
      → e.encrypt_update s text (length text) ≡ some (a, t)
      → e.encrypt_final t ≡ some (b, u)
      → length a + length b ≤ length text + e.block_size c
  pub get_tag_size :
      (s : e.Context) (n : ℕ) {tag : Bytes} → e.get_tag s n ≡ some tag → length tag ≡ n
  pub decrypt_update_size :
      (c : Cipher) (key iv text : Bytes) {s t : e.Context} {a : Bytes}
      → e.decrypt_init c key iv ≡ some s
      → e.decrypt_update s text (length text) ≡ some (a, t)
      → length a ≤ length text + e.block_size c
  pub decrypt_final_size :
      (c : Cipher) (key iv text tag : Bytes) (n : ℕ) {s t u v : e.Context} {a b : Bytes}
      → e.decrypt_init c key iv ≡ some s
      → e.decrypt_update s text (length text) ≡ some (a, t)
      → (u ≡ t) ⊎ (e.set_tag t n tag ≡ some u)
      → e.decrypt_final u ≡ some (b, v)
      → length a + length b ≤ length text + e.block_size c

-- One message under a key and an iv, encrypted and then decrypted, with a tag of `taglen` bytes
-- where the cipher has one: every call succeeds, the pieces keep to the documented sizes, and
-- decryption gives the message back.
pub record Session (e : Evp) (c : Cipher) (taglen : ℕ) (key iv text : Bytes) : Type 0 where
  pub s₀ : e.Context
  pub s₁ : e.Context
  pub s₂ : e.Context
  pub d₀ : e.Context
  pub d₁ : e.Context
  pub d₂ : e.Context
  pub d₃ : e.Context
  pub body : Bytes
  pub last : Bytes
  pub tag : Bytes
  pub front : Bytes
  pub back : Bytes
  pub enc_init : e.encrypt_init c key iv ≡ some s₀
  pub enc_update : e.encrypt_update s₀ text (length text) ≡ some (body, s₁)
  pub enc_final : e.encrypt_final s₁ ≡ some (last, s₂)
  pub enc_tag : 0 < taglen → e.get_tag s₂ taglen ≡ some tag
  pub no_tag : taglen ≡ 0 → tag ≡ []
  pub dec_init : e.decrypt_init c key iv ≡ some d₀
  pub dec_update : e.decrypt_update d₀ (body ++ last) (length (body ++ last)) ≡ some (front, d₁)
  pub dec_tag : 0 < taglen → e.set_tag d₁ taglen tag ≡ some d₂
  pub dec_untagged : taglen ≡ 0 → d₂ ≡ d₁
  pub dec_final : e.decrypt_final d₂ ≡ some (back, d₃)
  pub restored : front ++ back ≡ text

-- AES-256 in CBC mode (no tag) and in GCM mode (16 bytes) on messages whose sizes fit an `int`.
pub record CipherLaws (e : Evp) : Type 0 where
  pub sizes : EvpSizes e
  pub cbc_session :
      (key iv text : Bytes)
      → length key ≡ 32
      → length iv ≡ 16
      → length text + 16 < 2 ^ 31
      → Session e aes_256_cbc 0 key iv text
  pub gcm_session :
      (key iv text : Bytes)
      → length key ≡ 32
      → length iv ≡ 12
      → length text + 16 < 2 ^ 31
      → Session e aes_256_gcm 16 key iv text
