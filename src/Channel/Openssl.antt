-- ===== src/Channel/Openssl.antt =====
-- The AES half of channel_encryption.cpp: the keys, and the two functions over OpenSSL.
pub mod Session
pub mod Defined
use libonionrequests.Common.{
  ℕ, suc, ◌+◌, ◌-◌, ◌%◌, ◌^◌, Bytes, [], ◌∷◌, codes, length, take, drop, ltb, leb, if◌then◌else◌,
  Result, ok, guard, requires, or_throw, ◌>>=◌, ◌>>◌, runtime_error, Random,
}
use libonionrequests.Libs.{Libs}
use libonionrequests.Libs.Sodium.{Sodium}
use libonionrequests.Libs.Evp.{Evp, Cipher}
use libonionrequests.Channel.Buffer.{Buffer, allocate, put}

abbrev pub salt : Bytes
salt = codes "LOKI"

module _ (s : Sodium) where
  unfoldable pub calculate_shared_secret : Bytes → Bytes → Result Bytes
  calculate_shared_secret seckey pubkey = or_throw (s.scalarmult seckey pubkey) runtime_error

  unfoldable pub derive_symmetric_key : Bytes → Bytes → Result Bytes
  unfolding calculate_shared_secret
  derive_symmetric_key seckey pubkey = do
    key ← calculate_shared_secret seckey pubkey
    ok (s.hmac_sha256 salt (key ∷ []))

-- A `size_t` handed over as an `int`, by its bit pattern.
abbrev pub as_int : ℕ → ℕ
as_int n = n % 2 ^ 32

-- `if (taglen > 0 && EVP_CIPHER_CTX_ctrl(ctx, EVP_CTRL_GCM_GET_TAG, taglen, o) <= 0) throw`.
unfoldable pub append_tag : (e : Evp) → e.Context → ℕ → Buffer → Result Buffer
append_tag e ctx taglen o =
    if ltb 0 taglen
    then (or_throw (e.get_tag ctx taglen) runtime_error >>= λ tag. put o tag)
    else ok o

-- `if (!tag.empty() && EVP_CIPHER_CTX_ctrl(ctx, EVP_CTRL_GCM_SET_TAG, taglen, tag) <= 0) throw`.
unfoldable pub check_tag : (e : Evp) → e.Context → ℕ → Bytes → Result e.Context
check_tag e ctx taglen tag =
    if ltb 0 (length tag) then or_throw (e.set_tag ctx taglen tag) runtime_error else ok ctx

module _ (l : Libs) (cipher : Cipher) (taglen : ℕ) where
  unfoldable pub encrypt_openssl : Bytes → Bytes → Random Bytes
  encrypt_openssl plaintext key r = do
    let iv_length = l.evp.iv_length cipher
    let iv = l.sodium.random_bytes r iv_length
    let size = iv_length + length plaintext + l.evp.block_size cipher + taglen
    o₀ ← put (allocate size) iv
    ctx₀ ← or_throw (l.evp.encrypt_init cipher key iv) runtime_error
    (body, ctx₁) ←
        or_throw (l.evp.encrypt_update ctx₀ plaintext (as_int (length plaintext))) runtime_error
    o₁ ← put o₀ body
    (last, ctx₂) ← or_throw (l.evp.encrypt_final ctx₁) runtime_error
    o₂ ← put o₁ last
    output ← append_tag l.evp ctx₂ taglen o₂
    ok (output.written, suc r)

  -- `decrypt_openssl` from the call of `EVP_DecryptInit_ex` on. The iv is read through a pointer,
  -- all its length: a shorter view leaves that undefined.
  unfoldable pub decrypt_parts : Bytes → Bytes → Bytes → Bytes → Result Bytes
  decrypt_parts iv body tag key = do
    requires (leb (l.evp.iv_length cipher) (length iv))
    ctx₀ ← or_throw (l.evp.decrypt_init cipher key iv) runtime_error
    (front, ctx₁) ← or_throw (l.evp.decrypt_update ctx₀ body (as_int (length body))) runtime_error
    o₀ ← put (allocate (length body + l.evp.block_size cipher)) front
    ctx₂ ← check_tag l.evp ctx₁ taglen tag
    (back, ctx₃) ← or_throw (l.evp.decrypt_final ctx₂) runtime_error
    output ← put o₀ back
    ok output.written

  -- The iv is cut off the front of the input and the tag off its end.
  unfoldable pub decrypt_openssl : Bytes → Bytes → Result Bytes
  decrypt_openssl ciphertext key = do
    let iv = take (l.evp.iv_length cipher) ciphertext
    let rest = drop (length iv) ciphertext
    guard (leb taglen (length rest)) runtime_error
    let tag = drop (length rest - taglen) rest
    let body = take (length rest - length tag) rest
    decrypt_parts iv body tag key
