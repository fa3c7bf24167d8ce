-- ===== src/Channel/Safety.antt =====
-- Which calls of channel_encryption.cpp keep inside their buffers, and which do not.
use libonionrequests.Common.{
  ℕ, ◌≤◌, ◌<◌, ◌^◌, ◌≡◌, ◌≢◌, ◌⊎◌, inl, inr, refl, Bytes, [], length, take, drop, length-take,
  le→leb, lt→leb, Result, undefined, or_throw-Defined, runtime_error, Option-cases, ◌>>=◌, arith,
  ◌↔◌, some, ◌∷◌,
}
use native.Mathlib.Decide.{dec_lt}
use libonionrequests.Libs.{Libs}
use libonionrequests.Libs.Sodium.{Sodium, SizeLaws, AeadLaws}
use libonionrequests.Libs.Evp.{EvpSizes, aes_256_cbc, aes_256_gcm}
use libonionrequests.Channel.Openssl.{
  decrypt_openssl, decrypt_parts, calculate_shared_secret, derive_symmetric_key, salt,
}
use libonionrequests.Channel.EncType.{EncryptType, aes_cbc, aes_gcm, xchacha20}
use libonionrequests.Channel.Openssl.Defined.{encrypt_openssl-Defined, decrypt_openssl-Defined}
use libonionrequests.Channel.Chacha.Defined.{seal-Defined, unseal-Defined}
use libonionrequests.Channel.{
  ChannelEncryption, encrypt, decrypt, encrypt_cbc, decrypt_cbc, encrypt_gcm, decrypt_gcm,
  encrypt_xchacha20, decrypt_xchacha20,
}

-- A call that fails before it reads or writes is defined, and so is one that goes on safely.
secret-Defined :
    (s : Sodium) (a b : Bytes) {A : Type 0} (f : Bytes → Result A)
    → ((z : Bytes) → f z ≢ undefined)
    → (calculate_shared_secret s a b >>= f) ≢ undefined
unfolding calculate_shared_secret
secret-Defined s a b f h = or_throw-Defined (s.scalarmult a b) runtime_error f (λ z e. h z)

derived-Defined :
    (s : Sodium) (a b : Bytes) {A : Type 0} (f : Bytes → Result A)
    → ((k : Bytes) → f k ≢ undefined)
    → (derive_symmetric_key s a b >>= f) ≢ undefined
unfolding derive_symmetric_key calculate_shared_secret
derived-Defined s a b f h = elim (Option-cases (s.scalarmult a b)) [
  | inl e ↦ rw e (λ p. cc)
  | inr (z, e) ↦ rw e (h (s.hmac_sha256 salt (z ∷ [])))
]

module _ (l : Libs) (sizes : EvpSizes l.evp) (aead : AeadLaws l.sodium)
    (self : ChannelEncryption) where
  -- No text of less than 2 ^ 31 bytes makes `encrypt` write past the string that it allocates.
  pub encrypt-Defined :
      SizeLaws l.sodium
      → (t : EncryptType) (text pubkey : Bytes) (r : ℕ) → length text < 2 ^ 31
      → encrypt l self t text pubkey r ≢ undefined
  unfolding encrypt encrypt_cbc encrypt_gcm encrypt_xchacha20
  encrypt-Defined drawn xchacha20 text pubkey r h =
      seal-Defined l.sodium aead self.public_key self.private_key self.server text pubkey r
  encrypt-Defined drawn aes_gcm text pubkey r h =
      derived-Defined l.sodium self.private_key pubkey _
        (λ k. encrypt_openssl-Defined l sizes aes_256_gcm 16 k drawn text r h)
  encrypt-Defined drawn aes_cbc text pubkey r h =
      secret-Defined l.sodium self.private_key pubkey _
        (λ z. encrypt_openssl-Defined l sizes aes_256_cbc 0 z drawn text r h)

  -- `decrypt` of less than 2 ^ 31 bytes reads and writes inside its buffers, except in CBC mode on
  -- an input that is shorter than an iv.
  pub decrypt-Defined :
      (t : EncryptType) (c pubkey : Bytes)
      → length c < 2 ^ 31
      → (t ≢ aes_cbc) ⊎ (16 ≤ length c)
      → decrypt l self t c pubkey ≢ undefined
  unfolding decrypt decrypt_cbc decrypt_gcm decrypt_xchacha20
  decrypt-Defined xchacha20 c pubkey h k =
      unseal-Defined l.sodium aead self.public_key self.private_key self.server c pubkey
  decrypt-Defined aes_gcm c pubkey h k =
      derived-Defined l.sodium self.private_key pubkey _
        (λ key. decrypt_openssl-Defined l sizes aes_256_gcm 16 key c h (inr (omega arith)))
  decrypt-Defined aes_cbc c pubkey h (inl k) = absurd (k refl)
  decrypt-Defined aes_cbc c pubkey h (inr k) =
      secret-Defined l.sodium self.private_key pubkey _ (λ z.
        decrypt_openssl-Defined l sizes aes_256_cbc 0 z c h (inl (omega (arith, sizes.iv_cbc))))

  decrypt_cbc_short :
      (c pubkey z : Bytes)
      → l.sodium.scalarmult self.private_key pubkey ≡ some z
      → length c < 16
      → decrypt l self aes_cbc c pubkey ≡ undefined
  unfolding decrypt decrypt_cbc calculate_shared_secret decrypt_openssl decrypt_parts
  decrypt_cbc_short c pubkey z e h = rw (
    e,
    sizes.iv_cbc,
    le→leb 0 (length (drop (length (take 16 c)) c)) (omega arith),
    lt→leb 16 (length (take 16 c)) (omega (arith, length-take 16 c)),
  )

  pub undefined_cbc :
      (t : EncryptType) (c pubkey : Bytes)
      → length c < 2 ^ 31
      → decrypt l self t c pubkey ≡ undefined
      → (t ≡ aes_cbc) × (length c < 16)
  undefined_cbc xchacha20 c pubkey h u =
      absurd (decrypt-Defined xchacha20 c pubkey h (inl (λ p. cc)) u)
  undefined_cbc aes_gcm c pubkey h u = absurd (decrypt-Defined aes_gcm c pubkey h (inl (λ p. cc)) u)
  undefined_cbc aes_cbc c pubkey h u = elim (dec_lt (length c) 16) [
    | yes short ↦ (refl, short)
    | no long ↦ absurd (decrypt-Defined aes_cbc c pubkey h (inr (omega arith)) u)
  ]

  -- Where the key exchange succeeds, `decrypt` of less than 2 ^ 31 bytes is undefined (it reads past
  -- its input) exactly in CBC mode on an input of less than 16 bytes.
  pub decrypt_undefined_iff :
      (t : EncryptType) (c pubkey z : Bytes)
      → l.sodium.scalarmult self.private_key pubkey ≡ some z
      → length c < 2 ^ 31
      → (decrypt l self t c pubkey ≡ undefined) ↔ ((t ≡ aes_cbc) × (length c < 16))
  decrypt_undefined_iff t c pubkey z e h = (
    λ u. undefined_cbc t c pubkey h u,
    λ (mode, short). rw mode (decrypt_cbc_short c pubkey z e short),
  )
