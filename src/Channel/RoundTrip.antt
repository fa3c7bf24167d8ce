-- ===== src/Channel/RoundTrip.antt =====
-- What one end of a channel encrypts, the other end decrypts, in each of the three schemes.
use libonionrequests.Common.{
  ℕ, suc, ◌+◌, ◌<◌, ◌≤◌, ◌^◌, ◌≡◌, refl, Bool, true, false, not, Bytes, ◌++◌, length, length-append,
  ok, arith, [], ◌∷◌, sym, ◌∙◌,
}
use libonionrequests.Libs.{Libs}
use libonionrequests.Libs.Sodium.{Sodium, npubbytes, keybytes}
use libonionrequests.Libs.Evp.{CipherLaws, Cipher, Session, aes_256_cbc, aes_256_gcm}
use libonionrequests.Channel.{
  ChannelEncryption, encrypt, decrypt, encrypt_cbc, decrypt_cbc, encrypt_gcm, decrypt_gcm,
  encrypt_xchacha20, decrypt_xchacha20,
}
use libonionrequests.Channel.EncType.{EncryptType, aes_cbc, aes_gcm, xchacha20}
use libonionrequests.Channel.Chacha.{xchacha20_shared_key}
use libonionrequests.Channel.Openssl.{
  encrypt_openssl, decrypt_openssl, calculate_shared_secret, derive_symmetric_key, salt,
}
use libonionrequests.Channel.Openssl.Session.{tag_size, encrypt_openssl_lem, decrypt_openssl_lem}
use libonionrequests.Channel.Exchange.{SodiumLaws, shared_key_agrees, seal_lem, unseal_lem}

-- Two ends that know each other's public keys, one of them the server.
pub record Peers (s : Sodium) (x y : ChannelEncryption) : Type 0 where
  pub x_secret : length x.private_key ≡ 32
  pub y_secret : length y.private_key ≡ 32
  pub x_public : x.public_key ≡ s.scalarmult_base x.private_key
  pub y_public : y.public_key ≡ s.scalarmult_base y.private_key
  pub roles : y.server ≡ not x.server

pub Peers-sym : {s : Sodium} {x y : ChannelEncryption} → Peers s x y → Peers s y x
Peers-sym {x} {y} p = record {
  x_secret = p.y_secret;
  y_secret = p.x_secret;
  x_public = p.y_public;
  y_public = p.x_public;
  roles = flip x.server y.server p.roles;
}
  where
    flip : (a b : Bool) → b ≡ not a → a ≡ not b
    flip a b e = ground arith

-- What the documentation of libsodium and OpenSSL promises.
pub record CryptoLaws (l : Libs) : Type 0 where
  pub sodium_laws : SodiumLaws l.sodium
  pub evp_laws : CipherLaws l.evp

module _ (l : Libs) (laws : CryptoLaws l) (x y : ChannelEncryption) (p : Peers l.sodium x y) where
  open laws use {sodium_laws, evp_laws}

  -- The text is encrypted by `x` for `y`, and decrypted by `y` from `x`, as well as by `x` itself as if
  -- it came from `y`.
  abbrev pub Delivers : EncryptType → Bytes → ℕ → Type 0
  Delivers t text r =
      (c : Bytes) × (encrypt l x t text y.public_key r ≡ ok (c, suc r))
      × (decrypt l y t c x.public_key ≡ ok text)
      × (decrypt l x t c y.public_key ≡ ok text)
      × (length c ≤ length text + 40)

  chacha_key :
      (a : Bool)
      → (k : Bytes) × (xchacha20_shared_key l.sodium x.public_key x.private_key y.public_key (not a)
          ≡ ok k)
        × (xchacha20_shared_key l.sodium y.public_key y.private_key x.public_key a ≡ ok k)
        × (length k ≡ keybytes)
  chacha_key false =
      rw (p.x_public, p.y_public)
        (shared_key_agrees l.sodium sodium_laws x.private_key y.private_key p.x_secret p.y_secret)
  chacha_key true =
      let (k, e, f, h) =
        shared_key_agrees l.sodium sodium_laws y.private_key x.private_key p.y_secret p.x_secret in
      rw (p.x_public, p.y_public) (k, f, e, h)

  other_role : not y.server ≡ x.server
  other_role = sym ((Peers-sym p).roles)

  chacha-Delivers : (text : Bytes) (r : ℕ) → Delivers xchacha20 text r
  unfolding encrypt decrypt encrypt_xchacha20 decrypt_xchacha20
  chacha-Delivers text r =
      let (k, e, f, h) = chacha_key x.server in
      let nonce = l.sodium.random_bytes r npubbytes in
      let size = sodium_laws.sizes.length-random_bytes r npubbytes in
      let c = l.sodium.aead_encrypt nonce k text in
      (
        nonce ++ c,
        seal_lem l.sodium sodium_laws x.public_key x.private_key y.public_key x.server e text r,
        unseal_lem l.sodium sodium_laws y.public_key y.private_key x.public_key y.server
            (rw other_role f) nonce c text size
            (sodium_laws.aead.aead_decrypt-aead_encrypt nonce k text size h),
        unseal_lem l.sodium sodium_laws x.public_key x.private_key y.public_key x.server e nonce c
            text size (sodium_laws.aead.aead_decrypt-aead_encrypt nonce k text size h),
        omega (arith, length-append nonce c, sodium_laws.aead.length-aead_encrypt nonce k text),
      )

  -- One AES message: the common key, and what OpenSSL does with the message.
  delivers_openssl :
      (cipher : Cipher) (taglen : ℕ) (key text : Bytes) (r : ℕ)
      → Session l.evp cipher taglen key (l.sodium.random_bytes r (l.evp.iv_length cipher)) text
      → length text + l.evp.block_size cipher < 2 ^ 31
      → (c : Bytes) × (encrypt_openssl l cipher taglen text key r ≡ ok (c, suc r))
        × (decrypt_openssl l cipher taglen c key ≡ ok text)
        × (length c ≤ l.evp.iv_length cipher + length text + l.evp.block_size cipher + taglen)
  delivers_openssl cipher taglen key text r s h =
      let sizes = evp_laws.sizes in
      let iv = l.sodium.random_bytes r (l.evp.iv_length cipher) in
      let iv_size = sodium_laws.sizes.length-random_bytes r (l.evp.iv_length cipher) in
      let total = sizes.encrypt_final_size cipher key iv text s.enc_init s.enc_update s.enc_final in
      (
        iv ++ s.body ++ s.last ++ s.tag,
        encrypt_openssl_lem l sizes cipher taglen key iv text s r iv_size refl (omega arith),
        decrypt_openssl_lem l sizes cipher taglen key iv text s iv_size
            (omega (arith, length-append s.body s.last)),
        omega (
          arith,
          length-append (iv ++ s.body ++ s.last) s.tag,
          length-append (iv ++ s.body) s.last,
          length-append iv s.body,
          tag_size l sizes cipher taglen key iv text s taglen refl,
        ),
      )

  secret_agrees :
      (z : Bytes) × (calculate_shared_secret l.sodium x.private_key y.public_key ≡ ok z)
      × (calculate_shared_secret l.sodium y.private_key x.public_key ≡ ok z)
      × (length z ≡ 32)
  unfolding calculate_shared_secret
  secret_agrees =
      let (z, e, f, size) =
        sodium_laws.exchange.agreement x.private_key y.private_key p.x_secret p.y_secret in
      (z, rw (p.y_public, e), rw (p.x_public, f), size)

  gcm-Delivers : (text : Bytes) (r : ℕ) → length text + 16 < 2 ^ 31 → Delivers aes_gcm text r
  unfolding encrypt decrypt encrypt_gcm decrypt_gcm derive_symmetric_key
  gcm-Delivers text r h =
      let (z, e, f, size) = secret_agrees in
      let key = l.sodium.hmac_sha256 salt (z ∷ []) in
      let iv = l.sodium.random_bytes r (l.evp.iv_length aes_256_gcm) in
      let iv_size = sodium_laws.sizes.length-random_bytes r (l.evp.iv_length aes_256_gcm) in
      let session =
        evp_laws.gcm_session key iv text (sodium_laws.sizes.length-hmac_sha256 salt (z ∷ []))
          (iv_size ∙ evp_laws.sizes.iv_gcm) h in
      let (c, sent, received, small) =
        delivers_openssl aes_256_gcm 16 key text r session
          (omega (arith, evp_laws.sizes.block_gcm)) in
      rw (e, f)
        (
          c,
          sent,
          received,
          received,
          omega (arith, evp_laws.sizes.block_gcm, evp_laws.sizes.iv_gcm),
        )

  cbc-Delivers : (text : Bytes) (r : ℕ) → length text + 16 < 2 ^ 31 → Delivers aes_cbc text r
  unfolding encrypt decrypt encrypt_cbc decrypt_cbc
  cbc-Delivers text r h =
      let (z, e, f, size) = secret_agrees in
      let iv = l.sodium.random_bytes r (l.evp.iv_length aes_256_cbc) in
      let iv_size = sodium_laws.sizes.length-random_bytes r (l.evp.iv_length aes_256_cbc) in
      let session = evp_laws.cbc_session z iv text size (iv_size ∙ evp_laws.sizes.iv_cbc) h in
      let (c, sent, received, small) =
        delivers_openssl aes_256_cbc 0 z text r session (omega (arith, evp_laws.sizes.block_cbc)) in
      rw (e, f)
        (
          c,
          sent,
          received,
          received,
          omega (arith, evp_laws.sizes.block_cbc, evp_laws.sizes.iv_cbc),
        )

  any-Delivers :
      (t : EncryptType) (text : Bytes) (r : ℕ) → length text + 16 < 2 ^ 31 → Delivers t text r
  any-Delivers xchacha20 text r h = chacha-Delivers text r
  any-Delivers aes_gcm text r h = gcm-Delivers text r h
  any-Delivers aes_cbc text r h = cbc-Delivers text r h

  -- Either end's `encrypt` succeeds in each scheme, draws once, and the other end's `decrypt` gives
  -- the text back, for a text that is at least 16 bytes short of what an `int` counts. The
  -- ciphertext is at most 40 bytes longer than the text.
  pub decrypt-encrypt :
      (t : EncryptType) (text : Bytes) (r : ℕ)
      → length text + 16 < 2 ^ 31
      → (c : Bytes) × (encrypt l x t text y.public_key r ≡ ok (c, suc r))
        × (decrypt l y t c x.public_key ≡ ok text)
        × (length c ≤ length text + 40)
  decrypt-encrypt t text r h =
      let (c, sent, received, own, small) = any-Delivers t text r h in (c, sent, received, small)

  -- What an end of a channel encrypts, in each scheme, that end itself decrypts as if it had come from
  -- the other end.
  pub decrypt_own :
      (t : EncryptType) (text : Bytes) (r : ℕ)
      → length text + 16 < 2 ^ 31
      → (c : Bytes) × (encrypt l x t text y.public_key r ≡ ok (c, suc r))
        × (decrypt l x t c y.public_key ≡ ok text)
        × (length c ≤ length text + 40)
  decrypt_own t text r h =
      let (c, sent, received, own, small) = any-Delivers t text r h in (c, sent, own, small)
