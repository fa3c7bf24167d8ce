-- ===== src/Channel/Sizes.antt =====
-- How much longer than the text a ciphertext can be, whoever holds the keys.
use libonionrequests.Common.{
  ℕ, suc, refl, ◌+◌, ◌≤◌, ◌<◌, ◌^◌, ◌≡◌, Bool, Bool-cases, inl, inr, not, Bytes, length,
  length-append, leb, leb→le, ltb, requires, or_throw, runtime_error, When, When-map, >>=-When,
  Ensures, When-Ensures, arith,
}
use libonionrequests.Libs.{Libs}
use libonionrequests.Libs.Sodium.{SizeLaws, AeadLaws, npubbytes, abytes}
use libonionrequests.Libs.Evp.{Evp, EvpSizes, Cipher, aes_256_cbc, aes_256_gcm}
use libonionrequests.Channel.Buffer.{Buffer, allocate, put}
use libonionrequests.Channel.Openssl.{
  encrypt_openssl, append_tag, as_int, calculate_shared_secret, derive_symmetric_key,
}
use libonionrequests.Channel.Chacha.{xchacha20_shared_key, seal}
use libonionrequests.Channel.EncType.{EncryptType, aes_cbc, aes_gcm, xchacha20}
use libonionrequests.Channel.{
  ChannelEncryption, encrypt, encrypt_cbc, encrypt_gcm, encrypt_xchacha20,
}
use libonionrequests.Channel.Safety.{encrypt-Defined}

-- A buffer of `n` bytes that is not overfull.
abbrev Fits : ℕ → Buffer → Type 0
Fits n b = (b.size ≡ n) × (length b.written ≤ n)

put-Fits : (n : ℕ) (b : Buffer) (text : Bytes) → b.size ≡ n → When (Fits n) (put b text)
unfolding put
put-Fits n b text e = elim (Bool-cases (leb (length b.written + length text) b.size)) [
  | inl fits ↦
      rw (fits, put)
        (
          e,
          omega (
            arith,
            leb→le (length b.written + length text) b.size fits,
            length-append b.written text,
          ),
        )
  | inr over ↦ rw (over, put) tt
]

append_tag-Fits :
    (e : Evp) (ctx : e.Context) (taglen n : ℕ) (b : Buffer)
    → Fits n b
    → When (Fits n) (append_tag e ctx taglen b)
unfolding append_tag
append_tag-Fits e ctx taglen n b h = elim (Bool-cases (ltb 0 taglen)) [
  | inl tagged ↦
      rw (tagged, append_tag)
        (>>=-When (Fits n) (or_throw (e.get_tag ctx taglen) runtime_error) _
          λ tag g. put-Fits n b tag h.0)
  | inr plain ↦ rw (plain, append_tag) h
]

-- At most `n` bytes are returned, after one draw.
abbrev pub Within : ℕ → ℕ → Bytes × ℕ → Type 0
Within n r (c, r') = (length c ≤ n) × (r' ≡ suc r)

module _ (l : Libs) where
  encrypt_openssl-Within :
      (cipher : Cipher) (taglen : ℕ) (text key : Bytes) (r : ℕ)
      → When
          (Within (l.evp.iv_length cipher + length text + l.evp.block_size cipher + taglen) r)
          (encrypt_openssl l cipher taglen text key r)
  unfolding encrypt_openssl
  encrypt_openssl-Within cipher taglen text key r =
      let iv = l.sodium.random_bytes r (l.evp.iv_length cipher) in
      let n = l.evp.iv_length cipher + length text + l.evp.block_size cipher + taglen in
      >>=-When (Within n r) (put (allocate n) iv) _ λ o₀ e₀.
        let h₀ = rw e₀ at (put-Fits n (allocate n) iv refl) in
        >>=-When (Within n r) (or_throw (l.evp.encrypt_init cipher key iv) runtime_error) _
          λ ctx₀ f₀.
            >>=-When (Within n r)
              (or_throw (l.evp.encrypt_update ctx₀ text (as_int (length text))) runtime_error) _
              λ (body, ctx₁) f₁. >>=-When (Within n r) (put o₀ body) _ λ o₁ e₁.
                let h₁ = rw e₁ at (put-Fits n o₀ body h₀.0) in
                >>=-When (Within n r) (or_throw (l.evp.encrypt_final ctx₁) runtime_error) _
                  λ (last, ctx₂) f₂. >>=-When (Within n r) (put o₁ last) _ λ o₂ e₂.
                    let h₂ = rw e₂ at (put-Fits n o₁ last h₁.0) in
                    >>=-When (Within n r) (append_tag l.evp ctx₂ taglen o₂) _
                      λ output e₃. ((rw e₃ at (append_tag-Fits l.evp ctx₂ taglen n o₂ h₂)).1, refl)

  seal-Within :
      (sizes : SizeLaws l.sodium) (aead : AeadLaws l.sodium) (pub_key sec_key other text : Bytes)
      (server : Bool) (r : ℕ)
      → When (Within (length text + 40) r) (seal l.sodium pub_key sec_key server text other r)
  unfolding seal
  seal-Within sizes aead pub_key sec_key other text server r =
      >>=-When (Within (length text + 40) r)
        (xchacha20_shared_key l.sodium pub_key sec_key other (not server)) _
        λ key e.
          let nonce = l.sodium.random_bytes r npubbytes in
          let c = l.sodium.aead_encrypt nonce key text in
          >>=-When (Within (length text + 40) r)
            (requires (leb (npubbytes + length c) (npubbytes + length text + abytes))) _
            λ u f. (
              omega (
                arith,
                length-append nonce c,
                sizes.length-random_bytes r npubbytes,
                aead.length-aead_encrypt nonce key text,
              ),
              refl,
            )

  encrypt-Within :
      (sizes : EvpSizes l.evp) (drawn : SizeLaws l.sodium) (aead : AeadLaws l.sodium)
      (self : ChannelEncryption) (t : EncryptType) (text pubkey : Bytes) (r : ℕ)
      → When (Within (length text + 40) r) (encrypt l self t text pubkey r)
  unfolding encrypt encrypt_cbc encrypt_gcm encrypt_xchacha20
  encrypt-Within sizes drawn aead self xchacha20 text pubkey r =
      seal-Within drawn aead self.public_key self.private_key pubkey text self.server r
  encrypt-Within sizes drawn aead self aes_gcm text pubkey r =
      >>=-When (Within (length text + 40) r) (derive_symmetric_key l.sodium self.private_key pubkey)
        _
        λ key e.
          When-map
            (Within (l.evp.iv_length aes_256_gcm + length text + l.evp.block_size aes_256_gcm + 16)
              r)
            (Within (length text + 40) r) _
            (λ (c, r') h. (omega (arith, h.0, sizes.iv_gcm, sizes.block_gcm), h.1))
            (encrypt_openssl-Within aes_256_gcm 16 text key r)
  encrypt-Within sizes drawn aead self aes_cbc text pubkey r =
      >>=-When (Within (length text + 40) r)
        (calculate_shared_secret l.sodium self.private_key pubkey) _
        λ key e.
          When-map
            (Within (l.evp.iv_length aes_256_cbc + length text + l.evp.block_size aes_256_cbc + 0)
              r)
            (Within (length text + 40) r) _
            (λ (c, r') h. (omega (arith, h.0, sizes.iv_cbc, sizes.block_cbc), h.1))
            (encrypt_openssl-Within aes_256_cbc 0 text key r)

  -- Under any keys, `encrypt` of less than 2 ^ 31 bytes returns at most 40 bytes more, after one
  -- draw, or throws.
  pub encrypt-Ensures :
      (sizes : EvpSizes l.evp) (drawn : SizeLaws l.sodium) (aead : AeadLaws l.sodium)
      (self : ChannelEncryption) (t : EncryptType) (text pubkey : Bytes) (r : ℕ)
      → length text < 2 ^ 31
      → Ensures (Within (length text + 40) r) (encrypt l self t text pubkey r)
  encrypt-Ensures sizes drawn aead self t text pubkey r h =
      When-Ensures (Within (length text + 40) r) (encrypt l self t text pubkey r)
        (encrypt-Defined l sizes aead self drawn t text pubkey r h)
        (encrypt-Within sizes drawn aead self t text pubkey r)
