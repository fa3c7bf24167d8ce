-- ===== src/Channel/Authentic.antt =====
-- What stands behind a text that comes out of the two modes with a tag.
use libonionrequests.Common.{
  or_throw-ok, guard-ok, ℕ, ◌+◌, ◌-◌, ◌<◌, ◌^◌, ◌≡◌, ◌≢◌, not, refl, sym, ap, ◌∙◌, Bytes, ◌++◌,
  length, take, drop, take-drop, length-take, length-drop, leb, leb→le, When, >>=-When, arith, some,
  ok, lt→ltb, When-map, or_throw, guard, requires, runtime_error, Bool-cases, inl, inr,
}
use libonionrequests.Libs.{Libs}
use libonionrequests.Libs.Evp.{Evp, EvpSizes, aes_256_gcm}
use libonionrequests.Channel.Buffer.{Buffer, allocate, put}
use libonionrequests.Channel.Openssl.{
  as_int, check_tag, decrypt_parts, decrypt_openssl, derive_symmetric_key,
}
use libonionrequests.Channel.Chacha.{xchacha20_shared_key, unseal}
use libonionrequests.Channel.EncType.{EncryptType, aes_cbc, aes_gcm, xchacha20}
use libonionrequests.Channel.{ChannelEncryption, decrypt, decrypt_gcm, decrypt_xchacha20}

-- The calls of OpenSSL that opened a message in one pass: each succeeded, the last one after the tag was
-- set, and the text is what they gave.
pub record Opened (e : Evp) (key iv body tag text : Bytes) : Type 0 where
  pub d₀ : e.Context
  pub d₁ : e.Context
  pub d₂ : e.Context
  pub d₃ : e.Context
  pub front : Bytes
  pub back : Bytes
  pub init : e.decrypt_init aes_256_gcm key iv ≡ some d₀
  pub update : e.decrypt_update d₀ body (length body) ≡ some (front, d₁)
  pub tagged : e.set_tag d₁ 16 tag ≡ some d₂
  pub final : e.decrypt_final d₂ ≡ some (back, d₃)
  pub given : text ≡ front ++ back

int_small : (n : ℕ) → n < 2 ^ 31 → n ≡ as_int n
int_small n h = omega arith

-- A text that fits is put behind what a buffer holds.
put_written : (b : Buffer) (text : Bytes) → When (λ o. o.written ≡ b.written ++ text) (put b text)
unfolding put
put_written b text = elim (Bool-cases (leb (length b.written + length text) b.size)) [
  | inl e ↦ rw (e, put) refl
  | inr e ↦ rw (e, put) tt
]

module _ (l : Libs) where
  decrypt_parts-Opened :
      (iv body tag key : Bytes)
      → length tag ≡ 16
      → length body < 2 ^ 31
      → When (Opened l.evp key iv body tag) (decrypt_parts l aes_256_gcm 16 iv body tag key)
  unfolding decrypt_parts check_tag
  decrypt_parts-Opened iv body tag key size small =
      let O = Opened l.evp key iv body tag in
      >>=-When O (requires (leb (l.evp.iv_length aes_256_gcm) (length iv))) _ λ u e.
        >>=-When O (or_throw (l.evp.decrypt_init aes_256_gcm key iv) runtime_error) _ λ d₀ init.
          >>=-When O (or_throw (l.evp.decrypt_update d₀ body (as_int (length body))) runtime_error)
            _
            λ (front, d₁) update.
              >>=-When O (put (allocate (length body + l.evp.block_size aes_256_gcm)) front) _
                λ o₀ p₀. >>=-When O (check_tag l.evp d₁ 16 tag) _ λ d₂ tagged.
                  >>=-When O (or_throw (l.evp.decrypt_final d₂) runtime_error) _ λ (back, d₃) final.
                    >>=-When O (put o₀ back) _ λ o₁ p₁.
                      let first = rw p₀ at (
                        put_written (allocate (length body + l.evp.block_size aes_256_gcm))
                          front) in
                      let second = rw p₁ at (put_written o₀ back) in
                      record {
                        d₀ = d₀;
                        d₁ = d₁;
                        d₂ = d₂;
                        d₃ = d₃;
                        front = front;
                        back = back;
                        init =
                            or_throw-ok (l.evp.decrypt_init aes_256_gcm key iv) runtime_error d₀
                              init;
                        update =
                            ap (λ n. l.evp.decrypt_update d₀ body n) (int_small (length body) small)
                            ∙ or_throw-ok (l.evp.decrypt_update d₀ body (as_int (length body)))
                                runtime_error (front, d₁) update;
                        tagged =
                            or_throw-ok (l.evp.set_tag d₁ 16 tag) runtime_error d₂
                              (rw (lt→ltb 0 (length tag) (omega arith)) at tagged);
                        final = or_throw-ok (l.evp.decrypt_final d₂) runtime_error (back, d₃) final;
                        given = second ∙ ap (λ t. t ++ back) first;
                      }

-- A text that AES-GCM gave for a message: the message is an iv of 12 bytes, a body and a tag of 16, and
-- OpenSSL opened it under the key of the exchange.
pub record OpenedMessage (l : Libs) (self : ChannelEncryption) (message pubkey text : Bytes)
    : Type 0 where
  pub key : Bytes
  pub iv : Bytes
  pub body : Bytes
  pub tag : Bytes
  pub agreed : derive_symmetric_key l.sodium self.private_key pubkey ≡ ok key
  pub parts : message ≡ iv ++ (body ++ tag)
  pub iv_size : length iv ≡ 12
  pub tag_size : length tag ≡ 16
  pub opened : Opened l.evp key iv body tag text

-- A text that XChaCha20-Poly1305 gave for a message: the message is a nonce of 24 bytes and the rest,
-- which libsodium opened under the key of the exchange.
pub record UnsealedMessage (l : Libs) (self : ChannelEncryption) (message pubkey text : Bytes)
    : Type 0 where
  pub key : Bytes
  pub nonce : Bytes
  pub rest : Bytes
  pub agreed :
      xchacha20_shared_key l.sodium self.public_key self.private_key pubkey (not self.server)
      ≡ ok key
  pub parts : message ≡ nonce ++ rest
  pub nonce_size : length nonce ≡ 24
  pub opened : l.sodium.aead_decrypt nonce key rest ≡ some text

gcm-OpenedMessage :
    (l : Libs) (sizes : EvpSizes l.evp) (self : ChannelEncryption) (message pubkey : Bytes)
    → length message < 2 ^ 31
    → When (OpenedMessage l self message pubkey) (decrypt_gcm l self message pubkey)
unfolding decrypt_gcm decrypt_openssl
gcm-OpenedMessage l sizes self message pubkey small =
    let A = OpenedMessage l self message pubkey in
    let n = l.evp.iv_length aes_256_gcm in
    let iv = take n message in
    let rest = drop (length iv) message in
    let tag = drop (length rest - 16) rest in
    let body = take (length rest - length tag) rest in
    >>=-When A (derive_symmetric_key l.sodium self.private_key pubkey) _ λ key agreed.
      >>=-When A (guard (leb 16 (length rest)) runtime_error) _ λ u long.
        let enough =
          leb→le 16 (length rest) (guard-ok (leb 16 (length rest)) runtime_error u long) in
        let iv_size : length iv ≡ 12 =
          omega (arith, length-take n message, length-drop (length iv) message, sizes.iv_gcm) in
        let tag_size : length tag ≡ 16 = omega (arith, length-drop (length rest - 16) rest) in
        let cut : rest ≡ body ++ tag =
          sym (take-drop (length rest - 16) rest) ∙ ap (λ k. take k rest ++ tag) (omega arith) in
        let front : iv ++ rest ≡ message =
          ap (λ k. iv ++ drop k message) (omega (arith, sizes.iv_gcm)) ∙ take-drop n message in
        When-map (Opened l.evp key iv body tag) A (decrypt_parts l aes_256_gcm 16 iv body tag key)
          (λ text opened. record {
            key = key;
            iv = iv;
            body = body;
            tag = tag;
            agreed = agreed;
            parts = sym front ∙ ap (λ s. iv ++ s) cut;
            iv_size = iv_size;
            tag_size = tag_size;
            opened = opened;
          })
          (decrypt_parts-Opened l iv body tag key tag_size (
            omega (
              arith,
              length-take (length rest - length tag) rest,
              length-drop (length iv) message,
            )))

xchacha20-UnsealedMessage :
    (l : Libs) (self : ChannelEncryption) (message pubkey : Bytes)
    → When (UnsealedMessage l self message pubkey) (decrypt_xchacha20 l self message pubkey)
unfolding decrypt_xchacha20 unseal
xchacha20-UnsealedMessage l self message pubkey =
    let U = UnsealedMessage l self message pubkey in
    let nonce = take 24 message in
    let rest = drop (length nonce) message in
    >>=-When U (guard (leb 16 (length rest)) runtime_error) _ λ u long.
      let enough = leb→le 16 (length rest) (guard-ok (leb 16 (length rest)) runtime_error u long) in
      let nonce_size : length nonce ≡ 24 =
        omega (arith, length-take 24 message, length-drop (length nonce) message) in
      >>=-When U
        (xchacha20_shared_key l.sodium self.public_key self.private_key pubkey (not self.server)) _
        λ key agreed. >>=-When U (requires (leb 24 (length nonce))) _ λ v e.
          >>=-When U (or_throw (l.sodium.aead_decrypt nonce key rest) runtime_error) _
            λ text opened. >>=-When U (requires (leb (length text) (length rest - 16))) _ λ w f.
              record {
                key = key;
                nonce = nonce;
                rest = rest;
                agreed = agreed;
                parts = sym (ap (λ k. nonce ++ drop k message) nonce_size ∙ take-drop 24 message);
                nonce_size = nonce_size;
                opened =
                    or_throw-ok (l.sodium.aead_decrypt nonce key rest) runtime_error text opened;
              }

-- What stands behind a text, by the mode; the third mode has no tag.
abbrev pub IsAuthentic :
    (l : Libs) → ChannelEncryption → EncryptType → Bytes → Bytes → Bytes → Type 0
IsAuthentic l self aes_gcm message pubkey text = OpenedMessage l self message pubkey text
IsAuthentic l self xchacha20 message pubkey text = UnsealedMessage l self message pubkey text
IsAuthentic l self aes_cbc message pubkey text = ⊥

-- In each mode but aes-cbc, `decrypt` of less than 2 ^ 31 bytes returns no text but the one that the
-- library gave for the parts of the message under the key of the exchange: in aes-gcm for the bytes
-- between the iv and the tag, after it accepted the tag, and in xchacha20 for the bytes behind the nonce.
pub decrypt-IsAuthentic :
    (l : Libs) (sizes : EvpSizes l.evp) (self : ChannelEncryption) (t : EncryptType)
    (message pubkey : Bytes)
    → t ≢ aes_cbc
    → length message < 2 ^ 31
    → When (IsAuthentic l self t message pubkey) (decrypt l self t message pubkey)
unfolding decrypt
decrypt-IsAuthentic l sizes self aes_gcm message pubkey h small =
    gcm-OpenedMessage l sizes self message pubkey small
decrypt-IsAuthentic l sizes self xchacha20 message pubkey h small =
    xchacha20-UnsealedMessage l self message pubkey
decrypt-IsAuthentic l sizes self aes_cbc message pubkey h small = absurd (h refl)
