-- ===== src/Junk/Safety.antt =====
-- Which messages `ParseJunk` is not defined on.
use libonionrequests.Common.{
  ℕ, ◌≤◌, ◌<◌, ◌^◌, ◌≡◌, ◌≢◌, ◌↔◌, inl, inr, refl, ap, ◌∙◌, true, Bytes, codes, length, length-take,
  length-drop, take, drop, leb, leb→le, le→leb, some, none, Option-cases, ok, undefined,
  >>=-undefined, or_throw-undefined, guard-undefined, or_throw-Defined, arith, invalid_argument,
  library_error,
}
use libonionrequests.Libs.{Libs}
use libonionrequests.Libs.Oxenc.{DecodeLaws}
use libonionrequests.Libs.Sodium.{AeadLaws}
use libonionrequests.Libs.Evp.{EvpSizes}
use libonionrequests.Keys.Parse.{parse_pubkey_total}
use libonionrequests.Channel.{ChannelEncryption, decrypt, decrypt_cbc}
use libonionrequests.Channel.Openssl.{calculate_shared_secret}
use libonionrequests.Channel.EncType.{EncryptType, aes_cbc, parse_enc_type}
use libonionrequests.Channel.Safety.{undefined_cbc, decrypt_undefined_iff}
use libonionrequests.Junk.Envelope.{server}
use libonionrequests.Junk.{Keypair, decode_size, metadata_enc_type, metadata_remote_pk, parse_junk}

module _ (l : Libs) where
  -- A message whose metadata asks for aes-cbc under a usable key, and whose ciphertext is shorter than
  -- an iv.
  pub record IsOverrun (keys : Keypair) (text : Bytes) : Type 0 where
    pub size : ℕ
    pub metadata : l.json.Value
    pub remote_pk : Bytes
    pub secret : Bytes
    pub size_read : decode_size l.oxenc text ≡ ok size
    pub inside : size ≤ length (drop 4 text)
    pub metadata_read : l.json.parse (drop size (drop 4 text)) ≡ some metadata
    pub mode : metadata_enc_type l metadata ≡ ok aes_cbc
    pub key_read : metadata_remote_pk l metadata ≡ ok remote_pk
    pub exchanged : l.sodium.scalarmult keys.secret remote_pk ≡ some secret
    pub short : size < 16

  parse_enc_type-Defined : (text : Bytes) → parse_enc_type text ≢ undefined
  unfolding parse_enc_type
  parse_enc_type-Defined text h = ground arith

  metadata_enc_type-Defined : (metadata : l.json.Value) → metadata_enc_type l metadata ≢ undefined
  unfolding metadata_enc_type
  metadata_enc_type-Defined metadata =
      elim (Option-cases (l.json.find metadata (codes "enc_type"))) [
        | inl e ↦ rw (e, metadata_enc_type) (λ p. cc)
        | inr (v, e) ↦
            rw (e, metadata_enc_type)
              (or_throw-Defined (l.json.get_string v) library_error parse_enc_type
                (λ text f. parse_enc_type-Defined text))
      ]

  metadata_remote_pk-Defined :
      DecodeLaws l.oxenc → (metadata : l.json.Value) → metadata_remote_pk l metadata ≢ undefined
  unfolding metadata_remote_pk
  metadata_remote_pk-Defined d metadata =
      elim (Option-cases (l.json.find metadata (codes "ephemeral_key"))) [
        | inl e ↦ rw (e, metadata_remote_pk) (λ p. cc)
        | inr (v, e) ↦
            rw (e, metadata_remote_pk)
              (or_throw-Defined (l.json.get_string v) library_error _ (λ text f.
                let (pk, got, size) = parse_pubkey_total l.oxenc d text in rw got (λ p. cc)))
      ]

  decode_size-Defined : (text : Bytes) → decode_size l.oxenc text ≢ undefined
  unfolding decode_size
  decode_size-Defined text h =
      let (long, e) =
        guard-undefined (leb 4 (length text)) invalid_argument
          (ok (l.oxenc.load_little32 (take 4 text))) h in
      cc

  refused :
      (self : ChannelEncryption) (c pk : Bytes)
      → l.sodium.scalarmult self.private_key pk ≡ none
      → decrypt l self aes_cbc c pk ≢ undefined
  unfolding decrypt decrypt_cbc calculate_shared_secret
  refused self c pk e = rw (e, decrypt) (λ p. cc)

  module _ (sizes : EvpSizes l.evp) (aead : AeadLaws l.sodium) (decoding : DecodeLaws l.oxenc)
      (keys : Keypair) (text : Bytes) (small : length text < 2 ^ 31) where
    overrun_undefined : IsOverrun keys text → parse_junk l keys text ≡ undefined
    unfolding parse_junk
    overrun_undefined o =
        let rest = drop 4 text in
        let size : length (take o.size rest) ≡ o.size =
          omega (arith, length-take o.size rest, o.inside) in
        let read_outside =
          (decrypt_undefined_iff l sizes aead (server keys) aes_cbc (take o.size rest) o.remote_pk
              o.secret o.exchanged (omega (arith, o.short))).1
            (refl, omega (arith, o.short)) in
        rw
          (
            o.size_read,
            le→leb o.size (length rest) o.inside,
            o.metadata_read,
            o.mode,
            o.key_read,
            read_outside,
          )
          refl

    decrypted-IsOverrun :
        (size : ℕ) (metadata : l.json.Value) (mode : EncryptType) (pk : Bytes)
        → decode_size l.oxenc text ≡ ok size
        → leb size (length (drop 4 text)) ≡ true
        → l.json.parse (drop size (drop 4 text)) ≡ some metadata
        → metadata_enc_type l metadata ≡ ok mode
        → metadata_remote_pk l metadata ≡ ok pk
        → decrypt l (server keys) mode (take size (drop 4 text)) pk ≡ undefined
        → IsOverrun keys text
    decrypted-IsOverrun size metadata mode pk read fits parsed named keyed u =
        let rest = drop 4 text in
        let inside = leb→le size (length rest) fits in
        let cut : length (take size rest) ≡ size = omega (arith, length-take size rest) in
        let (cbc, short) =
          undefined_cbc l sizes aead (server keys) mode (take size rest) pk
            (omega (arith, length-drop 4 text)) u in
        elim (Option-cases (l.sodium.scalarmult keys.secret pk)) [
          | inl e ↦ absurd (refused (server keys) (take size rest) pk e (rw cbc at u))
          | inr (z, e) ↦ record {
            size = size;
            metadata = metadata;
            remote_pk = pk;
            secret = z;
            size_read = read;
            inside = inside;
            metadata_read = parsed;
            mode = named ∙ ap ok cbc;
            key_read = keyed;
            exchanged = e;
            short = omega arith;
          }
        ]

    parsed-IsOverrun : parse_junk l keys text ≡ undefined → IsOverrun keys text
    unfolding parse_junk
    parsed-IsOverrun u = elim (>>=-undefined (decode_size l.oxenc text) _ u) [
      | inl v ↦ absurd (decode_size-Defined text v)
      | inr (size, read, v) ↦
          let (fits, w) = guard-undefined (leb size (length (drop 4 text))) invalid_argument _ v in
          let (metadata, parsed, w₂) =
            or_throw-undefined (l.json.parse (drop size (drop 4 text))) library_error _ w in
          elim (>>=-undefined (metadata_enc_type l metadata) _ w₂) [
            | inl v₂ ↦ absurd (metadata_enc_type-Defined metadata v₂)
            | inr (mode, named, w₃) ↦ elim (>>=-undefined (metadata_remote_pk l metadata) _ w₃) [
              | inl v₃ ↦ absurd (metadata_remote_pk-Defined decoding metadata v₃)
              | inr (pk, keyed, w₄) ↦
                  elim (>>=-undefined (decrypt l (server keys) mode (take size (drop 4 text)) pk) _
                    w₄) [
                      | inl v₄ ↦
                          decrypted-IsOverrun size metadata mode pk read fits parsed named keyed v₄
                      | inr (payload, e, w₅) ↦ cc
                    ]
            ]
          ]
    ]

    -- `ParseJunk` of less than 2 ^ 31 bytes is undefined (it reads outside the message) exactly on a
    -- message whose metadata asks for aes-cbc with a key that the exchange accepts, and whose ciphertext
    -- has less than 16 bytes. On any other it returns or throws.
    pub parse_junk_undefined_iff : (parse_junk l keys text ≡ undefined) ↔ IsOverrun keys text
    parse_junk_undefined_iff = (parsed-IsOverrun, overrun_undefined)
