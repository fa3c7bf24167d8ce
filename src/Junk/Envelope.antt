-- ===== src/Junk/Envelope.antt =====
-- `ParseJunk` on the envelopes that `MakeOnion` makes.
use libonionrequests.Common.{
  ℕ, ◌<◌, ◌^◌, ◌%◌, ◌≡◌, refl, true, List, Bytes, codes, ◌++◌, length, take, drop, take-append,
  drop-append, length-append, le→leb, lookup, some, ok, arith,
}
use libonionrequests.Libs.{Libs}
use libonionrequests.Libs.Oxenc.{HexLaws, IsKey32, LittleLaws}
use libonionrequests.Libs.Json.{ObjectLaws, object_of_texts}
use libonionrequests.Keys.{to_hex}
use libonionrequests.Keys.Parse.{parse_pubkey-to_hex}
use libonionrequests.Channel.{ChannelEncryption, encrypt, decrypt}
use libonionrequests.Channel.EncType.{EncryptType, to_string, parse_enc_type-to_string}
use libonionrequests.Channel.RoundTrip.{CryptoLaws}
use libonionrequests.Junk.{Keypair, decode_size, metadata_enc_type, metadata_remote_pk, parse_junk}
use libonionrequests.Maker.{encode_size}
use libonionrequests.Junk.Size.{decode_size-encode_size}

-- What the documentation of all the libraries promises.
pub record Laws (l : Libs) : Type 0 where
  pub crypto : CryptoLaws l
  pub hex : HexLaws l.oxenc
  pub little : LittleLaws l.oxenc
  pub objects : ObjectLaws l.json

-- The server side of a node's channel.
abbrev pub server : Keypair → ChannelEncryption
server keys = record { private_key = keys.secret; public_key = keys.public; server = true }

module _ (l : Libs) (laws : Laws l) where
  open laws use {crypto, hex, little, objects}

  pub load-encode_size :
      (n : ℕ) (rest : Bytes)
      → n < 2 ^ 32
      → l.oxenc.load_little32 (take 4 (encode_size l.oxenc n ++ rest)) ≡ n
  unfolding encode_size
  load-encode_size n rest h =
      rw
        (
          take-append 4 (l.oxenc.write_little32 (n % 2 ^ 32)) rest
              (little.length-write_little32 (n % 2 ^ 32)),
          little.load-write_little32 (n % 2 ^ 32) (omega arith),
        )
        (omega arith)

  pub length-encode_size : (n : ℕ) → length (encode_size l.oxenc n) ≡ 4
  unfolding encode_size
  length-encode_size n = little.length-write_little32 (n % 2 ^ 32)

  pub decode-encode_size :
      (n : ℕ) (rest : Bytes)
      → n < 2 ^ 32
      → decode_size l.oxenc (encode_size l.oxenc n ++ rest) ≡ ok n
  decode-encode_size n rest h = (decode_size-encode_size l.oxenc little n rest).1.1 h

  pub drop-encode_size : (n : ℕ) (rest : Bytes) → drop 4 (encode_size l.oxenc n ++ rest) ≡ rest
  unfolding encode_size
  drop-encode_size n rest = drop-append 4 _ rest (little.length-write_little32 (n % 2 ^ 32))

  module _ (fields : List (Bytes × Bytes)) (t : EncryptType) (key : Bytes)
      (scheme : lookup (codes "enc_type") fields ≡ some (to_string t))
      (sender : lookup (codes "ephemeral_key") fields ≡ some (to_hex l.oxenc key)) where
    enc_type_lem : metadata_enc_type l (object_of_texts l.json fields) ≡ ok t
    unfolding metadata_enc_type
    enc_type_lem =
        rw
          (
            objects.find_present fields (codes "enc_type") (to_string t) scheme,
            metadata_enc_type,
            objects.get_string_lem (to_string t),
          )
          (parse_enc_type-to_string t)

    remote_pk_lem : IsKey32 key → metadata_remote_pk l (object_of_texts l.json fields) ≡ ok key
    unfolding metadata_remote_pk
    remote_pk_lem h =
        rw
          (
            objects.find_present fields (codes "ephemeral_key") (to_hex l.oxenc key) sender,
            metadata_remote_pk,
            objects.get_string_lem (to_hex l.oxenc key),
          )
          (parse_pubkey-to_hex l.oxenc hex key h)

    -- The envelope around `c` is opened if the node can decrypt `c`.
    pub parse_junk-envelope :
        (keys : Keypair) (c text payload : Bytes)
        → IsKey32 key
        → length c < 2 ^ 32
        → l.json.parse text ≡ some (object_of_texts l.json fields)
        → decrypt l (server keys) t c key ≡ ok payload
        → parse_junk l keys (encode_size l.oxenc (length c) ++ (c ++ text))
          ≡ ok (record {
            payload = payload;
            transform_reply = λ plaintext. encrypt l (server keys) t plaintext key;
          })
    unfolding parse_junk
    parse_junk-envelope keys c text payload h hc e d = rw (
      decode-encode_size (length c) (c ++ text) hc,
      drop-encode_size (length c) (c ++ text),
      le→leb (length c) (length (c ++ text)) (omega (arith, length-append c text)),
      take-append (length c) c text refl,
      drop-append (length c) c text refl,
      e,
      enc_type_lem,
      remote_pk_lem h,
      d,
    )
