-- ===== src/Junk.antt =====
-- onionreq/junk.hpp and junk.cpp: a service node's reading of what it is sent.
pub mod Envelope
pub mod Safety
pub mod Message
pub mod Size
pub mod Parser
use libonionrequests.Common.{
  ℕ, Bytes, codes, length, take, drop, leb, Option, none, some, true, Result, ok, err, guard,
  or_throw, ◌>>=◌, ◌>>◌, Random, invalid_argument, library_error,
}
use libonionrequests.Libs.{Libs}
use libonionrequests.Libs.Oxenc.{Oxenc}
use libonionrequests.Keys.{parse_pubkey}
use libonionrequests.Node.{SnodeInfo}
use libonionrequests.Channel.{ChannelEncryption, encrypt, decrypt}
use libonionrequests.Channel.EncType.{EncryptType, aes_gcm, parse_enc_type}

pub record Junk : Type 0 where
  pub payload : Bytes
  pub transform_reply : Bytes → Random Bytes

-- The keys of a `JunkDecrypter`: an `x25519_keypair`.
pub record Keypair : Type 0 where
  pub public : Bytes
  pub secret : Bytes

-- `sizeof(uint32_t)` bytes are read.
unfoldable pub decode_size : Oxenc → Bytes → Result ℕ
decode_size o text = do
  guard (leb 4 (length text)) invalid_argument
  ok (o.load_little32 (take 4 text))

module _ (l : Libs) where
  -- `enc_type` in the metadata; aes-gcm where there is none.
  unfoldable pub metadata_enc_type : l.json.Value → Result EncryptType
  metadata_enc_type metadata = elim (l.json.find metadata (codes "enc_type")) [
    | none ↦ ok aes_gcm
    | some v ↦ or_throw (l.json.get_string v) library_error >>= parse_enc_type
  ]

  unfoldable pub metadata_remote_pk : l.json.Value → Result Bytes
  metadata_remote_pk metadata = elim (l.json.find metadata (codes "ephemeral_key")) [
    | none ↦ err invalid_argument
    | some v ↦ or_throw (l.json.get_string v) library_error >>= parse_pubkey l.oxenc
  ]

  -- `JunkDecrypter::ParseJunk`.
  unfoldable pub parse_junk : Keypair → Bytes → Result Junk
  parse_junk keys text = do
    sz ← decode_size l.oxenc text
    let rest = drop 4 text
    guard (leb sz (length rest)) invalid_argument
    let ciphertext = take sz rest
    metadata ← or_throw (l.json.parse (drop sz rest)) library_error
    keytype ← metadata_enc_type metadata
    remote_pk ← metadata_remote_pk metadata
    let enc : ChannelEncryption = record {
      private_key = keys.secret;
      public_key = keys.public;
      server = true;
    }
    payload ← decrypt l enc keytype ciphertext remote_pk
    ok (record {
      payload = payload;
      transform_reply = λ plaintext. encrypt l enc keytype plaintext remote_pk;
    })
