-- ===== src/Maker/Header.antt =====
-- The keys and the metadata of one layer of `MakeOnion`.
use libonionrequests.Common.{
  ℕ, ◌≤◌, ◌≡◌, refl, List, Bytes, codes, length, lookup, some, All, arith,
}
use libonionrequests.Libs.{Libs}
use libonionrequests.Libs.Oxenc.{IsAscii, IsKey32}
use libonionrequests.Libs.Sodium.{ExchangeLaws}
use libonionrequests.Libs.Json.{IsAsciiField, fields_size}
use libonionrequests.Keys.{to_hex}
use libonionrequests.Node.{SnodeInfo}
use libonionrequests.Channel.EncType.{EncryptType, to_string, aes_cbc, aes_gcm, xchacha20}
use libonionrequests.Channel.RoundTrip.{Peers}
use libonionrequests.Junk.Envelope.{Laws, server}
use libonionrequests.Maker.{client, entry_fields, routing_fields}
use libonionrequests.Maker.Route.{Relay, IsRelay, keys_of}

-- What the metadata in front of a layer says, and how large its text can be.
pub record IsHeader (l : Libs) (t : EncryptType) (key : Bytes) (fields : List (Bytes × Bytes))
    : Type 0 where
  pub ascii : All IsAsciiField fields
  pub small : fields_size fields ≤ 1100
  pub scheme : lookup (codes "enc_type") fields ≡ some (to_string t)
  pub sender : lookup (codes "ephemeral_key") fields ≡ some (to_hex l.oxenc key)

module _ (l : Libs) (laws : Laws l) (t : EncryptType) where
  open laws use {crypto, hex, little, objects}

  exchange : ExchangeLaws l.sodium
  exchange = crypto.sodium_laws.exchange

  -- A fresh key pair of the client and the keys of a relay are the two ends of a channel.
  pub fresh-Peers :
      (relay : Relay) (r : ℕ)
      → IsRelay l relay
      → let (public, secret) = l.sodium.box_keypair r in
        Peers l.sodium (client secret public) (server (keys_of relay))
  fresh-Peers relay r k = record {
    x_secret = exchange.length-box_keypair r;
    y_secret = k.secret_size;
    x_public = exchange.box_keypair_public r;
    y_public = k.onion_key;
    roles = refl;
  }

  pub fresh-IsKey32 : (r : ℕ) → IsKey32 (l.sodium.box_keypair r).0
  fresh-IsKey32 r =
      rw (exchange.box_keypair_public r) (
        exchange.scalarmult_base-IsKey32 (l.sodium.box_keypair r).1 (exchange.length-box_keypair r))

  name_fits : (t : EncryptType) → IsAscii (to_string t) × (length (to_string t) ≤ 9)
  unfolding to_string
  name_fits xchacha20 = omega arith
  name_fits aes_gcm = omega arith
  name_fits aes_cbc = omega arith

  pub entry-IsHeader : (key : Bytes) → IsKey32 key → IsHeader l t key (entry_fields l t key)
  unfolding entry_fields to_hex
  entry-IsHeader key h = record {
    ascii = ((omega arith, hex.to_hex-IsAscii key h.1), ((omega arith, (name_fits t).0), tt));
    small = omega (arith, hex.length-to_hex key, name_fits t);
    scheme = refl;
    sender = refl;
  }

  pub routing-IsHeader :
      (next : SnodeInfo) (key : Bytes)
      → IsKey32 next.identity
      → IsKey32 key
      → IsHeader l t key (routing_fields l t next key)
  unfolding routing_fields to_hex
  routing-IsHeader next key hn h = record {
    ascii = (
      (omega arith, hex.to_hex-IsAscii next.identity hn.1),
      ((omega arith, hex.to_hex-IsAscii key h.1), ((omega arith, (name_fits t).0), tt)),
    );
    small = omega (arith, hex.length-to_hex key, hex.length-to_hex next.identity, name_fits t);
    scheme = refl;
    sender = refl;
  }
