-- ===== src/Maker.antt =====
-- onionreq/onion_maker.hpp and onion_maker.cpp: the layers of an onion request.
pub mod Route
pub mod Header
pub mod Peel
pub mod Delivery
pub mod Follow
pub mod Response
pub mod Bounds
pub mod Reflection
pub mod Base
use libonionrequests.Common.{
  ℕ, suc, ◌^◌, ◌%◌, List, [], ◌∷◌, ◌++◌, Bytes, codes, length, Option, none, some, false, Result,
  ok, undefined, or_throw, catch_all, ◌>>=◌, Random, library_error, if◌then◌else◌,
}
use mathlib.Core.List.{reverse}
use libonionrequests.Libs.{Libs}
use libonionrequests.Libs.Json.{object_of_texts}
use libonionrequests.Libs.Oxenc.{Oxenc}
use libonionrequests.Keys.{to_hex}
use libonionrequests.Node.{SnodeInfo}
use libonionrequests.Onion.{OnionPath, OnionPayload, control_data}
use libonionrequests.Channel.{ChannelEncryption, encrypt, decrypt}
use libonionrequests.Channel.EncType.{EncryptType, aes_gcm, xchacha20, to_string}

-- A `size_t` handed over as a `uint32_t`.
unfoldable pub encode_size : Oxenc → ℕ → Bytes
encode_size o s = o.write_little32 (s % 2 ^ 32)

-- `ChannelEncryption{a, A, false}`.
abbrev pub client : Bytes → Bytes → ChannelEncryption
client secret public = record { private_key = secret; public_key = public; server = false }

module _ (l : Libs) (keytype : EncryptType) where
  -- The metadata in front of the first hop, and the routing data between two hops.
  unfoldable pub entry_fields : Bytes → List (Bytes × Bytes)
  entry_fields key =
      (codes "ephemeral_key", to_hex l.oxenc key) ∷ (codes "enc_type", to_string keytype) ∷ []

  unfoldable pub routing_fields : SnodeInfo → Bytes → List (Bytes × Bytes)
  routing_fields next key =
      (codes "destination", to_hex l.oxenc next.identity)
      ∷ (codes "ephemeral_key", to_hex l.oxenc key)
      ∷ (codes "enc_type", to_string keytype)
      ∷ []

  -- `encode_size(blob.size()) + blob + json.dump()`.
  unfoldable pub envelope : Bytes → List (Bytes × Bytes) → Result Bytes
  unfolding encode_size
  envelope blob fields = do
    text ← or_throw (l.json.dump (object_of_texts l.json fields)) library_error
    ok (encode_size l.oxenc (length blob) ++ (blob ++ text))

  -- The loop over the hops from the one before the last to the first: `prev` is the hop of the
  -- round before, `key` and `blob` are what that round left.
  unfoldable pub wrap : SnodeInfo → Bytes → Bytes → List SnodeInfo → Random (Bytes × Bytes)
  wrap prev key blob [] r = ok ((key, blob), r)
  wrap prev key blob (hop ∷ hops) r = do
    routed ← envelope blob (routing_fields prev key)
    let (public, secret) = l.sodium.box_keypair r
    (sealed, r') ← encrypt l (client secret public) keytype routed hop.onion (suc r)
    wrap hop public sealed hops r'

  -- The function that `maybeDecryptResponse` holds.
  unfoldable pub decrypt_response : ChannelEncryption → Bytes → Bytes → Result (Option Bytes)
  decrypt_response d final_key body =
      catch_all (decrypt l d keytype body final_key >>= λ text. ok (some text)) (
        if l.oxenc.is_base64 body
        then catch_all
            (decrypt l d keytype (l.oxenc.from_base64 body) final_key >>= λ text. ok (some text))
            (ok none)
        else ok none)

  -- `MakeOnion` for the hops from the last one back: `path.hops.back()` of no hops is undefined.
  unfoldable pub make_layers : OnionPath → Bytes → Bytes → List SnodeInfo → Random OnionPayload
  make_layers path payload control [] r = undefined
  make_layers path payload control (last ∷ others) r = do
    let (public, secret) = l.sodium.box_keypair r
    let d = client secret public
    let text = encode_size l.oxenc (length payload) ++ (payload ++ control)
    (sealed, r₁) ← encrypt l d keytype text last.onion (suc r)
    ((key, blob), r₂) ← wrap last public sealed others r₁
    ciphertext ← envelope blob (entry_fields key)
    ok (
      record {
        ciphertext = ciphertext;
        path = path;
        maybe_decrypt_response = decrypt_response d last.onion;
      },
      r₂,
    )

  unfoldable pub make_onion : Bytes → OnionPath → Random OnionPayload
  make_onion payload path r = do
    control ← or_throw (l.json.dump (control_data l path.remote)) library_error
    make_layers path payload control (reverse path.hops) r
