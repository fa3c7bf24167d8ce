-- ===== src/Bindings/RoundTrip.antt =====
-- The Python module on both ends of a path of one relay.
use libonionrequests.Common.{
  ℕ, suc, ◌+◌, ◌<◌, ◌^◌, ◌≡◌, refl, ◌∙◌, [], ◌∷◌, Bytes, length, some, ok, ◌>>=◌, eq→==, arith,
}
use libonionrequests.Libs.{Libs}
use libonionrequests.Onion.{RemoteResource, OnionPath, OnionPayload, control_data}
use libonionrequests.Channel.EncType.{EncryptType, aes_gcm, xchacha20}
use libonionrequests.Junk.{Junk, parse_junk}
use libonionrequests.Junk.Envelope.{Laws}
use libonionrequests.Maker.{make_onion}
use libonionrequests.Maker.Base.{OnionMakerBase, onion_maker}
use libonionrequests.Maker.Route.{Relay, IsRelay, keys_of}
use libonionrequests.Maker.Delivery.{make_onion-Travels, request}
use libonionrequests.Bindings.{
  make_onion_by, all_xchacha20, all_aesgcm, new_parser, parsed, transform_reply,
}
use libonionrequests.Bindings.Guards.{new_parser_lem}

module _ (l : Libs) (remote : RemoteResource) (payload control : Bytes) (relay : Relay) where
  abbrev over_relay : OnionPath
  over_relay = record { hops = relay.node ∷ []; remote = remote }

  -- What a maker makes is read by a parser with the keys of the relay, and what that makes of a reply is
  -- decrypted by the function that came with the message.
  abbrev pub IsRead : Bytes → ℕ → OnionMakerBase → ℕ → Type 0
  IsRead reply q maker r =
      (onion : OnionPayload) × (r' : ℕ) × (make_onion_by maker payload over_relay r
        ≡ ok (onion, r'))
      × ((junk : Junk) × ((new_parser l relay.node.onion relay.secret >>= λ parser.
              parsed parser onion.ciphertext)
            ≡ ok junk)
          × (junk.payload ≡ request l payload control)
          × ((c : Bytes) × (transform_reply junk reply q ≡ ok (c, suc q))
              × (onion.maybe_decrypt_response c ≡ ok (some reply))))

  module _ (laws : Laws l) (run : IsRelay l relay)
      (printed : l.json.dump (control_data l remote) ≡ some control)
      (small : length payload + length control + 3800 < 2 ^ 31) where
    onion_size : length relay.node.onion ≡ 32
    onion_size =
        rw run.onion_key
          (laws.crypto.sodium_laws.exchange.scalarmult_base-IsKey32 relay.secret run.secret_size).0

    parser-keys :
        (stuff : Bytes)
        → (new_parser l relay.node.onion relay.secret >>= λ parser. parsed parser stuff)
          ≡ parse_junk l (keys_of relay) stuff
    parser-keys stuff =
        new_parser_lem l relay.node.onion relay.secret stuff
        ∙ rw (eq→== _ _ onion_size, eq→== _ _ run.secret_size) refl

    make_onion-IsRead :
        (reply : Bytes) (q : ℕ)
        → length reply + 16 < 2 ^ 31
        → (t : EncryptType) (r : ℕ) → IsRead reply q (record { make_onion = make_onion l t }) r
    unfolding make_onion_by transform_reply
    make_onion-IsRead reply q fits t r =
        let (onion, r', made, (junk, opened, inner, answers), along) =
          make_onion-Travels l laws t remote payload control (relay ∷ []) r (λ e. cc) (run, tt)
            printed (omega arith) in
        (
          onion,
          r',
          made,
          (junk, parser-keys onion.ciphertext ∙ opened, inner, answers reply q fits),
        )

    -- Over a path of one relay, of which the keys match: what either maker of the Python module makes is
    -- read by a parser made of the keys of the relay, which gives the request, and what that makes of a
    -- reply is decrypted to the reply by the function that came with the
    -- message. The control data can be printed, and the sizes stay below 2 ^ 31.
    pub makers-IsRead :
        (reply : Bytes) (q r : ℕ)
        → length reply + 16 < 2 ^ 31
        → IsRead reply q (all_xchacha20 l) r × IsRead reply q (all_aesgcm l) r
    unfolding all_xchacha20 all_aesgcm onion_maker
    makers-IsRead reply q r fits =
        (make_onion-IsRead reply q fits xchacha20 r, make_onion-IsRead reply q fits aes_gcm r)
