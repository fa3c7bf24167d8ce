-- ===== src/Maker/Reflection.antt =====
-- A request that is sent back as it is.
use libonionrequests.Common.{
  ℕ, suc, ◌+◌, ◌<◌, ◌^◌, ◌≡◌, refl, ap₂, ◌∙◌, [], ◌∷◌, Bytes, ◌++◌, length, length-append, take,
  drop, take-append, some, ok, arith,
}
use libonionrequests.Libs.{Libs}
use libonionrequests.Channel.EncType.{EncryptType}
use libonionrequests.Channel.RoundTrip.{decrypt_own}
use libonionrequests.Junk.Envelope.{
  Laws, server, length-encode_size, load-encode_size, drop-encode_size,
}
use libonionrequests.Maker.{
  encode_size, client, entry_fields, wrap, make_layers, make_onion, decrypt_response,
}
use libonionrequests.Maker.Header.{fresh-Peers, fresh-IsKey32, entry-IsHeader}
use libonionrequests.Maker.Peel.{envelope_lem}
use libonionrequests.Maker.Delivery.{request}
use libonionrequests.Maker.Route.{Relay, IsRelay, keys_of}
use libonionrequests.Onion.{OnionPayload, RemoteResource, control_data}

-- The first block of a message, behind its size.
abbrev pub first_block : Libs → Bytes → Bytes
first_block l message = take (l.oxenc.load_little32 (take 4 message)) (drop 4 message)

module _ (l : Libs) (laws : Laws l) (t : EncryptType) where
  open laws use {crypto}

  -- `MakeOnion` for a path of one relay: whoever sends the first block of the ciphertext back, without
  -- any key, is answered for. `maybeDecryptResponse` takes the client's own request for the reply.
  pub make_onion_reflected :
      (remote : RemoteResource) (relay : Relay) (payload control : Bytes) (r : ℕ)
      → IsRelay l relay
      → l.json.dump (control_data l remote) ≡ some control
      → length payload + length control + 100 < 2 ^ 31
      → (onion : OnionPayload) × (r' : ℕ) × (make_onion l t payload
            (record { hops = relay.node ∷ []; remote = remote })
            r
          ≡ ok (onion, r'))
        × (onion.maybe_decrypt_response (first_block l onion.ciphertext)
            ≡ ok (some (request l payload control)))
  unfolding make_onion make_layers wrap decrypt_response
  make_onion_reflected remote relay payload control r k printed small =
      let (public, secret) = l.sodium.box_keypair r in
      let inner = request l payload control in
      let size : length inner ≡ 4 + (length payload + length control) =
        length-append (encode_size l.oxenc (length payload)) (payload ++ control)
        ∙ ap₂ (λ a b. a + b) (length-encode_size l laws (length payload))
            (length-append payload control) in
      let (c, sent, own, grown) =
        decrypt_own l crypto (client secret public) (server (keys_of relay))
          (fresh-Peers l laws t relay r k) t inner (suc r) (omega arith) in
      let (text, written, parsed, fits) =
        envelope_lem l laws t (entry_fields l t public) public c
          (entry-IsHeader l laws t public (fresh-IsKey32 l laws t r)) in
      let block : first_block l (encode_size l.oxenc (length c) ++ (c ++ text)) ≡ c =
        rw
          (
            load-encode_size l laws (length c) (c ++ text) (omega arith),
            drop-encode_size l laws (length c) (c ++ text),
          )
          (take-append (length c) c text refl) in
      (
        record {
          ciphertext = encode_size l.oxenc (length c) ++ (c ++ text);
          path = record { hops = relay.node ∷ []; remote = remote };
          maybe_decrypt_response = decrypt_response l t (client secret public) relay.node.onion;
        },
        suc (suc r),
        rw (printed, sent, written),
        rw (block, own),
      )
