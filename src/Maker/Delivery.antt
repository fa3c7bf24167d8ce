-- ===== src/Maker/Delivery.antt =====
-- The whole of `MakeOnion`: what each node along the path reads, and how the answer comes back.
use libonionrequests.Common.{
  ℕ, suc, ◌+◌, ◌*◌, ◌<◌, ◌^◌, ◌≡◌, refl, sym, ap, ap₂, ◌∙◌, List, [], ◌∷◌, Bytes, ◌++◌, length, map,
  length-append, some, Option, ◌≢◌, All-reverse_aux, length-reverse_aux, map-reverse_aux, All,
  Result, ok, arith,
}
use libonionrequests.Libs.{Libs}
use libonionrequests.Libs.Oxenc.{IsKey32}
use libonionrequests.Channel.EncType.{EncryptType}
use libonionrequests.Channel.RoundTrip.{Peers-sym, decrypt-encrypt}
use libonionrequests.Junk.{Junk}
use libonionrequests.Junk.Envelope.{Laws, server, length-encode_size}
use libonionrequests.Maker.{
  encode_size, client, entry_fields, wrap, make_layers, make_onion, decrypt_response,
}
use libonionrequests.Maker.Header.{fresh-Peers, fresh-IsKey32, entry-IsHeader}
use libonionrequests.Maker.Route.{Relay, IsRelay, keys_of, Travels}
use libonionrequests.Maker.Peel.{Carries, round, layer, envelope_lem, junk_of}
use libonionrequests.Onion.{OnionPath, OnionPayload, RemoteResource, control_data}
use mathlib.Core.List.{reverse, reverse_aux, reverse-reverse}

module _ (l : Libs) (laws : Laws l) (t : EncryptType) (P : Junk → Type 0) (inner : Bytes) where
  open laws use {crypto, hex, little, objects}

  wrap_lem :
      (others : List Relay) (prev : Relay) (rest : List Relay) (key blob : Bytes) (r : ℕ)
      → All (IsRelay l) others
      → IsRelay l prev
      → IsKey32 key
      → length blob + 1200 * length others + 1200 < 2 ^ 31
      → Carries l laws t P inner key blob (prev ∷ rest)
      → (key' blob' : Bytes) × (r' : ℕ) × (wrap l t prev.node key blob (map (λ q. q.node) others) r
          ≡ ok ((key', blob'), r'))
        × (IsKey32 key')
        × Carries l laws t P inner key' blob' (reverse_aux others (prev ∷ rest))
  unfolding wrap
  wrap_lem [] prev rest key blob r ks n hk hb carries = (key, blob, r, refl, hk, carries)
  wrap_lem (relay ∷ others) prev rest key blob r (k, ks) n hk hb carries =
      let (routed, c, written, sent, grown, carries') =
        round l laws t P inner relay prev rest key blob r k n hk (omega arith) carries in
      let (key', blob', r', done, hk', last) =
        wrap_lem others relay (prev ∷ rest) (l.sodium.box_keypair r).0 c (suc (suc r)) ks k
          (fresh-IsKey32 l laws t r) (omega arith) carries' in
      (key', blob', r', rw (written, sent) done, hk', last)

-- The block that the last node reads: the size of the payload, the payload and the control data.
abbrev pub request : Libs → Bytes → Bytes → Bytes
request l payload control = encode_size l.oxenc (length payload) ++ (payload ++ control)

-- A reply that the last node encrypts is read by the function that the onion came with.
abbrev pub Answers : (Bytes → Result (Option Bytes)) → Junk → Type 0
Answers decrypter junk =
    (reply : Bytes) (q : ℕ)
    → length reply + 16 < 2 ^ 31
    → (c : Bytes) × (junk.transform_reply reply q ≡ ok (c, suc q)) × (decrypter c ≡ ok (some reply))

module _ (l : Libs) (laws : Laws l) (t : EncryptType) where
  open laws use {crypto}

  answers_lem :
      (last : Relay) (r : ℕ) (inner : Bytes)
      → IsRelay l last
      → let (public, secret) = l.sodium.box_keypair r in
        Answers
          (decrypt_response l t (client secret public) last.node.onion)
          (junk_of l t last public inner)
  unfolding decrypt_response
  answers_lem last r inner k reply q h =
      let (public, secret) = l.sodium.box_keypair r in
      let (c, sent, received, small) =
        decrypt-encrypt l crypto (server (keys_of last)) (client secret public)
          (Peers-sym (fresh-Peers l laws t last r k)) t reply q h in
      (c, sent, rw received)

  make_layers_lem :
      (path : OnionPath) (payload control : Bytes) (last : Relay) (others : List Relay) (r : ℕ)
      → IsRelay l last
      → All (IsRelay l) others
      → length payload + length control + 1200 * length others + 2600 < 2 ^ 31
      → (onion : OnionPayload) × (r' : ℕ) × (make_layers l t path payload control
            (map (λ q. q.node) (last ∷ others))
            r
          ≡ ok (onion, r'))
        × Travels l
            (Answers onion.maybe_decrypt_response)
            (reverse (last ∷ others))
            onion.ciphertext
            (request l payload control)
        × (onion.path ≡ path)
  unfolding make_layers
  make_layers_lem path payload control last others r k ks h =
      let (public, secret) = l.sodium.box_keypair r in
      let decrypter = decrypt_response l t (client secret public) last.node.onion in
      let inner = request l payload control in
      let size : length inner ≡ 4 + (length payload + length control) =
        length-append (encode_size l.oxenc (length payload)) (payload ++ control)
        ∙ ap₂ (λ a b. a + b) (length-encode_size l laws (length payload))
            (length-append payload control) in
      let (c, sent, grown, opens) = layer l laws t last r inner k (omega arith) in
      let (key, blob, r', wrapped, hk, carries) =
        wrap_lem l laws t (Answers decrypter) inner others last [] public c (suc (suc r)) ks k
          (fresh-IsKey32 l laws t r) (omega arith)
          (λ fields text head e. (
            junk_of l t last public inner,
            opens fields text head e,
            refl,
            answers_lem last r inner k,
          )) in
      let head = entry-IsHeader l laws t key hk in
      let (text, written, parsed, small) =
        envelope_lem l laws t (entry_fields l t key) key blob head in
      (
        record {
          ciphertext = encode_size l.oxenc (length blob) ++ (blob ++ text);
          path = path;
          maybe_decrypt_response = decrypter;
        },
        r',
        rw (sent, wrapped, written),
        carries (entry_fields l t key) text head parsed,
        refl,
      )

  make_onion_from :
      (remote : RemoteResource) (payload control : Bytes) (relays rev : List Relay) (r : ℕ)
      → reverse relays ≡ rev
      → relays ≢ []
      → All (IsRelay l) relays
      → l.json.dump (control_data l remote) ≡ some control
      → length payload + length control + 1200 * length relays + 2600 < 2 ^ 31
      → (onion : OnionPayload) × (r' : ℕ) × (make_onion l t payload
            (record { hops = map (λ q. q.node) relays; remote = remote })
            r
          ≡ ok (onion, r'))
        × Travels l
            (Answers onion.maybe_decrypt_response)
            relays
            onion.ciphertext
            (request l payload control)
        × (onion.path ≡ record { hops = map (λ q. q.node) relays; remote = remote })
  unfolding make_onion
  make_onion_from remote payload control relays [] r e ne ks d h =
      absurd (ne (sym (reverse-reverse relays) ∙ ap reverse e))
  make_onion_from remote payload control relays (last ∷ others) r e ne ks d h =
      let path : OnionPath = record { hops = map (λ q. q.node) relays; remote = remote } in
      let all_relays : All (IsRelay l) (last ∷ others) =
        rw e at (All-reverse_aux (IsRelay l) relays [] ks tt) in
      let size : suc (length others) ≡ length relays =
        sym (ap length e) ∙ length-reverse_aux relays [] ∙ omega arith in
      let (onion, r', made, travels, along) =
        make_layers_lem path payload control last others r all_relays.0 all_relays.1
          (omega arith) in
      (
        onion,
        r',
        rw (d, map-reverse e) made,
        rw (sym (ap reverse e) ∙ reverse-reverse relays) at travels,
        along,
      )
    where
      map-reverse :
          reverse relays ≡ last ∷ others
          → reverse (map (λ q. q.node) relays) ≡ map (λ q. q.node) (last ∷ others)
      map-reverse p = sym (map-reverse_aux (λ q. q.node) relays []) ∙ ap (map (λ q. q.node)) p

  -- `MakeOnion` for a path of at least one relay succeeds, provided that the control data can be
  -- printed and that the sizes stay below 2 ^ 31. The ciphertext goes through the relays in order:
  -- each parses what it is sent with its own keys, the plaintext names the next relay, and the last
  -- one reads the size of the payload, the payload and the control data. What the last relay's
  -- `transformReply` then makes of a reply, `maybeDecryptResponse` turns back into the reply. The path
  -- stands in the payload.
  pub make_onion-Travels :
      (remote : RemoteResource) (payload control : Bytes) (relays : List Relay) (r : ℕ)
      → relays ≢ []
      → All (IsRelay l) relays
      → l.json.dump (control_data l remote) ≡ some control
      → length payload + length control + 1200 * length relays + 2600 < 2 ^ 31
      → (onion : OnionPayload) × (r' : ℕ) × (make_onion l t payload
            (record { hops = map (λ q. q.node) relays; remote = remote })
            r
          ≡ ok (onion, r'))
        × Travels l
            (Answers onion.maybe_decrypt_response)
            relays
            onion.ciphertext
            (request l payload control)
        × (onion.path ≡ record { hops = map (λ q. q.node) relays; remote = remote })
  make_onion-Travels remote payload control relays r =
      make_onion_from remote payload control relays (reverse relays) r refl
