-- ===== src/Maker/Peel.antt =====
-- `MakeOnion` against the nodes along the path.
use libonionrequests.Common.{
  ℕ, suc, ◌+◌, ◌≤◌, ◌<◌, ◌^◌, ◌≡◌, refl, ap₂, ◌∙◌, List, ◌∷◌, Bytes, codes, ◌++◌, length,
  drop-append, length-append, some, ok, arith,
}
use libonionrequests.Libs.{Libs}
use libonionrequests.Libs.Oxenc.{IsKey32}
use libonionrequests.Libs.Json.{object_of_texts}
use libonionrequests.Keys.{to_hex}
use libonionrequests.Node.{SnodeInfo}
use libonionrequests.Channel.{encrypt}
use libonionrequests.Channel.EncType.{EncryptType}
use libonionrequests.Channel.RoundTrip.{decrypt-encrypt}
use libonionrequests.Junk.{Junk, parse_junk}
use libonionrequests.Junk.Envelope.{
  Laws, server, parse_junk-envelope, load-encode_size, length-encode_size, drop-encode_size,
}
use libonionrequests.Maker.{encode_size, client, routing_fields, envelope}
use libonionrequests.Maker.Header.{IsHeader, fresh-Peers, fresh-IsKey32, routing-IsHeader}
use libonionrequests.Maker.Route.{Relay, IsRelay, keys_of, Routed, Travels}

-- What a relay makes of a layer: the plaintext, and the way to answer.
abbrev pub junk_of : Libs → EncryptType → Relay → Bytes → Bytes → Junk
junk_of l t relay key plaintext = record {
  payload = plaintext;
  transform_reply = λ reply. encrypt l (server (keys_of relay)) t reply key;
}

module _ (l : Libs) (laws : Laws l) (t : EncryptType) where
  open laws use {crypto, hex, little, objects}

  -- An encrypted text that a relay opens behind any header.
  abbrev pub Opens : Relay → Bytes → Bytes → Bytes → Type 0
  Opens relay key c plaintext =
      (fields : List (Bytes × Bytes)) (text : Bytes)
      → IsHeader l t key fields
      → l.json.parse text ≡ some (object_of_texts l.json fields)
      → parse_junk l (keys_of relay) (encode_size l.oxenc (length c) ++ (c ++ text))
        ≡ ok (junk_of l t relay key plaintext)

  -- One layer: `encrypt` under a fresh key succeeds, grows the text by 40 bytes at most, and the
  -- relay opens what it gives.
  pub layer :
      (relay : Relay) (r : ℕ) (plaintext : Bytes)
      → IsRelay l relay
      → length plaintext + 40 < 2 ^ 31
      → let (public, secret) = l.sodium.box_keypair r in
        (c : Bytes) × (encrypt l (client secret public) t plaintext relay.node.onion (suc r)
          ≡ ok (c, suc (suc r)))
        × (length c ≤ length plaintext + 40)
        × Opens relay public c plaintext
  layer relay r plaintext k h =
      let (public, secret) = l.sodium.box_keypair r in
      let (c, sent, received, small) =
        decrypt-encrypt l crypto (client secret public) (server (keys_of relay))
          (fresh-Peers l laws t relay r k) t plaintext (suc r) (omega arith) in
      (
        c,
        sent,
        small,
        λ fields text head e.
            parse_junk-envelope l laws fields t public head.scheme head.sender (keys_of relay) c
              text plaintext (fresh-IsKey32 l laws t r) (omega arith) e received,
      )

  -- The envelope around a text behind a header can be written.
  pub envelope_lem :
      (fields : List (Bytes × Bytes)) (key blob : Bytes)
      → IsHeader l t key fields
      → (text : Bytes) × (envelope l t blob fields
          ≡ ok (encode_size l.oxenc (length blob) ++ (blob ++ text)))
        × (l.json.parse text ≡ some (object_of_texts l.json fields))
        × (length text ≤ 1100)
  unfolding envelope
  envelope_lem fields key blob head =
      let (text, dumped, parsed, small) = objects.parse-dump fields head.ascii in
      (text, rw dumped, parsed, omega (arith, head.small))

  Routed_lem :
      (next : SnodeInfo) (key blob text : Bytes)
      → length blob < 2 ^ 32
      → l.json.parse text ≡ some (object_of_texts l.json (routing_fields l t next key))
      → Routed l next (encode_size l.oxenc (length blob) ++ (blob ++ text))
  unfolding routing_fields
  Routed_lem next key blob text h e = record {
    block = length blob;
    metadata = object_of_texts l.json (routing_fields l t next key);
    destination = l.json.string (to_hex l.oxenc next.identity);
    sized = load-encode_size l laws (length blob) (blob ++ text) h;
    parsed =
        rw
          (
            drop-encode_size l laws (length blob) (blob ++ text),
            drop-append (length blob) blob text refl,
          )
          e;
    found = objects.find_present (routing_fields l t next key) (codes "destination") _ refl;
    named = objects.get_string_lem (to_hex l.oxenc next.identity);
  }

  module _ (P : Junk → Type 0) (inner : Bytes) where
    -- Behind any header that names `key`, the blob goes through the route.
    abbrev pub Carries : Bytes → Bytes → List Relay → Type 0
    Carries key blob route =
        (fields : List (Bytes × Bytes)) (text : Bytes)
        → IsHeader l t key fields
        → l.json.parse text ≡ some (object_of_texts l.json fields)
        → Travels l P route (encode_size l.oxenc (length blob) ++ (blob ++ text)) inner

    -- One round of the loop puts one relay in front of the route.
    pub round :
        (relay next : Relay) (rest : List Relay) (key blob : Bytes) (r : ℕ)
        → IsRelay l relay
        → IsRelay l next
        → IsKey32 key
        → length blob + 1200 < 2 ^ 31
        → Carries key blob (next ∷ rest)
        → let (public, secret) = l.sodium.box_keypair r in
          (routed c : Bytes) × (envelope l t blob (routing_fields l t next.node key) ≡ ok routed)
          × (encrypt l (client secret public) t routed relay.node.onion (suc r)
              ≡ ok (c, suc (suc r)))
          × (length c ≤ length blob + 1200)
          × Carries public c (relay ∷ next ∷ rest)
    round relay next rest key blob r k n hk hb carries =
        let head = routing-IsHeader l laws t next.node key n.identity_key hk in
        let (text, written, parsed, small) =
          envelope_lem (routing_fields l t next.node key) key blob head in
        let routed = encode_size l.oxenc (length blob) ++ (blob ++ text) in
        let size : length routed ≡ 4 + (length blob + length text) =
          length-append (encode_size l.oxenc (length blob)) (blob ++ text)
          ∙ ap₂ (λ a b. a + b) (length-encode_size l laws (length blob))
              (length-append blob text) in
        let (c, sent, grown, opens) = layer relay r routed k (omega arith) in
        (
          routed,
          c,
          written,
          sent,
          omega arith,
          λ fields' text' head' e. (
            junk_of l t relay (l.sodium.box_keypair r).0 routed,
            opens fields' text' head' e,
            Routed_lem next.node key blob text (omega arith) parsed,
            carries (routing_fields l t next.node key) text head parsed,
          ),
        )
