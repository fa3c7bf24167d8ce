-- ===== src/Maker/Route.antt =====
-- What the nodes along a path do with an onion: each reads what it is sent with its own keys, and
-- passes the plaintext on to the node that the plaintext names.
use libonionrequests.Common.{ℕ, ◌≡◌, List, [], ◌∷◌, Bytes, codes, length, drop, take, ok, some}
use libonionrequests.Libs.{Libs}
use libonionrequests.Libs.Oxenc.{IsKey32}
use libonionrequests.Keys.{to_hex}
use libonionrequests.Node.{SnodeInfo}
use libonionrequests.Junk.{Junk, Keypair, parse_junk}

-- A node of the network: what is published of it, and its secret x25519 key.
pub record Relay : Type 0 where
  pub node : SnodeInfo
  pub secret : Bytes

abbrev pub keys_of : Relay → Keypair
keys_of relay = record { public = relay.node.onion; secret = relay.secret }

module _ (l : Libs) where
  -- The published key belongs to the secret one, and keys have their sizes.
  pub record IsRelay (relay : Relay) : Type 0 where
    pub secret_size : length relay.secret ≡ 32
    pub onion_key : relay.node.onion ≡ l.sodium.scalarmult_base relay.secret
    pub identity_key : IsKey32 relay.node.identity

  -- Behind a sized block stands metadata that names the destination by its identity in hex.
  pub record Routed (next : SnodeInfo) (payload : Bytes) : Type 0 where
    pub block : ℕ
    pub metadata : l.json.Value
    pub destination : l.json.Value
    pub sized : l.oxenc.load_little32 (take 4 payload) ≡ block
    pub parsed : l.json.parse (drop block (drop 4 payload)) ≡ some metadata
    pub found : l.json.find metadata (codes "destination") ≡ some destination
    pub named : l.json.get_string destination ≡ some (to_hex l.oxenc next.identity)

  -- The blob goes through the relays in order, each routing to the next, and the last one reads
  -- `inner` out of it, in a way of which `P` holds.
  abbrev pub Travels : (Junk → Type 0) → List Relay → Bytes → Bytes → Type 0
  Travels P [] blob inner = ⊥
  Travels P (relay ∷ []) blob inner =
      (junk : Junk) × (parse_junk l (keys_of relay) blob ≡ ok junk)
      × (junk.payload ≡ inner)
      × P junk
  Travels P (relay ∷ next ∷ rest) blob inner =
      (junk : Junk) × (parse_junk l (keys_of relay) blob ≡ ok junk)
      × Routed next.node junk.payload
      × Travels P (next ∷ rest) junk.payload inner
