-- ===== src/Bindings.antt =====
-- pybind/: what the Python module does beside the calls that it passes on. A `bytes` object is its
-- bytes; the interpreter's lock is not modelled.
pub mod Guards
pub mod Seeds
pub mod SeedSet
pub mod RoundTrip
use libonionrequests.Common.{
  ℕ, Bool, true, false, not, ◌&&◌, List, [], ◌∷◌, Bytes, bytes_eq, length, Result, ok, err, guard,
  ◌>>=◌, ◌>>◌, Random, invalid_argument, library_error, or_throw, ◌==◌, if◌then◌else◌,
}
use libonionrequests.Libs.{Libs}
use libonionrequests.Libs.Sodium.{Sodium}
use libonionrequests.Libs.Ed25519.{Ed25519}
use libonionrequests.Libs.Xed.{Xed}
use libonionrequests.Libs.Omq.{Omq}
use libonionrequests.Keys.{null_bytes, write_out}
use libonionrequests.Node.{SnodeInfo}
use libonionrequests.Onion.{OnionPath, OnionPayload}
use libonionrequests.Junk.{Junk}
use libonionrequests.Junk.Parser.{JunkParserBase, junk_parser}
use libonionrequests.Maker.Base.{OnionMakerBase, HopsType, onion_maker}
use libonionrequests.Paths.{Selector, create_path_selector, store_node_list}
use libonionrequests.Random.{Draw}
use libonionrequests.Fetcher.{Nodes, Fetcher, seed_nodes, create_node_fetcher, fetch_all}
use libonionrequests.Xed25519

-- junk.cpp: `out` is the key that is written.
unfoldable pub set_key : Bytes → Bytes → Result Bytes
set_key out text = do guard (length text == length out) invalid_argument; write_out text out

-- `Parser`: the pair is made of zeros before the keys are set. A null pointer would be refused.
unfoldable pub new_parser : Libs → Bytes → Bytes → Result JunkParserBase
new_parser l pubkey privkey = do
  public ← set_key (null_bytes 32) pubkey
  secret ← set_key (null_bytes 32) privkey
  or_throw (junk_parser l (record { public = public; secret = secret })) library_error

-- `Parser.parse_junk`, and `Junk.transformReply`.
unfoldable pub parsed : JunkParserBase → Bytes → Result Junk
parsed parser stuff = parser.parse_junk stuff

unfoldable pub transform_reply : Junk → Bytes → Random Bytes
transform_reply junk reply = junk.transform_reply reply

-- `OnionMakerBase.make_onion`.
unfoldable pub make_onion_by : OnionMakerBase → Bytes → OnionPath → Random OnionPayload
make_onion_by maker plaintext path = maker.make_onion plaintext path

-- `all_xchacha20` and `all_aesgcm`.
unfoldable pub all_xchacha20 : Libs → OnionMakerBase
all_xchacha20 l = onion_maker l HopsType.all_xchacha20_hops

unfoldable pub all_aesgcm : Libs → OnionMakerBase
all_aesgcm l = onion_maker l HopsType.all_aesgcm_hops

-- xed25519.cpp: a required size of zero is none.
unfoldable pub uview : Bytes → ℕ → Result Bytes
uview text required_size = do
  guard (not (not (required_size == 0) && not (length text == required_size))) invalid_argument
  ok text

module _ (sodium : Sodium) (e : Ed25519) (x : Xed) where
  unfoldable pub xed25519_sign : Bytes → Bytes → Random Bytes
  xed25519_sign curve25519_privkey msg draw = do
    a ← uview curve25519_privkey 32
    text ← uview msg 0
    Xed25519.sign sodium e x a text draw

  unfoldable pub xed25519_pubkey : Bytes → Result Bytes
  xed25519_pubkey curve25519_pubkey = do
    A ← uview curve25519_pubkey 32
    Xed25519.pubkey sodium e x A

  unfoldable pub xed25519_verify : Bytes → Bytes → Bytes → Result Bool
  xed25519_verify signature curve25519_pubkey msg = do
    sig ← uview signature 64
    A ← uview curve25519_pubkey 32
    text ← uview msg 0
    Xed25519.verify sodium e x sig A text

-- consensus.cpp: a set made from a list holds each text once.
abbrev pub contains : Bytes → List Bytes → Bool
contains seed [] = false
contains seed (s ∷ seeds) = if bytes_eq s seed then true else contains seed seeds

unfoldable pub to_set : List Bytes → List Bytes
to_set [] = []
to_set (seed ∷ seeds) =
    let others = to_set seeds in if contains seed others then others else seed ∷ others

-- `PyDirectConsensus`: the state is the `_seeds` of the consensus, which are none before they are set.
unfoldable pub new_direct_consensus : List Bytes → Result (List Bytes)
new_direct_consensus [] = err invalid_argument
new_direct_consensus (seed ∷ seeds) = ok (seed_nodes (to_set (seed ∷ seeds)) [])

unfoldable pub make_node_fetcher : (q : Omq) → List Bytes → Fetcher q
make_node_fetcher q consensus = create_node_fetcher q consensus

unfoldable pub make_path_selector : Selector
make_path_selector = create_path_selector

-- `fetch_all` of a node fetcher.
unfoldable pub fetch_all_nodes :
    (l : Libs) (q : Omq) (draw : Draw) (visit : List Bytes → List Bytes) (raw : ℕ → Bytes × Bytes)
    → Fetcher q
    → Random (Nodes × Fetcher q)
fetch_all_nodes l q draw visit raw fetcher r = fetch_all l q draw visit raw fetcher r

-- `set_node_list` of a path selector.
unfoldable pub set_node_list : Nodes → Selector → Selector
set_node_list nodelist selector = store_node_list nodelist selector
