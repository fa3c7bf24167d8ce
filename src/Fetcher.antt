-- ===== src/Fetcher.antt =====
-- `OxenMQ_NodeFetcher_JSON`, `Consensus_Base` and `Consensus_Direct` of onionreq/consensus.hpp and
-- consensus.cpp: fetching the list of service nodes.
pub mod Nodes
pub mod Replies
pub mod Lifetime
pub mod Seeded
pub mod Requested
use libonionrequests.Common.{
  ℕ, suc, Bool, true, false, List, [], ◌∷◌, Bytes, codes, length, map, insert_or_assign, Option,
  none, some, Result, ok, or_throw, ◌>>=◌, catch_all, Random, library_error, invalid_argument,
  if◌then◌else◌,
}
use libonionrequests.Libs.{Libs}
use libonionrequests.Libs.Omq.{Omq}
use libonionrequests.Node.{SnodeInfo, from_json}
use libonionrequests.Random.{Draw, pick_random}

-- `_conn` and `_seeds`.
pub record Fetcher (q : Omq) : Type 0 where
  pub conn : Option q.Connection
  pub seeds : List Bytes

-- A map from identities to nodes.
abbrev pub Nodes : Type 0
Nodes = List (Bytes × SnodeInfo)

-- `Consensus_Base::SeedNodes`: the state is `_seeds`.
unfoldable pub seed_nodes : List Bytes → List Bytes → List Bytes
seed_nodes seeds old = seeds

-- `Consensus_Direct::CreateNodeFetcher`.
unfoldable pub create_node_fetcher : (q : Omq) → List Bytes → Fetcher q
create_node_fetcher q seeds = record { conn = none; seeds = seeds }

-- The two functions `Consensus`, by the `_seeds` of what they give. The one over lokinet gives a null
-- pointer.
pub data OxenmqType : Type 0 where
  direct_oxenmq lokinet_oxenmq : OxenmqType

unfoldable pub consensus : OxenmqType → Option (List Bytes)
consensus OxenmqType.direct_oxenmq = some []
consensus OxenmqType.lokinet_oxenmq = none

abbrev pub rpc_method : Bytes
rpc_method = codes "rpc.get_service_nodes"

-- The fields of a node that `RPCBody` asks for.
abbrev pub requested_fields : List Bytes
requested_fields =
    codes "pubkey_ed25519"
    ∷ codes "pubkey_x25519"
    ∷ codes "public_ip"
    ∷ codes "storage_port"
    ∷ codes "storage_lmq_port"
    ∷ []

module _ (l : Libs) where
  unfoldable pub rpc_body : Result Bytes
  rpc_body =
      let fields = l.json.object (map (λ field. (field, l.json.boolean true)) requested_fields) in
      or_throw (l.json.dump (l.json.object ((codes "fields", fields) ∷ []))) library_error

  -- The loop of `ParseNodeList`. `raw n` is the memory of the two keys when `n` entries are to follow.
  unfoldable pub add_entries : (ℕ → Bytes × Bytes) → List l.json.Value → Nodes → Result Nodes
  add_entries raw [] list = ok list
  add_entries raw (entry ∷ entries) list = do
    let (raw_identity, raw_onion) = raw (length entries)
    info ← from_json l raw_identity raw_onion entry
    add_entries raw entries (insert_or_assign info.identity info list)

  unfoldable pub parse_node_list : (ℕ → Bytes × Bytes) → Bytes → Result Nodes
  parse_node_list raw text = do
    val ← or_throw (l.json.parse text) library_error
    elim (l.json.find val (codes "service_node_states")) [
      | some states ↦ add_entries raw (l.json.elements states) []
      | none ↦ ok []
    ]

  -- The callback of `FetchAll`: what is handed on to the callback of the caller.
  unfoldable pub on_reply : (ℕ → Bytes × Bytes) → Bool × List Bytes → Result Nodes
  on_reply raw (success, []) = ok []
  on_reply raw (success, (m ∷ [])) = ok []
  on_reply raw (success, (m ∷ (body ∷ more))) =
      if success then catch_all (parse_node_list raw body) (ok []) else ok []

  module _ (q : Omq) (draw : Draw) (visit : List Bytes → List Bytes) where
    -- `visit` is the order in which the set of seeds visits its elements.
    unfoldable pub obtain_connection : Fetcher q → Random (Option q.Connection × Fetcher q)
    obtain_connection s r = elim s.conn [
      | some conn ↦ ok ((some conn, s), r)
      | none ↦
          (pick_random draw (visit s.seeds) r >>= λ (seed, r').
          or_throw (q.parse_address seed) invalid_argument >>= λ address.
          let conn = q.connect r' address in ok ((conn, record s { conn = conn }), suc r'))
    ]

    -- What the callback is called with, and the fetcher afterwards.
    unfoldable pub fetch_all : (ℕ → Bytes × Bytes) → Fetcher q → Random (Nodes × Fetcher q)
    fetch_all raw s r = do
      ((maybe, s'), r') ← obtain_connection s r
      elim maybe [
        | some conn ↦
            (rpc_body >>= λ body.
            on_reply raw (q.request r' conn rpc_method body) >>= λ nodes. ok ((nodes, s'), suc r'))
        | none ↦ ok (([], s'), r')
      ]

-- `Fetch` answers nothing.
unfoldable pub fetch : Bytes → Option SnodeInfo
fetch ident = none
