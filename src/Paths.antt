-- ===== src/Paths.antt =====
-- `PathSelection_Base` and `PathSelection_Default` of onionreq/consensus.hpp and consensus.cpp.
pub mod Select
pub mod Edges
pub mod Origin
pub mod Lifetime
use libonionrequests.Common.{
  ℕ, Bool, true, false, List, [], ◌∷◌, Bytes, length, leb, map, Option, some, Result, ok, undefined,
  ◌>>=◌, Random, if◌then◌else◌,
}
use libonionrequests.Node.{SnodeInfo, same_identity}
use libonionrequests.Onion.{RemoteResource, OnionPath, first_of_hops}
use libonionrequests.Random.{Draw, sample, pick_random}

-- `_snodelist` and `_edges`. Calls hold the mutex from end to end, so they follow one another.
pub record Selector : Type 0 where
  pub snodelist : List (Bytes × SnodeInfo)
  pub edges : List SnodeInfo

-- Feedback on a path is dropped.
unfoldable pub onion_path_failed : OnionPath → Selector → Selector
onion_path_failed path s = s

unfoldable pub onion_path_success : OnionPath → Selector → Selector
onion_path_success path s = s

-- `Consensus_Direct::CreatePathSelector`.
unfoldable pub create_path_selector : Selector
create_path_selector = record { snodelist = []; edges = [] }

-- The orders in which the hash containers visit their elements, which the language leaves open.
pub record Visit : Type 0 where
  pub nodes : List (Bytes × SnodeInfo) → List (Bytes × SnodeInfo)
  pub edges : List SnodeInfo → List SnodeInfo

unfoldable pub store_node_list : List (Bytes × SnodeInfo) → Selector → Selector
store_node_list nodes s = record s { snodelist = nodes }

unfoldable pub default_hop_length : ℕ
default_hop_length = 4

abbrev pub max_edges : ℕ
max_edges = 4

-- `_edges.insert(node)`: nodes are one element if their identities are equal.
unfoldable pub insert_edge : SnodeInfo → List SnodeInfo → List SnodeInfo
insert_edge node [] = node ∷ []
insert_edge node (e ∷ edges) =
    if same_identity e node then e ∷ edges else e ∷ insert_edge node edges

-- `path.Edge() = node`.
unfoldable pub assign_edge : SnodeInfo → List SnodeInfo → Result (List SnodeInfo)
assign_edge node [] = undefined
assign_edge node (hop ∷ hops) = ok (node ∷ hops)

module _ (draw : Draw) (visit : Visit) where
  -- The first hop is replaced by a known edge once there are `max_edges` of them.
  unfoldable pub choose_edge : List SnodeInfo → List SnodeInfo → Random (List SnodeInfo)
  unfolding assign_edge
  choose_edge edges hops r =
      if leb max_edges (length edges)
      then (pick_random draw (visit.edges edges) r >>= λ (node, r').
          assign_edge node hops >>= λ hops'. ok (hops', r'))
      else ok (hops, r)

  unfoldable pub maybe_select_hops_to :
      Selector → RemoteResource → Random (Selector × Option OnionPath)
  maybe_select_hops_to s remote r = do
    let (sampled, r₁) = sample draw default_hop_length (visit.nodes s.snodelist) r
    (hops, r₂) ← choose_edge s.edges (map (λ hop. hop.1) sampled) r₁
    edge ← first_of_hops hops
    let s' : Selector = record s { edges = insert_edge edge s.edges }
    ok ((s', some (record { hops = hops; remote = remote })), r₂)
