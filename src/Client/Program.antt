-- ===== src/Client/Program.antt =====
-- The client program as a whole.
use libonionrequests.Common.{
  ℕ, suc, ◌+◌, ◌≤◌, ◌≡◌, List, [], ◌∷◌, Bytes, length, map, All, Option, some, ok, arith,
}
use libonionrequests.Libs.{Libs}
use libonionrequests.Libs.Omq.{Omq}
use libonionrequests.Libs.Curl.{Curl}
use libonionrequests.Node.{SnodeInfo}
use libonionrequests.Onion.{snode, RemoteResource}
use libonionrequests.Random.{Draw}
use libonionrequests.Random.Sampling.{InRange, pick_random_first}
use libonionrequests.Paths.{Visit, store_node_list, create_path_selector}
use libonionrequests.Paths.Select.{VisitLaws}
use libonionrequests.Fetcher.{Nodes, Fetcher, fetch_all, create_node_fetcher}
use libonionrequests.Maker.Route.{Relay, IsRelay}
use libonionrequests.Client.{remote_of, got_nodes, request_along, seed, main}
use libonionrequests.Client.Selected.{IsRun, send_onion-All}

-- If nodes are fetched, each run by a relay, and the arguments name a remote, or name none and the
-- remote is the node that the map visits first, then the program sends its request to that remote along
-- a path of one to four of those relays, and ends as the request does. The numbers drawn are in range,
-- and a container is visited in some order of its elements.
pub main-All :
    (l : Libs) (q : Omq) (curl : Curl) (draw : Draw) (fair : InRange draw) (visit : Visit)
    (visits : VisitLaws visit) (raw : ℕ → Bytes × Bytes) (args : Option (Bytes × Bytes)) (r r₁ : ℕ)
    (node found : Bytes × SnodeInfo) (nodes others : Nodes) (fetcher : Fetcher q)
    (target : RemoteResource)
    → fetch_all l q draw (λ seeds. seeds) raw (create_node_fetcher q (seed ∷ [])) r
      ≡ ok ((node ∷ nodes, fetcher), r₁)
    → All (λ known. IsRun l known.1) (node ∷ nodes)
    → visit.nodes (node ∷ nodes) ≡ found ∷ others
    → remote_of l args (snode found.1) ≡ ok (some target)
    → (first : Relay) × (rest : List Relay) × (r' : ℕ) × All (IsRelay l) (first ∷ rest)
      × (length (first ∷ rest) ≤ 4)
      × (main l q curl draw visit raw args r
          ≡ request_along l curl
              (record { hops = map (λ relay. relay.node) (first ∷ rest); remote = target })
              r')
unfolding main got_nodes store_node_list create_path_selector
main-All l q curl draw fair visit visits raw args r r₁ node found nodes others fetcher target
      fetched run visited named =
    let (first, rest, r', relays, size, sent) =
      send_onion-All l curl draw fair visit visits (record { snodelist = node ∷ nodes; edges = [] })
        target (r₁ + suc (length others)) (omega arith) run tt in
    (
      first,
      rest,
      r',
      relays,
      size,
      rw (fetched, visited, pick_random_first draw fair found others r₁, named) sent,
    )
