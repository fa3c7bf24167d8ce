-- ===== src/Client/Selected.antt =====
-- A request of the client program goes along relays that its path selector knows.
use libonionrequests.Common.{
  ℕ, ◌≤◌, ◌≡◌, refl, ap, List, [], ◌∷◌, Bytes, length, length-map, map, All, arith,
}
use libonionrequests.Libs.{Libs}
use libonionrequests.Libs.Curl.{Curl}
use libonionrequests.Node.{SnodeInfo}
use libonionrequests.Onion.{RemoteResource}
use libonionrequests.Random.{Draw}
use libonionrequests.Random.Sampling.{InRange}
use libonionrequests.Paths.{Selector, Visit}
use libonionrequests.Paths.Select.{VisitLaws}
use libonionrequests.Paths.Origin.{maybe_select_hops_to-All}
use libonionrequests.Maker.Route.{Relay, IsRelay}
use libonionrequests.Client.{request_along, send_onion}

module _ (l : Libs) where
  -- A node is run by a relay if it has a secret key that its published key belongs to.
  abbrev pub IsRun : SnodeInfo → Type 0
  IsRun node = (secret : Bytes) × IsRelay l (record { node = node; secret = secret })

  relays_of :
      (nodes : List SnodeInfo)
      → All IsRun nodes
      → (relays : List Relay) × (map (λ relay. relay.node) relays ≡ nodes) × All (IsRelay l) relays
  relays_of [] h = ([], refl, tt)
  relays_of (node ∷ nodes) ((secret, relay), h) =
      let (relays, e, all) = relays_of nodes h in
      (record { node = node; secret = secret } ∷ relays, ap (◌∷◌ node) e, (relay, all))

  -- If the selector has a node, and each of its nodes and edges is run by a relay, then the program
  -- sends the request along a path of one to four such relays. The numbers drawn are in range, and
  -- a container is visited in some order of its elements.
  pub send_onion-All :
      (curl : Curl) (draw : Draw) (fair : InRange draw) (visit : Visit) (visits : VisitLaws visit)
      (selector : Selector) (remote : RemoteResource) (r : ℕ)
      → 1 ≤ length selector.snodelist
      → All (λ node. IsRun node.1) selector.snodelist
      → All IsRun selector.edges
      → (first : Relay) × (rest : List Relay) × (r' : ℕ) × All (IsRelay l) (first ∷ rest)
        × (length (first ∷ rest) ≤ 4)
        × (send_onion l curl draw visit selector remote r
            ≡ request_along l curl
                (record { hops = map (λ relay. relay.node) (first ∷ rest); remote = remote })
                r')
  unfolding send_onion
  send_onion-All curl draw fair visit visits selector remote r some_nodes nodes_run edges_run =
      let (after, edge, others, r', e, (edge_run, others_run), size, edges_kept, nodes_kept) =
        maybe_select_hops_to-All draw fair visit visits IsRun selector remote r some_nodes nodes_run
          edges_run in
      let (rest, same, relays) = relays_of others others_run in
      (
        record { node = edge; secret = edge_run.0 },
        rest,
        r',
        (edge_run.1, relays),
        omega (arith, size, ap length same, length-map rest (λ (relay : Relay). relay.node)),
        rw (e, same) refl,
      )
