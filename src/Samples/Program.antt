-- ===== src/Samples/Program.antt =====
-- The theorem on the client program as a whole at concrete inputs.
use libonionrequests.Common.{
  ℕ, Result, Bytes, codes, ◌≢◌, undefined, ◌+◌, ◌<◌, ◌≤◌, ◌≡◌, refl, ap, List, [], ◌∷◌, All, Option,
  none, some, ok, length, map, replicate, arith, ◌↔◌,
}
use libonionrequests.Samples.{sample, sample-Laws}
use libonionrequests.Samples.Oxenc.{sample_decode}
use libonionrequests.Samples.Tests.{control_text}
use libonionrequests.Samples.Network.{node_at, network, memory}
use libonionrequests.Samples.Selection.{
  Permᴰ-self, lowest, lowest-InRange, in_order, in_order-VisitLaws,
}
use libonionrequests.Samples.Session.{relays_answer, request_small}
use libonionrequests.Libs.Curl.{Curl}
use libonionrequests.Node
use libonionrequests.Node.{SnodeInfo}
use libonionrequests.Maker.Route.{Relay, IsRelay}
use libonionrequests.Onion.{snode, control_data}
use libonionrequests.Fetcher.Seeded.{IsSeeded}
use libonionrequests.Fetcher.Lifetime.{Fetches, Keeps, Fetches-Keeps}
use libonionrequests.Fetcher.{Nodes, Fetcher, fetch_all, create_node_fetcher}
use libonionrequests.Client.Defined.{main-Defined}
use libonionrequests.Client.{request_json, request_along, remote_of, seed, main}
use libonionrequests.Client.Selected.{IsRun}
use libonionrequests.Client.Program.{main-All}

abbrev pub two_nodes : Nodes
two_nodes = ((node_at 7).identity, node_at 7) ∷ ((node_at 8).identity, node_at 8) ∷ []

abbrev pub connected : Fetcher network
connected = record { conn = some 1; seeds = seed ∷ [] }

pub two_fetched :
    fetch_all sample network lowest
      (λ seeds. seeds)
      memory
      (create_node_fetcher network (seed ∷ []))
      0
    ≡ ok ((two_nodes, connected), 3)
unfolding fetch_all create_node_fetcher libonionrequests.Fetcher.obtain_connection
    libonionrequests.Fetcher.rpc_body libonionrequests.Fetcher.on_reply
    libonionrequests.Fetcher.parse_node_list libonionrequests.Fetcher.add_entries
    libonionrequests.Random.pick_random libonionrequests.Random.sample
    libonionrequests.Random.sample_loop libonionrequests.Random.first_picked
    libonionrequests.Node.from_json libonionrequests.Node.at_string
    libonionrequests.Node.load_from_hex libonionrequests.Keys.write_out
    libonionrequests.Node.at_uint16 libonionrequests.Common.insert_or_assign
two_fetched = refl

unconnected : IsSeeded network (create_node_fetcher network (seed ∷ []))
unfolding create_node_fetcher
unconnected conn e = cc

Fetches-Keeps_example :
    Keeps sample memory network lowest
      (λ seeds. seeds)
      (create_node_fetcher network (seed ∷ []))
      (two_nodes ∷ [])
      connected
Fetches-Keeps_example =
    Fetches-Keeps sample memory network lowest (λ seeds. seeds) lowest-InRange Permᴰ-self
      unconnected (Fetches.then_fetched two_nodes 0 3 Fetches.none_yet two_fetched)

node_at-IsRun : (x : ℕ) → x < 100 → IsRun sample (node_at x)
node_at-IsRun x h = (
  replicate 32 (x + 100),
  record {
    secret_size = refl;
    onion_key = ap (λ (y : ℕ). replicate 32 y) (omega arith);
    identity_key = (refl, omega arith);
  },
)

main-All_example :
    (first : Relay) × (rest : List Relay) × (r' : ℕ) × All (IsRelay sample) (first ∷ rest)
    × (length (first ∷ rest) ≤ 4)
    × (main sample network relays_answer lowest in_order memory none 0
        ≡ request_along sample relays_answer
            (record { hops = map (λ relay. relay.node) (first ∷ rest); remote = snode (node_at 7) })
            r')
unfolding remote_of
main-All_example =
    main-All sample network relays_answer lowest lowest-InRange in_order in_order-VisitLaws memory
      none 0 3 ((node_at 7).identity, node_at 7) ((node_at 7).identity, node_at 7)
      (((node_at 8).identity, node_at 8) ∷ []) (((node_at 8).identity, node_at 8) ∷ []) connected
      (snode (node_at 7)) two_fetched
      (node_at-IsRun 7 (omega arith), (node_at-IsRun 8 (omega arith), tt)) refl refl

-- A first hop that answers what no relay wrote.
abbrev garbled : Curl
garbled = record { post = λ n url blob. (200, codes "garbled") }

named_first :
    (found : Bytes × SnodeInfo) (others : Nodes)
    → in_order.nodes two_nodes ≡ found ∷ others
    → remote_of sample none (snode found.1) ≡ ok (some (snode (node_at 7)))
unfolding remote_of
named_first found others e = cc

control_printed : sample.json.dump (control_data sample (snode (node_at 7))) ≡ some control_text
unfolding control_data Node.control_data
control_printed = refl

main-Defined_example : main sample network garbled lowest in_order memory none 0 ≢ undefined
main-Defined_example =
    main-Defined sample sample-Laws sample_decode garbled (λ n url blob. omega arith)
      (request_json sample) refl lowest lowest-InRange in_order in_order-VisitLaws network memory
      none 0 3 two_nodes connected (snode (node_at 7)) control_text two_fetched
      ((refl, omega arith), ((refl, omega arith), tt)) named_first control_printed
      (omega (arith, request_small))
