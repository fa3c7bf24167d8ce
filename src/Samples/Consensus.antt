-- ===== src/Samples/Consensus.antt =====
-- The theorem on the consensus at concrete inputs.
use libonionrequests.Common.{◌≤◌, ◌≡◌, [], ◌∷◌, length, All, arith}
use libonionrequests.Samples.{sample}
use libonionrequests.Samples.Tests.{relay_at}
use libonionrequests.Samples.Network.{network, memory}
use libonionrequests.Samples.Selection.{lowest, lowest-InRange, in_order, in_order-VisitLaws}
use libonionrequests.Samples.Program.{two_nodes, connected, two_fetched}
use libonionrequests.Onion.{OnionPath, snode}
use libonionrequests.Fetcher.Nodes.{IsKeyed}
use libonionrequests.Client.{seed}
use libonionrequests.Paths.{Selector, store_node_list, create_path_selector, maybe_select_hops_to}
use libonionrequests.Paths.Edges.{Selects, select_some}
use libonionrequests.Consensus.{ConsensusBase, Listed, Uses}
use libonionrequests.Consensus.Direct.{direct_consensus, hops-Listed}

abbrev direct : ConsensusBase
direct = direct_consensus sample memory network lowest in_order (λ seeds. seeds)

abbrev refilled : Selector
refilled = store_node_list two_nodes create_path_selector

-- Two nodes are handed on and stored.
two_stored : Uses direct (seed ∷ []) (two_nodes ∷ []) connected refilled
two_stored = Uses.refreshed two_nodes 0 3 Uses.created two_fetched

refilled-Selects :
    Selects in_order refilled
      (snode (relay_at 4).node)
      (maybe_select_hops_to lowest in_order refilled (snode (relay_at 4).node) 3)
unfolding store_node_list create_path_selector
refilled-Selects =
    select_some lowest lowest-InRange in_order in_order-VisitLaws refilled (snode (relay_at 4).node)
      3 (record { few = omega arith; distinct = tt }) (omega arith)

abbrev selected_path : OnionPath
selected_path = record {
  hops = refilled-Selects.edge ∷ refilled-Selects.others;
  remote = snode (relay_at 4).node;
}

hops-Listed_example :
    All IsKeyed (two_nodes ∷ [])
    × All (Listed (two_nodes ∷ [])) selected_path.hops
    × (1 ≤ length selected_path.hops)
    × (length selected_path.hops ≤ 4)
    × (selected_path.remote ≡ snode (relay_at 4).node)
hops-Listed_example =
    hops-Listed sample memory network lowest in_order (λ seeds. seeds) lowest-InRange
      in_order-VisitLaws (snode (relay_at 4).node) selected_path 3 refilled-Selects.draws two_stored
      refilled-Selects.answered
