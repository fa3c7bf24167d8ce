-- ===== src/Consensus/Direct.antt =====
-- `Consensus_Direct` of onionreq/consensus.cpp, with the fetcher and the path selector that it creates.
use libonionrequests.Common.{
  ℕ, ◌≤◌, ◌≡◌, refl, subst, List, ◌∷◌, List-cases, inl, inr, Bytes, length, All, Option, some, ok,
  When, arith,
}
use libonionrequests.Libs.{Libs}
use libonionrequests.Libs.Omq.{Omq}
use libonionrequests.Node.{SnodeInfo}
use libonionrequests.Onion.{RemoteResource, OnionPath}
use libonionrequests.Random.{Draw}
use libonionrequests.Random.Sampling.{InRange}
use libonionrequests.Fetcher.{Nodes, Fetcher, seed_nodes, create_node_fetcher, fetch_all, fetch}
use libonionrequests.Fetcher.Nodes.{IsKeyed}
use libonionrequests.Fetcher.Replies.{Fetched, fetch_all-Fetched}
use libonionrequests.Paths.{
  Selector, Visit, store_node_list, create_path_selector, maybe_select_hops_to, default_hop_length,
  onion_path_failed, onion_path_success,
}
use libonionrequests.Paths.Select.{VisitLaws, select_empty}
use libonionrequests.Paths.Origin.{maybe_select_hops_to-All}
use libonionrequests.Consensus.{
  NodeListFetcherBase, NodeListFetcherLaws, PathSelectionBase, PathSelectionLaws, ConsensusBase,
  ConsensusLaws, IsAlong, Listed, Uses, Uses-IsKeyed, selected-IsAlong,
}

module _ (l : Libs) (raw : ℕ → Bytes × Bytes) (q : Omq) (draw : Draw) (visit : Visit)
    (visit_seeds : List Bytes → List Bytes) where
  abbrev pub json_fetcher : NodeListFetcherBase
  json_fetcher = record {
    State = Fetcher q;
    fetch_all = fetch_all l q draw visit_seeds raw;
    fetch = λ ident s. fetch ident;
  }

  abbrev pub default_selection : PathSelectionBase
  default_selection = record {
    State = Selector;
    store_node_list = store_node_list;
    maybe_select_hops_to = maybe_select_hops_to draw visit;
    default_hop_length = default_hop_length;
    onion_path_failed = onion_path_failed;
    onion_path_success = onion_path_success;
  }

  -- The state is `_seeds`.
  abbrev pub direct_consensus : ConsensusBase
  direct_consensus = record {
    State = List Bytes;
    seed_nodes = seed_nodes;
    fetchers = json_fetcher;
    selectors = default_selection;
    create_node_fetcher = create_node_fetcher q;
    create_path_selector = λ seeds. create_path_selector;
  }

  json_fetcher_laws : NodeListFetcherLaws json_fetcher
  json_fetcher_laws = record {
    fetch_all_keyed = λ t u nodes r r' e.
        (subst (When (Fetched l raw q draw visit_seeds t)) e
          (fetch_all-Fetched l raw q draw visit_seeds t r)).0;
  }

  -- What the selector keeps are the nodes listed and the edges.
  abbrev Known : (SnodeInfo → Type 0) → Selector → Type 0
  Known P s = All (λ node. P node.1) s.snodelist × All P s.edges

  module _ (fair : InRange draw) (laws : VisitLaws visit) where
    selected-Known :
        (P : SnodeInfo → Type 0) (s s' : Selector) (remote : RemoteResource)
        (maybe : Option OnionPath) (r r' : ℕ)
        → Known P s
        → maybe_select_hops_to draw visit s remote r ≡ ok ((s', maybe), r')
        → Known P s'
          × ((path : OnionPath) → maybe ≡ some path → IsAlong P default_hop_length remote path)
    unfolding default_hop_length
    selected-Known P s s' remote maybe r r' (nodes_ok, edges_ok) e = elim (List-cases s.snodelist) [
      | inl none_listed ↦ let u = select_empty draw fair visit laws s remote r none_listed in cc
      | inr (node, nodes, listed) ↦
          let (after, edge, others, r₁, f, hops_ok, few, edges_kept, nodes_kept) =
            maybe_select_hops_to-All draw fair visit laws P s remote r (rw listed (omega arith))
              nodes_ok edges_ok in
          let same : s' ≡ after = cc in
          let along : maybe ≡ some (record { hops = edge ∷ others; remote = remote }) = cc in
          (
            (rw (same, nodes_kept) nodes_ok, rw same edges_kept),
            λ path h.
                let taken : path ≡ record { hops = edge ∷ others; remote = remote } = cc in
                rw taken (record {
                  hops_ok = hops_ok;
                  some_hops = omega arith;
                  few_hops = few;
                  same_remote = refl;
                }),
          )
    ]

    default_selection_laws : PathSelectionLaws default_selection
    unfolding store_node_list onion_path_failed onion_path_success
    default_selection_laws = record {
      Knows = Known;
      stored_known = λ P nodes s h known. (h, known.1);
      selected_known = selected-Known;
      failed_known = λ P path s known. known;
      success_known = λ P path s known. known;
    }

    direct_consensus_laws : ConsensusLaws direct_consensus
    unfolding create_path_selector default_selection_laws
    direct_consensus_laws = record {
      fetcher_laws = json_fetcher_laws;
      selection_laws = default_selection_laws;
      nothing_known = λ P s. (tt, tt);
    }

    -- However a fetcher and a path selector of a `Consensus_Direct` are used, where each list of nodes that
    -- the fetcher hands on is stored in the selector: each list has the nodes under their own identities,
    -- and a path that is then selected goes to the remote that is asked for, over one to four hops, each a
    -- node of one of those lists, as it was handed on. The numbers drawn are in range, and a container is
    -- visited in some order of its elements.
    pub hops-Listed :
        {seeds : List Bytes} {lists : List Nodes} {t : Fetcher q} {s s' : Selector}
        (remote : RemoteResource) (path : OnionPath) (r r' : ℕ)
        → Uses direct_consensus seeds lists t s
        → maybe_select_hops_to draw visit s remote r ≡ ok ((s', some path), r')
        → All IsKeyed lists
          × All (Listed lists) path.hops
          × (1 ≤ length path.hops)
          × (length path.hops ≤ 4)
          × (path.remote ≡ remote)
    unfolding default_hop_length
    hops-Listed {seeds} {lists} {t} {s} {s'} remote path r r' uses e =
        let along =
          selected-IsAlong direct_consensus direct_consensus_laws {p' = s'} remote path r r' uses
            e in
        (
          Uses-IsKeyed direct_consensus direct_consensus_laws uses,
          along.hops_ok,
          along.some_hops,
          along.few_hops,
          along.same_remote,
        )
