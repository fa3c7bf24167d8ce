-- ===== src/Consensus.antt =====
-- The interfaces of onionreq/consensus.hpp, `NodeListFetcher_Base`, `PathSelection_Base` and
-- `Consensus_Base`: what a consensus is, and what is asked of one.
pub mod Direct
use libonionrequests.Common.{
  ℕ, ◌≤◌, ◌≡◌, ◌⊎◌, inl, inr, refl, List, [], ◌∷◌, Bytes, length, map, All, Option, some, ok,
  Random,
}
use libonionrequests.Node.{SnodeInfo}
use libonionrequests.Onion.{RemoteResource, OnionPath}
use libonionrequests.Fetcher.{Nodes}
use libonionrequests.Fetcher.Nodes.{IsKeyed}
use libonionrequests.Paths.Select.{Holds}

-- `FetchAll` and `Fetch` give what the callback is called with.
pub record NodeListFetcherBase : Type 1 where
  pub State : Type 0
  pub fetch_all : State → Random (Nodes × State)
  pub fetch : Bytes → State → Option SnodeInfo

pub record PathSelectionBase : Type 1 where
  pub State : Type 0
  pub store_node_list : Nodes → State → State
  pub maybe_select_hops_to : State → RemoteResource → Random (State × Option OnionPath)
  pub default_hop_length : ℕ
  pub onion_path_failed : OnionPath → State → State
  pub onion_path_success : OnionPath → State → State

pub record ConsensusBase : Type 1 where
  pub State : Type 0
  pub seed_nodes : List Bytes → State → State
  pub fetchers : NodeListFetcherBase
  pub selectors : PathSelectionBase
  pub create_node_fetcher : State → fetchers.State
  pub create_path_selector : State → selectors.State

-- What is asked of a fetcher: it hands on nodes under their own identities.
pub record NodeListFetcherLaws (f : NodeListFetcherBase) : Type 0 where
  pub fetch_all_keyed :
      (t u : f.State) (nodes : Nodes) (r r' : ℕ)
      → f.fetch_all t r ≡ ok ((nodes, u), r')
      → IsKeyed nodes

-- The hops of a path have a property, and there is one, and at most `most`.
pub record IsAlong (P : SnodeInfo → Type 0) (most : ℕ) (remote : RemoteResource) (path : OnionPath)
    : Type 0 where
  pub hops_ok : All P path.hops
  pub some_hops : 1 ≤ length path.hops
  pub few_hops : length path.hops ≤ most
  pub same_remote : path.remote ≡ remote

-- What is asked of a path selector: a property of all the nodes that it is given is one of all the hops
-- that it selects. `Knows` says that what it keeps has the property.
pub record PathSelectionLaws (p : PathSelectionBase) : Type 1 where
  pub Knows : (SnodeInfo → Type 0) → p.State → Type 0
  pub stored_known :
      (P : SnodeInfo → Type 0) (nodes : Nodes) (s : p.State)
      → All (λ node. P node.1) nodes
      → Knows P s
      → Knows P (p.store_node_list nodes s)
  pub selected_known :
      (P : SnodeInfo → Type 0) (s s' : p.State) (remote : RemoteResource) (maybe : Option OnionPath)
      (r r' : ℕ)
      → Knows P s
      → p.maybe_select_hops_to s remote r ≡ ok ((s', maybe), r')
      → Knows P s'
        × ((path : OnionPath) → maybe ≡ some path → IsAlong P p.default_hop_length remote path)
  pub failed_known :
      (P : SnodeInfo → Type 0) (path : OnionPath) (s : p.State)
      → Knows P s
      → Knows P (p.onion_path_failed path s)
  pub success_known :
      (P : SnodeInfo → Type 0) (path : OnionPath) (s : p.State)
      → Knows P s
      → Knows P (p.onion_path_success path s)

pub record ConsensusLaws (c : ConsensusBase) : Type 1 where
  pub fetcher_laws : NodeListFetcherLaws c.fetchers
  pub selection_laws : PathSelectionLaws c.selectors
  pub nothing_known :
      (P : SnodeInfo → Type 0) (s : c.State) → selection_laws.Knows P (c.create_path_selector s)

-- A node of one of some lists.
abbrev pub Listed : List Nodes → SnodeInfo → Type 0
Listed [] hop = ⊥
Listed (nodes ∷ lists) hop = Holds hop (map (λ node. node.1) nodes) ⊎ Listed lists hop

Holds-map :
    (P : SnodeInfo → Type 0) (nodes : Nodes)
    → ((hop : SnodeInfo) → Holds hop (map (λ node. node.1) nodes) → P hop)
    → All (λ node. P node.1) nodes
Holds-map P [] h = tt
Holds-map P (node ∷ nodes) h = (h node.1 (inl refl), Holds-map P nodes (λ hop k. h hop (inr k)))

Listed-all :
    (P : SnodeInfo → Type 0) (lists : List Nodes)
    → ((hop : SnodeInfo) → Listed lists hop → P hop)
    → All (λ nodes. All (λ node. P node.1) nodes) lists
Listed-all P [] h = tt
Listed-all P (nodes ∷ lists) h =
    (Holds-map P nodes (λ hop k. h hop (inl k)), Listed-all P lists (λ hop k. h hop (inr k)))

module _ (c : ConsensusBase) where
  -- Calls on a fetcher and a selector that a consensus has created, with the lists that the fetcher
  -- has handed on, the last one first: each is stored in the selector.
  pub data Uses (s : c.State) : List Nodes → c.fetchers.State → c.selectors.State → Type 0 where
    created : Uses s [] (c.create_node_fetcher s) (c.create_path_selector s)
    refreshed :
        {lists : List Nodes} {t u : c.fetchers.State} {p : c.selectors.State} (nodes : Nodes)
        (r r' : ℕ)
        → Uses s lists t p
        → c.fetchers.fetch_all t r ≡ ok ((nodes, u), r')
        → Uses s (nodes ∷ lists) u (c.selectors.store_node_list nodes p)
    selected :
        {lists : List Nodes} {t : c.fetchers.State} {p p' : c.selectors.State}
        (remote : RemoteResource) (maybe : Option OnionPath) (r r' : ℕ)
        → Uses s lists t p
        → c.selectors.maybe_select_hops_to p remote r ≡ ok ((p', maybe), r')
        → Uses s lists t p'
    failed :
        {lists : List Nodes} {t : c.fetchers.State} {p : c.selectors.State} (path : OnionPath)
        → Uses s lists t p
        → Uses s lists t (c.selectors.onion_path_failed path p)
    succeeded :
        {lists : List Nodes} {t : c.fetchers.State} {p : c.selectors.State} (path : OnionPath)
        → Uses s lists t p
        → Uses s lists t (c.selectors.onion_path_success path p)

  module _ (laws : ConsensusLaws c) where
    open laws use {fetcher_laws, selection_laws}

    -- What all the nodes that were handed on have, all that the selector keeps has.
    Uses-Knows :
        (P : SnodeInfo → Type 0) {s : c.State} {lists : List Nodes} {t : c.fetchers.State}
        {p : c.selectors.State}
        → All (λ nodes. All (λ node. P node.1) nodes) lists
        → Uses s lists t p
        → selection_laws.Knows P p
    Uses-Knows P {s} h Uses.created = laws.nothing_known P s
    Uses-Knows P h (Uses.refreshed {lists} {t} {u} {p} nodes r r' before e) =
        selection_laws.stored_known P nodes p h.0 (Uses-Knows P h.1 before)
    Uses-Knows P h (Uses.selected {lists} {t} {p} {p'} remote maybe r r' before e) =
        (selection_laws.selected_known P p p' remote maybe r r' (Uses-Knows P h before) e).0
    Uses-Knows P h (Uses.failed {lists} {t} {p} path before) =
        selection_laws.failed_known P path p (Uses-Knows P h before)
    Uses-Knows P h (Uses.succeeded {lists} {t} {p} path before) =
        selection_laws.success_known P path p (Uses-Knows P h before)

    pub Uses-IsKeyed :
        {s : c.State} {lists : List Nodes} {t : c.fetchers.State} {p : c.selectors.State}
        → Uses s lists t p
        → All IsKeyed lists
    Uses-IsKeyed Uses.created = tt
    Uses-IsKeyed (Uses.refreshed {lists} {t} {u} {p} nodes r r' before e) =
        (fetcher_laws.fetch_all_keyed t u nodes r r' e, Uses-IsKeyed before)
    Uses-IsKeyed (Uses.selected remote maybe r r' before e) = Uses-IsKeyed before
    Uses-IsKeyed (Uses.failed path before) = Uses-IsKeyed before
    Uses-IsKeyed (Uses.succeeded path before) = Uses-IsKeyed before

    -- Over any consensus that keeps the laws, a path has hops, at most the default number, and each is a
    -- node of a list that the fetcher handed on before.
    pub selected-IsAlong :
        {s : c.State} {lists : List Nodes} {t : c.fetchers.State} {p p' : c.selectors.State}
        (remote : RemoteResource) (path : OnionPath) (r r' : ℕ)
        → Uses s lists t p
        → c.selectors.maybe_select_hops_to p remote r ≡ ok ((p', some path), r')
        → IsAlong (Listed lists) c.selectors.default_hop_length remote path
    selected-IsAlong {s} {lists} {t} {p} {p'} remote path r r' uses e =
        (selection_laws.selected_known (Listed lists) p p' remote (some path) r r'
            (Uses-Knows (Listed lists) (Listed-all (Listed lists) lists (λ hop h. h)) uses) e).1
          path refl
