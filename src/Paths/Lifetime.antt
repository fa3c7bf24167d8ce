-- ===== src/Paths/Lifetime.antt =====
-- What a path selector keeps over its lifetime, whatever is called in whatever order.
use libonionrequests.Common.{
  ℕ, ◌≤◌, ◌<◌, ◌≡◌, ◌⊎◌, inl, inr, refl, ap, ◌∙◌, true, List, [], ◌∷◌, List-cases, length, Option,
  ok, leb, leb→le, Bool-cases, arith,
}
use libonionrequests.Node.{SnodeInfo}
use libonionrequests.Onion.{RemoteResource, OnionPath}
use libonionrequests.Random.{Draw}
use libonionrequests.Random.Sampling.{InRange}
use libonionrequests.Fetcher.{Nodes}
use libonionrequests.Paths.{
  Selector, Visit, store_node_list, onion_path_failed, onion_path_success, insert_edge,
  maybe_select_hops_to,
}
use libonionrequests.Paths.Select.{
  VisitLaws, IsSelector, length-insert_edge, insert_edge-Distinct, has_edge, choose_edge_few,
  edges_known, drawn, select_on, select_empty,
}
use libonionrequests.Paths.Edges.{hops_sampled, select_full}

has_edge_kept :
    (node new : SnodeInfo) (edges : List SnodeInfo)
    → has_edge node edges ≡ true
    → has_edge node (insert_edge new edges) ≡ true
unfolding has_edge insert_edge
has_edge_kept node new [] h = cc
has_edge_kept node new (e ∷ edges) h = ground (arith, has_edge_kept node new edges)

module _ (draw : Draw) (visit : Visit) where
  -- A call on the selector.
  pub data Call : Selector → Selector → Type 0 where
    stored : {s : Selector} (nodes : Nodes) → Call s (store_node_list nodes s)
    selected :
        {s s' : Selector} (remote : RemoteResource) (maybe : Option OnionPath) (r r' : ℕ)
        → maybe_select_hops_to draw visit s remote r ≡ ok ((s', maybe), r')
        → Call s s'
    failed : {s : Selector} (path : OnionPath) → Call s (onion_path_failed path s)
    succeeded : {s : Selector} (path : OnionPath) → Call s (onion_path_success path s)

  -- Calls that follow one another.
  pub data Calls (s : Selector) : Selector → Type 0 where
    none_yet : Calls s s
    then_call : {t u : Selector} → Calls s t → Call t u → Calls s u

-- The edges that are known are kept; from four on there are no others.
pub record Keeps (s t : Selector) : Type 0 where
  pub valid : IsSelector t
  pub kept : (node : SnodeInfo) → has_edge node s.edges ≡ true → has_edge node t.edges ≡ true
  pub full : 4 ≤ length s.edges → t.edges ≡ s.edges

-- What a selection makes of the edges.
abbrev Grows : Selector → Selector → Type 0
Grows s t =
    (t.edges ≡ s.edges)
    ⊎ ((length s.edges < 4) × ((hop : SnodeInfo) × (t.edges ≡ insert_edge hop s.edges)))

same_edges : (s t : Selector) → t.edges ≡ s.edges → IsSelector s → Keeps s t
same_edges s t e valid = record {
  valid = record { few = omega (arith, ap length e, valid.few); distinct = rw e valid.distinct };
  kept = λ node h. rw e h;
  full = λ h. e;
}

Grows-Keeps : (s t : Selector) → IsSelector s → Grows s t → Keeps s t
Grows-Keeps s t valid (inl e) = same_edges s t e valid
Grows-Keeps s t valid (inr (few, (hop, e))) = record {
  valid = record {
    few = rw e (omega (arith, length-insert_edge hop s.edges));
    distinct = rw e (insert_edge-Distinct hop s.edges valid.distinct);
  };
  kept = λ node h. rw e (has_edge_kept node hop s.edges h);
  full = λ h. absurd (omega arith);
}

Keeps-trans : (s t u : Selector) → Keeps s t → Keeps t u → Keeps s u
Keeps-trans s t u a b = record {
  valid = b.valid;
  kept = λ node h. b.kept node (a.kept node h);
  full = λ h. b.full (rw (a.full h) h) ∙ a.full h;
}

module _ (draw : Draw) (fair : InRange draw) (visit : Visit) (laws : VisitLaws visit) where
  selected-Grows :
      (s s' : Selector) (remote : RemoteResource) (maybe : Option OnionPath) (r r' : ℕ)
      → maybe_select_hops_to draw visit s remote r ≡ ok ((s', maybe), r')
      → Grows s s'
  selected-Grows s s' remote maybe r r' e = elim (List-cases s.snodelist) [
    | inl none_listed ↦ let u = select_empty draw fair visit laws s remote r none_listed in cc
    | inr (node, nodes, listed) ↦
        let (hop, rest, h) = hops_sampled draw fair visit laws s r (rw listed (omega arith)) in
        elim (Bool-cases (leb 4 (length s.edges))) [
          | inl full ↦
              let full_edges = leb→le 4 (length s.edges) full in
              let (edge, more, v) = edges_known draw fair visit laws s.edges full_edges in
              let f =
                select_full draw fair visit laws s remote r edge hop more rest full_edges v h in
              let same : s' ≡ s = cc in inl (ap (λ (t : Selector). t.edges) same)
          | inr few ↦
              let few_edges : length s.edges < 4 = ground arith in
              let f =
                select_on draw fair visit laws s remote r (hop ∷ rest) (hop ∷ rest) hop rest
                  (drawn draw fair visit laws s r) h
                  (choose_edge_few draw fair visit laws s.edges (hop ∷ rest)
                    (drawn draw fair visit laws s r) few_edges)
                  refl in
              let same : s' ≡ record { snodelist = s.snodelist; edges = insert_edge hop s.edges } =
                cc in
              inr (few_edges, (hop, ap (λ (t : Selector). t.edges) same))
        ]
  ]

  Call-Keeps : {s t : Selector} → IsSelector s → Call draw visit s t → Keeps s t
  unfolding store_node_list onion_path_failed onion_path_success
  Call-Keeps {s} valid (Call.stored nodes) = same_edges s _ refl valid
  Call-Keeps {s} {t} valid (Call.selected remote maybe r r' e) =
      Grows-Keeps s t valid (selected-Grows s t remote maybe r r' e)
  Call-Keeps {s} valid (Call.failed path) = same_edges s s refl valid
  Call-Keeps {s} valid (Call.succeeded path) = same_edges s s refl valid

  -- Whatever calls are made on a valid selector, in whatever order, it stays valid: its edges are
  -- distinct and at most four. An edge that is known stays known, and once there are four edges they
  -- never change. The numbers drawn are in range, and a container is visited in some order of its
  -- elements.
  pub Calls-Keeps : {s t : Selector} → IsSelector s → Calls draw visit s t → Keeps s t
  Calls-Keeps {s} valid Calls.none_yet = same_edges s s refl valid
  Calls-Keeps {s} valid (Calls.then_call {t} {u} calls call) =
      let before = Calls-Keeps valid calls in
      Keeps-trans s t u before (Call-Keeps before.valid call)
