-- ===== src/Paths/Edges.antt =====
-- The edge that `MaybeSelectHopsTo` takes, and the path and the edges it leaves.
use libonionrequests.Common.{
  List-cases, ℕ, suc, ◌+◌, ◌≤◌, ◌<◌, ◌≡◌, inl, inr, refl, sym, ap, ◌∙◌, true, List, ◌∷◌, length,
  min, map, Option, some, Result, ok, arith, leb, leb→le, Bool-cases, subst,
}
use mathlib.Core.List.{Sublistᴰ}
use libonionrequests.Node.{SnodeInfo}
use libonionrequests.Onion.{RemoteResource, OnionPath}
use libonionrequests.Random.{Draw}
use libonionrequests.Random.Sampling.{InRange}
use libonionrequests.Paths.{Selector, Visit, insert_edge, maybe_select_hops_to}
use libonionrequests.Paths.Select.{
  VisitLaws, Holds, Holds-Permᴰ, IsSelector, insert_edge_known, length-insert_edge,
  insert_edge-Distinct, has_edge, has_edge-insert_edge, sampled_hops, length-sampled_hops,
  sampled_hops-Sublistᴰ, choose_edge_full, choose_edge_few, edges_known, drawn, select_on,
}

-- A path of the right length to `remote`; its first hop is a known edge, the others are of the node list.
pub record Selects (visit : Visit) (s : Selector) (remote : RemoteResource)
    (answer : Result ((Selector × Option OnionPath) × ℕ)) : Type 0 where
  pub after : Selector
  pub edge : SnodeInfo
  pub others : List SnodeInfo
  pub draws : ℕ
  pub answered :
      answer ≡ ok ((after, some (record { hops = edge ∷ others; remote = remote })), draws)
  pub hops_length : length (edge ∷ others) ≡ min 4 (length s.snodelist)
  pub from_nodes : Sublistᴰ others (map (λ node. node.1) (visit.nodes s.snodelist))
  pub nodes_kept : after.snodelist ≡ s.snodelist
  pub edge_known : has_edge edge after.edges ≡ true
  pub still_valid : IsSelector after

Sublistᴰ-tail : {A : Type 0} {x : A} {xs ys : List A} → Sublistᴰ (x ∷ xs) ys → Sublistᴰ xs ys
Sublistᴰ-tail (Sublistᴰ.cons p) = Sublistᴰ.cons (Sublistᴰ-tail p)
Sublistᴰ-tail (Sublistᴰ.cons-cons e p) = Sublistᴰ.cons p

module _ (draw : Draw) (fair : InRange draw) (visit : Visit) (laws : VisitLaws visit) where
  pub hops_sampled :
      (s : Selector) (r : ℕ)
      → 1 ≤ length s.snodelist
      → (hop : SnodeInfo) × (rest : List SnodeInfo) × (sampled_hops draw fair visit laws s r
          ≡ hop ∷ rest)
  hops_sampled s r some_nodes = elim (List-cases (sampled_hops draw fair visit laws s r)) [
    | inl e ↦ absurd (omega (arith, length-sampled_hops draw fair visit laws s r, ap length e))
    | inr h ↦ h
  ]

  pub others_from_nodes :
      (s : Selector) (r : ℕ) (hop : SnodeInfo) (rest : List SnodeInfo)
      → sampled_hops draw fair visit laws s r ≡ hop ∷ rest
      → Sublistᴰ rest (map (λ node. node.1) (visit.nodes s.snodelist))
  others_from_nodes s r hop rest h = Sublistᴰ-tail (
      subst (λ hops. Sublistᴰ hops (map (λ node. node.1) (visit.nodes s.snodelist))) h
        (sampled_hops-Sublistᴰ draw fair visit laws s r))

  few-Selects :
      (s : Selector) (remote : RemoteResource) (r : ℕ)
      → IsSelector s
      → 1 ≤ length s.snodelist
      → length s.edges < 4
      → Selects visit s remote (maybe_select_hops_to draw visit s remote r)
  few-Selects s remote r valid some_nodes few =
      let (hop, rest, h) = hops_sampled s r some_nodes in
      record {
        after = record { snodelist = s.snodelist; edges = insert_edge hop s.edges };
        edge = hop;
        others = rest;
        draws = drawn draw fair visit laws s r;
        answered =
            select_on draw fair visit laws s remote r (hop ∷ rest) (hop ∷ rest) hop rest
              (drawn draw fair visit laws s r) h
              (choose_edge_few draw fair visit laws s.edges (hop ∷ rest)
                (drawn draw fair visit laws s r) few)
              refl;
        hops_length = ap length (sym h) ∙ length-sampled_hops draw fair visit laws s r;
        from_nodes = others_from_nodes s r hop rest h;
        nodes_kept = refl;
        edge_known = has_edge-insert_edge hop s.edges;
        still_valid = record {
          few = omega (arith, length-insert_edge hop s.edges);
          distinct = insert_edge-Distinct hop s.edges valid.distinct;
        };
      }

  visited_known :
      (s : Selector) (edge : SnodeInfo) (more : List SnodeInfo)
      → visit.edges s.edges ≡ edge ∷ more
      → insert_edge edge s.edges ≡ s.edges
  visited_known s edge more e = insert_edge_known edge s.edges (
      Holds-Permᴰ (laws.edges_perm s.edges) edge
        (subst (λ edges. Holds edge edges) (sym e) (inl refl)))

  pub select_full :
      (s : Selector) (remote : RemoteResource) (r : ℕ) (edge hop : SnodeInfo)
      (more rest : List SnodeInfo)
      → 4 ≤ length s.edges
      → visit.edges s.edges ≡ edge ∷ more
      → sampled_hops draw fair visit laws s r ≡ hop ∷ rest
      → maybe_select_hops_to draw visit s remote r
        ≡ ok (
          (s, some (record { hops = edge ∷ rest; remote = remote })),
          drawn draw fair visit laws s r + suc (length more),
        )
  select_full s remote r edge hop more rest full e h =
      select_on draw fair visit laws s remote r (hop ∷ rest) (edge ∷ rest) edge rest _ h
        (choose_edge_full draw fair visit laws s.edges (hop ∷ rest) edge hop more rest
          (drawn draw fair visit laws s r) full e refl)
        refl
      ∙ ap
          (λ edges. ok (
            (
              record { snodelist = s.snodelist; edges = edges },
              some (record { hops = edge ∷ rest; remote = remote }),
            ),
            drawn draw fair visit laws s r + suc (length more),
          ))
          (visited_known s edge more e)

  full-Selects :
      (s : Selector) (remote : RemoteResource) (r : ℕ)
      → IsSelector s
      → 1 ≤ length s.snodelist
      → 4 ≤ length s.edges
      → Selects visit s remote (maybe_select_hops_to draw visit s remote r)
  full-Selects s remote r valid some_nodes full =
      let (hop, rest, h) = hops_sampled s r some_nodes in
      let (edge, more, e) = edges_known draw fair visit laws s.edges full in
      record {
        after = s;
        edge = edge;
        others = rest;
        draws = drawn draw fair visit laws s r + suc (length more);
        answered = select_full s remote r edge hop more rest full e h;
        hops_length = ap length (sym h) ∙ length-sampled_hops draw fair visit laws s r;
        from_nodes = others_from_nodes s r hop rest h;
        nodes_kept = refl;
        edge_known =
            subst (λ edges. has_edge edge edges ≡ true) (visited_known s edge more e)
              (has_edge-insert_edge edge s.edges);
        still_valid = valid;
      }

  -- With at least one node listed, and edges that are distinct and at most four, `MaybeSelectHopsTo`
  -- answers a path to the resource asked for. It has four hops, or as many as there are nodes. The hops
  -- after the first are nodes of the list in the order of the visit, the first is a known edge
  -- afterwards, the node list is kept, and the edges stay distinct and at most four. The numbers drawn
  -- are in range, and a container is visited in some order of its elements.
  pub select_some :
      (s : Selector) (remote : RemoteResource) (r : ℕ)
      → IsSelector s
      → 1 ≤ length s.snodelist
      → Selects visit s remote (maybe_select_hops_to draw visit s remote r)
  select_some s remote r valid some_nodes = elim (Bool-cases (leb 4 (length s.edges))) [
    | inl full ↦ full-Selects s remote r valid some_nodes (leb→le 4 (length s.edges) full)
    | inr few ↦ few-Selects s remote r valid some_nodes (ground arith)
  ]

  -- With four edges known and at least one node listed, the first hop of the path answered is the edge
  -- that the set visits first, whatever the node list is, and the selector's state does not change. The
  -- numbers drawn are in range, and a container is visited in some order of its elements.
  pub select_pinned :
      (s : Selector) (remote : RemoteResource) (r : ℕ) (edge : SnodeInfo) (more : List SnodeInfo)
      → 4 ≤ length s.edges
      → visit.edges s.edges ≡ edge ∷ more
      → 1 ≤ length s.snodelist
      → (others : List SnodeInfo) × (r' : ℕ) × (maybe_select_hops_to draw visit s remote r
          ≡ ok ((s, some (record { hops = edge ∷ others; remote = remote })), r'))
  select_pinned s remote r edge more full e some_nodes =
      let (hop, rest, h) = hops_sampled s r some_nodes in
      (
        rest,
        drawn draw fair visit laws s r + suc (length more),
        select_full s remote r edge hop more rest full e h,
      )
