-- ===== src/Paths/Origin.antt =====
-- Where the hops of a selected path come from.
use libonionrequests.Common.{
  ℕ, suc, ◌+◌, ◌≤◌, ◌≡◌, inl, inr, refl, sym, ap, subst, List, [], ◌∷◌, length, map, All, some, ok,
  leb, leb→le, Bool-cases, arith,
}
use mathlib.Core.List.{Permᴰ, Sublistᴰ}
use libonionrequests.Node.{SnodeInfo, same_identity}
use libonionrequests.Onion.{RemoteResource}
use libonionrequests.Random.{Draw}
use libonionrequests.Random.Sampling.{InRange}
use libonionrequests.Paths.{Selector, Visit, insert_edge, maybe_select_hops_to}
use libonionrequests.Paths.Select.{
  VisitLaws, length-sampled_hops, sampled_hops-Sublistᴰ, choose_edge_few, edges_known, drawn,
  select_on,
}
use libonionrequests.Paths.Edges.{hops_sampled, others_from_nodes, select_full}

module _ {A : Type 0} (P : A → Type 0) where
  All-Sublistᴰ : {xs ys : List A} → Sublistᴰ xs ys → All P ys → All P xs
  All-Sublistᴰ Sublistᴰ.slnil h = tt
  All-Sublistᴰ (Sublistᴰ.cons s) h = All-Sublistᴰ s h.1
  All-Sublistᴰ (Sublistᴰ.cons-cons e s) h = (subst P (sym e) h.0, All-Sublistᴰ s h.1)

  All-Permᴰ : {xs ys : List A} → Permᴰ xs ys → All P ys → All P xs
  All-Permᴰ Permᴰ.nil h = tt
  All-Permᴰ (Permᴰ.cons e p) h = (subst P (sym e) h.0, All-Permᴰ p h.1)
  All-Permᴰ (Permᴰ.swap e f) h = (subst P (sym e) h.1.0, (subst P (sym f) h.0, h.1.1))
  All-Permᴰ (Permᴰ.trans p q) h = All-Permᴰ p (All-Permᴰ q h)

All-map :
    {A B : Type 0} (P : B → Type 0) (f : A → B) (xs : List A)
    → All (λ x. P (f x)) xs
    → All P (map f xs)
All-map P f [] h = tt
All-map P f (x ∷ xs) h = (h.0, All-map P f xs h.1)

All-insert_edge :
    (P : SnodeInfo → Type 0) (node : SnodeInfo) (edges : List SnodeInfo)
    → P node
    → All P edges
    → All P (insert_edge node edges)
unfolding insert_edge
All-insert_edge P node [] p h = (p, tt)
All-insert_edge P node (e ∷ edges) p h = elim (Bool-cases (same_identity e node)) [
  | inl same ↦ rw same h
  | inr other ↦ rw other (h.0, All-insert_edge P node edges p h.1)
]

module _ (draw : Draw) (fair : InRange draw) (visit : Visit) (laws : VisitLaws visit) where
  -- If the nodes listed and the edges known have a property, and there is a node, then a path of one
  -- hop or more is selected, whose hops have it too, as have the edges known afterwards.
  pub maybe_select_hops_to-All :
      (P : SnodeInfo → Type 0) (s : Selector) (remote : RemoteResource) (r : ℕ)
      → 1 ≤ length s.snodelist
      → All (λ node. P node.1) s.snodelist
      → All P s.edges
      → (after : Selector) × (edge : SnodeInfo) × (others : List SnodeInfo) × (r' : ℕ)
        × (maybe_select_hops_to draw visit s remote r
            ≡ ok ((after, some (record { hops = edge ∷ others; remote = remote })), r'))
        × All P (edge ∷ others)
        × (length (edge ∷ others) ≤ 4)
        × All P after.edges
        × (after.snodelist ≡ s.snodelist)
  maybe_select_hops_to-All P s remote r some_nodes nodes_ok edges_ok =
      let (hop, rest, h) = hops_sampled draw fair visit laws s r some_nodes in
      let listed : All P (map (λ node. node.1) (visit.nodes s.snodelist)) =
        All-map P (λ node. node.1) (visit.nodes s.snodelist)
          (All-Permᴰ (λ node. P node.1) (laws.nodes_perm s.snodelist) nodes_ok) in
      let rest_ok : All P rest =
        All-Sublistᴰ P (others_from_nodes draw fair visit laws s r hop rest h) listed in
      let size = length-sampled_hops draw fair visit laws s r in
      elim (Bool-cases (leb 4 (length s.edges))) [
        | inl full ↦
            let full_edges = leb→le 4 (length s.edges) full in
            let (edge, more, e) = edges_known draw fair visit laws s.edges full_edges in
            let edges_visited = subst (All P) e (All-Permᴰ P (laws.edges_perm s.edges) edges_ok) in
            (
              s,
              edge,
              rest,
              drawn draw fair visit laws s r + suc (length more),
              select_full draw fair visit laws s remote r edge hop more rest full_edges e h,
              (edges_visited.0, rest_ok),
              omega (arith, size, ap length h),
              edges_ok,
              refl,
            )
        | inr few ↦
            let sampled_ok =
              subst (All P) h
                (All-Sublistᴰ P (sampled_hops-Sublistᴰ draw fair visit laws s r) listed) in
            (
              record { snodelist = s.snodelist; edges = insert_edge hop s.edges },
              hop,
              rest,
              drawn draw fair visit laws s r,
              select_on draw fair visit laws s remote r (hop ∷ rest) (hop ∷ rest) hop rest
                  (drawn draw fair visit laws s r) h
                  (choose_edge_few draw fair visit laws s.edges (hop ∷ rest)
                    (drawn draw fair visit laws s r) (ground arith))
                  refl,
              sampled_ok,
              omega (arith, size, ap length h),
              All-insert_edge P hop s.edges sampled_ok.0 edges_ok,
              refl,
            )
      ]
