-- ===== src/Paths/Select.antt =====
-- What `MaybeSelectHopsTo` answers on every state.
use libonionrequests.Common.{
  List-cases, ℕ, suc, ◌+◌, ◌≤◌, ◌<◌, ◌≡◌, ◌⊎◌, inl, inr, refl, sym, ap, ◌∙◌, Bool, true, false,
  ◌||◌, List, [], ◌∷◌, Bytes, length, min, map, leb, le→leb, lt→leb, leb→le, All, length-map,
  length-zero, bytes_eq_refl, Bool-cases, some, ok, undefined, arith,
}
use mathlib.Core.List.{Permᴰ, Sublistᴰ}
use libonionrequests.Node.{SnodeInfo, same_identity}
use libonionrequests.Onion.{RemoteResource, first_of_hops}
use libonionrequests.Random.{Draw, sample}
use libonionrequests.Random.Sampling.{
  InRange, length-sample, sample_loop-Sublistᴰ, pick_random_first,
}
use libonionrequests.Paths.{
  Selector, Visit, default_hop_length, max_edges, insert_edge, assign_edge, choose_edge,
  maybe_select_hops_to,
}

-- A container visits each of its elements once.
pub record VisitLaws (visit : Visit) : Type 0 where
  pub nodes_perm : (xs : List (Bytes × SnodeInfo)) → Permᴰ (visit.nodes xs) xs
  pub edges_perm : (xs : List SnodeInfo) → Permᴰ (visit.edges xs) xs

module _ {A : Type 0} where
  abbrev pub Holds : A → List A → Type 0
  Holds x [] = ⊥
  Holds x (y ∷ ys) = (y ≡ x) ⊎ Holds x ys

  length-Permᴰ : {xs ys : List A} → Permᴰ xs ys → length xs ≡ length ys
  length-Permᴰ Permᴰ.nil = refl
  length-Permᴰ (Permᴰ.cons e p) = ap suc (length-Permᴰ p)
  length-Permᴰ (Permᴰ.swap e f) = refl
  length-Permᴰ (Permᴰ.trans p q) = length-Permᴰ p ∙ length-Permᴰ q

  pub Holds-Permᴰ : {xs ys : List A} → Permᴰ xs ys → (x : A) → Holds x xs → Holds x ys
  Holds-Permᴰ Permᴰ.nil x h = h
  Holds-Permᴰ (Permᴰ.cons e p) x (inl h) = inl (sym e ∙ h)
  Holds-Permᴰ (Permᴰ.cons e p) x (inr h) = inr (Holds-Permᴰ p x h)
  Holds-Permᴰ (Permᴰ.swap e f) x (inl h) = inr (inl (sym e ∙ h))
  Holds-Permᴰ (Permᴰ.swap e f) x (inr (inl h)) = inl (sym f ∙ h)
  Holds-Permᴰ (Permᴰ.swap e f) x (inr (inr h)) = inr (inr h)
  Holds-Permᴰ (Permᴰ.trans p q) x h = Holds-Permᴰ q x (Holds-Permᴰ p x h)

-- No two edges have one identity, and there are no more than `max_edges`.
abbrev pub Distinct : List SnodeInfo → Type 0
Distinct [] = Unit {0}
Distinct (e ∷ edges) = All (λ f. same_identity e f ≡ false) edges × Distinct edges

pub record IsSelector (s : Selector) : Type 0 where
  pub few : length s.edges ≤ 4
  pub distinct : Distinct s.edges

pub insert_edge_known :
    (node : SnodeInfo) (edges : List SnodeInfo) → Holds node edges → insert_edge node edges ≡ edges
unfolding insert_edge
insert_edge_known node [] h = absurd h
insert_edge_known node (e ∷ edges) (inl p) = rw (p, bytes_eq_refl node.identity)
insert_edge_known node (e ∷ edges) (inr h) = ground (arith, insert_edge_known node edges h)

pub length-insert_edge :
    (node : SnodeInfo) (edges : List SnodeInfo) → length (insert_edge node edges) ≤ length edges + 1
unfolding insert_edge
length-insert_edge node [] = omega arith
length-insert_edge node (e ∷ edges) = ground (arith, length-insert_edge node edges)

insert_edge-All :
    (f node : SnodeInfo) (edges : List SnodeInfo)
    → All (λ e. same_identity f e ≡ false) edges
    → same_identity f node ≡ false
    → All (λ e. same_identity f e ≡ false) (insert_edge node edges)
unfolding insert_edge
insert_edge-All f node [] h k = (k, tt)
insert_edge-All f node (e ∷ edges) h k = ground (arith, insert_edge-All f node edges h.1 k)

pub insert_edge-Distinct :
    (node : SnodeInfo) (edges : List SnodeInfo) → Distinct edges → Distinct (insert_edge node edges)
unfolding insert_edge
insert_edge-Distinct node [] h = (tt, tt)
insert_edge-Distinct node (e ∷ edges) h = elim (Bool-cases (same_identity e node)) [
  | inl same ↦ rw same h
  | inr other ↦
      rw other (insert_edge-All e node edges h.0 other, insert_edge-Distinct node edges h.1)
]

-- The edge chosen is among the known ones afterwards.
unfoldable pub has_edge : SnodeInfo → List SnodeInfo → Bool
has_edge node [] = false
has_edge node (e ∷ edges) = same_identity e node || has_edge node edges

pub has_edge-insert_edge :
    (node : SnodeInfo) (edges : List SnodeInfo) → has_edge node (insert_edge node edges) ≡ true
unfolding has_edge insert_edge
has_edge-insert_edge node [] = ground (arith, bytes_eq_refl node.identity)
has_edge-insert_edge node (e ∷ edges) = ground (arith, has_edge-insert_edge node edges)

Sublistᴰ-map :
    {A B : Type 0} (f : A → B) {xs ys : List A} → Sublistᴰ xs ys → Sublistᴰ (map f xs) (map f ys)
Sublistᴰ-map f Sublistᴰ.slnil = Sublistᴰ.slnil
Sublistᴰ-map f (Sublistᴰ.cons p) = Sublistᴰ.cons (Sublistᴰ-map f p)
Sublistᴰ-map f (Sublistᴰ.cons-cons e p) = Sublistᴰ.cons-cons (ap f e) (Sublistᴰ-map f p)

module _ (draw : Draw) (fair : InRange draw) (visit : Visit) (laws : VisitLaws visit) where
  -- The hops that are sampled: four, or as many as there are nodes.
  pub sampled_hops : Selector → ℕ → List SnodeInfo
  sampled_hops s r =
      map (λ hop. hop.1) (sample draw default_hop_length (visit.nodes s.snodelist) r).0

  pub length-sampled_hops :
      (s : Selector) (r : ℕ) → length (sampled_hops s r) ≡ min 4 (length s.snodelist)
  unfolding sampled_hops default_hop_length
  length-sampled_hops s r =
      length-map (sample draw 4 (visit.nodes s.snodelist) r).0 (λ hop. hop.1)
      ∙ length-sample draw fair 4 (visit.nodes s.snodelist) r
      ∙ ap (λ (n : ℕ). min 4 n) (length-Permᴰ (laws.nodes_perm s.snodelist))

  -- With four edges known, the first that the set visits takes the place of the first hop.
  pub choose_edge_full :
      (edges hops : List SnodeInfo) (node hop : SnodeInfo) (more rest : List SnodeInfo) (r : ℕ)
      → 4 ≤ length edges
      → visit.edges edges ≡ node ∷ more
      → hops ≡ hop ∷ rest
      → choose_edge draw visit edges hops r ≡ ok (node ∷ rest, r + suc (length more))
  unfolding choose_edge
  choose_edge_full edges hops node hop more rest r full e h =
      rw (le→leb max_edges (length edges) full, e, pick_random_first draw fair node more r, h)

  pub choose_edge_few :
      (edges hops : List SnodeInfo) (r : ℕ)
      → length edges < 4
      → choose_edge draw visit edges hops r ≡ ok (hops, r)
  unfolding choose_edge
  choose_edge_few edges hops r few = rw (lt→leb max_edges (length edges) few)

  pub edges_known :
      (edges : List SnodeInfo)
      → 4 ≤ length edges
      → (node : SnodeInfo) × (more : List SnodeInfo) × (visit.edges edges ≡ node ∷ more)
  edges_known edges full = elim (List-cases (visit.edges edges)) [
    | inl e ↦ absurd (omega (arith, length-Permᴰ (laws.edges_perm edges), ap length e))
    | inr h ↦ h
  ]

  pub drawn : Selector → ℕ → ℕ
  drawn s r = (sample draw default_hop_length (visit.nodes s.snodelist) r).1

  -- With the hops sampled, what is left is the choice of the edge.
  pub select_on :
      (s : Selector) (remote : RemoteResource) (r : ℕ) (sampled hops : List SnodeInfo)
      (hop : SnodeInfo) (rest : List SnodeInfo) (r' : ℕ)
      → sampled_hops s r ≡ sampled
      → choose_edge draw visit s.edges sampled (drawn s r) ≡ ok (hops, r')
      → hops ≡ hop ∷ rest
      → maybe_select_hops_to draw visit s remote r
        ≡ ok (
          (
            record { snodelist = s.snodelist; edges = insert_edge hop s.edges },
            some (record { hops = hop ∷ rest; remote = remote }),
          ),
          r',
        )
  unfolding maybe_select_hops_to sampled_hops drawn first_of_hops
  select_on s remote r sampled hops hop rest r' e c h = rw (e, c, h) refl

  -- With an empty node list `MaybeSelectHopsTo` has no defined result: it takes the first of no hops.
  -- The numbers drawn are in range, and a container is visited in some order of its elements.
  pub select_empty :
      (s : Selector) (remote : RemoteResource) (r : ℕ)
      → s.snodelist ≡ []
      → maybe_select_hops_to draw visit s remote r ≡ undefined
  unfolding maybe_select_hops_to sampled_hops drawn choose_edge assign_edge first_of_hops
  select_empty s remote r e =
      let none_left : sampled_hops s r ≡ [] =
        length-zero (sampled_hops s r) (omega (arith, length-sampled_hops s r, ap length e)) in
      elim (Bool-cases (leb max_edges (length s.edges))) [
        | inl full ↦
            let (node, more, v) = edges_known s.edges (leb→le max_edges (length s.edges) full) in
            rw (none_left, full, v, pick_random_first draw fair node more (drawn s r)) refl
        | inr few ↦ rw (none_left, few) refl
      ]

  pub sampled_hops-Sublistᴰ :
      (s : Selector) (r : ℕ)
      → Sublistᴰ (sampled_hops s r) (map (λ node. node.1) (visit.nodes s.snodelist))
  unfolding sampled_hops sample
  sampled_hops-Sublistᴰ s r =
      Sublistᴰ-map (λ (node : Bytes × SnodeInfo). node.1)
        (sample_loop-Sublistᴰ draw fair (min default_hop_length (length (visit.nodes s.snodelist)))
          (visit.nodes s.snodelist) r)
