-- ===== src/Samples/Selection.antt =====
-- The theorems on random choice and path selection at concrete inputs.
use libonionrequests.Common.{some, ℕ, ◌+◌, ◌≡◌, refl, List, [], ◌∷◌, Bytes, replicate, ok, arith}
use mathlib.Core.List.{Permᴰ}
use libonionrequests.Samples.Tests.{relay_at}
use libonionrequests.Node.{SnodeInfo}
use libonionrequests.Onion.{snode}
use libonionrequests.Random.{Draw, pick_random}
use libonionrequests.Random.Sampling.{InRange, pick_random_first}
use libonionrequests.Paths.{Selector, Visit, store_node_list, maybe_select_hops_to}
use libonionrequests.Paths.Select.{VisitLaws, IsSelector}
use libonionrequests.Paths.Edges.{Selects, select_some, select_pinned}
use libonionrequests.Paths.Lifetime.{Call, Calls, Keeps, Calls-Keeps}

abbrev pub lowest : Draw
lowest r m = 0

pub lowest-InRange : InRange lowest
lowest-InRange r m = omega arith

pick_random_first_example : pick_random {A = ℕ} lowest (5 ∷ 6 ∷ 7 ∷ []) 0 ≡ ok (5, 3)
pick_random_first_example = pick_random_first lowest lowest-InRange 5 (6 ∷ 7 ∷ []) 0

-- The containers visit their elements in the order in which they are listed here.
abbrev pub in_order : Visit
in_order = record { nodes = λ xs. xs; edges = λ xs. xs }

pub Permᴰ-self : {A : Type 0} (xs : List A) → Permᴰ xs xs
Permᴰ-self [] = Permᴰ.nil
Permᴰ-self (x ∷ xs) = Permᴰ.cons refl (Permᴰ-self xs)

pub in_order-VisitLaws : VisitLaws in_order
in_order-VisitLaws = record { nodes_perm = Permᴰ-self; edges_perm = Permᴰ-self }

abbrev pub node_at : ℕ → Bytes × SnodeInfo
node_at x = (replicate 32 (x + 100), (relay_at x).node)

abbrev no_edges : Selector
no_edges = record { snodelist = node_at 1 ∷ node_at 2 ∷ []; edges = [] }

no_edges-IsSelector : IsSelector no_edges
no_edges-IsSelector = record { few = omega arith; distinct = tt }

select_some_example :
    Selects in_order no_edges
      (snode (relay_at 4).node)
      (maybe_select_hops_to lowest in_order no_edges (snode (relay_at 4).node) 0)
select_some_example =
    select_some lowest lowest-InRange in_order in_order-VisitLaws no_edges (snode (relay_at 4).node)
      0 no_edges-IsSelector (omega arith)

-- Four edges are known, and one other node is listed.
abbrev four_edges : Selector
four_edges = record {
  snodelist = node_at 9 ∷ [];
  edges = (relay_at 1).node ∷ (relay_at 2).node ∷ (relay_at 3).node ∷ (relay_at 4).node ∷ [];
}

select_pinned_example :
    (others : List SnodeInfo) × (r' : ℕ) × (maybe_select_hops_to lowest in_order four_edges
        (snode (relay_at 4).node)
        0
      ≡ ok (
        (
          four_edges,
          some (record { hops = (relay_at 1).node ∷ others; remote = snode (relay_at 4).node }),
        ),
        r',
      ))
select_pinned_example =
    select_pinned lowest lowest-InRange in_order in_order-VisitLaws four_edges
      (snode (relay_at 4).node) 0 (relay_at 1).node
      ((relay_at 2).node ∷ (relay_at 3).node ∷ (relay_at 4).node ∷ []) (omega arith) refl
      (omega arith)

-- A path is selected, another node list is stored, and a path is selected again.
abbrev other_nodes : Selector → Selector
other_nodes s = store_node_list (node_at 3 ∷ []) s

selects :
    (s : Selector) (r : ℕ)
    → IsSelector s
    → Selects in_order
        (other_nodes s)
        (snode (relay_at 4).node)
        (maybe_select_hops_to lowest in_order (other_nodes s) (snode (relay_at 4).node) r)
unfolding store_node_list
selects s r valid =
    select_some lowest lowest-InRange in_order in_order-VisitLaws (other_nodes s)
      (snode (relay_at 4).node) r (record { few = valid.few; distinct = valid.distinct })
      (omega arith)

abbrev once : Selector
once = (selects no_edges 0 no_edges-IsSelector).after

abbrev twice : Selector
twice = (selects once 7 (selects no_edges 0 no_edges-IsSelector).still_valid).after

selected_twice : Calls lowest in_order no_edges twice
selected_twice =
    let stored_once = Calls.then_call Calls.none_yet (Call.stored (node_at 3 ∷ [])) in
    let first = selects no_edges 0 no_edges-IsSelector in
    let second = selects once 7 first.still_valid in
    let selected_once =
      Calls.then_call stored_once
        (Call.selected (snode (relay_at 4).node) _ 0 first.draws first.answered) in
    let stored_twice = Calls.then_call selected_once (Call.stored (node_at 3 ∷ [])) in
    Calls.then_call stored_twice
      (Call.selected (snode (relay_at 4).node) _ 7 second.draws second.answered)

Calls-Keeps_example : Keeps no_edges twice
Calls-Keeps_example =
    Calls-Keeps lowest lowest-InRange in_order in_order-VisitLaws no_edges-IsSelector selected_twice
