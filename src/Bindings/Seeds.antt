-- ===== src/Bindings/Seeds.antt =====
-- The seeds of a consensus made from Python.
use libonionrequests.Common.{
  ℕ, suc, ◌+◌, ◌≡◌, ◌⊎◌, inl, inr, refl, sym, subst, true, Bool-cases, List, [], ◌∷◌, List-cases,
  Bytes, bytes_eq, bytes_eq→eq, length, Option, none, Result, ok, err, ◌>>=◌, or_throw,
  invalid_argument, if◌then◌else◌,
}
use mathlib.Core.List.{Permᴰ}
use mathlib.Core.List.Permᴰ
use libonionrequests.Libs.{Libs}
use libonionrequests.Libs.Omq.{Omq}
use libonionrequests.Random.{Draw}
use libonionrequests.Random.Sampling.{InRange, pick_random_first}
use libonionrequests.Paths.Select.{Holds, Holds-Permᴰ}
use libonionrequests.Fetcher.{Fetcher, seed_nodes, create_node_fetcher, obtain_connection}
use libonionrequests.Bindings.SeedSet.{count, count-to_set}
use libonionrequests.Bindings.{contains, to_set, new_direct_consensus, make_node_fetcher}

contains-Holds : (seed : Bytes) (seeds : List Bytes) → contains seed seeds ≡ true → Holds seed seeds
contains-Holds seed [] h = cc
contains-Holds seed (s ∷ seeds) h = elim (Bool-cases (bytes_eq s seed)) [
  | inl e ↦ inl (bytes_eq→eq s seed e)
  | inr e ↦ inr (contains-Holds seed seeds (rw e at h))
]

-- A set has the elements of the list that it is made from, and no others.
to_set-Holds : (x : Bytes) (seeds : List Bytes) → Holds x (to_set seeds) → Holds x seeds
unfolding to_set
to_set-Holds x [] h = h
to_set-Holds x (seed ∷ seeds) h = elim (Bool-cases (contains seed (to_set seeds))) [
  | inl e ↦ inr (to_set-Holds x seeds (rw e at h))
  | inr e ↦ elim (rw e at h) [ inl p ↦ inl p | inr k ↦ inr (to_set-Holds x seeds k) ]
]

Holds-to_set : (x : Bytes) (seeds : List Bytes) → Holds x seeds → Holds x (to_set seeds)
unfolding to_set
Holds-to_set x [] h = h
Holds-to_set x (seed ∷ seeds) h = elim (Bool-cases (contains seed (to_set seeds))) [
  | inl e ↦ rw e (elim h [
    | inl p ↦ subst (λ y. Holds y (to_set seeds)) p (contains-Holds seed (to_set seeds) e)
    | inr k ↦ Holds-to_set x seeds k
  ])
  | inr e ↦ rw e (elim h [ inl p ↦ inl p | inr k ↦ inr (Holds-to_set x seeds k) ])
]

module _ (q : Omq) where
  -- How a fetcher without a connection gets one from a seed.
  abbrev pub connected_to : Fetcher q → Bytes → ℕ → Result ((Option q.Connection × Fetcher q) × ℕ)
  connected_to s seed r = or_throw (q.parse_address seed) invalid_argument >>= λ address.
      let conn = q.connect r address in ok ((conn, record { conn = conn; seeds = s.seeds }), suc r)

module _ (l : Libs) (q : Omq) (draw : Draw) (fair : InRange draw) (visit : List Bytes → List Bytes)
    (visits : (seeds : List Bytes) → Permᴰ (visit seeds) seeds) where
  picked :
      (s : Fetcher q) (seed : Bytes) (r : ℕ)
      → s.conn ≡ none
      → Holds seed s.seeds
      → (found : Bytes) × (r' : ℕ) × Holds found s.seeds
        × (obtain_connection l q draw visit s r ≡ connected_to q s found r')
  unfolding obtain_connection
  picked s seed r unconnected h = elim (List-cases (visit s.seeds)) [
    | inl e ↦ absurd (subst (Holds seed) e (Holds-Permᴰ (Permᴰ.symm (visits s.seeds)) seed h))
    | inr (found, rest, e) ↦ (
      found,
      r + suc (length rest),
      Holds-Permᴰ (visits s.seeds) found (subst (Holds found) (sym e) (inl refl)),
      rw (unconnected, e, pick_random_first draw fair found rest r) refl,
    )
  ]

  -- No consensus is made of an empty list of seeds. The seeds of any other are those of the list, each
  -- once, and a fetcher that it creates seeks its first connection at one of them, whatever the order in
  -- which the set is visited. The numbers drawn are in range, and a container is visited in some order
  -- of its elements.
  pub consensus_seeded :
      (seeds : List Bytes) (r : ℕ)
      → ((seeds ≡ []) × (new_direct_consensus seeds ≡ err invalid_argument))
        ⊎ ((consensus : List Bytes) × (new_direct_consensus seeds ≡ ok consensus)
            × ((x : Bytes) → count x consensus ≡ (if contains x seeds then 1 else 0))
            × ((found : Bytes) × (r' : ℕ) × Holds found seeds
                × (obtain_connection l q draw visit (make_node_fetcher q consensus) r
                    ≡ connected_to q (make_node_fetcher q consensus) found r')))
  unfolding new_direct_consensus make_node_fetcher seed_nodes create_node_fetcher
  consensus_seeded [] r = inl (refl, refl)
  consensus_seeded (seed ∷ seeds) r =
      let (found, r', held, e) =
        picked (record { conn = none; seeds = to_set (seed ∷ seeds) }) seed r refl
          (Holds-to_set seed (seed ∷ seeds) (inl refl)) in
      inr (
        to_set (seed ∷ seeds),
        refl,
        λ x. count-to_set x (seed ∷ seeds),
        (found, r', to_set-Holds found (seed ∷ seeds) held, e),
      )
