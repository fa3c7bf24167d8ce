-- ===== src/Fetcher/Seeded.antt =====
-- Where the connection of a fetcher goes.
use libonionrequests.Common.{
  ℕ, suc, ◌≡◌, refl, sym, subst, List, [], List-cases, Bytes, Option, none, some, inl, inr, ok,
  ◌>>=◌, or_throw, or_throw-ok, When, >>=-When, invalid_argument,
}
use mathlib.Core.List.{Permᴰ}
use libonionrequests.Libs.{Libs}
use libonionrequests.Libs.Omq.{Omq}
use libonionrequests.Random.{Draw, pick_random, sample, sample_loop, first_picked}
use libonionrequests.Random.Sampling.{InRange, pick_random_first}
use libonionrequests.Paths.Select.{Holds, Holds-Permᴰ}
use libonionrequests.Fetcher.{
  Nodes, Fetcher, obtain_connection, fetch_all, rpc_body, rpc_method, on_reply,
}

-- A connection that there is was made to the address of one of the seeds.
abbrev pub IsSeeded : (q : Omq) → Fetcher q → Type 0
IsSeeded q s =
    (conn : q.Connection)
    → s.conn ≡ some conn
    → (seed : Bytes) × (address : q.Address) × (n : ℕ) × Holds seed s.seeds
      × (q.parse_address seed ≡ some address)
      × (q.connect n address ≡ some conn)

module _ (l : Libs) (q : Omq) (draw : Draw) (fair : InRange draw) (visit : List Bytes → List Bytes)
    (visits : (seeds : List Bytes) → Permᴰ (visit seeds) seeds) where
  picked-Holds :
      (seeds : List Bytes) (r : ℕ) → When (λ p. Holds p.0 seeds) (pick_random draw (visit seeds) r)
  unfolding pick_random sample sample_loop first_picked
  picked-Holds seeds r = elim (List-cases (visit seeds)) [
    | inl e ↦ rw e tt
    | inr (x, xs, e) ↦
        let there : Holds x seeds =
          Holds-Permᴰ (visits seeds) x (subst (Holds x) (sym e) (inl refl)) in
        rw (e, pick_random_first draw fair x xs r) there
  ]

  obtain-IsSeeded :
      (conn : Option q.Connection) (seeds : List Bytes) (r : ℕ)
      → IsSeeded q (record { conn = conn; seeds = seeds })
      → When
          (λ p. IsSeeded q p.0.1)
          (obtain_connection l q draw visit (record { conn = conn; seeds = seeds }) r)
  unfolding obtain_connection
  obtain-IsSeeded (some conn) seeds r h = h
  obtain-IsSeeded none seeds r h = >>=-When _ (pick_random draw (visit seeds) r) _ λ (seed, r') p.
      >>=-When _ (or_throw (q.parse_address seed) invalid_argument) _ λ address e. λ conn c. (
        seed,
        address,
        r',
        rw p at (picked-Holds seeds r),
        or_throw-ok (q.parse_address seed) invalid_argument address e,
        c,
      )

  handled-IsSeeded :
      (raw : ℕ → Bytes × Bytes) (s : Fetcher q) (maybe : Option q.Connection) (r : ℕ)
      → IsSeeded q s
      → When
          (λ (p : (Nodes × Fetcher q) × ℕ). IsSeeded q p.0.1)
          (elim maybe [
            | some conn ↦
                (rpc_body l >>= λ body.
                on_reply l raw (q.request r conn rpc_method body) >>= λ nodes.
                ok ((nodes, s), suc r))
            | none ↦ ok (([], s), r)
          ])
  handled-IsSeeded raw s none r h = h
  handled-IsSeeded raw s (some conn) r h =
      >>=-When _ (rpc_body l) _
        λ body p. >>=-When _ (on_reply l raw (q.request r conn rpc_method body)) _ λ nodes e. h

  pub fetch_all-IsSeeded :
      (raw : ℕ → Bytes × Bytes) (s : Fetcher q) (r : ℕ)
      → IsSeeded q s
      → When (λ p. IsSeeded q p.0.1) (fetch_all l q draw visit raw s r)
  unfolding fetch_all
  fetch_all-IsSeeded raw s r h =
      >>=-When _ (obtain_connection l q draw visit s r) _ λ ((maybe, s'), r') e.
        handled-IsSeeded raw s' maybe r' (rw e at (obtain-IsSeeded s.conn s.seeds r h))
