-- ===== src/Fetcher/Lifetime.antt =====
-- What a fetcher keeps over its lifetime.
use libonionrequests.Common.{
  ℕ, ◌≡◌, ◌⊎◌, inl, inr, refl, ◌∙◌, List, [], ◌∷◌, Bytes, some, ok, All, When, subst,
}
use libonionrequests.Libs.{Libs}
use libonionrequests.Libs.Omq.{Omq}
use libonionrequests.Random.{Draw}
use libonionrequests.Fetcher.{Nodes, Fetcher, fetch_all}
use libonionrequests.Fetcher.Nodes.{IsKeyed}
use libonionrequests.Fetcher.Seeded.{IsSeeded, fetch_all-IsSeeded}
use libonionrequests.Random.Sampling.{InRange}
use mathlib.Core.List.{Permᴰ}
use libonionrequests.Fetcher.Replies.{Fetched, fetch_all-Fetched}

module _ (l : Libs) (raw : ℕ → Bytes × Bytes) (q : Omq) (draw : Draw)
    (visit : List Bytes → List Bytes) where
  -- Calls of `FetchAll` that return one after another, and what they hand on, the last one first.
  pub data Fetches (s : Fetcher q) : List Nodes → Fetcher q → Type 0 where
    none_yet : Fetches s [] s
    then_fetched :
        {t u : Fetcher q} {lists : List Nodes} (nodes : Nodes) (r r' : ℕ)
        → Fetches s lists t
        → fetch_all l q draw visit raw t r ≡ ok ((nodes, u), r')
        → Fetches s (nodes ∷ lists) u

  -- The seeds stay, a connection is to one of them and stays, and nodes come only over a connection.
  pub record Keeps (s : Fetcher q) (lists : List Nodes) (t : Fetcher q) : Type 0 where
    pub keyed : All IsKeyed lists
    pub seeds_kept : t.seeds ≡ s.seeds
    pub seeded : IsSeeded q t
    pub connection_kept : (conn : q.Connection) → s.conn ≡ some conn → t.conn ≡ some conn
    pub connected : All (λ nodes. nodes ≡ []) lists ⊎ ((conn : q.Connection) × (t.conn ≡ some conn))

  Keeps-then :
      (s t u : Fetcher q) (lists : List Nodes) (nodes : Nodes) (r : ℕ)
      → Keeps s lists t
      → Fetched l raw q draw visit t ((nodes, u), r)
      → IsSeeded q u
      → Keeps s (nodes ∷ lists) u
  Keeps-then s t u lists nodes r before (keyed, kept, seeds, connected) to_seed =
      let stays : (conn : q.Connection) → t.conn ≡ some conn → u.conn ≡ some conn =
        λ conn e. elim kept [ inl nothing ↦ cc | inr same ↦ rw same e ] in
      record {
        keyed = (keyed, before.keyed);
        seeds_kept = seeds ∙ before.seeds_kept;
        seeded = to_seed;
        connection_kept = λ conn e. stays conn (before.connection_kept conn e);
        connected = elim before.connected [
          | inr (conn, e) ↦ inr (conn, stays conn e)
          | inl empty ↦ elim connected [
            | inl none_here ↦ inl (none_here, empty)
            | inr here ↦ inr here
          ]
        ];
      }

  module _ (fair : InRange draw) (visits : (seeds : List Bytes) → Permᴰ (visit seeds) seeds) where
    -- Whatever calls of `FetchAll` return, one after another, on a fetcher without a connection or with
    -- one to a seed: each hands on nodes under their own identities, the seeds never change, a
    -- connection that is there was made to the address of a seed and is there afterwards, and once a
    -- call has handed on a node there is a connection. The numbers drawn are in range, and the set of
    -- seeds is visited in some order of its elements.
    pub Fetches-Keeps :
        {s t : Fetcher q} {lists : List Nodes} → IsSeeded q s → Fetches s lists t → Keeps s lists t
    Fetches-Keeps {s} start Fetches.none_yet = record {
      keyed = tt;
      seeds_kept = refl;
      seeded = start;
      connection_kept = λ conn e. e;
      connected = inl tt;
    }
    Fetches-Keeps {s} start (Fetches.then_fetched {t} {u} {lists} nodes r r' calls e) =
        let before = Fetches-Keeps start calls in
        Keeps-then s t u lists nodes r' before
          (subst (When (Fetched l raw q draw visit t)) e (fetch_all-Fetched l raw q draw visit t r))
          (rw e at (fetch_all-IsSeeded l q draw fair visit visits raw t r before.seeded))
