-- ===== src/Fetcher/Replies.antt =====
-- What `FetchAll` hands on, whatever the network answers.
use libonionrequests.Common.{
  ℕ, suc, ◌≡◌, codes, lookup, Option-cases, ◌⊎◌, Error, invalid_argument, refl, Bool, true, false,
  List, [], ◌∷◌, Bytes, Option, none, some, Result, ok, err, undefined, ◌>>=◌, or_throw, When,
  >>=-When, inl, inr, subst,
}
use libonionrequests.Libs.{Libs}
use libonionrequests.Libs.Omq.{Omq}
use libonionrequests.Random.{Draw, pick_random}
use libonionrequests.Fetcher.{
  Nodes, Fetcher, parse_node_list, on_reply, obtain_connection, fetch_all, rpc_body, rpc_method,
}
use libonionrequests.Node.{SnodeInfo}
use libonionrequests.Fetcher.Nodes.{
  IsKeyed, Reads, StopsWith, last_of, entries-cases, add_entries_thrown, add_entries_undefined,
  parse_node_list_last,
}

module _ (l : Libs) (raw : ℕ → Bytes × Bytes) where
  -- The second part of a reply is a JSON text with a list of the nodes, which has these entries.
  pub record Lists (msgs : List Bytes) (entries : List l.json.Value) : Type 0 where
    pub status : Bytes
    pub body : Bytes
    pub more : List Bytes
    pub val : l.json.Value
    pub states : l.json.Value
    pub parts : msgs ≡ status ∷ body ∷ more
    pub parsed : l.json.parse body ≡ some val
    pub found : l.json.find val (codes "service_node_states") ≡ some states
    pub same_entries : entries ≡ l.json.elements states

  -- The second part of a reply, where there is one, has no such list.
  abbrev pub ListsNone : List Bytes → Type 0
  ListsNone [] = Unit {0}
  ListsNone (status ∷ []) = Unit {0}
  ListsNone (status ∷ body ∷ more) =
      (l.json.parse body ≡ none)
      ⊎ ((val : l.json.Value) × (l.json.parse body ≡ some val)
          × (l.json.find val (codes "service_node_states") ≡ none))

  -- What the callback hands on, by what the network answered.
  pub data Handed (success : Bool) (msgs : List Bytes) : Result Nodes → Type 0 where
    unsuccessful : success ≡ false → Handed success msgs (ok [])
    nothing_listed : ListsNone msgs → Handed success msgs (ok [])
    unreadable :
        (entries : List l.json.Value) (e : Error)
        → Lists msgs entries
        → StopsWith l raw entries (err e)
        → Handed success msgs (ok [])
    readable :
        (entries : List l.json.Value) (read : List SnodeInfo) {nodes : Nodes}
        → success ≡ true
        → Lists msgs entries
        → Reads l raw entries read
        → IsKeyed nodes
        → ((k : Bytes) → lookup k nodes ≡ last_of k read none)
        → Handed success msgs (ok nodes)
    overrun :
        (entries : List l.json.Value)
        → success ≡ true
        → Lists msgs entries
        → StopsWith l raw entries undefined
        → Handed success msgs undefined

  listed-Handed :
      (status body : Bytes) (more : List Bytes) (val states : l.json.Value)
      → l.json.parse body ≡ some val
      → l.json.find val (codes "service_node_states") ≡ some states
      → Handed true (status ∷ body ∷ more) (on_reply l raw (true, status ∷ body ∷ more))
  unfolding on_reply parse_node_list
  listed-Handed status body more val states p f =
      let entries = l.json.elements states in
      let lists : Lists (status ∷ body ∷ more) entries = record {
        status = status;
        body = body;
        more = more;
        val = val;
        states = states;
        parts = refl;
        parsed = p;
        found = f;
        same_entries = refl;
      } in
      elim (entries-cases l raw entries) [
        | inl (read, h) ↦
            let (nodes, done, keyed, last) =
              parse_node_list_last l raw body val states read p f h in
            rw done (Handed.readable entries read refl lists h keyed last)
        | inr (inl (x, h)) ↦
            rw (p, f, add_entries_thrown l raw entries [] x h) (Handed.unreadable entries x lists h)
        | inr (inr h) ↦
            rw (p, f, add_entries_undefined l raw entries [] h)
              (Handed.overrun entries refl lists h)
      ]

  -- The callback of `FetchAll` never throws. Of a successful reply whose second part is a list of nodes it
  -- hands on all of them if every entry can be read: each under its own identity, the last one of an
  -- identity. If the first entry that is no node throws, it hands on none at all, and if reading that
  -- entry is undefined, so is the callback. It hands on none of a reply that fails, has fewer than two
  -- parts, is not JSON, or has no list.
  pub on_reply-Handed :
      (success : Bool) (msgs : List Bytes) → Handed success msgs (on_reply l raw (success, msgs))
  unfolding on_reply parse_node_list
  on_reply-Handed success [] = Handed.nothing_listed tt
  on_reply-Handed success (status ∷ []) = Handed.nothing_listed tt
  on_reply-Handed false (status ∷ body ∷ more) = Handed.unsuccessful refl
  on_reply-Handed true (status ∷ body ∷ more) = elim (Option-cases (l.json.parse body)) [
    | inl p ↦ rw p (Handed.nothing_listed (inl p))
    | inr (val, p) ↦ elim (Option-cases (l.json.find val (codes "service_node_states"))) [
      | inl f ↦ rw (p, f) (Handed.nothing_listed (inr (val, p, f)))
      | inr (states, f) ↦ listed-Handed status body more val states p f
    ]
  ]

  on_reply-IsKeyed : (reply : Bool × List Bytes) → When IsKeyed (on_reply l raw reply)
  on_reply-IsKeyed (success, msgs) =
      keyed (on_reply l raw (success, msgs)) (on_reply-Handed success msgs)
    where
      keyed : (m : Result Nodes) → Handed success msgs m → When IsKeyed m
      keyed m (Handed.unsuccessful h) = tt
      keyed m (Handed.nothing_listed h) = tt
      keyed m (Handed.unreadable _ _ _ _) = tt
      keyed m (Handed.readable _ _ _ _ _ h _) = h
      keyed m (Handed.overrun _ _ _ _) = tt

module _ (l : Libs) (raw : ℕ → Bytes × Bytes) (q : Omq) (draw : Draw)
    (visit : List Bytes → List Bytes) where
  -- What a call of `FetchAll` does with the fetcher.
  abbrev pub Fetched : Fetcher q → (Nodes × Fetcher q) × ℕ → Type 0
  Fetched s ((nodes, s'), r) =
      IsKeyed nodes
      × ((s.conn ≡ none) ⊎ (s' ≡ s))
      × (s'.seeds ≡ s.seeds)
      × ((nodes ≡ []) ⊎ ((conn : q.Connection) × (s'.conn ≡ some conn)))

  requested :
      (s s' : Fetcher q) (conn : q.Connection) (r : ℕ)
      → (s.conn ≡ none) ⊎ (s' ≡ s)
      → s'.seeds ≡ s.seeds
      → s'.conn ≡ some conn
      → When (Fetched s) (
          rpc_body l >>= λ body.
          on_reply l raw (q.request r conn rpc_method body) >>= λ nodes. ok ((nodes, s'), suc r))
  requested s s' conn r kept seeds e = >>=-When (Fetched s) (rpc_body l) _ λ body p.
      >>=-When (Fetched s) (on_reply l raw (q.request r conn rpc_method body)) _ λ nodes h. (
        rw h at (on_reply-IsKeyed l raw (q.request r conn rpc_method body)),
        kept,
        seeds,
        inr (conn, e),
      )

  abbrev Obtained : Fetcher q → (Option q.Connection × Fetcher q) × ℕ → Type 0
  Obtained s ((maybe, s'), r) =
      ((s.conn ≡ none) ⊎ (s' ≡ s)) × (s'.seeds ≡ s.seeds) × (s'.conn ≡ maybe)

  obtain-Obtained :
      (conn : Option q.Connection) (seeds : List Bytes) (r : ℕ)
      → When
          (Obtained (record { conn = conn; seeds = seeds }))
          (obtain_connection l q draw visit (record { conn = conn; seeds = seeds }) r)
  unfolding obtain_connection
  obtain-Obtained (some conn) seeds r = (inr refl, refl, refl)
  obtain-Obtained none seeds r =
      >>=-When (Obtained _) (pick_random draw (visit seeds) r) _ λ (seed, r') p.
        >>=-When (Obtained _) (or_throw (q.parse_address seed) invalid_argument) _
          λ address e. (inl refl, refl, refl)

  handled :
      (s s' : Fetcher q) (maybe : Option q.Connection) (r r' : ℕ)
      → Obtained s ((maybe, s'), r)
      → When (Fetched s) (elim maybe [
        | some conn ↦
            (rpc_body l >>= λ body. on_reply l raw (q.request r' conn rpc_method body) >>= λ nodes.
            ok ((nodes, s'), suc r'))
        | none ↦ ok (([], s'), r')
      ])
  handled s s' none r r' (kept, seeds, e) = (tt, kept, seeds, inl refl)
  handled s s' (some conn) r r' (kept, seeds, e) = requested s s' conn r' kept seeds e

  -- A call of `FetchAll` that returns hands on nodes under their own identities. It uses the connection
  -- that the fetcher has, which then does not change; otherwise it makes one from the seeds, which do not
  -- change. Nodes come only with a connection that the fetcher has afterwards.
  pub fetch_all-Fetched :
      (s : Fetcher q) (r : ℕ) → When (Fetched s) (fetch_all l q draw visit raw s r)
  unfolding fetch_all
  fetch_all-Fetched s r =
      >>=-When (Fetched s) (obtain_connection l q draw visit s r) _ λ ((maybe, s'), r') h.
        handled s s' maybe r' r' (subst (When (Obtained s)) h (obtain-Obtained s.conn s.seeds r))
