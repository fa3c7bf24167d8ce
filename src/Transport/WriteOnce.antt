-- ===== src/Transport/WriteOnce.antt =====
-- The connections as their users see them: a map in which each identity is written once.
use libonionrequests.Common.{
  ◌≡◌, refl, sym, ◌∙◌, ap, List, [], ◌∷◌, Bytes, bytes_eq, Bool-cases, bytes_eq→eq, lookup, emplace,
  lookup-emplace, Option, none, some, Option-cases, inl, inr, arith, if◌then◌else◌,
}
use libonionrequests.Libs.{Libs}
use libonionrequests.Libs.Omq.{Omq}
use libonionrequests.Node.{SnodeInfo}
use libonionrequests.Transport.{Cache, check_cached, store, put_result}
use libonionrequests.Transport.Interleaving.{
  Phase, asking, connecting, finished, failed, Section, Step, Reached,
}

-- The second list is the first with `x` somewhere in it.
pub data Inserted {A : Type 0} (x : A) : List A → List A → Type 0 where
  front : {xs : List A} → Inserted x xs (x ∷ xs)
  behind : {y : A} {xs ys : List A} → Inserted x xs ys → Inserted x (y ∷ xs) (y ∷ ys)

-- The abstract specification: a map, and the answers given so far, in any order. An answer is what the
-- map holds; what the map does not hold may be written once, and is then answered.
pub data Spec {C : Type 0} : (Bytes → Option C) → List (Bytes × C) → Type 0 where
  empty : Spec (λ i. none) []
  read :
      {m : Bytes → Option C} {xs ys : List (Bytes × C)} (k : Bytes) (conn : C)
      → Spec m xs
      → m k ≡ some conn
      → Inserted (k, conn) xs ys
      → Spec m ys
  written :
      {m m' : Bytes → Option C} {xs ys : List (Bytes × C)} (k : Bytes) (conn : C)
      → Spec m xs
      → m k ≡ none
      → ((i : Bytes) → m' i ≡ (if bytes_eq k i then some conn else m i))
      → Inserted (k, conn) xs ys
      → Spec m' ys

emplace_known :
    {V : Type 0} (k : Bytes) (old v : V) (m : List (Bytes × V))
    → lookup k m ≡ some old
    → emplace k v m ≡ m
unfolding emplace
emplace_known k old v [] h = cc
emplace_known k old v ((j, w) ∷ m) h = ground (arith, emplace_known k old v m)

module _ (l : Libs) (q : Omq) where
  -- The answers that the threads have got.
  abbrev pub answers : List (Phase l q) → List (Bytes × q.Connection)
  answers [] = []
  answers (asking info ∷ threads) = answers threads
  answers (connecting info ∷ threads) = answers threads
  answers (finished info none ∷ threads) = answers threads
  answers (finished info (some conn) ∷ threads) = (info.identity, conn) ∷ answers threads
  answers (failed info ∷ threads) = answers threads

  -- What a step does to the map and to the answers.
  data Effect
      : Cache q → List (Bytes × q.Connection) → Cache q → List (Bytes × q.Connection) → Type 0 where
    quiet : {cache : Cache q} {xs : List (Bytes × q.Connection)} → Effect cache xs cache xs
    reads :
        {cache : Cache q} {xs ys : List (Bytes × q.Connection)} (k : Bytes) (conn : q.Connection)
        → lookup k cache ≡ some conn
        → Inserted (k, conn) xs ys
        → Effect cache xs cache ys
    writes :
        {cache cache' : Cache q} {xs ys : List (Bytes × q.Connection)} (k : Bytes)
        (conn : q.Connection)
        → lookup k cache ≡ none
        → ((i : Bytes) → lookup i cache' ≡ (if bytes_eq k i then some conn else lookup i cache))
        → Inserted (k, conn) xs ys
        → Effect cache xs cache' ys

  emplaced :
      (k : Bytes) (conn : q.Connection) (cache : Cache q)
      → lookup k cache ≡ none
      → (i : Bytes)
      → lookup i (emplace k conn cache) ≡ (if bytes_eq k i then some conn else lookup i cache)
  emplaced k conn cache h i = lookup-emplace i k conn cache ∙ elim (Option-cases (lookup i cache)) [
    | inl e ↦ rw e refl
    | inr (old, e) ↦ elim (Bool-cases (bytes_eq k i)) [
      | inl same ↦
          let h' = ap (λ (b : Bytes). lookup b cache) (sym (bytes_eq→eq k i same)) ∙ h in cc
      | inr other ↦ rw (e, other) refl
    ]
  ]

  store-Effect :
      (cache : Cache q) (info : SnodeInfo) (conn : q.Connection) (xs : List (Bytes × q.Connection))
      → Effect cache xs
          (store l q cache info conn).1
          ((info.identity, (store l q cache info conn).0) ∷ xs)
  unfolding store
  store-Effect cache info conn xs = elim (Option-cases (lookup info.identity cache)) [
    | inl e ↦
        rw (e, store)
          (Effect.writes info.identity conn e (emplaced info.identity conn cache e) Inserted.front)
    | inr (old, e) ↦
        rw (e, store, emplace_known info.identity old conn cache e)
          (Effect.reads info.identity old e Inserted.front)
  ]

  Section-Effect :
      {cache cache' : Cache q} {p p' : Phase l q} (threads : List (Phase l q))
      → Section l q cache p cache' p'
      → Effect cache (answers (p ∷ threads)) cache' (answers (p' ∷ threads))
  unfolding put_result check_cached
  Section-Effect threads (Section.hit {info} conn e) =
      Effect.reads info.identity conn e Inserted.front
  Section-Effect threads (Section.miss e) = Effect.quiet
  Section-Effect threads (Section.outcome r none e) = Effect.quiet
  Section-Effect {cache} threads (Section.outcome {info} r (some conn) e) =
      store-Effect cache info conn (answers threads)
  Section-Effect threads (Section.thrown r e) = Effect.quiet

  Effect-cons :
      {cache cache' : Cache q} {xs ys : List (Bytes × q.Connection)} (x : Bytes × q.Connection)
      → Effect cache xs cache' ys
      → Effect cache (x ∷ xs) cache' (x ∷ ys)
  Effect-cons x Effect.quiet = Effect.quiet
  Effect-cons x (Effect.reads k conn e i) = Effect.reads k conn e (Inserted.behind i)
  Effect-cons x (Effect.writes k conn e f i) = Effect.writes k conn e f (Inserted.behind i)

  Effect-behind :
      (cache cache' : Cache q) (p : Phase l q) (threads threads' : List (Phase l q))
      → Effect cache (answers threads) cache' (answers threads')
      → Effect cache (answers (p ∷ threads)) cache' (answers (p ∷ threads'))
  Effect-behind cache cache' (asking info) threads threads' e = e
  Effect-behind cache cache' (connecting info) threads threads' e = e
  Effect-behind cache cache' (finished info none) threads threads' e = e
  Effect-behind cache cache' (finished info (some conn)) threads threads' e =
      Effect-cons (info.identity, conn) e
  Effect-behind cache cache' (failed info) threads threads' e = e

  Step-Effect :
      {cache cache' : Cache q} {threads threads' : List (Phase l q)}
      → Step l q cache threads cache' threads'
      → Effect cache (answers threads) cache' (answers threads')
  Step-Effect (Step.here {threads} s) = Section-Effect threads s
  Step-Effect (Step.there {p} {threads} {threads'} s) =
      Effect-behind _ _ p threads threads' (Step-Effect s)
  Step-Effect (Step.call info threads) = Effect.quiet

  Spec-Effect :
      (cache cache' : Cache q) (xs ys : List (Bytes × q.Connection))
      → Spec (λ i. lookup i cache) xs
      → Effect cache xs cache' ys
      → Spec (λ i. lookup i cache') ys
  Spec-Effect cache cache' xs ys s Effect.quiet = s
  Spec-Effect cache cache' xs ys s (Effect.reads k conn e i) = Spec.read k conn s e i
  Spec-Effect cache cache' xs ys s (Effect.writes k conn e f i) = Spec.written k conn s e f i

  -- However the calls interleave, the cache and the answers given are those of a map in which an
  -- identity is written at most once, and is answered only with what the map holds.
  pub refines :
      {cache : Cache q} {threads : List (Phase l q)}
      → Reached l q cache threads
      → Spec (λ i. lookup i cache) (answers threads)
  refines Reached.start = Spec.empty
  refines (Reached.next {cache} {cache'} {threads} {threads'} r s) =
      Spec-Effect cache cache' (answers threads) (answers threads') (refines r) (Step-Effect s)
