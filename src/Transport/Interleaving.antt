-- ===== src/Transport/Interleaving.antt =====
-- Calls of `ObtainConnectionTo` on several threads: between its two locked sections others may run.
use libonionrequests.Common.{
  ℕ, ◌≡◌, refl, sym, ◌∙◌, ap, List, [], ◌∷◌, Bytes, lookup, emplace, lookup-emplace, bytes_eq_refl,
  Option, none, some, ok, err, All, Option-cases, inl, inr, invalid_argument, subst, ◌⊎◌,
}
use mathlib.Core.Option.{some-injective}
use libonionrequests.Libs.{Libs}
use libonionrequests.Libs.Omq.{Omq}
use libonionrequests.Node.{SnodeInfo}
use libonionrequests.Transport.{Cache, check_cached, connect_to, store, put_result}

module _ (l : Libs) (q : Omq) where
  -- Where a thread stands in its call.
  pub data Phase : Type 0 where
    asking connecting : SnodeInfo → Phase
    finished : SnodeInfo → Option q.Connection → Phase
    failed : SnodeInfo → Phase

  -- One uninterrupted section of a call.
  pub data Section : Cache q → Phase → Cache q → Phase → Type 0 where
    hit :
        {cache : Cache q} {info : SnodeInfo} (conn : q.Connection)
        → check_cached l q cache info ≡ some conn
        → Section cache (asking info) cache (finished info (some conn))
    miss :
        {cache : Cache q} {info : SnodeInfo}
        → check_cached l q cache info ≡ none
        → Section cache (asking info) cache (connecting info)
    outcome :
        {cache : Cache q} {info : SnodeInfo} (r : ℕ) (maybe : Option q.Connection)
        → connect_to l q info r ≡ ok maybe
        → Section cache
            (connecting info)
            (put_result l q cache info maybe).1
            (finished info (put_result l q cache info maybe).0)
    thrown :
        {cache : Cache q} {info : SnodeInfo} (r : ℕ)
        → connect_to l q info r ≡ err invalid_argument
        → Section cache (connecting info) cache (failed info)

  -- One of the threads takes a step, or a thread starts a call.
  pub data Step : Cache q → List Phase → Cache q → List Phase → Type 0 where
    here :
        {cache cache' : Cache q} {p p' : Phase} {threads : List Phase}
        → Section cache p cache' p'
        → Step cache (p ∷ threads) cache' (p' ∷ threads)
    there :
        {cache cache' : Cache q} {p : Phase} {threads threads' : List Phase}
        → Step cache threads cache' threads'
        → Step cache (p ∷ threads) cache' (p ∷ threads')
    call :
        {cache : Cache q} (info : SnodeInfo) (threads : List Phase)
        → Step cache threads cache (asking info ∷ threads)

  -- The states that are reached from no connections and no threads.
  pub data Reached : Cache q → List Phase → Type 0 where
    start : Reached [] []
    next :
        {cache cache' : Cache q} {threads threads' : List Phase}
        → Reached cache threads
        → Step cache threads cache' threads'
        → Reached cache' threads'

  -- A thread that has a connection has the one that is cached.
  abbrev Sound : Cache q → Phase → Type 0
  Sound cache (asking info) = Unit {0}
  Sound cache (connecting info) = Unit {0}
  Sound cache (finished info none) = Unit {0}
  Sound cache (finished info (some conn)) = lookup info.identity cache ≡ some conn
  Sound cache (failed info) = Unit {0}

  -- What is cached stays cached.
  abbrev Kept : Cache q → Cache q → Type 0
  Kept cache cache' =
      (i : Bytes) (conn : q.Connection) → lookup i cache ≡ some conn → lookup i cache' ≡ some conn

  emplace-Kept :
      (k : Bytes) (conn : q.Connection) (cache : Cache q) → Kept cache (emplace k conn cache)
  emplace-Kept k conn cache i old h = lookup-emplace i k conn cache ∙ rw h refl

  -- What `store` answers is what is cached then.
  pub store_lem :
      (cache : Cache q) (info : SnodeInfo) (conn : q.Connection)
      → lookup info.identity (store l q cache info conn).1 ≡ some (store l q cache info conn).0
  unfolding store
  store_lem cache info conn =
      lookup-emplace info.identity info.identity conn cache
      ∙ elim (Option-cases (lookup info.identity cache)) [
        | inl e ↦ rw (e, bytes_eq_refl info.identity, store) refl
        | inr (old, e) ↦ rw (e, store) refl
      ]

  Section-Kept :
      {cache cache' : Cache q} {p p' : Phase} → Section cache p cache' p' → Kept cache cache'
  unfolding put_result store
  Section-Kept (Section.hit conn e) i old h = h
  Section-Kept (Section.miss e) i old h = h
  Section-Kept (Section.outcome r none e) i old h = h
  Section-Kept {cache} (Section.outcome {info} r (some conn) e) i old h =
      emplace-Kept info.identity conn cache i old h
  Section-Kept (Section.thrown r e) i old h = h

  Section-Sound :
      {cache cache' : Cache q} {p p' : Phase} → Section cache p cache' p' → Sound cache' p'
  unfolding put_result check_cached
  Section-Sound (Section.hit conn e) = e
  Section-Sound (Section.miss e) = tt
  Section-Sound (Section.outcome r none e) = tt
  Section-Sound {cache} (Section.outcome {info} r (some conn) e) = store_lem cache info conn
  Section-Sound (Section.thrown r e) = tt

  Sound-Kept :
      (cache cache' : Cache q) → Kept cache cache' → (p : Phase) → Sound cache p → Sound cache' p
  Sound-Kept cache cache' k (asking info) h = tt
  Sound-Kept cache cache' k (connecting info) h = tt
  Sound-Kept cache cache' k (finished info none) h = tt
  Sound-Kept cache cache' k (finished info (some conn)) h = k info.identity conn h
  Sound-Kept cache cache' k (failed info) h = tt

  All-Kept :
      (cache cache' : Cache q)
      → Kept cache cache'
      → (threads : List Phase) → All (Sound cache) threads
      → All (Sound cache') threads
  All-Kept cache cache' k [] h = tt
  All-Kept cache cache' k (p ∷ threads) h =
      (Sound-Kept cache cache' k p h.0, All-Kept cache cache' k threads h.1)

  Step-Kept :
      {cache cache' : Cache q} {threads threads' : List Phase}
      → Step cache threads cache' threads'
      → Kept cache cache'
  Step-Kept (Step.here s) = Section-Kept s
  Step-Kept (Step.there s) = Step-Kept s
  Step-Kept (Step.call info threads) = λ i conn h. h

  Step-Sound :
      {cache cache' : Cache q} {threads threads' : List Phase}
      → Step cache threads cache' threads'
      → All (Sound cache) threads
      → All (Sound cache') threads'
  Step-Sound (Step.here {threads} s) h =
      (Section-Sound s, All-Kept _ _ (Section-Kept s) threads h.1)
  Step-Sound (Step.there {p} s) h = (Sound-Kept _ _ (Step-Kept s) p h.0, Step-Sound s h.1)
  Step-Sound (Step.call info threads) h = (tt, h)

  Reached-Sound :
      {cache : Cache q} {threads : List Phase} → Reached cache threads → All (Sound cache) threads
  Reached-Sound Reached.start = tt
  Reached-Sound (Reached.next r s) = Step-Sound s (Reached-Sound r)

  -- A thread of the list.
  abbrev pub Among : Phase → List Phase → Type 0
  Among p [] = ⊥
  Among p (x ∷ threads) = (x ≡ p) ⊎ Among p threads

  Among-Sound :
      (cache : Cache q) (p : Phase) (threads : List Phase)
      → All (Sound cache) threads
      → Among p threads
      → Sound cache p
  Among-Sound cache p [] h a = absurd a
  Among-Sound cache p (x ∷ threads) h (inl e) = subst (Sound cache) e h.0
  Among-Sound cache p (x ∷ threads) h (inr a) = Among-Sound cache p threads h.1 a

  -- However the calls interleave, two that were answered a connection to one identity were answered the
  -- same one, and it is the one that is cached.
  pub connections_agree :
      {cache : Cache q} {threads : List Phase}
      → Reached cache threads
      → (a b : SnodeInfo) (c d : q.Connection) → Among (finished a (some c)) threads
      → Among (finished b (some d)) threads
      → a.identity ≡ b.identity
      → (c ≡ d) × (lookup a.identity cache ≡ some c)
  connections_agree {cache} {threads} r a b c d x y e =
      let sound = Reached-Sound r in
      let first = Among-Sound cache (finished a (some c)) threads sound x in
      let second = Among-Sound cache (finished b (some d)) threads sound y in
      (some-injective c d (sym first ∙ ap (λ i. lookup i cache) e ∙ second), first)
