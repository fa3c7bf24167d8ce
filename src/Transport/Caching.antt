-- ===== src/Transport/Caching.antt =====
-- Calls of the transport one after the other.
use libonionrequests.Common.{
  List-cases, >>=-Defined, ok-Defined, ℕ, ◌≡◌, ◌↔◌, refl, List, [], ◌∷◌, lookup, Option, none, some,
  Result, ok, err, undefined, ◌>>=◌, Option-cases, inl, inr, subst, arith, ◌≢◌,
}
use libonionrequests.Libs.{Libs}
use libonionrequests.Libs.Omq.{Omq}
use libonionrequests.Node.{SnodeInfo}
use libonionrequests.Onion.{OnionPayload, edge, first_of_hops}
use libonionrequests.Transport.{
  Cache, check_cached, connect_to, put_result, obtain_connection_to, send_payload,
}
use libonionrequests.Transport.Interleaving.{store_lem}

module _ (l : Libs) (q : Omq) where
  obtain_hit :
      (cache : Cache q) (info : SnodeInfo) (r : ℕ) (conn : q.Connection)
      → lookup info.identity cache ≡ some conn
      → obtain_connection_to l q cache info r ≡ ok (some conn, cache)
  unfolding obtain_connection_to check_cached
  obtain_hit cache info r conn e = rw (obtain_connection_to, e) refl

  obtain_miss :
      (cache : Cache q) (info : SnodeInfo) (r : ℕ)
      → lookup info.identity cache ≡ none
      → obtain_connection_to l q cache info r
        ≡ (connect_to l q info r >>= λ maybe. ok (put_result l q cache info maybe))
  unfolding obtain_connection_to check_cached
  obtain_miss cache info r e = rw (obtain_connection_to, e) refl

  -- A connection that is answered is the one that is cached.
  abbrev IsCached : SnodeInfo → Result (Option q.Connection × Cache q) → Type 0
  IsCached info (ok (none, cache)) = Unit {0}
  IsCached info (ok (some conn, cache)) = lookup info.identity cache ≡ some conn
  IsCached info (err e) = Unit {0}
  IsCached info undefined = Unit {0}

  put_result-IsCached :
      (cache : Cache q) (info : SnodeInfo) (outcome : Result (Option q.Connection))
      → IsCached info (outcome >>= λ maybe. ok (put_result l q cache info maybe))
  unfolding put_result
  put_result-IsCached cache info (ok none) = tt
  put_result-IsCached cache info (ok (some conn)) = store_lem l q cache info conn
  put_result-IsCached cache info (err e) = tt
  put_result-IsCached cache info undefined = tt

  obtain-IsCached :
      (cache : Cache q) (info : SnodeInfo) (r : ℕ)
      → IsCached info (obtain_connection_to l q cache info r)
  obtain-IsCached cache info r = elim (Option-cases (lookup info.identity cache)) [
    | inl e ↦
        rw (obtain_miss cache info r e) (put_result-IsCached cache info (connect_to l q info r))
    | inr (conn, e) ↦ rw (obtain_hit cache info r conn e) e
  ]

  -- A connection that `ObtainConnectionTo` answered is answered again, without another one being made,
  -- to every later call for the same identity that finds the connections as they were left.
  pub obtain_again :
      (cache cache' : Cache q) (info other : SnodeInfo) (r r' : ℕ) (conn : q.Connection)
      → obtain_connection_to l q cache info r ≡ ok (some conn, cache')
      → info.identity ≡ other.identity
      → obtain_connection_to l q cache' other r' ≡ ok (some conn, cache')
  obtain_again cache cache' info other r r' conn h e =
      obtain_hit cache' other r' conn
        (rw e at (subst (IsCached info) h (obtain-IsCached cache info r)))

  obtain-Defined :
      (cache : Cache q) (info : SnodeInfo) (r : ℕ)
      → obtain_connection_to l q cache info r ≢ undefined
  unfolding obtain_connection_to connect_to
  obtain-Defined cache info r h = ground arith

  send_payload-Defined :
      (cache : Cache q) (payload : OnionPayload) (r : ℕ) (hop : SnodeInfo) (hops : List SnodeInfo)
      → payload.path.hops ≡ hop ∷ hops
      → send_payload l q cache payload r ≢ undefined
  unfolding send_payload edge first_of_hops
  send_payload-Defined cache payload r hop hops e =
      rw (send_payload, e)
        (>>=-Defined (obtain_connection_to l q cache hop r) _ (obtain-Defined cache hop r)
          (λ a p. ok-Defined _))

  -- `SendPayload` has a defined result exactly if the path has a hop.
  pub send_payload_undefined_iff :
      (cache : Cache q) (payload : OnionPayload) (r : ℕ)
      → (send_payload l q cache payload r ≡ undefined) ↔ (payload.path.hops ≡ [])
  unfolding send_payload edge first_of_hops
  send_payload_undefined_iff cache payload r = (
    λ h. elim (List-cases payload.path.hops) [
      | inl e ↦ e
      | inr (hop, hops, e) ↦ absurd (send_payload-Defined cache payload r hop hops e h)
    ],
    λ e. rw (send_payload, e) refl,
  )
