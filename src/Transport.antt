-- ===== src/Transport.antt =====
-- onionreq/transport.cpp: `Transport_OMQ`, its connections and the sending of onions.
pub mod Base
pub mod Answer
pub mod Interleaving
pub mod Caching
pub mod WriteOnce
use libonionrequests.Common.{
  ℕ, suc, Bool, true, false, List, [], ◌∷◌, Bytes, codes, lookup, emplace, Option, none, some,
  Result, ok, or_throw, ◌>>=◌, invalid_argument, if◌then◌else◌,
}
use libonionrequests.Libs.{Libs}
use libonionrequests.Libs.Omq.{Omq}
use libonionrequests.Node.{SnodeInfo, direct_addr}
use libonionrequests.Onion.{OnionPayload, edge}

-- `_edges`, by identity key.
abbrev pub Cache : Omq → Type 0
Cache q = List (Bytes × q.Connection)

module _ (l : Libs) (q : Omq) where
  -- The first locked section of `ObtainConnectionTo`.
  unfoldable pub check_cached : Cache q → SnodeInfo → Option q.Connection
  check_cached cache info = lookup info.identity cache

  -- `connect_remote(address{info.DirectAddr()}, ...)`, and the wait for its outcome, which
  -- always comes here.
  unfoldable pub connect_to : SnodeInfo → ℕ → Result (Option q.Connection)
  connect_to info r = do
    address ← or_throw (q.parse_address (direct_addr l.oxenc info)) invalid_argument
    ok (q.connect r address)

  -- The second locked section: `emplace` keeps a connection that is there, and that one is answered.
  unfoldable pub store : Cache q → SnodeInfo → q.Connection → q.Connection × Cache q
  store cache info conn = (
    elim (lookup info.identity cache) [ some old ↦ old | none ↦ conn ],
    emplace info.identity conn cache,
  )

  unfoldable pub put_result :
      Cache q → SnodeInfo → Option q.Connection → Option q.Connection × Cache q
  put_result cache info none = (none, cache)
  put_result cache info (some conn) =
      let (placed, cache') = store cache info conn in (some placed, cache')

  unfoldable pub obtain_connection_to :
      Cache q → SnodeInfo → ℕ → Result (Option q.Connection × Cache q)
  obtain_connection_to cache info r = elim (check_cached cache info) [
    | some conn ↦ ok (some conn, cache)
    | none ↦ connect_to info r >>= λ maybe. ok (put_result cache info maybe)
  ]

  -- The callback of `SendPayload`, which hands what it gets on to the response handler.
  unfoldable pub reply : Bool × List Bytes → Option Bytes
  reply (success, []) = none
  reply (success, (m ∷ [])) = none
  reply (success, (m ∷ (body ∷ more))) = if success then some body else none

  -- What the response handler is called with, and the connections afterwards.
  unfoldable pub send_payload : Cache q → OnionPayload → ℕ → Result (Option Bytes × Cache q)
  send_payload cache payload r = do
    first ← edge payload.path
    (maybe, cache') ← obtain_connection_to cache first r
    ok (
      elim maybe [
        | some conn ↦ reply (q.request (suc r) conn (codes "sn.onion_request") payload.ciphertext)
        | none ↦ none
      ],
      cache',
    )
