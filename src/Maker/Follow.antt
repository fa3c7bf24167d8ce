-- ===== src/Maker/Follow.antt =====
-- What the relays of a path make of a message, and what comes back from the last of them.
use libonionrequests.Common.{ℕ, ◌≡◌, List, [], ◌∷◌, Bytes, Result, ok, err, undefined, ◌>>=◌}
use libonionrequests.Libs.{Libs}
use libonionrequests.Junk.{Junk, parse_junk}
use libonionrequests.Maker.Route.{Relay, keys_of, Travels}

module _ (l : Libs) where
  -- What the nodes of a path make of a blob: each opens it and passes the payload on.
  abbrev pub follow : List Relay → Bytes → Result Junk
  follow [] blob = undefined
  follow (relay ∷ []) blob = parse_junk l (keys_of relay) blob
  follow (relay ∷ next ∷ rest) blob =
      parse_junk l (keys_of relay) blob >>= λ junk. follow (next ∷ rest) junk.payload

  -- The last node encrypts its reply, at a draw of its own, and the others hand it back.
  abbrev pub replied : Result (Bytes × ℕ) → ℕ × Bytes
  replied (ok (c, q)) = (200, c)
  replied (err e) = (500, [])
  replied undefined = (500, [])

  abbrev pub served : Bytes → ℕ → Result Junk → ℕ × Bytes
  served reply q (ok junk) = replied (junk.transform_reply reply q)
  served reply q (err e) = (500, [])
  served reply q undefined = (500, [])

  pub Travels-follow :
      (P : Junk → Type 0) (relays : List Relay) (blob inner : Bytes)
      → Travels l P relays blob inner
      → (junk : Junk) × (follow relays blob ≡ ok junk) × P junk
  Travels-follow P [] blob inner h = absurd h
  Travels-follow P (relay ∷ []) blob inner (junk, e, same, p) = (junk, e, p)
  Travels-follow P (relay ∷ next ∷ rest) blob inner (junk, e, routed, travels) =
      let (last, f, p) = Travels-follow P (next ∷ rest) junk.payload inner travels in
      (last, rw e f, p)
