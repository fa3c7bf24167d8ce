-- ===== src/Samples/Exchange.antt =====
-- The theorems on `MakeOnion` and on a request over oxenmq at concrete inputs.
use libonionrequests.Common.{
  ℕ, ◌+◌, ◌*◌, ◌≡◌, ◌↔◌, refl, ap, true, List, [], ◌∷◌, Bytes, codes, length, map, All, none, some,
  Option, ok, Result, undefined, When, arith,
}
use libonionrequests.Samples.{sample, sample-Laws}
use libonionrequests.Samples.Tests.{
  relay_at, three_relays, relay_at-IsRelay, control_text, control_lem,
}
use libonionrequests.Libs.Omq.{Omq}
use libonionrequests.Onion.{OnionPath, OnionPayload, snode}
use libonionrequests.Channel.EncType.{aes_gcm, xchacha20}
use libonionrequests.Maker.{make_onion}
use libonionrequests.Maker.Bounds.{Made, make_onion_undefined_iff}
use libonionrequests.Maker.Reflection.{first_block, make_onion_reflected}
use libonionrequests.Maker.Delivery.{request}
use libonionrequests.Maker.Follow.{follow, served}
use libonionrequests.Maker.Route.{Relay}
use libonionrequests.Transport.{obtain_connection_to, check_cached, connect_to, put_result, store}
use libonionrequests.Transport.Base.{exchange}
use libonionrequests.Transport.Answer.{omq_transport, Reaches, exchange-answered}

abbrev path_along : List Relay → OnionPath
path_along relays = record {
  hops = map (λ relay. relay.node) relays;
  remote = snode (relay_at 4).node;
}

make_onion_undefined_iff_example :
    ((make_onion sample aes_gcm (codes "ping") (path_along three_relays) 6 ≡ undefined)
      ↔ ((path_along three_relays).hops ≡ []))
    × When
        (Made sample sample-Laws aes_gcm
          (path_along three_relays)
          (4 + length control_text + 1200 * length (path_along three_relays).hops)
          (6 + 2 * length (path_along three_relays).hops))
        (make_onion sample aes_gcm (codes "ping") (path_along three_relays) 6)
make_onion_undefined_iff_example =
    make_onion_undefined_iff sample sample-Laws aes_gcm (path_along three_relays) (codes "ping")
      control_text 6
      (
        (relay_at-IsRelay 1 (omega arith)).identity_key,
        (
          (relay_at-IsRelay 2 (omega arith)).identity_key,
          ((relay_at-IsRelay 3 (omega arith)).identity_key, tt),
        ),
      )
      control_lem (omega arith)

make_onion_reflected_example :
    (onion : OnionPayload) × (r' : ℕ) × (make_onion sample xchacha20
        (codes "ping")
        (path_along (relay_at 1 ∷ []))
        6
      ≡ ok (onion, r'))
    × (onion.maybe_decrypt_response (first_block sample onion.ciphertext)
        ≡ ok (some (request sample (codes "ping") control_text)))
make_onion_reflected_example =
    make_onion_reflected sample sample-Laws xchacha20 (snode (relay_at 4).node) (relay_at 1)
      (codes "ping") control_text 6 (relay_at-IsRelay 1 (omega arith)) control_lem (omega arith)

-- A network in which every address can be connected to, and leads to the three relays.
abbrev served_network : Omq
served_network = record {
  Address = Bytes;
  Connection = ℕ;
  parse_address = λ text. some text;
  connect = λ r address. some r;
  request = λ r conn method blob. (
    true,
    codes "200" ∷ (served sample (codes "pong") 9 (follow sample three_relays blob)).1 ∷ [],
  );
}

nothing_cached-Reaches :
    (blob c : Bytes)
    → served sample (codes "pong") 9 (follow sample three_relays blob) ≡ (200, c)
    → Reaches sample served_network [] (relay_at 1).node blob c
unfolding obtain_connection_to check_cached connect_to put_result store
    libonionrequests.Common.emplace
nothing_cached-Reaches blob c e r = (
  r,
  ((relay_at 1).node.identity, r) ∷ [],
  codes "200",
  refl,
  ap (λ (p : ℕ × Bytes). (true, codes "200" ∷ p.1 ∷ [])) e,
)

-- The handler of the caller passes on what it gets.
abbrev pass_on : Option Bytes → Result (Option Bytes)
pass_on answer = ok answer

exchange-answered_example :
    exchange sample
      (omq_transport sample served_network)
      aes_gcm
      []
      (path_along three_relays)
      (codes "ping")
      pass_on
      6
    ≡ pass_on (some (codes "pong"))
exchange-answered_example =
    exchange-answered sample served_network sample-Laws aes_gcm (snode (relay_at 4).node)
      (relay_at 1) (relay_at 2 ∷ relay_at 3 ∷ []) (codes "ping") control_text (codes "pong") 9 6 []
      pass_on
      (
        relay_at-IsRelay 1 (omega arith),
        (relay_at-IsRelay 2 (omega arith), (relay_at-IsRelay 3 (omega arith), tt)),
      )
      control_lem (omega arith) (omega arith) nothing_cached-Reaches
