-- ===== src/Transport/Answer.antt =====
-- A request over oxenmq along a path of relays, from `MakeOnion` to the handler of the reply.
use libonionrequests.Common.{
  ℕ, suc, ◌+◌, ◌*◌, ◌<◌, ◌^◌, ◌≡◌, refl, true, List, [], ◌∷◌, Bytes, codes, length, map, All,
  Option, some, Result, ok,
}
use libonionrequests.Libs.{Libs}
use libonionrequests.Libs.Omq.{Omq}
use libonionrequests.Node.{SnodeInfo}
use libonionrequests.Onion.{RemoteResource, control_data, edge, first_of_hops}
use libonionrequests.Channel.EncType.{EncryptType}
use libonionrequests.Junk.Envelope.{Laws}
use libonionrequests.Maker.Route.{Relay, IsRelay}
use libonionrequests.Maker.Follow.{follow, served}
use libonionrequests.Transport.{Cache, obtain_connection_to, reply, send_payload}
use libonionrequests.Transport.Base.{TransportBase, TransportLaws, exchange, exchange_lem}

module _ (l : Libs) (q : Omq) where
  -- `Transport_OMQ` as a transport: its state are the cached connections.
  abbrev pub omq_transport : TransportBase
  omq_transport = record { State = Cache q; send_payload = send_payload l q }

  -- However many draws have been made, `ObtainConnectionTo` gives a connection to the node, cached or
  -- new, over which the message is answered as successful with two parts, a status and the answer.
  abbrev pub Reaches : Cache q → SnodeInfo → Bytes → Bytes → Type 0
  Reaches cache first blob answer =
      (r : ℕ)
      → (conn : q.Connection) × (cache' : Cache q) × (status : Bytes) × (obtain_connection_to l q
            cache first r
          ≡ ok (some conn, cache'))
        × (q.request (suc r) conn (codes "sn.onion_request") blob ≡ (true, status ∷ answer ∷ []))

  omq_laws : TransportLaws omq_transport
  unfolding send_payload edge first_of_hops reply
  omq_laws = record {
    Reaches = Reaches;
    send_payload_answered = λ cache payload first rest answer r along reach.
        let (conn, cache', status, obtained, answered) = reach r in
        (cache', rw (along, obtained, answered) refl);
  }

  -- If a connection to the first relay is obtained, cached or new, over which what the relays can serve,
  -- each opening the message and passing its payload on, is answered with what the last one replies,
  -- then the handler is called with the reply that the last relay wrote. The keys of the relays match,
  -- the control data can be printed, and the sizes stay below 2 ^ 31.
  pub exchange-answered :
      {A : Type 0} (laws : Laws l) (t : EncryptType) (remote : RemoteResource) (first : Relay)
      (rest : List Relay) (payload control answer : Bytes) (k r : ℕ) (cache : Cache q)
      (handler : Option Bytes → Result A)
      → All (IsRelay l) (first ∷ rest)
      → l.json.dump (control_data l remote) ≡ some control
      → length payload + length control + 1200 * length (first ∷ rest) + 2600 < 2 ^ 31
      → length answer + 16 < 2 ^ 31
      → ((blob c : Bytes)
          → served l answer k (follow l (first ∷ rest) blob) ≡ (200, c)
          → Reaches cache first.node blob c)
      → exchange l omq_transport t cache
          (record { hops = map (λ relay. relay.node) (first ∷ rest); remote = remote })
          payload
          handler
          r
        ≡ handler (some answer)
  unfolding omq_laws
  exchange-answered laws = exchange_lem l omq_transport laws omq_laws
