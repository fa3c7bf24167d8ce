-- ===== src/Transport/Base.antt =====
-- `Transport_Base` of onionreq/transport.hpp: what a transport of onions is, and what is asked of one.
use libonionrequests.Common.{
  ℕ, ◌+◌, ◌*◌, ◌<◌, ◌^◌, ◌≡◌, ◌≢◌, refl, ap, List, [], ◌∷◌, Bytes, length, map, All, Option, some,
  none, Result, ok, ◌>>=◌,
}
use libonionrequests.Libs.{Libs}
use libonionrequests.Node.{SnodeInfo}
use libonionrequests.Onion.{RemoteResource, OnionPath, OnionPayload, control_data, make_decrypter}
use libonionrequests.Channel.EncType.{EncryptType}
use libonionrequests.Junk.Envelope.{Laws}
use libonionrequests.Maker.{make_onion}
use libonionrequests.Maker.Route.{Relay, IsRelay}
use libonionrequests.Maker.Follow.{follow, served, Travels-follow}
use libonionrequests.Maker.Delivery.{make_onion-Travels, Answers}

-- `SendPayload` gives what the response handler is called with, and the transport afterwards.
pub record TransportBase : Type 1 where
  pub State : Type 0
  pub send_payload : State → OnionPayload → ℕ → Result (Option Bytes × State)

-- What is asked of a transport: `Reaches` says that over it a node answers a message, and what; if the
-- first hop answers the ciphertext, the response handler is called with that answer.
pub record TransportLaws (t : TransportBase) : Type 1 where
  pub Reaches : t.State → SnodeInfo → Bytes → Bytes → Type 0
  pub send_payload_answered :
      (s : t.State) (payload : OnionPayload) (first : SnodeInfo) (rest : List SnodeInfo)
      (answer : Bytes) (r : ℕ)
      → payload.path.hops ≡ first ∷ rest
      → Reaches s first payload.ciphertext answer
      → (s' : t.State) × (t.send_payload s payload r ≡ ok (some answer, s'))

module _ (l : Libs) (tr : TransportBase) where
  -- How the parts are put together: `SendPayload` is given a handler over the one that `MakeDecrypter`
  -- makes, and the caller's handler gets nothing where there is no response.
  abbrev pub exchange :
      {A : Type 0}
      → EncryptType
      → tr.State
      → OnionPath
      → Bytes
      → (Option Bytes → Result A)
      → ℕ
      → Result A
  exchange t s path payload handler r = do
    (onion, r') ← make_onion l t payload path r
    (response, s') ← tr.send_payload s onion r'
    elim response [ some body ↦ make_decrypter onion handler body | none ↦ handler none ]

  -- Over a transport that keeps the laws: if the first relay answers what the relays can serve with what
  -- they make of it, then the handler is called with the reply that the last relay wrote.
  pub exchange_lem :
      {A : Type 0} (laws : Laws l) (transport_laws : TransportLaws tr) (t : EncryptType)
      (remote : RemoteResource) (first : Relay) (rest : List Relay) (payload control answer : Bytes)
      (k r : ℕ) (s : tr.State) (handler : Option Bytes → Result A)
      → All (IsRelay l) (first ∷ rest)
      → l.json.dump (control_data l remote) ≡ some control
      → length payload + length control + 1200 * length (first ∷ rest) + 2600 < 2 ^ 31
      → length answer + 16 < 2 ^ 31
      → ((blob c : Bytes)
          → served l answer k (follow l (first ∷ rest) blob) ≡ (200, c)
          → transport_laws.Reaches s first.node blob c)
      → exchange t s
          (record { hops = map (λ relay. relay.node) (first ∷ rest); remote = remote })
          payload
          handler
          r
        ≡ handler (some answer)
  unfolding make_decrypter
  exchange_lem laws transport_laws t remote first rest payload control answer k r s handler relays
        printed small answer_small reached =
      let relays_ne : first ∷ rest ≢ [] = (λ e. cc) in
      let (onion, r', made, travels, along) =
        make_onion-Travels l laws t remote payload control (first ∷ rest) r relays_ne relays printed
          small in
      let (junk, followed, answers) =
        Travels-follow l (Answers onion.maybe_decrypt_response) (first ∷ rest) onion.ciphertext _
          travels in
      let (c, sent, read) = answers answer k answer_small in
      let (s', answered) =
        transport_laws.send_payload_answered s onion first.node (map (λ relay. relay.node) rest) c
          r' (ap (λ (p : OnionPath). p.hops) along)
          (reached onion.ciphertext c (rw (followed, sent) refl)) in
      rw (made, answered, read) refl
