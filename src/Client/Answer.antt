-- ===== src/Client/Answer.antt =====
-- A request along a path of relays that do their part, from the client and back to it.
use libonionrequests.Common.{
  ℕ, ◌+◌, ◌*◌, ◌<◌, ◌^◌, ◌≡◌, refl, ◌∙◌, List, ◌∷◌, Bytes, length, map, All, Option, inl, inr, some,
  none, Result, ok, err, undefined, ◌>>=◌, Result-cases,
}
use libonionrequests.Libs.{Libs}
use libonionrequests.Libs.Curl.{Curl}
use libonionrequests.Node.{SnodeInfo, https_direct}
use libonionrequests.Onion.{
  RemoteResource, OnionPath, OnionPayload, control_data, edge, first_of_hops, make_decrypter,
}
use libonionrequests.Channel.EncType.{xchacha20}
use libonionrequests.Junk.Envelope.{Laws}
use libonionrequests.Maker.{make_onion}
use libonionrequests.Maker.Route.{Relay, IsRelay}
use libonionrequests.Maker.Follow.{follow, served}
use libonionrequests.Transport.Base.{TransportBase, TransportLaws, exchange, exchange_lem}
use libonionrequests.Client.{send_payload, handler, request_json, request_along}

module _ (curl : Curl) where
  -- `Transport_CURL` as a transport, which keeps nothing between calls.
  abbrev pub curl_transport : TransportBase
  curl_transport = record {
    State = Unit {0};
    send_payload = λ s payload r. send_payload curl payload r >>= λ response. ok (response, s);
  }

  -- A post of the message to the address of the node is answered with the status 200 and the answer.
  abbrev Posts : SnodeInfo → Bytes → Bytes → Type 0
  Posts first blob answer = (n : ℕ) → curl.post n (https_direct first) blob ≡ (200, answer)

  curl_laws : TransportLaws curl_transport
  unfolding send_payload edge first_of_hops
  curl_laws = record {
    Reaches = λ s. Posts;
    send_payload_answered =
        λ s payload first rest answer r along posts. (s, rw (along, posts r) refl);
  }

module _ (l : Libs) (curl : Curl) where
  sent_along :
      (onion : OnionPayload) (m : Result (Option Bytes))
      → (m >>= λ response. elim response [
        | some body ↦ make_decrypter onion (handler l) body
        | none ↦ ok 1
      ])
        ≡ ((m >>= λ response. ok (response, tt {0})) >>= λ (response, s). elim response [
          | some body ↦ make_decrypter onion (handler l) body
          | none ↦ handler l none
        ])
  unfolding handler
  sent_along onion (ok none) = refl
  sent_along onion (ok (some body)) = refl
  sent_along onion (err e) = refl
  sent_along onion undefined = refl

  request_along-exchange :
      (path : OnionPath) (payload : Bytes) (r : ℕ)
      → l.json.dump (request_json l) ≡ some payload
      → request_along l curl path r
        ≡ exchange l (curl_transport curl) xchacha20 tt path payload (handler l) r
  unfolding request_along
  request_along-exchange path payload r printed =
      rw printed (elim (Result-cases (make_onion l xchacha20 payload path r)) [
        | inl ((onion, r'), e) ↦ rw e (sent_along onion (send_payload curl onion r'))
        | inr (inl (x, e)) ↦ rw e refl
        | inr (inr e) ↦ rw e refl
      ])

  -- The client's request along a path of relays whose keys match: if the request and the control data can
  -- be printed, the sizes stay below 2 ^ 31, and a post to the first relay brings back what the last
  -- relay replies after each has opened the message and passed its payload on, then the program's
  -- handler is called with the reply that the last relay wrote.
  pub request_along-answered :
      (laws : Laws l) (remote : RemoteResource) (first : Relay) (rest : List Relay)
      (payload control reply : Bytes) (q r : ℕ)
      → All (IsRelay l) (first ∷ rest)
      → l.json.dump (request_json l) ≡ some payload
      → l.json.dump (control_data l remote) ≡ some control
      → length payload + length control + 1200 * length (first ∷ rest) + 2600 < 2 ^ 31
      → length reply + 16 < 2 ^ 31
      → ((n : ℕ) (blob : Bytes)
          → curl.post n (https_direct first.node) blob
            ≡ served l reply q (follow l (first ∷ rest) blob))
      → request_along l curl
          (record { hops = map (λ relay. relay.node) (first ∷ rest); remote = remote })
          r
        ≡ handler l (some reply)
  unfolding curl_laws
  request_along-answered laws remote first rest payload control reply q r relays printed
        control_printed small reply_small honest =
      request_along-exchange
        (record { hops = map (λ relay. relay.node) (first ∷ rest); remote = remote }) payload r
        printed
      ∙ exchange_lem l (curl_transport curl) laws (curl_laws curl) xchacha20 remote first rest
          payload control reply q r tt (handler l) relays control_printed small reply_small
          (λ blob c e n. honest n blob ∙ e)
