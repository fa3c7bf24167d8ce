-- ===== src/Samples/Session.antt =====
-- The theorems on the client program at concrete inputs.
use libonionrequests.Common.{
  ℕ, ◌<◌, ◌≤◌, ◌≡◌, ◌↔◌, refl, List, [], ◌∷◌, ◌++◌, All, undefined, Bytes, codes, length, map, some,
  When, arith, replicate, ok,
}
use libonionrequests.Samples.{sample, sample-Laws}
use libonionrequests.Samples.Oxenc.{sample_decode}
use libonionrequests.Samples.Sodium.{sample_aead}
use libonionrequests.Samples.Evp.{sample_evp_sizes}
use libonionrequests.Samples.Tests.{
  relay_at, three_relays, relay_at-IsRelay, control_text, control_lem,
}
use libonionrequests.Samples.Selection.{
  node_at, lowest, lowest-InRange, in_order, in_order-VisitLaws,
}
use libonionrequests.Maker.Route.{Relay, IsRelay, keys_of}
use libonionrequests.Paths.{Selector}
use libonionrequests.Junk.{Junk, parse_junk}
use libonionrequests.Junk.Message.{IsMessage, parse_junk_iff}
use libonionrequests.Junk.Envelope.{server}
use libonionrequests.Channel.{encrypt}
use libonionrequests.Channel.EncType.{xchacha20}
use libonionrequests.Junk.Safety.{IsOverrun, parse_junk_undefined_iff}
use libonionrequests.Client.Selected.{IsRun, send_onion-All}
use libonionrequests.Libs.Curl.{Curl}
use libonionrequests.Onion.{OnionPath, snode}
use libonionrequests.Client.{request_json, handler, request_along, send_onion}
use libonionrequests.Maker.Follow.{follow, served}
use libonionrequests.Client.Answer.{request_along-answered}
use libonionrequests.Client.Codes.{Ended, request_along-Ended}

-- The text of `{"body": "{}"}`, in the sample's JSON.
abbrev reply : Bytes
reply = sample.json.object ((codes "body", sample.json.object []) ∷ [])

-- Three relays that do their part, behind every address.
abbrev pub relays_answer : Curl
relays_answer = record {
  post = λ n url blob. served sample reply 9 (follow sample three_relays blob);
}

abbrev three_hops : OnionPath
three_hops = record {
  hops = map (λ relay. relay.node) three_relays;
  remote = snode (relay_at 4).node;
}

pub request_small : length (request_json sample) < 1000
unfolding request_json
request_small = omega arith

request_along-answered_example :
    request_along sample relays_answer three_hops 6 ≡ handler sample (some reply)
request_along-answered_example =
    request_along-answered sample relays_answer sample-Laws (snode (relay_at 4).node) (relay_at 1)
      (relay_at 2 ∷ relay_at 3 ∷ []) (request_json sample) control_text reply 9 6
      (
        relay_at-IsRelay 1 (omega arith),
        (relay_at-IsRelay 2 (omega arith), (relay_at-IsRelay 3 (omega arith), tt)),
      )
      refl control_lem (omega (arith, request_small)) (omega arith) (λ n blob. refl)

request_along-Ended_example :
    When (Ended sample relays_answer three_hops 6) (request_along sample relays_answer three_hops 6)
request_along-Ended_example = request_along-Ended sample relays_answer three_hops 6

-- The relays 1 and 2 are listed, and 1 is a known edge.
abbrev two_listed : Selector
two_listed = record { snodelist = node_at 1 ∷ node_at 2 ∷ []; edges = (relay_at 1).node ∷ [] }

relay_at-IsRun : (x : ℕ) → x < 100 → IsRun sample (relay_at x).node
relay_at-IsRun x h = ((relay_at x).secret, relay_at-IsRelay x h)

send_onion-All_example :
    (first : Relay) × (rest : List Relay) × (r' : ℕ) × All (IsRelay sample) (first ∷ rest)
    × (length (first ∷ rest) ≤ 4)
    × (send_onion sample relays_answer lowest in_order two_listed (snode (relay_at 4).node) 0
        ≡ request_along sample relays_answer
            (record {
              hops = map (λ relay. relay.node) (first ∷ rest);
              remote = snode (relay_at 4).node;
            })
            r')
send_onion-All_example =
    send_onion-All sample relays_answer lowest lowest-InRange in_order in_order-VisitLaws two_listed
      (snode (relay_at 4).node) 0 (omega arith)
      (relay_at-IsRun 1 (omega arith), (relay_at-IsRun 2 (omega arith), tt))
      (relay_at-IsRun 1 (omega arith), tt)

-- Five bytes of ciphertext, and metadata that asks for aes-cbc.
abbrev short_message : Bytes
short_message =
    sample.oxenc.write_little32 5
    ++ (codes "short"
        ++ sample.json.object (
            (codes "enc_type", codes "aes-cbc")
            ∷ (codes "ephemeral_key", sample.oxenc.to_hex (relay_at 2).node.onion)
            ∷ []))

parse_junk_undefined_iff_example :
    (parse_junk sample (keys_of (relay_at 1)) short_message ≡ undefined)
    ↔ IsOverrun sample (keys_of (relay_at 1)) short_message
parse_junk_undefined_iff_example =
    parse_junk_undefined_iff sample sample_evp_sizes sample_aead sample_decode
      (keys_of (relay_at 1)) short_message (omega arith)

-- "hello", sealed for the relay 1 by the relay 2, whose key the metadata names.
abbrev sealed_message : Bytes
sealed_message =
    sample.oxenc.write_little32 45
    ++ ((replicate 24 0 ++ codes "hello" ++ replicate 16 0)
        ++ sample.json.object (
            (codes "enc_type", codes "xchacha20")
            ∷ (codes "ephemeral_key", sample.oxenc.to_hex (relay_at 2).node.onion)
            ∷ []))

abbrev hello : Junk
hello = record {
  payload = codes "hello";
  transform_reply = λ plaintext.
      encrypt sample (server (keys_of (relay_at 1))) xchacha20 plaintext (relay_at 2).node.onion;
}

parse_junk_iff_example :
    (parse_junk sample (keys_of (relay_at 1)) sealed_message ≡ ok hello)
    ↔ IsMessage sample (keys_of (relay_at 1)) sealed_message hello
parse_junk_iff_example = parse_junk_iff sample (keys_of (relay_at 1)) sealed_message hello

-- The sample message is read.
message_read : parse_junk sample (keys_of (relay_at 1)) sealed_message ≡ ok hello
unfolding parse_junk libonionrequests.Junk.decode_size libonionrequests.Junk.metadata_enc_type
    libonionrequests.Junk.metadata_remote_pk libonionrequests.Keys.parse_pubkey
    libonionrequests.Keys.null_bytes libonionrequests.Keys.write_out
    libonionrequests.Channel.decrypt libonionrequests.Channel.decrypt_xchacha20
    libonionrequests.Channel.EncType.parse_enc_type
    libonionrequests.Channel.Chacha.xchacha20_shared_key libonionrequests.Channel.Chacha.unseal
message_read = refl
