-- ===== src/Samples/Tests.antt =====
-- The theorems at concrete inputs, and runs of the definitions.
use libonionrequests.Common.{
  ℕ, ◌+◌, ◌%◌, ◌≤◌, ◌<◌, ◌≡◌, ◌≢◌, ◌↔◌, refl, true, false, List, [], ◌∷◌, ◌++◌, Bytes, codes,
  length, replicate, map, some, ok, undefined, arith, When,
}
use libonionrequests.Samples.{sample, sample_crypto, sample-Laws}
use libonionrequests.Samples.Oxenc.{sample_hex, sample_base32, sample_oxenc, sample_decode}
use libonionrequests.Samples.Sodium.{sample_sodium, sample_sizes, sample_aead}
use libonionrequests.Samples.Evp.{sample_evp_sizes}
use libonionrequests.Keys.{to_hex, parse_pubkey}
use libonionrequests.Keys.Parse.{parse_pubkey_total, parse_pubkey_round_trip, IsKey}
use libonionrequests.Channel.{ChannelEncryption, encrypt, decrypt}
use libonionrequests.Channel.EncType.{aes_cbc, aes_gcm}
use libonionrequests.Channel.Authentic.{IsAuthentic, decrypt-IsAuthentic}
use libonionrequests.Channel.RoundTrip.{Peers, decrypt-encrypt}
use libonionrequests.Channel.Safety.{encrypt-Defined, decrypt_undefined_iff}
use libonionrequests.Node
use libonionrequests.Onion.{OnionPayload, snode, control_data}
use libonionrequests.Maker.{make_onion}
use libonionrequests.Maker.Route.{Relay, IsRelay, Travels}
use libonionrequests.Maker.Delivery.{make_onion-Travels, Answers, request}
use libonionrequests.Maker.Response.{Answered, decrypt_response-Answered}

abbrev sevens : Bytes
sevens = replicate 32 7

abbrev nines : Bytes
nines = replicate 32 9

parse_pubkey_total_example : IsKey (parse_pubkey sample_oxenc sevens)
parse_pubkey_total_example = parse_pubkey_total sample_oxenc sample_decode sevens

abbrev alice : ChannelEncryption
alice = record { private_key = sevens; public_key = sevens; server = false }

abbrev bob : ChannelEncryption
bob = record { private_key = nines; public_key = nines; server = true }

alice-bob-Peers : Peers sample_sodium alice bob
alice-bob-Peers = record {
  x_secret = refl;
  y_secret = refl;
  x_public = refl;
  y_public = refl;
  roles = refl;
}

decrypt-encrypt_example :
    (c : Bytes) × (encrypt sample alice aes_cbc (codes "hello") nines 4 ≡ ok (c, 5))
    × (decrypt sample bob aes_cbc c sevens ≡ ok (codes "hello"))
    × (length c ≤ 5 + 40)
decrypt-encrypt_example =
    decrypt-encrypt sample sample_crypto alice bob alice-bob-Peers aes_cbc (codes "hello") 4
      (omega arith)

encrypt-Defined_example : encrypt sample alice aes_gcm (codes "hello") nines 4 ≢ undefined
encrypt-Defined_example =
    encrypt-Defined sample sample_evp_sizes sample_aead alice sample_sizes aes_gcm (codes "hello")
      nines 4 (omega arith)

decrypt_undefined_iff_example :
    (decrypt sample bob aes_cbc (codes "short") sevens ≡ undefined)
    ↔ ((aes_cbc ≡ aes_cbc) × (5 < 16))
decrypt_undefined_iff_example =
    decrypt_undefined_iff sample sample_evp_sizes sample_aead bob aes_cbc (codes "short") sevens
      (replicate 32 16) refl (omega arith)

-- What alice seals: an iv, the text, and a tag.
abbrev sealed_text : Bytes
sealed_text = replicate 12 4 ++ (codes "hello" ++ replicate 16 0)

decrypt-IsAuthentic_example :
    When
      (IsAuthentic sample bob aes_gcm sealed_text sevens)
      (decrypt sample bob aes_gcm sealed_text sevens)
decrypt-IsAuthentic_example =
    decrypt-IsAuthentic sample sample_evp_sizes bob aes_gcm sealed_text sevens (λ e. cc)
      (omega arith)

abbrev pub relay_at : ℕ → Relay
relay_at x = record {
  node = record {
    identity = replicate 32 (x + 100);
    onion = replicate 32 (x % 256);
    public_ip = codes "10.0.0.1";
    zmq_port = 22020;
    https_port = 22021;
  };
  secret = replicate 32 x;
}

abbrev pub three_relays : List Relay
three_relays = relay_at 1 ∷ relay_at 2 ∷ relay_at 3 ∷ []

-- The sample's text of `{"headers": null}`.
abbrev pub control_text : Bytes
control_text = 7 ∷ codes "headers" ++ 0 ∷ []

pub control_lem :
    sample.json.dump (control_data sample (snode (relay_at 4).node)) ≡ some control_text
unfolding control_data Node.control_data
control_lem = refl

pub relay_at-IsRelay : (x : ℕ) → x < 100 → IsRelay sample (relay_at x)
relay_at-IsRelay x h = record {
  secret_size = refl;
  onion_key = refl;
  identity_key = (refl, omega arith);
}

make_onion-Travels_example :
    (onion : OnionPayload) × (r' : ℕ) × (make_onion sample aes_gcm
        (codes "ping")
        (record { hops = map (λ q. q.node) three_relays; remote = snode (relay_at 4).node })
        6
      ≡ ok (onion, r'))
    × Travels sample
        (Answers onion.maybe_decrypt_response)
        three_relays
        onion.ciphertext
        (request sample (codes "ping") control_text)
    × (onion.path
        ≡ record { hops = map (λ q. q.node) three_relays; remote = snode (relay_at 4).node })
make_onion-Travels_example =
    make_onion-Travels sample sample-Laws aes_gcm (snode (relay_at 4).node) (codes "ping")
      control_text three_relays 6 (λ e. cc)
      (
        relay_at-IsRelay 1 (omega arith),
        (relay_at-IsRelay 2 (omega arith), (relay_at-IsRelay 3 (omega arith), tt)),
      )
      control_lem (omega arith)

decrypt_response-Answered_example : Answered sample aes_gcm alice nines (codes "not a reply")
decrypt_response-Answered_example =
    decrypt_response-Answered sample aes_gcm alice nines sample_evp_sizes sample_aead sample_decode
      (codes "not a reply") (λ e. cc) (omega arith)

parse_pubkey_round_trip_example :
    (parse_pubkey sample_oxenc sevens ≡ ok sevens)
    × (parse_pubkey sample_oxenc (to_hex sample_oxenc sevens) ≡ ok sevens)
    × (parse_pubkey sample_oxenc (sample_oxenc.to_base32z sevens) ≡ ok sevens)
parse_pubkey_round_trip_example =
    parse_pubkey_round_trip sample_oxenc sample_hex sample_base32 sevens (omega arith)
