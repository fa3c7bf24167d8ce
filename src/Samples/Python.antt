-- ===== src/Samples/Python.antt =====
-- The theorems on the Python module and on the hashes at concrete inputs.
use libonionrequests.Common.{
  ℕ, ◌<◌, ◌^◌, ◌⊎◌, true, take, ok, ◌≡◌, ◌≢◌, ◌↔◌, refl, [], ◌∷◌, List, Bytes, codes, length,
  replicate, err, undefined, invalid_argument, ◌==◌, if◌then◌else◌, arith,
}
use libonionrequests.Samples.Sodium.{sample_sodium}
use libonionrequests.Samples.Xed.{group, field, clamped_key}
use libonionrequests.Node.{direct_addr, https_direct, snode_addr, https_snode, same_identity}
use libonionrequests.Node.Address.{IsPublished, addresses_iff}
use libonionrequests.Samples.Oxenc.{sample_oxenc, sample_hex, sample_base32}
use libonionrequests.Xed25519
use libonionrequests.Bindings.{
  contains, xed25519_sign, xed25519_pubkey, xed25519_verify, new_direct_consensus,
  make_node_fetcher, all_xchacha20, all_aesgcm,
}
use libonionrequests.Bindings.Guards.{xed25519_guarded}
use libonionrequests.Samples.{sample, sample-Laws}
use libonionrequests.Samples.Tests.{relay_at, relay_at-IsRelay, control_text, control_lem}
use libonionrequests.Onion.{snode}
use libonionrequests.Bindings.RoundTrip.{IsRead, makers-IsRead}
use libonionrequests.Bindings.SeedSet.{count}
use libonionrequests.Bindings.Seeds.{consensus_seeded, connected_to}
use libonionrequests.Samples.Network.{node_at, network}
use libonionrequests.Samples.Selection.{lowest, lowest-InRange, Permᴰ-self}
use libonionrequests.Node.Hash.{hash_info, hash_info_iff}
use libonionrequests.Paths.Select.{Holds}
use libonionrequests.Fetcher.{obtain_connection}

abbrev short_key : Bytes
short_key = replicate 31 5

xed25519_guarded_example :
    (xed25519_sign sample_sodium group field short_key (codes "hello") 4 ≡ (
      if length short_key == 32
      then Xed25519.sign sample_sodium group field short_key (codes "hello") 4
      else err invalid_argument))
    × (xed25519_sign sample_sodium group field short_key (codes "hello") 4 ≢ undefined)
    × (xed25519_pubkey sample_sodium group field short_key ≢ undefined)
    × (xed25519_verify sample_sodium group field clamped_key short_key (codes "hello") ≢ undefined)
xed25519_guarded_example =
    xed25519_guarded sample_sodium group field clamped_key short_key (codes "hello") 4

-- One seed, listed twice.
abbrev two_seeds : List Bytes
two_seeds = codes "curve://10.0.0.9:22025/" ∷ codes "curve://10.0.0.9:22025/" ∷ []

consensus_seeded_example :
    ((two_seeds ≡ []) × (new_direct_consensus two_seeds ≡ err invalid_argument))
    ⊎ ((consensus : List Bytes) × (new_direct_consensus two_seeds ≡ ok consensus)
        × ((x : Bytes) → count x consensus ≡ (if contains x two_seeds then 1 else 0))
        × ((found : Bytes) × (r' : ℕ) × Holds found two_seeds
            × (obtain_connection sample network lowest
                  (λ seeds. seeds)
                  (make_node_fetcher network consensus)
                  3
                ≡ connected_to network (make_node_fetcher network consensus) found r')))
consensus_seeded_example =
    consensus_seeded sample network lowest lowest-InRange (λ seeds. seeds) Permᴰ-self two_seeds 3

hash_info_iff_example :
    (n : ℕ) × (m : ℕ) × (hash_info (node_at 7) ≡ ok n)
    × (hash_info (node_at 8) ≡ ok m)
    × (n < 2 ^ 64)
    × ((n ≡ m) ↔ (take 8 (node_at 7).identity ≡ take 8 (node_at 8).identity))
    × (same_identity (node_at 7) (node_at 8) ≡ true → n ≡ m)
hash_info_iff_example =
    hash_info_iff (node_at 7) (node_at 8) (refl, omega arith) (refl, omega arith)

published : (x : ℕ) → x < 100 → IsPublished (node_at x)
published x h = record {
  zmq_small = omega arith;
  https_small = omega arith;
  identity_key = (refl, omega arith);
  onion_key = (refl, omega arith);
}

addresses_iff_example :
    ((direct_addr sample_oxenc (node_at 7) ≡ direct_addr sample_oxenc (node_at 8)) ↔ (
      ((node_at 7).public_ip ≡ (node_at 8).public_ip)
      × ((node_at 7).zmq_port ≡ (node_at 8).zmq_port)
      × ((node_at 7).onion ≡ (node_at 8).onion)))
    × ((https_direct (node_at 7) ≡ https_direct (node_at 8)) ↔ (
        ((node_at 7).public_ip ≡ (node_at 8).public_ip)
        × ((node_at 7).https_port ≡ (node_at 8).https_port)))
    × ((snode_addr sample_oxenc (node_at 7) ≡ snode_addr sample_oxenc (node_at 8)) ↔ (
        ((node_at 7).identity ≡ (node_at 8).identity)
        × ((node_at 7).zmq_port ≡ (node_at 8).zmq_port)
        × ((node_at 7).onion ≡ (node_at 8).onion)))
    × ((https_snode sample_oxenc (node_at 7) ≡ https_snode sample_oxenc (node_at 8)) ↔ (
        ((node_at 7).identity ≡ (node_at 8).identity)
        × ((node_at 7).https_port ≡ (node_at 8).https_port)))
addresses_iff_example =
    addresses_iff sample_oxenc sample_hex (node_at 7) (node_at 8) (published 7 (omega arith))
      (published 8 (omega arith)) sample_base32

makers-IsRead_example :
    IsRead sample
      (snode (relay_at 4).node)
      (codes "ping")
      control_text
      (relay_at 1)
      (codes "pong")
      9
      (all_xchacha20 sample)
      6
    × IsRead sample
        (snode (relay_at 4).node)
        (codes "ping")
        control_text
        (relay_at 1)
        (codes "pong")
        9
        (all_aesgcm sample)
        6
makers-IsRead_example =
    makers-IsRead sample (snode (relay_at 4).node) (codes "ping") control_text (relay_at 1)
      sample-Laws (relay_at-IsRelay 1 (omega arith)) control_lem (omega arith) (codes "pong") 9 6
      (omega arith)
