-- ===== src/Samples/Network.antt =====
-- The theorems on nodes, the fetcher and the transport at concrete inputs.
use libonionrequests.Common.{
  ℕ, ◌+◌, ◌≡◌, ◌≢◌, ◌↔◌, refl, Bool, true, List, [], ◌∷◌, Bytes, codes, length, lookup, replicate,
  Option, none, some, Result, ok, undefined, inl, inr, arith, When,
}
use libonionrequests.Samples.{sample}
use libonionrequests.Samples.Oxenc.{sample_oxenc, sample_decode}
use libonionrequests.Libs.Omq.{Omq}
use libonionrequests.Node.{SnodeInfo, from_json, load_from_hex, at_string, at_uint16}
use libonionrequests.Node.Uninitialised.{from_json_uninitialised}
use libonionrequests.Transport.{Cache, check_cached, connect_to, store, put_result}
use libonionrequests.Transport.Interleaving.{
  asking, connecting, finished, Section, Step, Reached, connections_agree,
}
use libonionrequests.Fetcher.{Nodes, parse_node_list, on_reply}
use libonionrequests.Fetcher.Nodes.{IsKeyed, Reads, last_of, parse_node_list_last}
use libonionrequests.Fetcher.Replies.{Handed, on_reply-Handed}
use libonionrequests.Fetcher.Requested.{Agree, parse_node_list_requested}

abbrev pub node_at : ℕ → SnodeInfo
node_at x = record {
  identity = replicate 32 x;
  onion = replicate 32 (x + 100);
  public_ip = codes "10.0.0.1";
  zmq_port = 20;
  https_port = 21;
}

abbrev entry_of : SnodeInfo → Bytes
entry_of node = sample.json.object (
    (codes "pubkey_ed25519", sample_oxenc.to_hex node.identity)
    ∷ (codes "pubkey_x25519", sample_oxenc.to_hex node.onion)
    ∷ (codes "public_ip", node.public_ip)
    ∷ (codes "storage_lmq_port", node.zmq_port ∷ [])
    ∷ (codes "storage_port", node.https_port ∷ [])
    ∷ [])

abbrev zeros : Bytes
zeros = replicate 32 0

-- The digits of two bytes where those of a key should stand.
abbrev short_entry : Bytes
short_entry = sample.json.object (
    (codes "pubkey_ed25519", codes "0f10")
    ∷ (codes "pubkey_x25519", sample_oxenc.to_hex (node_at 7).onion)
    ∷ (codes "public_ip", codes "10.0.0.1")
    ∷ (codes "storage_lmq_port", 20 ∷ [])
    ∷ (codes "storage_port", 21 ∷ [])
    ∷ [])

abbrev short_node : SnodeInfo
short_node = record {
  identity = 15 ∷ 16 ∷ replicate 30 0;
  onion = (node_at 7).onion;
  public_ip = codes "10.0.0.1";
  zmq_port = 20;
  https_port = 21;
}

short_node_read : from_json sample zeros zeros short_entry ≡ ok short_node
unfolding from_json at_string load_from_hex libonionrequests.Keys.write_out at_uint16
short_node_read = refl

short_identity : at_string sample.json short_entry (codes "pubkey_ed25519") ≡ ok (codes "0f10")
unfolding at_string
short_identity = refl

from_json_uninitialised_example :
    (other : SnodeInfo) × (from_json sample (replicate 32 1) zeros short_entry ≡ ok other)
    × (short_node.identity ≢ other.identity)
from_json_uninitialised_example =
    from_json_uninitialised sample sample_decode short_entry (codes "0f10") zeros short_node
      short_identity refl (omega arith) (omega arith) short_node_read

-- The network counts the connections made, and answers every request with one list of nodes.
abbrev states : Bytes
states =
    sample.json.object ((codes "0", entry_of (node_at 7)) ∷ (codes "1", entry_of (node_at 8)) ∷ [])

abbrev list_text : Bytes
list_text = sample.json.object ((codes "service_node_states", states) ∷ [])

abbrev pub network : Omq
network = record {
  Address = Bytes;
  Connection = ℕ;
  parse_address = λ text. some text;
  connect = λ r address. some r;
  request = λ r conn method body. (true, codes "200" ∷ list_text ∷ []);
}

abbrev pub memory : ℕ → Bytes × Bytes
memory n = (zeros, zeros)

states-Reads : Reads sample memory (sample.json.elements states) (node_at 7 ∷ node_at 8 ∷ [])
unfolding from_json at_string load_from_hex libonionrequests.Keys.write_out at_uint16
states-Reads = (refl, (refl, tt))

parse_node_list_last_example :
    (nodes : Nodes) × (parse_node_list sample memory list_text ≡ ok nodes)
    × IsKeyed nodes
    × ((k : Bytes) → lookup k nodes ≡ last_of k (node_at 7 ∷ node_at 8 ∷ []) none)
parse_node_list_last_example =
    parse_node_list_last sample memory list_text list_text states (node_at 7 ∷ node_at 8 ∷ []) refl
      refl states-Reads

-- The same nodes, with a field for the first that is not asked for.
abbrev entry_with_more : SnodeInfo → Bytes
entry_with_more node = sample.json.object (
    (codes "swarm", codes "3")
    ∷ (codes "pubkey_ed25519", sample_oxenc.to_hex node.identity)
    ∷ (codes "pubkey_x25519", sample_oxenc.to_hex node.onion)
    ∷ (codes "public_ip", node.public_ip)
    ∷ (codes "storage_lmq_port", node.zmq_port ∷ [])
    ∷ (codes "storage_port", node.https_port ∷ [])
    ∷ [])

abbrev more_states : Bytes
more_states =
    sample.json.object
      ((codes "0", entry_with_more (node_at 7)) ∷ (codes "1", entry_of (node_at 8)) ∷ [])

abbrev more_text : Bytes
more_text = sample.json.object ((codes "service_node_states", more_states) ∷ [])

more-Agree : Agree sample (sample.json.elements states) (sample.json.elements more_states)
more-Agree =
    ((refl, (refl, (refl, (refl, (refl, tt))))), ((refl, (refl, (refl, (refl, (refl, tt))))), tt))

parse_node_list_requested_example :
    parse_node_list sample memory list_text ≡ parse_node_list sample memory more_text
parse_node_list_requested_example =
    parse_node_list_requested sample memory list_text more_text list_text more_text states
      more_states refl refl refl refl more-Agree

on_reply-Handed_example :
    Handed sample memory true
      (codes "200" ∷ list_text ∷ [])
      (on_reply sample memory (true, codes "200" ∷ list_text ∷ []))
on_reply-Handed_example = on_reply-Handed sample memory true (codes "200" ∷ list_text ∷ [])

-- Two threads ask for one node; both miss, both connect, and the second finds the first's connection.
both_asking : Reached sample network [] (asking (node_at 7) ∷ asking (node_at 7) ∷ [])
both_asking =
    Reached.next (Reached.next Reached.start (Step.call (node_at 7) []))
      (Step.call (node_at 7) (asking (node_at 7) ∷ []))

both_connecting : Reached sample network [] (connecting (node_at 7) ∷ connecting (node_at 7) ∷ [])
unfolding check_cached
both_connecting =
    Reached.next (Reached.next both_asking (Step.here (Section.miss refl)))
      (Step.there (Step.here (Section.miss refl)))

abbrev pub one_cached : Cache network
one_cached = ((node_at 7).identity, 3) ∷ []

pub both_finished :
    Reached sample network one_cached
      (finished (node_at 7) (some 3) ∷ finished (node_at 7) (some 3) ∷ [])
unfolding connect_to put_result store libonionrequests.Common.emplace
both_finished =
    Reached.next (Reached.next both_connecting (Step.here (Section.outcome 3 (some 3) refl)))
      (Step.there (Step.here (Section.outcome 4 (some 4) refl)))

abbrev agreed : ℕ
agreed = 3

connections_agree_example :
    (agreed ≡ agreed) × (lookup (node_at 7).identity one_cached ≡ some agreed)
connections_agree_example =
    connections_agree sample network both_finished (node_at 7) (node_at 7) 3 3 (inl refl)
      (inr (inl refl)) refl
