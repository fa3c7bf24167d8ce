-- ===== src/Node.antt =====
-- onionreq/snode_info.hpp and snode_info.cpp: a service node and the addresses made from it.
pub mod Memory
pub mod Hash
pub mod Address
pub mod Uninitialised
use libonionrequests.Common.{
  ℕ, Bool, [], ◌∷◌, ◌++◌, Bytes, codes, to_decimal, bytes_eq, length, leb, Result, ok, guard,
  requires, or_throw, ◌>>=◌, ◌>>◌, range_error, library_error,
}
use libonionrequests.Libs.{Libs}
use libonionrequests.Libs.Oxenc.{Oxenc}
use libonionrequests.Libs.Json.{Json}
use libonionrequests.Keys.{write_out}

pub record SnodeInfo : Type 0 where
  -- An ed25519 key, for the .snode address.
  pub identity : Bytes
  -- An x25519 key, for onion requests.
  pub onion : Bytes
  pub public_ip : Bytes
  pub zmq_port : ℕ
  pub https_port : ℕ

-- `SNodeInfo::operator==`.
abbrev pub same_identity : SnodeInfo → SnodeInfo → Bool
same_identity a b = bytes_eq a.identity b.identity

-- The text is not tested to be hex, which `oxenc::from_hex` requires. `out` is the memory of the
-- key before the call.
unfoldable pub load_from_hex : Oxenc → Bytes → Bytes → Result Bytes
load_from_hex o str out = do
  guard (leb (o.from_hex_size (length str)) (length out)) range_error
  requires (o.is_hex str)
  write_out (o.from_hex str) out

-- `obj.at(key).get<std::string>()` and `obj.at(key).get<uint16_t>()`.
unfoldable pub at_string : (j : Json) → j.Value → Bytes → Result Bytes
at_string j obj key = do
  v ← or_throw (j.at obj key) library_error
  or_throw (j.get_string v) library_error

unfoldable pub at_uint16 : (j : Json) → j.Value → Bytes → Result ℕ
at_uint16 j obj key = do
  v ← or_throw (j.at obj key) library_error
  or_throw (j.get_uint16 v) library_error

module _ (l : Libs) where
  -- The constructor from JSON. `raw_identity` and `raw_onion` are the memory of the two keys, which
  -- it does not initialise.
  unfoldable pub from_json : Bytes → Bytes → l.json.Value → Result SnodeInfo
  from_json raw_identity raw_onion obj = do
    identity_hex ← at_string l.json obj (codes "pubkey_ed25519")
    identity ← load_from_hex l.oxenc identity_hex raw_identity
    onion_hex ← at_string l.json obj (codes "pubkey_x25519")
    onion ← load_from_hex l.oxenc onion_hex raw_onion
    public_ip ← at_string l.json obj (codes "public_ip")
    zmq_port ← at_uint16 l.json obj (codes "storage_lmq_port")
    https_port ← at_uint16 l.json obj (codes "storage_port")
    ok (record {
      identity = identity;
      onion = onion;
      public_ip = public_ip;
      zmq_port = zmq_port;
      https_port = https_port;
    })

  unfoldable pub control_data : SnodeInfo → l.json.Value
  control_data node = l.json.object ((codes "headers", l.json.null) ∷ [])

module _ (o : Oxenc) where
  unfoldable pub snode_addr : SnodeInfo → Bytes
  snode_addr node =
      codes "curve://"
      ++ (o.to_base32z node.identity
          ++ (codes ".snode:" ++ (to_decimal node.zmq_port ++ (codes "/" ++ o.to_hex node.onion))))

  unfoldable pub direct_addr : SnodeInfo → Bytes
  direct_addr node =
      codes "curve://"
      ++ (node.public_ip
          ++ (codes ":" ++ (to_decimal node.zmq_port ++ (codes "/" ++ o.to_hex node.onion))))

  unfoldable pub https_snode : SnodeInfo → Bytes
  https_snode node =
      codes "https://"
      ++ (o.to_base32z node.identity
          ++ (codes ":" ++ (to_decimal node.https_port ++ codes "/onion_req/v2")))

unfoldable pub https_direct : SnodeInfo → Bytes
https_direct node =
    codes "https://"
    ++ (node.public_ip ++ (codes ":" ++ (to_decimal node.https_port ++ codes "/onion_req/v2")))

unfoldable pub to_string : SnodeInfo → Bytes
to_string node =
    codes "[snode " ++ (node.public_ip ++ (codes ":" ++ (to_decimal node.https_port ++ codes "]")))
