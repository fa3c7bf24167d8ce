-- ===== src/Keys.antt =====
-- onionreq/key_types.hpp and key_types.cpp. A key is its bytes; the two template parameters of
-- `key_base` are the name of a byte string and its length. `raw` is the memory of a key that the
-- source declares without initialising it.
pub mod Parse
pub mod Types
use libonionrequests.Common.{
  ℕ, ◌+◌, ◌*◌, Bool, true, false, not, ◌&&◌, ◌||◌, Option, none, some, List, [], ◌∷◌, ◌++◌, Bytes,
  codes, bytes_eq, length, take, drop, replicate, leb, ◌==◌, if◌then◌else◌, Result, ok, err,
  undefined, ◌>>=◌, ◌>>◌, guard, requires, runtime_error,
}
use libonionrequests.Libs.Oxenc.{Oxenc}
use libonionrequests.Libs.Sodium.{Sodium}

-- The types of keys, and how many bytes each has.
pub data KeyType : Type 0 where
  legacy_pubkey x25519_pubkey ed25519_pubkey legacy_seckey ed25519_seckey x25519_seckey : KeyType

unfoldable pub key_length : KeyType → ℕ
key_length KeyType.legacy_pubkey = 32
key_length KeyType.x25519_pubkey = 32
key_length KeyType.ed25519_pubkey = 32
key_length KeyType.legacy_seckey = 32
key_length KeyType.ed25519_seckey = 64
key_length KeyType.x25519_seckey = 32

-- `key_base::view`.
unfoldable pub view : KeyType → Bytes → Bytes
view t key = take (key_length t) key

-- `detail::null_bytes`.
unfoldable pub null_bytes : ℕ → Bytes
null_bytes n = replicate n 0

-- A library call writes `text` from the front of `memory`, which must be large enough.
unfoldable pub write_out : Bytes → Bytes → Result Bytes
write_out text memory = do
  requires (leb (length text) (length memory))
  ok (text ++ drop (length text) memory)

unfoldable pub load_from_bytes : Bytes → ℕ → Bytes → Result Bytes
unfolding write_out
load_from_bytes buffer n bytes = do guard (length bytes == n) runtime_error; write_out bytes buffer

-- `key_base::operator bool`.
unfoldable pub is_set : Bytes → Bool
is_set key = not (bytes_eq key (null_bytes (length key)))

unfoldable pub from_bytes : Bytes → Bytes → Result Bytes
unfolding load_from_bytes
from_bytes raw bytes = load_from_bytes raw (length raw) bytes

-- `pubkey_in.back() == c`, where the caller has tested that there is a last byte.
unfoldable pub back_is : ℕ → Bytes → Bool
back_is c [] = false
back_is c (x ∷ []) = x == c
back_is c (x ∷ y ∷ s) = back_is c (y ∷ s)

module _ (o : Oxenc) where
  unfoldable pub load_from_hex : Bytes → ℕ → Bytes → Result Bytes
  unfolding write_out
  load_from_hex buffer n hex = do
    guard (o.is_hex hex) runtime_error
    guard (length hex == 2 * n) runtime_error
    write_out (o.from_hex hex) buffer

  -- `key_base::hex`, by `detail::to_hex`.
  unfoldable pub to_hex : Bytes → Bytes
  to_hex key = o.to_hex key

  -- `operator<<` of a key to what has been put out.
  unfoldable pub put_to : Bytes → Bytes → Bytes
  unfolding to_hex
  put_to out key = out ++ to_hex key

  unfoldable pub from_hex : Bytes → Bytes → Result Bytes
  unfolding load_from_hex
  from_hex raw hex = load_from_hex raw (length raw) hex

  -- The `catch (...)` turns an exception into `nullopt`.
  unfoldable pub maybe_from_hex : Bytes → Bytes → Result (Option Bytes)
  unfolding from_hex
  maybe_from_hex raw hex = elim (from_hex raw hex) [
    | ok key ↦ ok (some key)
    | err e ↦ ok none
    | undefined ↦ undefined
  ]

  -- `ed25519_pubkey::snode_address`.
  unfoldable pub snode_address : Bytes → Bytes
  snode_address key = o.to_base32z key ++ codes ".snode"

  -- `parse_pubkey`, and so the three functions over it, which differ in the name of the key alone.
  unfoldable pub parse_pubkey : Bytes → Result Bytes
  parse_pubkey s =
      let pk = null_bytes 32 in
      if length s == 32
      then load_from_bytes pk 32 s
      else if length s == 64 && o.is_hex s
      then write_out (o.from_hex s) pk
      else if (length s == 43 || (length s == 44 && back_is b'=' s)) && o.is_base64 s
      then write_out (o.from_base64 s) pk
      else if length s == 52 && o.is_base32z s
      then write_out (o.from_base32z s) pk
      else ok pk

-- `pubkey()` of the three kinds of secret key.
module _ (s : Sodium) where
  unfoldable pub legacy_seckey_pubkey : Bytes → Bytes
  legacy_seckey_pubkey key = s.ed25519_base_noclamp key

  unfoldable pub ed25519_seckey_pubkey : Bytes → Bytes
  ed25519_seckey_pubkey key = s.sign_sk_to_pk key

  unfoldable pub x25519_seckey_pubkey : Bytes → Bytes
  x25519_seckey_pubkey key = s.scalarmult_base key
