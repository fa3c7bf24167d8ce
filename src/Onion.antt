-- ===== src/Onion.antt =====
-- onionreq/onion.hpp: what is sent, along which path, and to what.
use libonionrequests.Common.{List, [], ◌∷◌, Bytes, Option, Result, ok, undefined, ◌>>=◌}
use libonionrequests.Libs.{Libs}
use libonionrequests.Node.{SnodeInfo}
use libonionrequests.Node
use libonionrequests.Sogs.{SogsInfo}
use libonionrequests.Sogs

pub data RemoteResource : Type 0 where
  snode : SnodeInfo → RemoteResource
  sogs : SogsInfo → RemoteResource

-- `std::visit` of `ControlData`.
unfoldable pub control_data : (l : Libs) → RemoteResource → l.json.Value
control_data l (snode info) = Node.control_data l info
control_data l (sogs info) = Sogs.control_data l.json info

pub record OnionPath : Type 0 where
  pub hops : List SnodeInfo
  pub remote : RemoteResource

-- `hops[0]`, which an empty vector does not have.
unfoldable pub first_of_hops : List SnodeInfo → Result SnodeInfo
first_of_hops [] = undefined
first_of_hops (hop ∷ hops) = ok hop

unfoldable pub edge : OnionPath → Result SnodeInfo
unfolding first_of_hops
edge path = first_of_hops path.hops

pub record OnionPayload : Type 0 where
  pub ciphertext : Bytes
  pub path : OnionPath
  pub maybe_decrypt_response : Bytes → Result (Option Bytes)

-- The function made calls the handler with what `maybe_decrypt_response` answers.
unfoldable pub make_decrypter :
    {A : Type 0} → OnionPayload → (Option Bytes → Result A) → Bytes → Result A
make_decrypter payload handler ct = do
  plaintext ← payload.maybe_decrypt_response ct
  handler plaintext
