-- ===== src/Libs.antt =====
-- The libraries that onionreq/ calls and that are no part of the repository, as parameters: oxenc,
-- nlohmann::json, libsodium and OpenSSL's EVP. Each is a record of operations; what their
-- documentation promises stands in separate records of laws, which the theorems take as hypotheses.
pub mod Oxenc
pub mod Json
pub mod Sodium
pub mod Evp
pub mod Omq
pub mod Ed25519
pub mod Xed
pub mod Curl
use Oxenc.{Oxenc as OxencApi}
use Json.{Json as JsonApi}
use Sodium.{Sodium as SodiumApi}
use Evp.{Evp as EvpApi}

pub record Libs : Type 1 where
  pub oxenc : OxencApi
  pub json : JsonApi
  pub sodium : SodiumApi
  pub evp : EvpApi
