-- ===== src/Libs/Curl.antt =====
-- cpr: `cpr::Post` of a body to an address gives a status code and a text. The answers of the network
-- are a function of the number of calls made before.
use libonionrequests.Common.{ℕ, Bytes}

pub record Curl : Type 0 where
  pub post : ℕ → Bytes → Bytes → ℕ × Bytes
