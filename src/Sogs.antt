-- ===== src/Sogs.antt =====
-- onionreq/sogs_info.hpp and sogs_info.cpp: a server outside the network of service nodes.
use libonionrequests.Common.{ℕ, [], ◌∷◌, ◌++◌, Bytes, codes, to_decimal}
use libonionrequests.Libs.Json.{Json}

pub data SogsProtocol : Type 0 where
  http https : SogsProtocol

pub record SogsInfo : Type 0 where
  pub protocol : SogsProtocol
  pub onion : Bytes
  pub hostname : Bytes
  pub port : ℕ

unfoldable pub control_data : (j : Json) → SogsInfo → j.Value
control_data j info = j.object (
    (codes "host", j.string info.hostname)
    ∷ (codes "port", j.number info.port)
    ∷ (codes "target", j.string (codes "/loki/v3/lsrpc"))
    ∷ [])

unfoldable pub to_string : SogsInfo → Bytes
to_string info =
    codes "[sogs: " ++ (info.hostname ++ (codes ":" ++ (to_decimal info.port ++ codes "]")))
