-- ===== src/Node/Memory.antt =====
-- The keys of a node that is read from JSON, and the memory in which they are read.
use libonionrequests.Common.{◌≡◌, refl, Bytes, codes, length, ok, Bool-cases, inl, inr, arith}
use libonionrequests.Libs.{Libs}
use libonionrequests.Libs.Oxenc.{Oxenc, DecodeLaws}
use libonionrequests.Keys.Parse.{write_out_full}
use libonionrequests.Node.{load_from_hex, at_string, from_json}

load_from_hex_full :
    (o : Oxenc)
    → DecodeLaws o
    → (text raw raw' : Bytes) → length text ≡ 64
    → length raw ≡ 32
    → length raw' ≡ 32
    → load_from_hex o text raw ≡ load_from_hex o text raw'
unfolding load_from_hex
load_from_hex_full o d text raw raw' t e e' = elim (Bool-cases (o.is_hex text)) [
  | inl hex ↦
      rw
        (
          hex,
          write_out_full (o.from_hex text) raw (omega (arith, d.length-from_hex text hex)),
          write_out_full (o.from_hex text) raw' (omega (arith, d.length-from_hex text hex)),
          e,
          e',
        )
        refl
  | inr other ↦ rw (other, e, e') refl
]

-- If both key texts have 64 characters, the node that is read, or the error, does not depend on what
-- the memory of the keys held.
pub from_json_memory :
    (l : Libs)
    → DecodeLaws l.oxenc
    → (obj : l.json.Value) (identity onion raw₁ raw₂ other₁ other₂ : Bytes)
    → at_string l.json obj (codes "pubkey_ed25519") ≡ ok identity
    → at_string l.json obj (codes "pubkey_x25519") ≡ ok onion
    → length identity ≡ 64
    → length onion ≡ 64
    → (length raw₁ ≡ 32) × (length raw₂ ≡ 32) × (length other₁ ≡ 32) × (length other₂ ≡ 32)
    → from_json l raw₁ raw₂ obj ≡ from_json l other₁ other₂ obj
unfolding from_json
from_json_memory l d obj identity onion raw₁ raw₂ other₁ other₂ i x si sx (a, b, c, e) =
    rw
      (
        i,
        x,
        load_from_hex_full l.oxenc d identity raw₁ other₁ si a c,
        load_from_hex_full l.oxenc d onion raw₂ other₂ sx b e,
      )
      refl
