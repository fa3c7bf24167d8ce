-- ===== src/Node/Uninitialised.antt =====
-- A key text that is too short leaves memory in the key.
use libonionrequests.Common.{
  ℕ, zero, suc, ◌*◌, ◌+◌, ◌-◌, ◌≤◌, ◌<◌, ◌≡◌, ◌≢◌, refl, ap, ◌∙◌, [], ◌∷◌, Bytes, codes, ◌++◌,
  length, drop, replicate, length-replicate, true, le→leb, ok, err, undefined, Result, ◌>>=◌, arith,
}
use libonionrequests.Libs.{Libs}
use libonionrequests.Libs.Oxenc.{Oxenc, DecodeLaws}
use libonionrequests.Keys.{write_out}
use libonionrequests.Node.{SnodeInfo, at_string, at_uint16, load_from_hex, from_json}

ends_differ :
    (s : Bytes) (n x y : ℕ) → x ≢ y → (s ++ replicate (suc n) x) ≢ (s ++ replicate (suc n) y)
ends_differ [] n x y h e = h cc
ends_differ (a ∷ s) n x y h e = ends_differ s n x y h cc

drop-replicate : (k m n x : ℕ) → n ≡ k + m → drop k (replicate n x) ≡ replicate m x
drop-replicate zero m n x h = ap (λ i. replicate i x) (omega arith)
drop-replicate (suc k) m zero x h = absurd (omega arith)
drop-replicate (suc k) m (suc n) x h = drop-replicate k m n x (omega arith)

module _ (o : Oxenc) (d : DecodeLaws o) where
  load_from_hex_short :
      (text raw : Bytes)
      → o.is_hex text ≡ true
      → length text ≤ 2 * length raw
      → o.from_hex_size (length text) ≤ length raw
      → load_from_hex o text raw ≡ ok (o.from_hex text ++ drop (length (o.from_hex text)) raw)
  unfolding load_from_hex write_out
  load_from_hex_short text raw hex short fits =
      let size = d.length-from_hex text hex in
      rw
        (
          hex,
          le→leb (o.from_hex_size (length text)) (length raw) fits,
          le→leb (length (o.from_hex text)) (length raw) (omega arith),
        )
        refl

-- The constructor behind the first key.
abbrev after_identity : (l : Libs) → Bytes → l.json.Value → Bytes → Result SnodeInfo
after_identity l raw_onion obj identity = do
  onion_hex ← at_string l.json obj (codes "pubkey_x25519")
  onion ← load_from_hex l.oxenc onion_hex raw_onion
  public_ip ← at_string l.json obj (codes "public_ip")
  zmq_port ← at_uint16 l.json obj (codes "storage_lmq_port")
  https_port ← at_uint16 l.json obj (codes "storage_port")
  ok (record {
    identity = identity;
    onion = onion;
    public_ip = public_ip;
    zmq_port = zmq_port;
    https_port = https_port;
  })

-- If the first call reads a node, its identity is `a`, and the second reads that node with `b`.
abbrev Alike : Bytes → Bytes → Result SnodeInfo → Result SnodeInfo → Type 0
Alike a b (ok node) other = (node.identity ≡ a) × (other ≡ ok (record node { identity = b }))
Alike a b (err e) other = Unit {0}
Alike a b undefined other = Unit {0}

>>=-Alike :
    {A : Type 0} (a b : Bytes) (m : Result A) (f g : A → Result SnodeInfo)
    → ((x : A) → Alike a b (f x) (g x))
    → Alike a b (m >>= f) (m >>= g)
>>=-Alike a b (ok x) f g h = h x
>>=-Alike a b (err e) f g h = tt
>>=-Alike a b undefined f g h = tt

after_identity-Alike :
    (l : Libs) (raw_onion a b : Bytes) (obj : l.json.Value)
    → Alike a b (after_identity l raw_onion obj a) (after_identity l raw_onion obj b)
after_identity-Alike l raw_onion a b obj =
    >>=-Alike a b (at_string l.json obj (codes "pubkey_x25519")) _ _ λ onion_hex.
      >>=-Alike a b (load_from_hex l.oxenc onion_hex raw_onion) _ _ λ onion.
        >>=-Alike a b (at_string l.json obj (codes "public_ip")) _ _ λ public_ip.
          >>=-Alike a b (at_uint16 l.json obj (codes "storage_lmq_port")) _ _ λ zmq_port.
            >>=-Alike a b (at_uint16 l.json obj (codes "storage_port")) _ _
              λ https_port. (refl, refl)

-- If the text of the identity in the JSON is hex of less than 64 characters, and a node is read with the
-- memory of the key full of zeros, then one is read with the memory full of ones too, and the two have
-- different identities.
pub from_json_uninitialised :
    (l : Libs) (d : DecodeLaws l.oxenc) (obj : l.json.Value) (text raw_onion : Bytes)
    (node : SnodeInfo)
    → at_string l.json obj (codes "pubkey_ed25519") ≡ ok text
    → l.oxenc.is_hex text ≡ true
    → length text < 64
    → l.oxenc.from_hex_size (length text) ≤ 32
    → from_json l (replicate 32 0) raw_onion obj ≡ ok node
    → (other : SnodeInfo) × (from_json l (replicate 32 1) raw_onion obj ≡ ok other)
      × (node.identity ≢ other.identity)
unfolding from_json
from_json_uninitialised l d obj text raw_onion node named hex short fits read =
    let key = l.oxenc.from_hex text in
    let size = d.length-from_hex text hex in
    let left = 31 - length key in
    let loads : (x : ℕ)
        → load_from_hex l.oxenc text (replicate 32 x) ≡ ok (key ++ replicate (suc left) x) =
      λ x.
        load_from_hex_short l.oxenc d text (replicate 32 x) hex
          (omega (arith, length-replicate 32 x)) (omega (arith, length-replicate 32 x))
        ∙ ap (λ s. ok (key ++ s)) (drop-replicate (length key) (suc left) 32 x (omega arith)) in
    let (same, other) = rw (rw (named, loads 0) at read) at (
      after_identity-Alike l raw_onion (key ++ replicate (suc left) 0)
        (key ++ replicate (suc left) 1) obj) in
    (
      record node { identity = key ++ replicate (suc left) 1 },
      rw (named, loads 1) other,
      rw same (ends_differ key left 0 1 (omega arith)),
    )
