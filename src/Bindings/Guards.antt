-- ===== src/Bindings/Guards.antt =====
-- What the Python functions test before they pass a call on.
use libonionrequests.Common.{
  ℕ, ◌≡◌, ◌≢◌, refl, ◌&&◌, ◌>>=◌, Bytes, length, ok, err, undefined, invalid_argument, ◌==◌, ==→eq,
  Bool-cases, inl, inr, arith, if◌then◌else◌,
}
use libonionrequests.Libs.Sodium.{Sodium}
use libonionrequests.Libs.Ed25519.{Ed25519}
use libonionrequests.Libs.Xed.{Xed}
use libonionrequests.Keys.{null_bytes}
use libonionrequests.Keys.Parse.{write_out_full}
use libonionrequests.Xed25519
use libonionrequests.Libs.{Libs}
use libonionrequests.Junk.{parse_junk}
use libonionrequests.Junk.Parser.{junk_parser}
use libonionrequests.Bindings.{
  set_key, new_parser, parsed, uview, xed25519_sign, xed25519_pubkey, xed25519_verify,
}

set_key_lem :
    (out text : Bytes)
    → set_key out text ≡ (if length text == length out then ok text else err invalid_argument)
unfolding set_key
set_key_lem out text = elim (Bool-cases (length text == length out)) [
  | inl e ↦ rw (e, write_out_full text out (==→eq (length text) (length out) e)) refl
  | inr e ↦ rw e refl
]

-- A parser reads as `ParseJunk` does under the two keys as they are given, if each has 32 bytes;
-- otherwise none is made.
pub new_parser_lem :
    (l : Libs) (pubkey privkey stuff : Bytes)
    → (new_parser l pubkey privkey >>= λ parser. parsed parser stuff) ≡ (
        if length pubkey == 32 && length privkey == 32
        then parse_junk l (record { public = pubkey; secret = privkey }) stuff
        else err invalid_argument)
unfolding new_parser null_bytes parsed junk_parser
new_parser_lem l pubkey privkey stuff = elim (Bool-cases (length pubkey == 32)) [
  | inl e ↦ elim (Bool-cases (length privkey == 32)) [
    | inl f ↦
        rw (set_key_lem (null_bytes 32) pubkey, set_key_lem (null_bytes 32) privkey, e, f) refl
    | inr f ↦
        rw (set_key_lem (null_bytes 32) pubkey, set_key_lem (null_bytes 32) privkey, e, f) refl
  ]
  | inr e ↦ rw (set_key_lem (null_bytes 32) pubkey, e) refl
]

module _ (sodium : Sodium) (e : Ed25519) (x : Xed) where
  -- The Python functions over xed25519 throw on a private key of the wrong size, sign as the
  -- library does with any other, and read nothing outside their arguments, whatever the sizes of
  -- these.
  pub xed25519_guarded :
      (signature key msg : Bytes) (draw : ℕ)
      → (xed25519_sign sodium e x key msg draw ≡ (
          if length key == 32 then Xed25519.sign sodium e x key msg draw else err invalid_argument))
        × (xed25519_sign sodium e x key msg draw ≢ undefined)
        × (xed25519_pubkey sodium e x key ≢ undefined)
        × (xed25519_verify sodium e x signature key msg ≢ undefined)
  unfolding xed25519_sign xed25519_pubkey xed25519_verify uview Xed25519.sign Xed25519.pubkey
      Xed25519.verify
  xed25519_guarded signature key msg draw = (ground arith, ground arith, ground arith, ground arith)
