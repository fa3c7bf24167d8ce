-- ===== src/Junk/Size.antt =====
-- The size in front of a message: what the maker writes and what the parser reads.
use libonionrequests.Common.{
  ℕ, ◌%◌, ◌^◌, ◌<◌, ◌≡◌, ◌↔◌, refl, ap, Bytes, ◌++◌, take-append, length, length-append, le→leb, ok,
  arith,
}
use libonionrequests.Libs.Oxenc.{Oxenc, LittleLaws}
use libonionrequests.Junk.{decode_size}
use libonionrequests.Maker.{encode_size}

ok-injective : (a b : ℕ) → ok a ≡ ok b → a ≡ b
ok-injective a b h = cc

-- From the size that the maker writes in front of a message the parser reads the size modulo 2 ^ 32,
-- whatever follows: it is the size of the message exactly if that is less than 2 ^ 32.
pub decode_size-encode_size :
    (o : Oxenc) (laws : LittleLaws o) (n : ℕ) (rest : Bytes)
    → (decode_size o (encode_size o n ++ rest) ≡ ok (n % 2 ^ 32))
      × ((decode_size o (encode_size o n ++ rest) ≡ ok n) ↔ (n < 2 ^ 32))
unfolding decode_size encode_size
decode_size-encode_size o laws n rest =
    let m = n % 2 ^ 32 in
    let size = laws.length-write_little32 m in
    let long =
      le→leb 4 (length (o.write_little32 m ++ rest))
        (omega (arith, length-append (o.write_little32 m) rest)) in
    let loaded = laws.load-write_little32 m (omega arith) in
    rw (long, take-append 4 (o.write_little32 m) rest size, loaded)
      (refl, (λ h. omega (arith, ok-injective m n h), λ h. ap ok (omega arith)))
