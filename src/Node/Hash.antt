-- ===== src/Node/Hash.antt =====
-- The hashes of keys and of nodes, by which the unordered containers find them: key_types.hpp and
-- snode_info.hpp.
use libonionrequests.Common.{
  ℕ, zero, suc, ◌+◌, ◌*◌, ◌<◌, ◌^◌, ◌≡◌, ◌↔◌, refl, ap, sym, subst, ◌∙◌, [], ◌∷◌, Bytes,
  bytes_eq→eq, length, take, length-take, All, true, Result, ok, requires, ◌>>◌, leb, le→leb, arith,
}
use native.Mathlib.Nat.{pow-suc}
use libonionrequests.Libs.Oxenc.{IsByte, IsKey32}
use libonionrequests.Node.{SnodeInfo, same_identity}

-- A number of `size_t` as it stands in memory, the lowest byte first.
unfoldable pub size_of_bytes : Bytes → ℕ
size_of_bytes [] = 0
size_of_bytes (x ∷ s) = x + 256 * size_of_bytes s

-- `std::hash<pubkey_base>`: a `size_t` of eight bytes is read at the front of the key.
unfoldable pub hash_key : Bytes → Result ℕ
hash_key pk = do requires (leb 8 (length pk)); ok (size_of_bytes (take 8 pk))

-- `std::hash<SNodeInfo>`.
unfoldable pub hash_info : SnodeInfo → Result ℕ
hash_info info = hash_key info.identity

size_of_bytes-injective :
    (s t : Bytes)
    → All IsByte s
    → All IsByte t
    → length s ≡ length t
    → size_of_bytes s ≡ size_of_bytes t
    → s ≡ t
unfolding size_of_bytes
size_of_bytes-injective [] [] hs ht n e = refl
size_of_bytes-injective [] (y ∷ t) hs ht n e = absurd (omega arith)
size_of_bytes-injective (x ∷ s) [] hs ht n e = absurd (omega arith)
size_of_bytes-injective (x ∷ s) (y ∷ t) (hx, hs) (hy, ht) n e =
    let rest = size_of_bytes-injective s t hs ht (omega arith) (omega arith) in
    let first : x ≡ y = omega arith in cc

pub size_of_bytes_bound : (s : Bytes) → All IsByte s → size_of_bytes s < 256 ^ length s
unfolding size_of_bytes
size_of_bytes_bound [] h = omega arith
size_of_bytes_bound (x ∷ s) (hx, h) = omega (arith, size_of_bytes_bound s h, pow-suc 256 (length s))

take-All : (n : ℕ) (s : Bytes) → All IsByte s → All IsByte (take n s)
take-All zero s h = tt
take-All (suc n) [] h = tt
take-All (suc n) (x ∷ s) h = (h.0, take-All n s h.1)

-- The hash of a node whose identity is a key of 32 bytes is read within it and fits 64 bits. Two such
-- nodes have one hash exactly if their identities begin with the same eight bytes, as they do if the
-- nodes compare equal.
pub hash_info_iff :
    (a b : SnodeInfo)
    → IsKey32 a.identity
    → IsKey32 b.identity
    → (n : ℕ) × (m : ℕ) × (hash_info a ≡ ok n)
      × (hash_info b ≡ ok m)
      × (n < 2 ^ 64)
      × ((n ≡ m) ↔ (take 8 a.identity ≡ take 8 b.identity))
      × (same_identity a b ≡ true → n ≡ m)
unfolding hash_info hash_key
hash_info_iff a b ha hb =
    let size_a : length (take 8 a.identity) ≡ 8 = omega (arith, length-take 8 a.identity, ha.0) in
    let size_b : length (take 8 b.identity) ≡ 8 = omega (arith, length-take 8 b.identity, hb.0) in
    let bytes_a = take-All 8 a.identity ha.1 in
    let bound : size_of_bytes (take 8 a.identity) < 2 ^ 64 =
      subst (λ n. size_of_bytes (take 8 a.identity) < 256 ^ n) size_a
        (size_of_bytes_bound (take 8 a.identity) bytes_a) in
    (
      size_of_bytes (take 8 a.identity),
      size_of_bytes (take 8 b.identity),
      rw (le→leb 8 (length a.identity) (omega (arith, ha.0))) refl,
      rw (le→leb 8 (length b.identity) (omega (arith, hb.0))) refl,
      bound,
      (
        size_of_bytes-injective (take 8 a.identity) (take 8 b.identity) bytes_a
            (take-All 8 b.identity hb.1) (size_a ∙ sym size_b),
        ap size_of_bytes,
      ),
      λ same. ap (λ (k : Bytes). size_of_bytes (take 8 k)) (bytes_eq→eq a.identity b.identity same),
    )
