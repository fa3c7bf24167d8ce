-- ===== src/Samples/Sodium.antt =====
-- A stand-in for libsodium.
use libonionrequests.Common.{
  ℕ, suc, ◌+◌, ◌-◌, ◌%◌, ◌≡◌, refl, ap, ap₂, ◌∙◌, Bytes, [], ◌∷◌, ◌++◌, length, take, length-append,
  length-take, length-replicate, length-map, take-append, map, replicate, All, Option, none, some,
  leb, le→leb, if◌then◌else◌, arith,
}
use libonionrequests.Libs.Oxenc.{IsByte}
use libonionrequests.Libs.Sodium.{Sodium, ExchangeLaws, SizeLaws, AeadLaws, abytes}

abbrev add_bytes : Bytes → Bytes → Bytes
add_bytes [] bs = []
add_bytes (a ∷ as_) [] = []
add_bytes (a ∷ as_) (b ∷ bs) = (a + b) ∷ add_bytes as_ bs

abbrev base : Bytes → Bytes
base = map (λ x. x % 256)

abbrev open_ : Bytes → Option Bytes
open_ c = if leb abytes (length c) then some (take (length c - abytes) c) else none

abbrev pub sample_sodium : Sodium
sample_sodium = record {
  random_bytes = λ r n. replicate n (r % 256);
  box_keypair = λ r. (base (replicate 32 r), replicate 32 r);
  scalarmult = λ a b. some (add_bytes (base a) b);
  scalarmult_base = base;
  sign_sk_to_pk = base;
  ed25519_base_noclamp = base;
  hmac_sha256 = λ k ms. replicate 32 1;
  generichash = λ n ms. replicate n 2;
  aead_encrypt = λ nonce key text. text ++ replicate 16 0;
  aead_decrypt = λ nonce key c. open_ c;
}

add_bytes_comm : (a b : Bytes) → length a ≡ length b → add_bytes a b ≡ add_bytes b a
add_bytes_comm [] [] h = refl
add_bytes_comm [] (b ∷ bs) h = absurd (omega arith)
add_bytes_comm (a ∷ as_) [] h = absurd (omega arith)
add_bytes_comm (a ∷ as_) (b ∷ bs) h =
    ap₂ (λ x y. x ∷ y) (omega arith) (add_bytes_comm as_ bs (omega arith))

length-add_bytes : (a b : Bytes) → length a ≡ length b → length (add_bytes a b) ≡ length a
length-add_bytes [] [] h = refl
length-add_bytes [] (b ∷ bs) h = refl
length-add_bytes (a ∷ as_) [] h = absurd (omega arith)
length-add_bytes (a ∷ as_) (b ∷ bs) h = ap suc (length-add_bytes as_ bs (omega arith))

base-IsByte : (a : Bytes) → All IsByte (base a)
base-IsByte [] = tt
base-IsByte (x ∷ a) = (omega arith, base-IsByte a)

length-base : (a : Bytes) → length (base a) ≡ length a
length-base a = length-map a (λ x. x % 256)

same_length : (a b : Bytes) → length a ≡ 32 → length b ≡ 32 → length (base a) ≡ length (base b)
same_length a b ha hb = omega (arith, length-base a, length-base b)

pub sample_exchange : ExchangeLaws sample_sodium
sample_exchange = record {
  box_keypair_public = λ r. refl;
  length-box_keypair = λ r. refl;
  scalarmult_base-IsKey32 = λ a h. (length-base a ∙ h, base-IsByte a);
  agreement = λ a b ha hb. (
    add_bytes (base a) (base b),
    refl,
    ap some (add_bytes_comm (base b) (base a) (same_length b a hb ha)),
    length-add_bytes (base a) (base b) (same_length a b ha hb) ∙ length-base a ∙ ha,
  );
}

pub sample_sizes : SizeLaws sample_sodium
sample_sizes = record {
  length-random_bytes = λ r n. length-replicate {0} n (r % 256);
  length-hmac_sha256 = λ k ms. refl;
  length-generichash = λ n ms. length-replicate {0} {A = ℕ} n 2;
}

open_size : (c text : Bytes) → open_ c ≡ some text → length text + abytes ≡ length c
open_size c text e = ground (arith, length-take (length c - abytes) c)

open_sealed : (text : Bytes) → open_ (text ++ replicate 16 0) ≡ some text
open_sealed text =
    let size = length-append text (replicate 16 0) in
    rw (
      le→leb abytes (length (text ++ replicate 16 0)) (omega arith),
      take-append (length (text ++ replicate 16 0) - abytes) text (replicate 16 0) (omega arith),
    )

pub sample_aead : AeadLaws sample_sodium
sample_aead = record {
  length-aead_encrypt = λ nonce key text. length-append text (replicate 16 0);
  length-aead_decrypt = λ nonce key c text e. open_size c text e;
  aead_decrypt-aead_encrypt = λ nonce key text hn hk. open_sealed text;
}
