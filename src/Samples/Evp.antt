-- ===== src/Samples/Evp.antt =====
-- A stand-in for OpenSSL: a cipher that copies, with a tag of zeros.
use libonionrequests.Common.{
  ℕ, ◌≡◌, refl, Bytes, [], ◌++◌, length, length-replicate, append-nil, replicate, Option, some,
  arith, ap, ◌∙◌,
}
use libonionrequests.Libs.Evp.{Cipher, aes_256_cbc, aes_256_gcm, Evp, EvpSizes, Session, CipherLaws}

abbrev iv_length : Cipher → ℕ
iv_length aes_256_cbc = 16
iv_length aes_256_gcm = 12

abbrev block_size : Cipher → ℕ
block_size aes_256_cbc = 16
block_size aes_256_gcm = 1

abbrev pub sample_evp : Evp
sample_evp = record {
  Context = Unit {0};
  iv_length = iv_length;
  block_size = block_size;
  encrypt_init = λ c key iv. some tt;
  encrypt_update = λ s text n. some (text, tt);
  encrypt_final = λ s. some ([], tt);
  get_tag = λ s n. some (replicate n 0);
  decrypt_init = λ c key iv. some tt;
  decrypt_update = λ s text n. some (text, tt);
  set_tag = λ s n tag. some tt;
  decrypt_final = λ s. some ([], tt);
}

copied :
    (a b : Bytes)
    → ◌≡◌ {A = Option (Bytes × Unit {0})} (some (a, tt)) (some (b, tt))
    → length b ≡ length a
copied a b e = ap length (cc)

tag_copied : (n : ℕ) (tag : Bytes) → some (replicate n 0) ≡ some tag → length tag ≡ n
tag_copied n tag e = ap length (cc) ∙ length-replicate {0} {A = ℕ} n 0

pub sample_evp_sizes : EvpSizes sample_evp
sample_evp_sizes = record {
  iv_cbc = refl;
  iv_gcm = refl;
  block_cbc = refl;
  block_gcm = refl;
  encrypt_update_size = λ c key iv text {s} {t} {a} e f. omega (arith, copied text a f);
  encrypt_final_size =
      λ c key iv text {s} {t} {u} {a} {b} e f g. omega (arith, copied text a f, copied [] b g);
  get_tag_size = λ s n {tag} e. tag_copied n tag e;
  decrypt_update_size = λ c key iv text {s} {t} {a} e f. omega (arith, copied text a f);
  decrypt_final_size = λ c key iv text tag n {s} {t} {u} {v} {a} {b} e f g h.
      omega (arith, copied text a f, copied [] b h);
}

sample-Session :
    (c : Cipher) (taglen : ℕ) (key iv text : Bytes) → Session sample_evp c taglen key iv text
sample-Session c taglen key iv text = record {
  s₀ = tt;
  s₁ = tt;
  s₂ = tt;
  d₀ = tt;
  d₁ = tt;
  d₂ = tt;
  d₃ = tt;
  body = text;
  last = [];
  tag = replicate taglen 0;
  front = text ++ [];
  back = [];
  enc_init = refl;
  enc_update = refl;
  enc_final = refl;
  enc_tag = λ h. refl;
  no_tag = λ h. ap (λ n. replicate n 0) h;
  dec_init = refl;
  dec_update = refl;
  dec_tag = λ h. refl;
  dec_untagged = λ h. refl;
  dec_final = refl;
  restored = append-nil (text ++ []) ∙ append-nil text;
}

pub sample_cipher : CipherLaws sample_evp
sample_cipher = record {
  sizes = sample_evp_sizes;
  cbc_session = λ key iv text hk hi ht. sample-Session aes_256_cbc 0 key iv text;
  gcm_session = λ key iv text hk hi ht. sample-Session aes_256_gcm 16 key iv text;
}
