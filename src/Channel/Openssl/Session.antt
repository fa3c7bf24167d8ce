-- ===== src/Channel/Openssl/Session.antt =====
-- `encrypt_openssl` and `decrypt_openssl` on one message, from what OpenSSL does with it.
use libonionrequests.Common.{
  ℕ, zero, suc, ◌+◌, ◌-◌, ◌≤◌, ◌<◌, ◌^◌, ◌≡◌, refl, ap, sym, ◌∙◌, Bytes, [], ◌++◌, length,
  take-append, drop-append, length-append, append_assoc, append-nil, le→leb, ok, arith, inl, inr,
  some, lt→ltb,
}
use libonionrequests.Libs.{Libs}
use libonionrequests.Libs.Evp.{Cipher, EvpSizes, Session}
use libonionrequests.Channel.Buffer.{put_fits}
use libonionrequests.Channel.Openssl.{
  encrypt_openssl, decrypt_openssl, append_tag, check_tag, as_int, decrypt_parts,
}

as_int_small : (n : ℕ) → n < 2 ^ 31 → as_int n ≡ n
as_int_small n h = omega arith

-- An input of the three parts is cut into them again.
pub decrypt_openssl_parts :
    (l : Libs) (cipher : Cipher) (taglen : ℕ) (iv body tag key : Bytes)
    → length iv ≡ l.evp.iv_length cipher
    → length tag ≡ taglen
    → decrypt_openssl l cipher taglen (iv ++ (body ++ tag)) key
      ≡ decrypt_parts l cipher taglen iv body tag key
unfolding decrypt_openssl
decrypt_openssl_parts l cipher taglen iv body tag key hi ht = rw (
  take-append (l.evp.iv_length cipher) iv (body ++ tag) hi,
  drop-append (length iv) iv (body ++ tag) refl,
  le→leb taglen (length (body ++ tag)) (omega (arith, length-append body tag)),
  drop-append (length (body ++ tag) - taglen) body tag front_size,
  take-append (length (body ++ tag) - length tag) body tag (omega (arith, length-append body tag)),
)
  where
    front_size : length body ≡ length (body ++ tag) - taglen
    front_size = omega (arith, length-append body tag)

module _ (l : Libs) (sizes : EvpSizes l.evp) (cipher : Cipher) (taglen : ℕ) (key iv text : Bytes)
    (s : Session l.evp cipher taglen key iv text) where
  pub tag_size : (n : ℕ) → n ≡ taglen → length s.tag ≡ n
  tag_size zero e = ap length (s.no_tag (sym e))
  tag_size (suc n) e = sizes.get_tag_size s.s₂ taglen (s.enc_tag (omega arith)) ∙ sym e

  append_tag_lem :
      (k n : ℕ) (done : Bytes)
      → k ≡ taglen
      → length done + taglen ≤ n
      → append_tag l.evp s.s₂ taglen (record { size = n; written = done })
        ≡ ok (record { size = n; written = done ++ s.tag })
  unfolding append_tag
  append_tag_lem zero n done e h =
      rw (← e, s.no_tag (sym e))
        (ap ok (λ i. record { size = n; written = sym (append-nil done) i }))
  append_tag_lem (suc k) n done e h =
      rw (lt→ltb 0 taglen (omega arith), s.enc_tag (omega arith))
        (put_fits n done s.tag (omega (arith, tag_size taglen refl)))

  check_tag_lem : (k : ℕ) → k ≡ taglen → check_tag l.evp s.d₁ taglen s.tag ≡ ok s.d₂
  unfolding check_tag
  check_tag_lem zero e = rw (s.no_tag (sym e), s.dec_untagged (sym e))
  check_tag_lem (suc k) e =
      rw (lt→ltb 0 (length s.tag) (omega (arith, tag_size taglen refl)), s.dec_tag (omega arith))

  -- The output is the iv, the encrypted text and the tag.
  pub encrypt_openssl_lem :
      (r : ℕ)
      → length iv ≡ l.evp.iv_length cipher
      → iv ≡ l.sodium.random_bytes r (l.evp.iv_length cipher)
      → length text < 2 ^ 31
      → encrypt_openssl l cipher taglen text key r ≡ ok (iv ++ s.body ++ s.last ++ s.tag, suc r)
  unfolding encrypt_openssl
  encrypt_openssl_lem r hl e h =
      let n = l.evp.iv_length cipher + length text + l.evp.block_size cipher + taglen in
      let upd = rw (← as_int_small (length text) h) at s.enc_update in
      let total = sizes.encrypt_final_size cipher key iv text s.enc_init s.enc_update s.enc_final in
      rw (← e) (
        rw (put_fits n [] iv (omega arith), s.enc_init, as_int_small (length text) h, s.enc_update)
          (rw (put_fits n iv s.body (omega arith), s.enc_final)
            (rw (
              put_fits n (iv ++ s.body) s.last (omega (arith, length-append iv s.body)),
              append_tag_lem taglen n (iv ++ s.body ++ s.last) refl
                  (omega (arith, length-append iv s.body, length-append (iv ++ s.body) s.last)),
            ))))

  final_size :
      (k : ℕ)
      → k ≡ taglen
      → (body : Bytes) → l.evp.decrypt_update s.d₀ body (length body) ≡ some (s.front, s.d₁)
      → length s.front + length s.back ≤ length body + l.evp.block_size cipher
  final_size zero e body upd =
      sizes.decrypt_final_size cipher key iv body s.tag taglen s.dec_init upd
        (inl (s.dec_untagged (sym e))) s.dec_final
  final_size (suc k) e body upd =
      sizes.decrypt_final_size cipher key iv body s.tag taglen s.dec_init upd
        (inr (s.dec_tag (omega arith))) s.dec_final

  decrypt_parts_lem :
      (body : Bytes)
      → body ≡ s.body ++ s.last
      → length iv ≡ l.evp.iv_length cipher
      → length body < 2 ^ 31
      → decrypt_parts l cipher taglen iv body s.tag key ≡ ok text
  unfolding decrypt_parts
  decrypt_parts_lem body e hl h =
      let upd = rw (← e) at s.dec_update in
      let n = length body + l.evp.block_size cipher in
      let part = sizes.decrypt_update_size cipher key iv body s.dec_init upd in
      rw (
        le→leb (l.evp.iv_length cipher) (length iv) (omega arith),
        s.dec_init,
        as_int_small (length body) h,
        upd,
        put_fits n [] s.front (omega arith),
        check_tag_lem taglen refl,
        s.dec_final,
        put_fits n s.front s.back (final_size taglen refl body upd),
        s.restored,
      )

  pub decrypt_openssl_lem :
      length iv ≡ l.evp.iv_length cipher
      → length (s.body ++ s.last) < 2 ^ 31
      → decrypt_openssl l cipher taglen (iv ++ s.body ++ s.last ++ s.tag) key ≡ ok text
  decrypt_openssl_lem hl h =
      rw
        (
          append_assoc iv s.body s.last,
          append_assoc iv (s.body ++ s.last) s.tag,
          decrypt_openssl_parts l cipher taglen iv (s.body ++ s.last) s.tag key hl
              (tag_size taglen refl),
        )
        (decrypt_parts_lem (s.body ++ s.last) refl hl h)
