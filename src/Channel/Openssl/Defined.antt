-- ===== src/Channel/Openssl/Defined.antt =====
-- `encrypt_openssl` and `decrypt_openssl` keep inside their buffers.
use libonionrequests.Common.{
  ℕ, ◌+◌, ◌-◌, ◌≤◌, ◌<◌, ◌^◌, ◌≡◌, ◌≢◌, ◌⊎◌, inl, inr, refl, Bytes, [], ◌++◌, length, take, drop,
  length-append, length-take, length-drop, le→leb, leb→le, leb, ltb, Result, ok, undefined,
  guard-Defined, runtime_error, Option-cases, ◌>>=◌, err, arith, some, Bool-cases,
}
use libonionrequests.Libs.{Libs}
use libonionrequests.Libs.Sodium.{SizeLaws}
use libonionrequests.Libs.Evp.{Cipher, EvpSizes}
use libonionrequests.Channel.Buffer.{Buffer, put, put_fits}
use libonionrequests.Channel.Openssl.{
  encrypt_openssl, decrypt_openssl, append_tag, check_tag, as_int, decrypt_parts,
}

as_int_small : (n : ℕ) → n < 2 ^ 31 → as_int n ≡ n
as_int_small n h = omega arith

-- A step that writes goes on with the buffer that `put_fits` shows.
put-Defined :
    (n : ℕ) (done text : Bytes) (f : Buffer → Result Bytes)
    → length done + length text ≤ n
    → f (record { size = n; written = done ++ text }) ≢ undefined
    → (put (record { size = n; written = done }) text >>= f) ≢ undefined
put-Defined n done text f h k = rw (put_fits n done text h) k

module _ (l : Libs) (sizes : EvpSizes l.evp) (cipher : Cipher) (taglen : ℕ) (key : Bytes) where
  check_tag_cases :
      (ctx : l.evp.Context) (tag : Bytes)
      → (check_tag l.evp ctx taglen tag ≡ err runtime_error)
        ⊎ ((u : l.evp.Context) × (check_tag l.evp ctx taglen tag ≡ ok u)
            × ((u ≡ ctx) ⊎ (l.evp.set_tag ctx taglen tag ≡ some u)))
  unfolding check_tag
  check_tag_cases ctx tag = elim (Bool-cases (ltb 0 (length tag))) [
    | inr plain ↦ rw plain (inr (ctx, refl, inl refl))
    | inl tagged ↦ elim (Option-cases (l.evp.set_tag ctx taglen tag)) [
      | inl e ↦ rw (tagged, e) (inl refl)
      | inr (u, e) ↦ inr (u, rw (tagged, e), inr e)
    ]
  ]

  append_tag_cases :
      (ctx : l.evp.Context) (n : ℕ) (done : Bytes)
      → length done + taglen ≤ n
      → (append_tag l.evp ctx taglen (record { size = n; written = done }) ≡ err runtime_error)
        ⊎ ((o : Buffer) × (append_tag l.evp ctx taglen (record { size = n; written = done })
              ≡ ok o))
  unfolding append_tag
  append_tag_cases ctx n done h = elim (Bool-cases (ltb 0 taglen)) [
    | inr plain ↦ inr (record { size = n; written = done }, rw plain)
    | inl tagged ↦ elim (Option-cases (l.evp.get_tag ctx taglen)) [
      | inl e ↦ inl (rw (tagged, e))
      | inr (tag, e) ↦ inr (
        record { size = n; written = done ++ tag },
        rw (tagged, e) (put_fits n done tag (omega (arith, sizes.get_tag_size ctx taglen e))),
      )
    ]
  ]

  decrypt_parts-Defined :
      (iv body tag : Bytes)
      → length iv ≡ l.evp.iv_length cipher
      → length body < 2 ^ 31
      → decrypt_parts l cipher taglen iv body tag key ≢ undefined
  unfolding decrypt_parts
  decrypt_parts-Defined iv body tag hi hb =
      let n = length body + l.evp.block_size cipher in
      rw (le→leb (l.evp.iv_length cipher) (length iv) (omega arith), as_int_small (length body) hb)
        (elim (Option-cases (l.evp.decrypt_init cipher key iv)) [
          | inl e ↦ rw e (λ p. cc)
          | inr (ctx₀, e₀) ↦ elim (Option-cases (l.evp.decrypt_update ctx₀ body (length body))) [
            | inl e ↦ rw (e₀, e) (λ p. cc)
            | inr ((front, ctx₁), e₁) ↦
                let part = sizes.decrypt_update_size cipher key iv body e₀ e₁ in
                rw (e₀, e₁, put_fits n [] front (omega arith))
                  (elim (check_tag_cases ctx₁ tag) [
                    | inl e ↦ rw e (λ p. cc)
                    | inr (ctx₂, c, e₂) ↦ elim (Option-cases (l.evp.decrypt_final ctx₂)) [
                      | inl e ↦ rw (c, e) (λ p. cc)
                      | inr ((back, ctx₃), e₃) ↦
                          let total =
                            sizes.decrypt_final_size cipher key iv body tag taglen e₀ e₁ e₂ e₃ in
                          rw (c, e₃, put_fits n front back total) (λ p. cc)
                    ]
                  ])
          ]
        ])

  -- An input that leaves room for the iv, or that the tag's size test turns away, is safe.
  pub decrypt_openssl-Defined :
      (c : Bytes)
      → length c < 2 ^ 31
      → (l.evp.iv_length cipher ≤ length c) ⊎ (0 < taglen)
      → decrypt_openssl l cipher taglen c key ≢ undefined
  unfolding decrypt_openssl
  decrypt_openssl-Defined c hc h =
      let n = l.evp.iv_length cipher in
      let iv = take n c in
      let rest = drop (length iv) c in
      let body = take (length rest - length (drop (length rest - taglen) rest)) rest in
      guard-Defined (leb taglen (length rest)) runtime_error _ λ fits.
        decrypt_parts-Defined iv body (drop (length rest - taglen) rest)
          (iv_size (leb→le taglen (length rest) fits))
          (omega (
            arith,
            length-take (length rest - length (drop (length rest - taglen) rest)) rest,
            length-drop (length iv) c,
          ))
    where
      iv_size :
          taglen ≤ length (drop (length (take (l.evp.iv_length cipher) c)) c)
          → length (take (l.evp.iv_length cipher) c) ≡ l.evp.iv_length cipher
      iv_size fits = omega (
        arith,
        length-take (l.evp.iv_length cipher) c,
        length-drop (length (take (l.evp.iv_length cipher) c)) c,
      )

  -- The buffer that `encrypt_openssl` allocates is large enough.
  pub encrypt_openssl-Defined :
      SizeLaws l.sodium
      → (text : Bytes) (r : ℕ) → length text < 2 ^ 31
      → encrypt_openssl l cipher taglen text key r ≢ undefined
  unfolding encrypt_openssl
  encrypt_openssl-Defined drawn text r ht =
      let ivlen = l.evp.iv_length cipher in
      let iv = l.sodium.random_bytes r ivlen in
      let size = drawn.length-random_bytes r ivlen in
      let n = ivlen + length text + l.evp.block_size cipher + taglen in
      rw (put_fits n [] iv (omega arith), as_int_small (length text) ht)
        (elim (Option-cases (l.evp.encrypt_init cipher key iv)) [
          | inl e ↦ rw e (λ p. cc)
          | inr (ctx₀, e₀) ↦ elim (Option-cases (l.evp.encrypt_update ctx₀ text (length text))) [
            | inl e ↦ rw (e₀, e) (λ p. cc)
            | inr ((body, ctx₁), e₁) ↦
                let part = sizes.encrypt_update_size cipher key iv text e₀ e₁ in
                rw (e₀, e₁, put_fits n iv body (omega arith))
                  (elim (Option-cases (l.evp.encrypt_final ctx₁)) [
                    | inl e ↦ rw e (λ p. cc)
                    | inr ((last, ctx₂), e₂) ↦
                        let total = sizes.encrypt_final_size cipher key iv text e₀ e₁ e₂ in
                        let sum = length-append iv body in
                        rw (e₂, put_fits n (iv ++ body) last (omega arith))
                          (elim (append_tag_cases ctx₂ n (iv ++ body ++ last)
                            (omega (arith, length-append (iv ++ body) last))) [
                              | inl e ↦ rw e (λ p. cc)
                              | inr (o, e) ↦ rw e (λ p. cc)
                            ])
                  ])
          ]
        ])
