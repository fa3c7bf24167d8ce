-- ===== src/Channel/Chacha/Defined.antt =====
-- The XChaCha20 functions keep inside their buffers.
use libonionrequests.Common.{
  ℕ, ◌+◌, ◌-◌, ◌≤◌, ◌≡◌, ◌≢◌, ◌⊎◌, inl, inr, Bytes, [], length, take, drop, length-take,
  length-drop, le→leb, leb→le, leb, if◌then◌else◌, ok, undefined, runtime_error, Option-cases, err,
  arith, some, Bool-cases, not, Bool, ◌∷◌,
}
use libonionrequests.Libs.Sodium.{Sodium, AeadLaws, npubbytes, abytes, keybytes}
use libonionrequests.Channel.Chacha.{xchacha20_shared_key, seal, unseal}

shared_key_cases :
    (s : Sodium) (local_pub local_sec remote_pub : Bytes) (first : Bool)
    → (xchacha20_shared_key s local_pub local_sec remote_pub first ≡ err runtime_error)
      ⊎ ((k : Bytes) × (xchacha20_shared_key s local_pub local_sec remote_pub first ≡ ok k))
unfolding xchacha20_shared_key
shared_key_cases s local_pub local_sec remote_pub first =
    elim (Option-cases (s.scalarmult local_sec remote_pub)) [
      | inl e ↦ inl (rw e)
      | inr (z, e) ↦ inr (
        s.generichash keybytes (
            z
            ∷ (if first then local_pub else remote_pub)
            ∷ (if first then remote_pub else local_pub)
            ∷ []),
        rw e,
      )
    ]

module _ (s : Sodium) (laws : AeadLaws s) (pub_key sec_key : Bytes) (server : Bool) where
  pub seal-Defined :
      (text other : Bytes) (r : ℕ) → seal s pub_key sec_key server text other r ≢ undefined
  unfolding seal
  seal-Defined text other r = elim (shared_key_cases s pub_key sec_key other (not server)) [
    | inl e ↦ rw e (λ p. cc)
    | inr (k, e) ↦
        let nonce = s.random_bytes r npubbytes in
        let fits : npubbytes + length (s.aead_encrypt nonce k text)
            ≤ npubbytes + length text + abytes =
          omega (arith, laws.length-aead_encrypt nonce k text) in
        rw (e, le→leb _ _ fits) (λ p. cc)
  ]

  pub unseal-Defined : (c other : Bytes) → unseal s pub_key sec_key server c other ≢ undefined
  unfolding unseal
  unseal-Defined c other =
      let nonce = take npubbytes c in
      let rest = drop (length nonce) c in
      elim (Bool-cases (leb abytes (length rest))) [
        | inr e ↦ rw e (λ p. cc)
        | inl e ↦ elim (shared_key_cases s pub_key sec_key other (not server)) [
          | inl f ↦ rw (e, f) (λ p. cc)
          | inr (k, f) ↦
              rw
                (e, f, le→leb npubbytes (length nonce) (nonce_size (leb→le abytes (length rest) e)))
                (elim (Option-cases (s.aead_decrypt nonce k rest)) [
                  | inl g ↦ rw g (λ p. cc)
                  | inr (text, g) ↦
                      rw (g, le→leb (length text) (length rest - abytes) (text_size k text g))
                        (λ p. cc)
                ])
        ]
      ]
    where
      nonce_size :
          abytes ≤ length (drop (length (take npubbytes c)) c)
          → npubbytes ≤ length (take npubbytes c)
      nonce_size h =
          omega (arith, length-take npubbytes c, length-drop (length (take npubbytes c)) c)

      text_size :
          (k text : Bytes)
          → s.aead_decrypt (take npubbytes c) k (drop (length (take npubbytes c)) c) ≡ some text
          → length text ≤ length (drop (length (take npubbytes c)) c) - abytes
      text_size k text g = omega (arith, laws.length-aead_decrypt _ k _ text g)
