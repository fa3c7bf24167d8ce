-- ===== src/Channel/Exchange.antt =====
-- The two ends of a channel: their keys, and what XChaCha20 and OpenSSL do with one key.
use libonionrequests.Common.{
  ℕ, suc, ◌+◌, ◌-◌, ◌≤◌, ◌≡◌, refl, Bool, true, false, not, Bytes, [], ◌∷◌, ◌++◌, length,
  take-append, drop-append, le→leb, ok, arith, some,
}
use libonionrequests.Libs.Sodium.{
  Sodium, ExchangeLaws, SizeLaws, AeadLaws, npubbytes, abytes, keybytes,
}
use libonionrequests.Channel.Chacha.{xchacha20_shared_key, seal, unseal}

-- What the documentation of libsodium promises.
pub record SodiumLaws (s : Sodium) : Type 0 where
  pub exchange : ExchangeLaws s
  pub sizes : SizeLaws s
  pub aead : AeadLaws s

module _ (s : Sodium) (laws : SodiumLaws s) where
  open laws use {exchange, sizes, aead}

  -- The client that hashes its own key first and the server that hashes it second get one key.
  pub shared_key_agrees :
      (a b : Bytes)
      → length a ≡ 32
      → length b ≡ 32
      → (k : Bytes) × (xchacha20_shared_key s (s.scalarmult_base a) a (s.scalarmult_base b) true
          ≡ ok k)
        × (xchacha20_shared_key s (s.scalarmult_base b) b (s.scalarmult_base a) false ≡ ok k)
        × (length k ≡ keybytes)
  unfolding xchacha20_shared_key
  shared_key_agrees a b ha hb =
      let (z, e, f, size) = exchange.agreement a b ha hb in
      let parts = z ∷ s.scalarmult_base a ∷ s.scalarmult_base b ∷ [] in
      (s.generichash keybytes parts, rw e, rw f, sizes.length-generichash keybytes parts)

  module _ (pub_key sec_key other : Bytes) (server : Bool) {k : Bytes} where
    pub seal_lem :
        xchacha20_shared_key s pub_key sec_key other (not server) ≡ ok k
        → (text : Bytes) (r : ℕ)
        → let nonce = s.random_bytes r npubbytes in
          seal s pub_key sec_key server text other r
          ≡ ok (nonce ++ s.aead_encrypt nonce k text, suc r)
    unfolding seal
    seal_lem e text r = rw e (rw (le→leb _ _ fits))
      where
        fits :
            npubbytes + length (s.aead_encrypt (s.random_bytes r npubbytes) k text)
            ≤ npubbytes + length text + abytes
        fits = omega (arith, aead.length-aead_encrypt (s.random_bytes r npubbytes) k text)

    pub unseal_lem :
        xchacha20_shared_key s pub_key sec_key other (not server) ≡ ok k
        → (nonce c text : Bytes) → length nonce ≡ npubbytes
        → s.aead_decrypt nonce k c ≡ some text
        → unseal s pub_key sec_key server (nonce ++ c) other ≡ ok text
    unfolding unseal
    unseal_lem e nonce c text h d =
        let size = aead.length-aead_decrypt nonce k c text d in
        rw (take-append npubbytes nonce c h, drop-append (length nonce) nonce c refl)
          (rw
            (
              le→leb abytes (length c) (omega arith),
              e,
              le→leb npubbytes (length nonce) (omega arith),
              d,
            )
            (rw (le→leb (length text) (length c - abytes) (omega arith))))
