-- ===== src/Channel/Chacha.antt =====
-- The XChaCha20-Poly1305 half of channel_encryption.cpp, over the fields of `ChannelEncryption`.
pub mod Defined
use libonionrequests.Common.{
  suc, ◌+◌, ◌-◌, Bool, not, Bytes, [], ◌∷◌, ◌++◌, length, take, drop, leb, if◌then◌else◌, Result,
  ok, guard, requires, or_throw, ◌>>=◌, ◌>>◌, runtime_error, Random,
}
use libonionrequests.Libs.Sodium.{Sodium, npubbytes, abytes, keybytes}

module _ (s : Sodium) where
  unfoldable pub xchacha20_shared_key : Bytes → Bytes → Bytes → Bool → Result Bytes
  xchacha20_shared_key local_pub local_sec remote_pub local_first = do
    key ← or_throw (s.scalarmult local_sec remote_pub) runtime_error
    let one = if local_first then local_pub else remote_pub
    let two = if local_first then remote_pub else local_pub
    ok (s.generichash keybytes (key ∷ one ∷ two ∷ []))

  module _ (public_key private_key : Bytes) (server : Bool) where
    -- `encrypt_xchacha20`: the nonce, and the sealed text behind it, in a string resized in advance.
    unfoldable pub seal : Bytes → Bytes → Random Bytes
    seal plaintext pubkey r = do
      let size = npubbytes + length plaintext + abytes
      key ← xchacha20_shared_key public_key private_key pubkey (not server)
      let nonce = s.random_bytes r npubbytes
      let c = s.aead_encrypt nonce key plaintext
      requires (leb (npubbytes + length c) size)
      ok (nonce ++ c, suc r)

    -- `decrypt_xchacha20`: the nonce is read through a pointer, all its length.
    unfoldable pub unseal : Bytes → Bytes → Result Bytes
    unseal ciphertext pubkey = do
      let nonce = take npubbytes ciphertext
      let rest = drop (length nonce) ciphertext
      guard (leb abytes (length rest)) runtime_error
      key ← xchacha20_shared_key public_key private_key pubkey (not server)
      requires (leb npubbytes (length nonce))
      plaintext ← or_throw (s.aead_decrypt nonce key rest) runtime_error
      requires (leb (length plaintext) (length rest - abytes))
      ok plaintext
