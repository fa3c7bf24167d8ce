-- ===== src/Channel.antt =====
-- onionreq/channel_encryption.hpp and channel_encryption.cpp. A run of `encrypt` draws its nonce
-- or iv from the random state; `decrypt` draws nothing.
pub mod Buffer
pub mod EncType
pub mod Openssl
pub mod Chacha
pub mod Exchange
pub mod RoundTrip
pub mod Safety
pub mod Sizes
pub mod Authentic
use libonionrequests.Common.{Bool, Bytes, Result, Random, ◌>>=◌}
use libonionrequests.Libs.{Libs}
use libonionrequests.Libs.Evp.{aes_256_cbc, aes_256_gcm}
use EncType.{EncryptType, aes_cbc, aes_gcm, xchacha20}
use Openssl.{encrypt_openssl, decrypt_openssl, calculate_shared_secret, derive_symmetric_key}
use Chacha.{seal, unseal}

pub record ChannelEncryption : Type 0 where
  pub private_key : Bytes
  pub public_key : Bytes
  -- True if this side is the service node.
  pub server : Bool

module _ (l : Libs) (self : ChannelEncryption) where
  unfoldable pub encrypt_cbc : Bytes → Bytes → Random Bytes
  encrypt_cbc plaintext pubkey r = do
    key ← calculate_shared_secret l.sodium self.private_key pubkey
    encrypt_openssl l aes_256_cbc 0 plaintext key r

  unfoldable pub decrypt_cbc : Bytes → Bytes → Result Bytes
  decrypt_cbc ciphertext pubkey = do
    key ← calculate_shared_secret l.sodium self.private_key pubkey
    decrypt_openssl l aes_256_cbc 0 ciphertext key

  unfoldable pub encrypt_gcm : Bytes → Bytes → Random Bytes
  encrypt_gcm plaintext pubkey r = do
    key ← derive_symmetric_key l.sodium self.private_key pubkey
    encrypt_openssl l aes_256_gcm 16 plaintext key r

  unfoldable pub decrypt_gcm : Bytes → Bytes → Result Bytes
  decrypt_gcm ciphertext pubkey = do
    key ← derive_symmetric_key l.sodium self.private_key pubkey
    decrypt_openssl l aes_256_gcm 16 ciphertext key

  unfoldable pub encrypt_xchacha20 : Bytes → Bytes → Random Bytes
  encrypt_xchacha20 plaintext pubkey r =
      seal l.sodium self.public_key self.private_key self.server plaintext pubkey r

  unfoldable pub decrypt_xchacha20 : Bytes → Bytes → Result Bytes
  decrypt_xchacha20 ciphertext pubkey =
      unseal l.sodium self.public_key self.private_key self.server ciphertext pubkey

  unfoldable pub encrypt : EncryptType → Bytes → Bytes → Random Bytes
  encrypt xchacha20 plaintext pubkey r = encrypt_xchacha20 plaintext pubkey r
  encrypt aes_gcm plaintext pubkey r = encrypt_gcm plaintext pubkey r
  encrypt aes_cbc plaintext pubkey r = encrypt_cbc plaintext pubkey r

  unfoldable pub decrypt : EncryptType → Bytes → Bytes → Result Bytes
  decrypt xchacha20 ciphertext pubkey = decrypt_xchacha20 ciphertext pubkey
  decrypt aes_gcm ciphertext pubkey = decrypt_gcm ciphertext pubkey
  decrypt aes_cbc ciphertext pubkey = decrypt_cbc ciphertext pubkey
