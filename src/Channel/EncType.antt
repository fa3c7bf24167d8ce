-- ===== src/Channel/EncType.antt =====
-- `EncryptType` of channel_encryption.hpp, its name and the parser of names.
use libonionrequests.Common.{
  ◌≡◌, ◌↔◌, ◌⊎◌, Bytes, codes, bytes_eq, bytes_eq→eq, ◌||◌, if◌then◌else◌, Result, ok, err,
  runtime_error, refl, arith, inl, inr,
}

pub data EncryptType : Type 0 where
  aes_cbc aes_gcm xchacha20 : EncryptType

unfoldable pub to_string : EncryptType → Bytes
to_string xchacha20 = codes "xchacha20"
to_string aes_gcm = codes "aes-gcm"
to_string aes_cbc = codes "aes-cbc"

unfoldable pub parse_enc_type : Bytes → Result EncryptType
parse_enc_type s =
    if bytes_eq s (codes "xchacha20") || bytes_eq s (codes "xchacha20-poly1305")
    then ok xchacha20
    else if bytes_eq s (codes "aes-gcm") || bytes_eq s (codes "gcm")
    then ok aes_gcm
    else if bytes_eq s (codes "aes-cbc") || bytes_eq s (codes "cbc")
    then ok aes_cbc
    else err runtime_error

-- The name that `to_string` gives is parsed back.
pub parse_enc_type-to_string : (t : EncryptType) → parse_enc_type (to_string t) ≡ ok t
unfolding parse_enc_type to_string
parse_enc_type-to_string xchacha20 = refl
parse_enc_type-to_string aes_gcm = refl
parse_enc_type-to_string aes_cbc = refl

-- The other names that are accepted.
unfoldable pub alias : EncryptType → Bytes
alias xchacha20 = codes "xchacha20-poly1305"
alias aes_gcm = codes "gcm"
alias aes_cbc = codes "cbc"

-- `parse_enc_type` answers `t` on the name of `t` and on its alias, and on nothing else.
pub parse_enc_type_iff :
    (s : Bytes) (t : EncryptType) → (parse_enc_type s ≡ ok t) ↔ ((s ≡ to_string t) ⊎ (s ≡ alias t))
unfolding parse_enc_type to_string alias
parse_enc_type_iff s xchacha20 = (
  λ h.
      ground (arith, bytes_eq→eq s (codes "xchacha20"), bytes_eq→eq s (codes "xchacha20-poly1305")),
  λ h. elim h [ inl e ↦ rw e | inr e ↦ rw e ],
)
parse_enc_type_iff s aes_gcm = (
  λ h. ground (arith, bytes_eq→eq s (codes "aes-gcm"), bytes_eq→eq s (codes "gcm")),
  λ h. elim h [ inl e ↦ rw e | inr e ↦ rw e ],
)
parse_enc_type_iff s aes_cbc = (
  λ h. ground (arith, bytes_eq→eq s (codes "aes-cbc"), bytes_eq→eq s (codes "cbc")),
  λ h. elim h [ inl e ↦ rw e | inr e ↦ rw e ],
)
