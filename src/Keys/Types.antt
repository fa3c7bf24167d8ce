-- ===== src/Keys/Types.antt =====
-- Keys of each type, printed and read back.
use libonionrequests.Common.{
  ◌≡◌, refl, sym, ap, [], eq→==, ==→eq, if◌then◌else◌, ◌∙◌, Bytes, length, take, take-append,
  append-nil, ok, err, runtime_error, All, Bool-cases, inl, inr, ◌==◌,
}
use libonionrequests.Libs.Oxenc.{Oxenc, HexLaws, IsByte}
use libonionrequests.Keys.{KeyType, key_length, view, load_from_bytes, from_bytes, from_hex, to_hex}
use libonionrequests.Keys.Parse.{write_out_full, from_hex-to_hex}

view_all : (t : KeyType) (key : Bytes) → length key ≡ key_length t → view t key ≡ key
unfolding view
view_all t key h =
    ap (take (key_length t)) (sym (append-nil key)) ∙ take-append (key_length t) key [] h

from_bytes_cases :
    (raw text : Bytes)
    → from_bytes raw text ≡ (if length text == length raw then ok text else err runtime_error)
unfolding from_bytes load_from_bytes
from_bytes_cases raw text = elim (Bool-cases (length text == length raw)) [
  | inl e ↦ rw e (write_out_full text raw (==→eq (length text) (length raw) e))
  | inr e ↦ rw e refl
]

-- Whatever the memory of a new key of one of the six types holds: it is read from text that has the
-- length of the type, and is that text, and of any other text an exception is thrown; a key of the type
-- is read back from its view and from its hex digits.
pub keys_read_back :
    (o : Oxenc) (laws : HexLaws o) (t : KeyType) (raw key text : Bytes)
    → length raw ≡ key_length t
    → length key ≡ key_length t
    → All IsByte key
    → (from_bytes raw text ≡ (if length text == key_length t then ok text else err runtime_error))
      × (from_bytes raw (view t key) ≡ ok key)
      × (from_hex o raw (to_hex o key) ≡ ok key)
keys_read_back o laws t raw key text size_raw size_key bytes =
    let same = size_key ∙ sym size_raw in
    (
      from_bytes_cases raw text ∙ rw size_raw refl,
      rw (view_all t key size_key, from_bytes_cases raw key, eq→== (length key) (length raw) same)
          refl,
      from_hex-to_hex o laws raw key same bytes,
    )
