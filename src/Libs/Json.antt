-- ===== src/Libs/Json.antt =====
-- nlohmann::json. Where the library throws, the model's operation has no result.
use libonionrequests.Common.{
  ℕ, ◌+◌, ◌*◌, ◌≤◌, [], ◌∷◌, length, ◌≡◌, Bool, List, map, Option, some, none, Bytes, lookup, All,
}
use libonionrequests.Libs.Oxenc.{IsAscii}

pub record Json : Type 1 where
  pub Value : Type 0
  -- `json::parse` throws on malformed text, `dump` on a string that is not UTF-8.
  pub parse : Bytes → Option Value
  pub dump : Value → Option Bytes
  -- The constructors that the braces of the sources build.
  pub null : Value
  pub boolean : Bool → Value
  pub string : Bytes → Value
  pub number : ℕ → Value
  pub object : List (Bytes × Value) → Value
  -- `find` is `end()` where the key is missing or the value is no object; `at` throws there.
  pub find : Value → Bytes → Option Value
  pub at : Value → Bytes → Option Value
  -- `get<std::string>` and `get<uint16_t>` throw at a value of another type.
  pub get_string : Value → Option Bytes
  pub get_uint16 : Value → Option ℕ
  -- What a range-for over the value visits.
  pub elements : Value → List Value

-- An object of texts.
abbrev pub object_of_texts : (j : Json) → List (Bytes × Bytes) → j.Value
object_of_texts j fields = j.object (map (λ f. (f.0, j.string f.1)) fields)

abbrev pub IsAsciiField : Bytes × Bytes → Type 0
IsAsciiField (k, v) = IsAscii k × IsAscii v

-- An escaped character takes six bytes at most, and a field adds two pairs of quotes, a colon and
-- a comma.
abbrev pub fields_size : List (Bytes × Bytes) → ℕ
fields_size [] = 2
fields_size ((k, v) ∷ fields) = 6 * length k + 6 * length v + 6 + fields_size fields

-- An object of ASCII texts can be printed and read back, and looking a key up in it gives the
-- first text that stands under the key.
pub record ObjectLaws (j : Json) : Type 0 where
  pub parse-dump :
      (fields : List (Bytes × Bytes))
      → All IsAsciiField fields
      → (text : Bytes) × (j.dump (object_of_texts j fields) ≡ some text)
        × (j.parse text ≡ some (object_of_texts j fields))
        × (length text ≤ fields_size fields)
  pub find_present :
      (fields : List (Bytes × Bytes)) (k v : Bytes)
      → lookup k fields ≡ some v
      → j.find (object_of_texts j fields) k ≡ some (j.string v)
  pub find_missing :
      (fields : List (Bytes × Bytes)) (k : Bytes)
      → lookup k fields ≡ none
      → j.find (object_of_texts j fields) k ≡ none
  pub get_string_lem : (s : Bytes) → j.get_string (j.string s) ≡ some s
