-- ===== src/Samples/Json.antt =====
-- A stand-in for nlohmann::json: a value is its text, and an object is its fields, each key and
-- value behind its length.
use libonionrequests.Common.{
  ℕ, zero, suc, ◌≤◌, ◌≡◌, refl, ap, Bytes, List, [], ◌∷◌, ◌++◌, length, take, drop, take-append,
  drop-append, length-append, map, lookup, none, some, arith,
}
use libonionrequests.Libs.Json.{Json, ObjectLaws, fields_size}

abbrev write : List (Bytes × Bytes) → Bytes
write [] = []
write ((k, v) ∷ fields) = length k ∷ (k ++ (length v ∷ (v ++ write fields)))

abbrev entries : ℕ → Bytes → List (Bytes × Bytes)
entries zero text = []
entries (suc fuel) [] = []
entries (suc fuel) (n ∷ text) = elim (drop n text) [
  | [] ↦ []
  | m ∷ rest ↦ (take n text, take m rest) ∷ entries fuel (drop m rest)
]

abbrev values : List (Bytes × Bytes) → List Bytes
values = map (λ f. f.1)

abbrev pub sample_json : Json
sample_json = record {
  Value = Bytes;
  parse = λ t. some t;
  dump = λ v. some v;
  null = [];
  boolean = λ b. [];
  string = λ s. s;
  number = λ n. n ∷ [];
  object = write;
  find = λ v k. lookup k (entries (length v) v);
  at = λ v k. lookup k (entries (length v) v);
  get_string = λ v. some v;
  get_uint16 = λ v. elim v [ [] ↦ none | n ∷ rest ↦ some n ];
  elements = λ v. values (entries (length v) v);
}

write_count : (fields : List (Bytes × Bytes)) → length fields ≤ length (write fields)
write_count [] = omega arith
write_count ((k, v) ∷ fields) = omega (
  arith,
  length-append k (length v ∷ (v ++ write fields)),
  length-append v (write fields),
  write_count fields,
)

entries-write :
    (fuel : ℕ) (fields : List (Bytes × Bytes))
    → length fields ≤ fuel
    → entries fuel (write fields) ≡ fields
entries-write zero [] h = refl
entries-write (suc fuel) [] h = refl
entries-write zero (f ∷ fields) h = absurd (omega arith)
entries-write (suc fuel) ((k, v) ∷ fields) h = rw (
  (drop-append (length k) k (length v ∷ (v ++ write fields)) refl),
  entries,
  (take-append (length k) k (length v ∷ (v ++ write fields)) refl),
  (take-append (length v) v (write fields) refl),
  (drop-append (length v) v (write fields) refl),
  entries-write fuel fields (omega arith),
)

write_size : (fields : List (Bytes × Bytes)) → length (write fields) ≤ fields_size fields
write_size [] = omega arith
write_size ((k, v) ∷ fields) = omega (
  arith,
  length-append k (length v ∷ (v ++ write fields)),
  length-append v (write fields),
  write_size fields,
)

same_fields : (fields : List (Bytes × Bytes)) → map (λ f. (f.0, f.1)) fields ≡ fields
same_fields [] = refl
same_fields (f ∷ fields) = ap (◌∷◌ f) (same_fields fields)

pub entries_object :
    (fields : List (Bytes × Bytes)) → entries (length (write fields)) (write fields) ≡ fields
entries_object fields = entries-write (length (write fields)) fields (write_count fields)

pub sample_objects : ObjectLaws sample_json
sample_objects = record {
  parse-dump = λ fields h. (
    write (map (λ f. (f.0, f.1)) fields),
    refl,
    refl,
    rw (same_fields fields) (write_size fields),
  );
  find_present = λ fields k v e. rw (same_fields fields, entries_object fields) e;
  find_missing = λ fields k e. rw (same_fields fields, entries_object fields) e;
  get_string_lem = λ s. refl;
}
