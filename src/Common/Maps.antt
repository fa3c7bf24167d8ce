-- ===== src/Common/Maps.antt =====
-- `std::unordered_map` with keys of bytes, as an association list.
use mathlib.Core.Path.{◌≡◌, refl}
use mathlib.Core.List.{List, [], ◌∷◌}
use mathlib.Core.Option.{none, some}
use native.Mathlib.Omega.{arith}
use libonionrequests.Common.Tests.{if◌then◌else◌}
use libonionrequests.Common.Text.{Bytes, bytes_eq, bytes_eq_iff, lookup}

module _ {ℓ} {V : Type ℓ} where
  -- `map[k] = v`.
  unfoldable pub insert_or_assign : Bytes → V → List (Bytes × V) → List (Bytes × V)
  insert_or_assign k v [] = (k, v) ∷ []
  insert_or_assign k v ((j, w) ∷ m) =
      if bytes_eq j k then (j, v) ∷ m else (j, w) ∷ insert_or_assign k v m

  -- `map.emplace(k, v)`, which keeps an entry that is there.
  unfoldable pub emplace : Bytes → V → List (Bytes × V) → List (Bytes × V)
  emplace k v [] = (k, v) ∷ []
  emplace k v ((j, w) ∷ m) = if bytes_eq j k then (j, w) ∷ m else (j, w) ∷ emplace k v m

  pub lookup-insert_or_assign :
      (i k : Bytes) (v : V) (m : List (Bytes × V))
      → lookup i (insert_or_assign k v m) ≡ (if bytes_eq k i then some v else lookup i m)
  unfolding insert_or_assign
  lookup-insert_or_assign i k v [] = refl
  lookup-insert_or_assign i k v ((j, w) ∷ m) =
      ground (
        arith,
        bytes_eq_iff k i,
        bytes_eq_iff j k,
        bytes_eq_iff j i,
        lookup-insert_or_assign i k v m,
      )

  pub lookup-emplace :
      (i k : Bytes) (v : V) (m : List (Bytes × V))
      → lookup i (emplace k v m)
        ≡ elim (lookup i m) [ some w ↦ some w | none ↦ if bytes_eq k i then some v else none ]
  unfolding emplace
  lookup-emplace i k v [] = refl
  lookup-emplace i k v ((j, w) ∷ m) =
      ground (arith, bytes_eq_iff k i, bytes_eq_iff j k, bytes_eq_iff j i, lookup-emplace i k v m)
