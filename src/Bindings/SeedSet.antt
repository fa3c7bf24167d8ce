-- ===== src/Bindings/SeedSet.antt =====
-- A set made from a list holds each seed once.
use libonionrequests.Common.{
  ℕ, suc, ◌≡◌, refl, ap, sym, ◌∙◌, true, Bool-cases, inl, inr, List, [], ◌∷◌, Bytes, bytes_eq,
  bytes_eq→eq, if◌then◌else◌,
}
use libonionrequests.Bindings.{contains, to_set}

abbrev pub count : Bytes → List Bytes → ℕ
count x [] = 0
count x (seed ∷ seeds) =
    let others = count x seeds in if bytes_eq seed x then suc others else others

contains_eq :
    (x seed : Bytes) (seeds : List Bytes)
    → bytes_eq seed x ≡ true
    → contains x seeds ≡ contains seed seeds
contains_eq x seed seeds h = ap (λ y. contains y seeds) (sym (bytes_eq→eq seed x h))

contains-to_set : (x : Bytes) (seeds : List Bytes) → contains x (to_set seeds) ≡ contains x seeds
unfolding to_set
contains-to_set x [] = refl
contains-to_set x (seed ∷ seeds) =
    let rest = contains-to_set x seeds in
    elim (Bool-cases (bytes_eq seed x)) [
      | inr other ↦ elim (Bool-cases (contains seed (to_set seeds))) [
        | inl e ↦ rw (e, other) rest
        | inr e ↦ rw (e, other) rest
      ]
      | inl same ↦ elim (Bool-cases (contains seed (to_set seeds))) [
        | inl e ↦ rw (e, same) (contains_eq x seed (to_set seeds) same ∙ e)
        | inr e ↦ rw (e, same) refl
      ]
    ]

pub count-to_set :
    (x : Bytes) (seeds : List Bytes) → count x (to_set seeds) ≡ (if contains x seeds then 1 else 0)
unfolding to_set
count-to_set x [] = refl
count-to_set x (seed ∷ seeds) =
    let rest = count-to_set x seeds in
    elim (Bool-cases (bytes_eq seed x)) [
      | inr other ↦ elim (Bool-cases (contains seed (to_set seeds))) [
        | inl e ↦ rw (e, other) rest
        | inr e ↦ rw (e, other) rest
      ]
      | inl same ↦
          let known = sym (contains-to_set x seeds) ∙ contains_eq x seed (to_set seeds) same in
          elim (Bool-cases (contains seed (to_set seeds))) [
            | inl e ↦ rw (e, same) (rest ∙ ap (λ b. if b then 1 else 0) (known ∙ e))
            | inr e ↦ rw (e, same) (ap suc (rest ∙ ap (λ b. if b then 1 else 0) (known ∙ e)))
          ]
    ]
