-- ===== src/Xed25519/Assign.antt =====
-- The assignment without a branch is a choice.
use libonionrequests.Common.{
  ◌≡◌, refl, ap₂, Bool, true, false, [], ◌∷◌, Bytes, length, All, arith, if◌then◌else◌,
}
use libonionrequests.Libs.Oxenc.{IsByte}
use libonionrequests.Xed25519.{constant_time_conditional_assign}
use libonionrequests.Xed25519.Xor.{bit_xor-zero, bit_xor-bit_xor, bit_xor-lt_byte, bit_and-masks}

-- Of two byte arrays of one size, the masked assignment leaves the second if the flag is set, and the
-- first if it is not.
pub constant_time_conditional_assign_lem :
    (f g : Bytes) (b : Bool)
    → length f ≡ length g
    → All IsByte f
    → All IsByte g
    → constant_time_conditional_assign f g b ≡ (if b then g else f)
unfolding constant_time_conditional_assign
constant_time_conditional_assign_lem [] [] true e hf hg = refl
constant_time_conditional_assign_lem [] [] false e hf hg = refl
constant_time_conditional_assign_lem [] (y ∷ g) b e hf hg = absurd (omega arith)
constant_time_conditional_assign_lem (x ∷ f) [] b e hf hg = absurd (omega arith)
constant_time_conditional_assign_lem (x ∷ f) (y ∷ g) true e hf hg =
    let rest = constant_time_conditional_assign_lem f g true (omega arith) hf.1 hg.1 in
    ap₂ (λ a l. a ∷ l)
      (rw ((bit_and-masks _ (bit_xor-lt_byte x y hf.0 hg.0)).0) (bit_xor-bit_xor x y)) rest
constant_time_conditional_assign_lem (x ∷ f) (y ∷ g) false e hf hg =
    let rest = constant_time_conditional_assign_lem f g false (omega arith) hf.1 hg.1 in
    ap₂ (λ a l. a ∷ l) (rw ((bit_and-masks _ (bit_xor-lt_byte x y hf.0 hg.0)).1) (bit_xor-zero x))
      rest
