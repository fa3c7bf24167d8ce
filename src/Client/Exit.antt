-- ===== src/Client/Exit.antt =====
-- The exit promise of the client program, which signals and the response set.
use libonionrequests.Common.{
  ℕ, zero, suc, ◌≡◌, ◌↔◌, refl, Option, none, some, Result, ok, err, undefined, ◌>>=◌,
  library_error, arith,
}

-- `std::promise::set_value` throws on a promise that has a value.
unfoldable pub set_value : Option ℕ → ℕ → Result (Option ℕ)
set_value none code = ok (some code)
set_value (some old) code = err library_error

-- `_handle_signal`.
unfoldable pub handle_signal : Option ℕ → Result (Option ℕ)
handle_signal exit_promise = set_value exit_promise 0

unfoldable pub handle_signals : ℕ → Option ℕ → Result (Option ℕ)
handle_signals zero exit_promise = ok exit_promise
handle_signals (suc n) exit_promise = handle_signal exit_promise >>= λ set. handle_signals n set

-- `future.get()`, which waits until there is a value.
unfoldable pub exit_code : ℕ → Result ℕ → Result (Option ℕ)
exit_code signals outcome = do
  exit_promise ← handle_signals signals none
  code ← outcome
  set_value exit_promise code

-- The program ends with the code of its outcome exactly if no signal has arrived before the outcome is
-- set: after a signal, setting it throws.
exit_code_iff :
    (signals : ℕ) (outcome : Result ℕ) (code : ℕ)
    → (exit_code signals outcome ≡ ok (some code)) ↔ ((signals ≡ 0) × (outcome ≡ ok code))
unfolding exit_code handle_signals handle_signal set_value
exit_code_iff zero (ok n) code = (λ h. (refl, cc), λ (e, f). cc)
exit_code_iff zero (err e) code = (λ h. cc, λ (e, f). cc)
exit_code_iff zero undefined code = (λ h. cc, λ (e, f). cc)
exit_code_iff (suc zero) (ok n) code = (λ h. cc, λ (e, f). absurd (omega arith))
exit_code_iff (suc zero) (err e) code = (λ h. cc, λ (e, f). absurd (omega arith))
exit_code_iff (suc zero) undefined code = (λ h. cc, λ (e, f). absurd (omega arith))
exit_code_iff (suc (suc n)) outcome code = (λ h. cc, λ (e, f). absurd (omega arith))
