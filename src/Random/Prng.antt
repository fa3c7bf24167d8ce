-- ===== src/Random/Prng.antt =====
-- `PRNG`, the generator of onionreq/random.hpp.
use libonionrequests.Common.{ℕ, ◌-◌, ◌^◌, ◌≤◌, ◌<◌, ◌≡◌, subst, length, All, arith}
use libonionrequests.Libs.Oxenc.{IsByte}
use libonionrequests.Libs.Sodium.{Sodium}
use libonionrequests.Node.Hash.{size_of_bytes, size_of_bytes_bound}

unfoldable pub min : ℕ
min = 0

unfoldable pub max : ℕ
max = 2 ^ 64 - 1

-- The call at draw `r`: eight random bytes are written over the number.
unfoldable pub next : Sodium → ℕ → ℕ
next s r = size_of_bytes (s.random_bytes r 8)

-- The generator keeps its promise to the algorithms of the standard library: if the random source gives
-- the bytes that are asked for, a number is never below `min()` nor above `max()`.
pub next_bounded :
    (s : Sodium) (r : ℕ)
    → length (s.random_bytes r 8) ≡ 8
    → All IsByte (s.random_bytes r 8)
    → (min ≤ next s r) × (next s r ≤ max)
unfolding min next max
next_bounded s r size bytes =
    let bound : size_of_bytes (s.random_bytes r 8) < 2 ^ 64 =
      subst (λ n. size_of_bytes (s.random_bytes r 8) < 256 ^ n) size
        (size_of_bytes_bound (s.random_bytes r 8) bytes) in
    (omega arith, omega arith)
