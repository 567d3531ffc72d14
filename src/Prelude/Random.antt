-- ===== src/Prelude/Random.antt =====
-- A source of random numbers (`math/rand`'s *Rand): any stream of numbers and how many were drawn.
-- A theorem over every stream holds whatever the generator returns.
use Prim.Native.Nat.{ℕ, ◌+◌, ◌%◌, ◌<◌}
use native.Mathlib.Omega.{arith}

pub record Rng : Type 0 where
  pub stream : ℕ → ℕ
  pub drawn : ℕ

-- `rng.Intn(n)`, for 0 < n: the callers never ask for a number below 0.
unfoldable pub intn : ℕ → Rng → ℕ × Rng
intn n r = (r.stream r.drawn % n, record r { drawn = r.drawn + 1 })

pub intn-lt : (n : ℕ) (r : Rng) → 0 < n → (intn n r).0 < n
unfolding intn
intn-lt n r h = grind arith
