-- ===== src/RateLimit/Arith.antt =====
-- Arithmetic of the token bucket.
use rip_server.Common.{ℕ, ◌+◌, ◌-◌, ◌*◌, ◌≤◌, ◌<◌, ◌≡◌, arith, suc}
use rip_server.Common.Division.{div_ceil, div_ceil_cover, div_ceil_tight}
use rip_server.RateLimit.{second}

pub mul_elapsed : (p a b : ℕ) → a ≤ b → (b - a) * p + a * p ≡ b * p
mul_elapsed p a b h = grind arith

pub mul_mono : (p a b : ℕ) → a ≤ b → a * p ≤ b * p
mul_mono p a b h = grind arith

-- The whole seconds that pay for `owed` at the rate `p` a nanosecond.
abbrev pub seconds_for : ℕ → ℕ → ℕ
seconds_for owed p = div_ceil (div_ceil owed p) second

div_ceil_le : (a b : ℕ) → 0 < b → div_ceil a b ≤ a
div_ceil_le a b h =
    ground (arith, div_ceil_tight a b h, mul_mono b (suc a) (div_ceil a b), mul_mono a 1 b)

-- Waiting for them pays the debt.
pub seconds_for_enough :
    (owed p elapsed : ℕ) → 0 < p → seconds_for owed p * second ≤ elapsed → owed ≤ elapsed * p
seconds_for_enough owed p elapsed h wait = omega (
  arith,
  div_ceil_cover owed p h,
  div_ceil_cover (div_ceil owed p) second (omega arith),
  mul_mono p (div_ceil owed p) elapsed
      (omega (arith, div_ceil_cover (div_ceil owed p) second (omega arith))),
)

-- Waiting a second less does not.
pub seconds_for_needed :
    (owed p elapsed : ℕ)
    → 0 < p
    → elapsed + second ≤ seconds_for owed p * second
    → elapsed * p < owed
seconds_for_needed owed p elapsed h wait = omega (
  arith,
  div_ceil_tight owed p h,
  mul_mono p (suc elapsed) (div_ceil owed p)
      (omega (arith, div_ceil_tight (div_ceil owed p) second (omega arith))),
)

pub seconds_for_bound : (owed p : ℕ) → 0 < p → seconds_for owed p ≤ owed
seconds_for_bound owed p h =
    omega (arith, div_ceil_le owed p h, div_ceil_le (div_ceil owed p) second (omega arith))
