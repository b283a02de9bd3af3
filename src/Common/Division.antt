-- ===== src/Common/Division.antt =====
-- `div_ceil` of Rust's integers, and what the rounding adds.
use native.Mathlib.Nat.{div-add-mod', mod-lt}
use rip_server.Common.{
  ℕ, ◌+◌, ◌*◌, ◌/◌, ◌%◌, ◌≤◌, ◌<◌, arith, ◌==◌, if◌then◌else◌, Bool-cases, ==_iff, inl, inr,
}

-- `div_ceil`
unfoldable pub div_ceil : ℕ → ℕ → ℕ
div_ceil a b = if a % b == 0 then a / b else a / b + 1

-- The rounded quotient covers the dividend, by less than one divisor.
pub div_ceil_cover : (a b : ℕ) → 0 < b → a ≤ div_ceil a b * b
unfolding div_ceil
div_ceil_cover a b h = elim (Bool-cases (a % b == 0)) [
  | inl exact ↦ rw exact (omega (arith, div-add-mod' a b, (==_iff (a % b) 0).0 exact))
  | inr more ↦ rw more (omega (arith, div-add-mod' a b, mod-lt a h))
]

pub div_ceil_tight : (a b : ℕ) → 0 < b → div_ceil a b * b < a + b
unfolding div_ceil
div_ceil_tight a b h = elim (Bool-cases (a % b == 0)) [
  | inl exact ↦ rw exact (omega (arith, div-add-mod' a b))
  | inr more ↦ rw more (ground (arith, div-add-mod' a b))
]
