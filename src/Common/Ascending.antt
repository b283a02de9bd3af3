-- ===== src/Common/Ascending.antt =====
-- Strictly ascending lists of numbers within bounds, and membership in them as a test.
use Prim.Native.Nat.{ℕ, suc, ◌≤◌, ◌<◌}
use mathlib.Core.Path.{◌≡◌, refl}
use mathlib.Core.Bool.{Bool, ◌||◌}
use mathlib.Core.List.{List, [], ◌∷◌, ◌++◌}
use native.Mathlib.Omega.{arith}
use rip_server.Common.Lists.{any}
use rip_server.Common.Tests.{◌==◌}

-- The number is in the list.
abbrev pub has : ℕ → List ℕ → Bool
has i xs = any (λ x. x == i) xs

pub has-append : (i : ℕ) (xs ys : List ℕ) → has i (xs ++ ys) ≡ (has i xs || has i ys)
has-append i [] ys = refl
has-append i (x ∷ xs) ys = ground (arith, has-append i xs ys)

-- The list ascends from `lo` and stays below `hi`.
abbrev pub Between : ℕ → ℕ → List ℕ → Type 0
Between lo hi [] = Unit
Between lo hi (x ∷ xs) = (lo ≤ x) × (x < hi) × Between (suc x) hi xs

pub Between-weaken : (lo lo' hi : ℕ) (xs : List ℕ) → lo' ≤ lo → Between lo hi xs → Between lo' hi xs
Between-weaken lo lo' hi [] h b = tt
Between-weaken lo lo' hi (x ∷ xs) h (a, b, c) = (omega arith, b, c)
