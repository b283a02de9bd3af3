-- ===== src/Server/Authorization/Compare.antt =====
-- services/jrip-server/src/authorization.rs: the comparison of tokens, which does not stop at a difference.
use Prim.Native.Nat.{bit_or, bit_xor}
use rip_server.Common.{
  ℕ, zero, suc, ◌<◌, ◌≡◌, ◌↔◌, refl, ap, Bool, true, ◌&&◌, [], ◌∷◌, ltb, ◌==◌, Bool-cases, inl, inr,
  if◌then◌else◌, length, All, ==_iff, arith,
}
use rip_server.Common.Bytes.{Bytes}
use rip_server.Server.Authorization.{equal, differences}

unfoldable all_below : ℕ → (ℕ → Bool) → Bool
all_below zero p = true
all_below (suc n) p = p n && all_below n p

all_below-lt : (n : ℕ) (p : ℕ → Bool) (i : ℕ) → all_below n p ≡ true → i < n → p i ≡ true
unfolding all_below
all_below-lt zero p i h l = elim l [ ]
all_below-lt (suc n) p i h l = elim (Bool-cases (i == n)) [
  | inl here ↦ rw ((==_iff i n).0 here) (ground (arith, h))
  | inr before ↦ all_below-lt n p i (ground (arith, h)) (ground (arith, l, before))
]

-- The difference of two bytes is a byte, and 0 of equals only.
abbrev xor_byte : ℕ → ℕ → Bool
xor_byte a b = ltb (bit_xor a b) 256 && (if a == b then bit_xor a b == 0 else ltb 0 (bit_xor a b))

-- Two differences together are a byte, and 0 only if both are.
abbrev or_byte : ℕ → ℕ → Bool
or_byte a b =
    ltb (bit_or a b) 256 && (if a == 0 && b == 0 then bit_or a b == 0 else ltb 0 (bit_or a b))

xor_table : all_below 256 (λ a. all_below 256 (xor_byte a)) ≡ true
unfolding all_below
xor_table = refl

or_table : all_below 256 (λ a. all_below 256 (or_byte a)) ≡ true
unfolding all_below
or_table = refl

xor_holds : (a b : ℕ) → a < 256 → b < 256 → xor_byte a b ≡ true
xor_holds a b h k =
    all_below-lt 256 (xor_byte a) b
      (all_below-lt 256 (λ a. all_below 256 (xor_byte a)) a xor_table h) k

or_holds : (a b : ℕ) → a < 256 → b < 256 → or_byte a b ≡ true
or_holds a b h k =
    all_below-lt 256 (or_byte a) b (all_below-lt 256 (λ a. all_below 256 (or_byte a)) a or_table h)
      k

-- Every element is a byte.
abbrev pub AreBytes : Bytes → Type 0
AreBytes b = All (λ x. x < 256) b

joined :
    (n x y : ℕ)
    → n < 256
    → x < 256
    → y < 256
    → (bit_or n (bit_xor x y) < 256) × ((bit_or n (bit_xor x y) ≡ 0) ↔ ((n ≡ 0) × (x ≡ y)))
joined n x y hn hx hy =
    let one = xor_holds x y hx hy in
    let small : bit_xor x y < 256 = ground (arith, one) in
    let two = or_holds n (bit_xor x y) hn small in (ground (arith, two), ground (arith, one, two))

differences_iff :
    (a b : Bytes) (n : ℕ)
    → n < 256
    → length a ≡ length b
    → AreBytes a
    → AreBytes b
    → (differences n a b ≡ 0) ↔ ((n ≡ 0) × (a ≡ b))
unfolding differences
differences_iff [] [] n h l ha hb = ground arith
differences_iff [] (y ∷ b) n h l ha hb = ground (arith, l)
differences_iff (x ∷ a) [] n h l ha hb = ground (arith, l)
differences_iff (x ∷ a) (y ∷ b) n h l ha hb =
    let (small, zero_iff) = joined n x y h ha.0 hb.0 in
    let rest = differences_iff a b (bit_or n (bit_xor x y)) small (omega (arith, l)) ha.1 hb.1 in
    ground (arith, zero_iff, rest)

-- The comparison that runs over all bytes finds exactly the equal tokens.
pub equal_iff : (a b : Bytes) → AreBytes a → AreBytes b → (equal a b ≡ true) ↔ (a ≡ b)
unfolding equal
equal_iff a b ha hb = elim (Bool-cases (length a == length b)) [
  | inl same ↦
      let l = (==_iff (length a) (length b)).0 same in
      let d = differences_iff a b 0 (omega arith) l ha hb in
      ground (arith, same, d, ==_iff (differences 0 a b) 0)
  | inr other ↦ (λ e. ground (arith, e, other), λ p. absurd (ground (arith, other, ap length p)))
]
