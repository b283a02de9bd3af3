-- ===== src/Core/Mapping/Search.antt =====
-- crates/rip-core/src/pages.rs: `slice::binary_search` as `delivery_indices` uses it, on a mapping that
-- is strictly ascending.
use rip_server.Common.{
  ℕ, zero, suc, ◌+◌, ◌-◌, ◌/◌, ◌≤◌, ◌<◌, ◌≡◌, refl, inl, inr, List, [], ◌∷◌, some, ltb, length,
  get_elem?, arith, Bool-cases, Option-cases, ◌↔◌,
}
use rip_server.Common.Ascending.{Between}
use rip_server.Core.Mapping.{search_base, binary_search}

-- In an ascending list a smaller value stands at a smaller position.
get_elem?-ge :
    (lo hi : ℕ) (xs : List ℕ) (i b : ℕ) → Between lo hi xs → get_elem? xs i ≡ some b → lo ≤ b
get_elem?-ge lo hi [] i b h p = cc
get_elem?-ge lo hi (x ∷ xs) zero b h p = ground arith
get_elem?-ge lo hi (x ∷ xs) (suc i) b h p = omega (arith, get_elem?-ge (suc x) hi xs i b h.2 p)

pub get_elem?-lt :
    (lo hi : ℕ) (xs : List ℕ) (i j a b : ℕ)
    → Between lo hi xs
    → get_elem? xs i ≡ some a
    → get_elem? xs j ≡ some b
    → i < j
    → a < b
get_elem?-lt lo hi [] i j a b h p q l = cc
get_elem?-lt lo hi (x ∷ xs) i zero a b h p q l = absurd (omega arith)
get_elem?-lt lo hi (x ∷ xs) zero (suc j) a b h p q l =
    ground (arith, get_elem?-ge (suc x) hi xs j b h.2 q)
get_elem?-lt lo hi (x ∷ xs) (suc i) (suc j) a b h p q l =
    get_elem?-lt (suc x) hi xs i j a b h.2 p q (omega arith)

pub get_elem?-order :
    (lo hi : ℕ) (xs : List ℕ) (i j a b : ℕ)
    → Between lo hi xs
    → get_elem? xs i ≡ some a
    → get_elem? xs j ≡ some b
    → a < b
    → i < j
get_elem?-order lo hi xs i j a b h p q l = ground (arith, get_elem?-lt lo hi xs j i b a h q p)

pub get_elem?-below : (xs : List ℕ) (i : ℕ) {a : ℕ} → get_elem? xs i ≡ some a → i < length xs
get_elem?-below [] i e = cc
get_elem?-below (x ∷ xs) zero e = omega arith
get_elem?-below (x ∷ xs) (suc i) e = omega (arith, get_elem?-below xs i e)

get_elem?-length : (xs : List ℕ) (i : ℕ) → i < length xs → (a : ℕ) × (get_elem? xs i ≡ some a)
get_elem?-length [] i h = elim h [ ]
get_elem?-length (x ∷ xs) zero h = (x, refl)
get_elem?-length (x ∷ xs) (suc i) h = get_elem?-length xs i (omega arith)

-- The part from `base` of length `size` keeps the position `k` of the target, until it is alone.
search_base-eq :
    (lo hi : ℕ) (fuel : ℕ) (m : List ℕ) (target base size k : ℕ)
    → Between lo hi m
    → get_elem? m k ≡ some target
    → base + size ≤ length m
    → base ≤ k
    → k < base + size
    → size ≤ suc fuel
    → search_base fuel m target base size ≡ k
unfolding search_base
search_base-eq lo hi zero m target base size k h e b l u f = omega arith
search_base-eq lo hi (suc fuel) m target base size k h e b l u f =
    let half = size / 2 in
    elim (Bool-cases (ltb 1 size)) [
      | inr alone ↦ ground arith
      | inl more ↦
          let (x, at) = get_elem?-length m (base + half) (ground arith) in
          let left = get_elem?-lt lo hi m (base + half) k x target h at e in
          let right = get_elem?-lt lo hi m k (base + half) target x h e at in
          let keep = search_base-eq lo hi fuel m target in
          ground (
            arith,
            left,
            right,
            keep base (size - half) k h e,
            keep (base + half) (size - half) k h e,
          )
    ]

-- On an ascending list the search finds the target exactly at the position that holds it, and
-- nothing when no position does.
pub binary_search_iff :
    (lo hi : ℕ) (m : List ℕ) (target k : ℕ)
    → Between lo hi m
    → (binary_search m target ≡ some k) ↔ (get_elem? m k ≡ some target)
unfolding binary_search
binary_search_iff lo hi m target k h = (
  λ e. elim (Option-cases (get_elem? m (search_base (length m) m target 0 (length m)))) [
    | inl gone ↦ ground arith
    | inr (x, at) ↦ ground arith
  ],
  λ e.
      let found =
        search_base-eq lo hi (length m) m target 0 (length m) k h e (omega arith) (omega arith)
          (omega (arith, get_elem?-below m k e)) (omega arith) in
      ground (arith, found),
)
