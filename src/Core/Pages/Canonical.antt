-- ===== src/Core/Pages/Canonical.antt =====
-- crates/rip-core/src/pages.rs: the order that `bounded` establishes.
use rip_server.Common.{
  ℕ, ◌+◌, ◌≤◌, ◌≡◌, refl, ◌≢◌, ◌⊎◌, inl, inr, false, List, [], ◌∷◌, ◌++◌, ltb, length, ok, arith,
  >>=-eq-ok, ap, ◌∙◌, append_assoc, append-nil, reject_if-eq-ok,
}
use rip_server.Core.Pages.{PageRange, PageRanges, add_range, bad_range, add_ranges}
use rip_server.Core.Pages.Strict.{bounded}

-- The ranges start at `lo` or later, end at `maximum` or earlier, and between two of them at least
-- one page is left out.
abbrev pub IsCanonical : ℕ → ℕ → List PageRange → Type 0
IsCanonical lo maximum [] = Unit
IsCanonical lo maximum (r ∷ rs) =
    (lo ≤ r.first) × (r.first ≤ r.last) × (r.last ≤ maximum) × IsCanonical (r.last + 2) maximum rs

pub IsCanonical-weaken :
    (lo lo' maximum : ℕ) (rs : List PageRange)
    → lo' ≤ lo
    → IsCanonical lo maximum rs
    → IsCanonical lo' maximum rs
IsCanonical-weaken lo lo' maximum [] l h = tt
IsCanonical-weaken lo lo' maximum (r ∷ rs) l (a, b, c, h) = (omega arith, b, c, h)

pub add_range-IsCanonical :
    (lo maximum : ℕ) (c : List PageRange) (r : PageRange) {c' : List PageRange}
    → maximum ≤ 2147483647
    → IsCanonical lo maximum c
    → bad_range maximum r ≡ false
    → (lo ≤ r.first) ⊎ (c ≢ [])
    → add_range c r ≡ ok c'
    → IsCanonical lo maximum c'
unfolding add_range bad_range
add_range-IsCanonical lo maximum [] r m h b s e = ground arith
add_range-IsCanonical lo maximum (p ∷ []) r m h b s e = ground arith
add_range-IsCanonical lo maximum (p ∷ q ∷ c) r m h b s e =
    let (rest, found, e') = >>=-eq-ok (add_range (q ∷ c) r) (λ rest. ok (p ∷ rest)) e in
    let keep = add_range-IsCanonical (p.last + 2) maximum (q ∷ c) r m h.3 b (inr (λ x. cc)) found in
    ground arith

pub bad_range_first : (maximum : ℕ) (r : PageRange) → bad_range maximum r ≡ false → 1 ≤ r.first
unfolding bad_range
bad_range_first maximum r h = ground arith

add_ranges-IsCanonical :
    (maximum : ℕ) (c rs : List PageRange) {c' : List PageRange}
    → maximum ≤ 2147483647
    → IsCanonical 1 maximum c
    → add_ranges maximum c rs ≡ ok c'
    → IsCanonical 1 maximum c'
unfolding add_ranges
add_ranges-IsCanonical maximum c [] m h e = ground arith
add_ranges-IsCanonical maximum c (r ∷ rs) m h e =
    let (good, e') = reject_if-eq-ok (bad_range maximum r) _ _ e in
    let (c', found, later) = >>=-eq-ok (add_range c r) (λ d. add_ranges maximum d rs) e' in
    add_ranges-IsCanonical maximum c' rs m
      (add_range-IsCanonical 1 maximum c r m h good (inl (bad_range_first maximum r good)) found)
      later

-- What `bounded` accepts, for a maximum within `i32::MAX`, is canonical: the ranges lie within 1
-- and the maximum, none is empty, and between every two there is at least one page that is not
-- selected.
pub bounded-IsCanonical :
    (rs : List PageRange) (maximum : ℕ) {p : PageRanges}
    → maximum ≤ 2147483647
    → bounded rs maximum ≡ ok p
    → IsCanonical 1 maximum p.ranges
unfolding bounded
bounded-IsCanonical rs maximum m e =
    let (_, e') = reject_if-eq-ok (ltb 100 (length rs)) _ _ e in
    let (c, found, same) = >>=-eq-ok (add_ranges maximum [] rs) _ e' in
    ground (arith, add_ranges-IsCanonical maximum [] rs m tt found)

-- A canonical list passes the loop unchanged.
add_range_apart :
    (lo maximum : ℕ) (c : List PageRange) (r : PageRange)
    → maximum ≤ 2147483647
    → IsCanonical lo maximum (c ++ r ∷ [])
    → add_range c r ≡ ok (c ++ r ∷ [])
unfolding add_range
add_range_apart lo maximum [] r m h = refl
add_range_apart lo maximum (p ∷ []) r m h = ground arith
add_range_apart lo maximum (p ∷ q ∷ c) r m h =
    ground (arith, add_range_apart (p.last + 2) maximum (q ∷ c) r m h.3)

IsCanonical-good :
    (lo maximum : ℕ) (c : List PageRange) (r : PageRange) (rs : List PageRange)
    → 1 ≤ lo
    → IsCanonical lo maximum (c ++ r ∷ rs)
    → bad_range maximum r ≡ false
unfolding bad_range
IsCanonical-good lo maximum [] r rs l h = ground arith
IsCanonical-good lo maximum (p ∷ c) r rs l h =
    IsCanonical-good (p.last + 2) maximum c r rs (omega arith) h.3

IsCanonical-prefix :
    (lo maximum : ℕ) (c d : List PageRange)
    → IsCanonical lo maximum (c ++ d)
    → IsCanonical lo maximum c
IsCanonical-prefix lo maximum [] d h = tt
IsCanonical-prefix lo maximum (p ∷ c) d (a, b, e, h) =
    (a, b, e, IsCanonical-prefix (p.last + 2) maximum c d h)

add_ranges_apart :
    (maximum : ℕ) (c rs : List PageRange)
    → maximum ≤ 2147483647
    → IsCanonical 1 maximum (c ++ rs)
    → add_ranges maximum c rs ≡ ok (c ++ rs)
unfolding add_ranges
add_ranges_apart maximum c [] m h = rw append-nil
add_ranges_apart maximum c (r ∷ rs) m h =
    let assoc = append_assoc c (r ∷ []) rs in
    let h' : IsCanonical 1 maximum ((c ++ r ∷ []) ++ rs) = rw assoc h in
    rw
      (
        IsCanonical-good 1 maximum c r rs (omega arith) h,
        add_range_apart 1 maximum c r m (IsCanonical-prefix 1 maximum (c ++ r ∷ []) rs h'),
      )
      (add_ranges_apart maximum (c ++ r ∷ []) rs m h' ∙ ap ok assoc)

-- A canonical selection of at most 100 ranges, for a maximum within `i32::MAX`, is accepted again
-- by `bounded` and comes back as it was.
pub bounded_canonical :
    (p : PageRanges) (maximum : ℕ)
    → maximum ≤ 2147483647
    → length p.ranges ≤ 100
    → IsCanonical 1 maximum p.ranges
    → bounded p.ranges maximum ≡ ok p
unfolding bounded
bounded_canonical p maximum m l h = ground (arith, add_ranges_apart maximum [] p.ranges m h)
