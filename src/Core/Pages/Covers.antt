-- ===== src/Core/Pages/Covers.antt =====
-- crates/rip-core/src/pages.rs: the pages that a list of ranges selects.
use rip_server.Common.{
  ℕ, ◌+◌, ◌≤◌, ◌≡◌, inl, Bool, false, ◌||◌, List, [], ◌∷◌, ltb, within, length, ok, arith,
  >>=-eq-ok, reject_if-eq-ok,
}
use rip_server.Core.Pages.{PageRange, PageRanges, add_range, bad_range, add_ranges}
use rip_server.Core.Pages.Canonical.{IsCanonical, add_range-IsCanonical, bad_range_first}
use rip_server.Core.Pages.Strict.{bounded}

-- One of the ranges holds the page.
abbrev pub covers : List PageRange → ℕ → Bool
covers [] n = false
covers (r ∷ rs) n = within r.first r.last n || covers rs n

add_range-covers :
    (lo maximum : ℕ) (c : List PageRange) (r : PageRange) {c' : List PageRange} (n : ℕ)
    → maximum ≤ 2147483647
    → IsCanonical lo maximum c
    → bad_range maximum r ≡ false
    → add_range c r ≡ ok c'
    → covers c' n ≡ (covers c n || within r.first r.last n)
unfolding add_range bad_range
add_range-covers lo maximum [] r n m h b e = ground arith
add_range-covers lo maximum (p ∷ []) r n m h b e = ground arith
add_range-covers lo maximum (p ∷ q ∷ c) r n m h b e =
    let (rest, found, e') = >>=-eq-ok (add_range (q ∷ c) r) (λ rest. ok (p ∷ rest)) e in
    let keep = add_range-covers (p.last + 2) maximum (q ∷ c) r n m h.3 b found in ground arith

add_ranges-covers :
    (maximum : ℕ) (c rs : List PageRange) {c' : List PageRange} (n : ℕ)
    → maximum ≤ 2147483647
    → IsCanonical 1 maximum c
    → add_ranges maximum c rs ≡ ok c'
    → covers c' n ≡ (covers c n || covers rs n)
unfolding add_ranges
add_ranges-covers maximum c [] n m h e = ground arith
add_ranges-covers maximum c (r ∷ rs) n m h e =
    let (good, e') = reject_if-eq-ok (bad_range maximum r) _ _ e in
    let (d, found, later) = >>=-eq-ok (add_range c r) (λ d. add_ranges maximum d rs) e' in
    let keep =
      add_range-IsCanonical 1 maximum c r m h good (inl (bad_range_first maximum r good)) found in
    ground (
      arith,
      add_ranges-covers maximum d rs n m keep later,
      add_range-covers 1 maximum c r n m h good found,
    )

-- Making the ranges canonical, for a maximum within `i32::MAX`, neither adds a page to the
-- selection nor drops one from it.
pub bounded-covers :
    (rs : List PageRange) (maximum n : ℕ) {p : PageRanges}
    → maximum ≤ 2147483647
    → bounded rs maximum ≡ ok p
    → covers p.ranges n ≡ covers rs n
unfolding bounded
bounded-covers rs maximum n m e =
    let (_, e') = reject_if-eq-ok (ltb 100 (length rs)) _ _ e in
    let (c, found, same) = >>=-eq-ok (add_ranges maximum [] rs) _ e' in
    ground (arith, add_ranges-covers maximum [] rs n m tt found)
