-- ===== src/Core/Pages/Indices.antt =====
-- crates/rip-core/src/pages.rs: the zero-based positions that a selection stands for.
use rip_server.Common.{
  ℕ, suc, ◌≡◌, inl, inr, false, ◌||◌, ◌&&◌, List, ltb, length, ok, some, arith, Bool-cases,
  is_empty, reject_if-eq-ok, >>=-eq-ok,
}
use rip_server.Common.Ascending.{has, Between}
use rip_server.Core.Pages.{PageRange, PageRanges}
use rip_server.Core.Pages.Canonical.{IsCanonical, bounded-IsCanonical}
use rip_server.Core.Pages.Covers.{covers, bounded-covers}
use rip_server.Core.Pages.Strict
use rip_server.Core.Pages.Strict.{
  bounded, selected_indices, count_pages, selected_count, last_beyond,
}
use rip_server.Core.Pages.Ipp
use rip_server.Core.Pages.Ipp.{IppPageRanges, i32_max, clipped_indices}
use rip_server.Core.Pages.Expansion.{
  has-counted, counted-Between, IsCanonical-total, selected_indices-Between, selected_indices-has,
  covers-le_total, length-selected_indices, clipped_indices-has, clipped_indices-Between,
  clipped_indices_inside,
}

pub strict_indices-Between :
    (p : PageRanges) (maximum total : ℕ) {ix : List ℕ}
    → IsCanonical 1 maximum p.ranges
    → Strict.indices p total ≡ ok ix
    → Between 0 total ix
unfolding Strict.indices
strict_indices-Between p maximum total h e = elim (Bool-cases (last_beyond p.ranges total)) [
  | inl beyond ↦ absurd (ground arith)
  | inr inside ↦
      let h' = IsCanonical-total 1 maximum total p.ranges h inside in
      ground (arith, counted-Between 0 total total, selected_indices-Between 0 total p.ranges h')
]

pub ipp_indices-Between :
    (p : IppPageRanges) (maximum total : ℕ) {ix : List ℕ}
    → IsCanonical 1 maximum p.inner.ranges
    → Ipp.indices p total ≡ ok ix
    → Between 0 total ix
unfolding Ipp.indices
ipp_indices-Between p maximum total h e =
    ground (arith, clipped_indices-Between 0 maximum total p.inner.ranges h)

-- The positions of a selection of ranges `rs` that REST accepts, in a source of `total` pages:
-- they ascend, stay below the total, and are exactly the pages that some range of `rs` holds, or
-- every page of the source when the canonical selection is empty.
pub new-indices :
    (rs : List PageRange) (total : ℕ) {p : PageRanges} {ix : List ℕ}
    → Strict.new rs ≡ ok p
    → Strict.indices p total ≡ ok ix
    → Between 0 total ix
      × ((i : ℕ) → has i ix ≡ (ltb i total && (Strict.is_all p || covers rs (suc i))))
unfolding Strict.new Strict.indices
new-indices rs total {p} made e =
    let h = bounded-IsCanonical rs 100 (omega arith) made in
    elim (Bool-cases (last_beyond p.ranges total)) [
      | inl beyond ↦ absurd (ground arith)
      | inr inside ↦
          let h' = IsCanonical-total 1 100 total p.ranges h inside in
          (
            ground (
              arith,
              counted-Between 0 total total,
              selected_indices-Between 0 total p.ranges h',
            ),
            λ i. ground (
              arith,
              has-counted i 0 total,
              selected_indices-has 0 total i p.ranges h',
              covers-le_total 1 total (suc i) p.ranges h',
              bounded-covers rs 100 (suc i) {p = p} (omega arith) made,
            ),
          )
    ]

-- A canonical selection that expands for a source expands to as many positions as
-- `selected_count` announces, where it announces a number.
pub length-indices :
    (p : PageRanges) (maximum total k : ℕ) {ix : List ℕ}
    → IsCanonical 1 maximum p.ranges
    → Strict.indices p total ≡ ok ix
    → selected_count p ≡ some k
    → length ix ≡ k
unfolding Strict.indices selected_count
length-indices p maximum total k h e c = elim (Bool-cases (last_beyond p.ranges total)) [
  | inl beyond ↦ absurd (ground arith)
  | inr inside ↦
      let h' = IsCanonical-total 1 maximum total p.ranges h inside in
      ground (arith, length-selected_indices 0 total p.ranges h')
]

-- The positions of an IPP selection made from the ranges `rs`: they ascend, and are exactly the pages
-- that some range of `rs` holds and that the source has.
pub ipp_new-indices :
    (rs : List PageRange) (total : ℕ) {p : IppPageRanges} {ix : List ℕ}
    → Ipp.new rs ≡ ok p
    → Ipp.indices p total ≡ ok ix
    → Between 0 total ix × ((i : ℕ) → has i ix ≡ (covers rs (suc i) && ltb i total))
unfolding Ipp.new Ipp.indices
ipp_new-indices rs total {p} made e =
    let (_, made') = reject_if-eq-ok (is_empty rs) _ _ made in
    let (q, inner, same) = >>=-eq-ok (bounded rs i32_max) _ made' in
    let h = bounded-IsCanonical rs i32_max (omega arith) inner in
    (
      ground (arith, clipped_indices-Between 0 i32_max total q.ranges h),
      λ i. ground (
        arith,
        clipped_indices-has 0 i32_max total i q.ranges h,
        bounded-covers rs i32_max (suc i) {p = q} (omega arith) inner,
      ),
    )

-- A nonempty canonical selection that the strict rule accepts for a source stands for the same
-- positions under the IPP rule.
pub ipp_of_strict :
    (p : PageRanges) (maximum total : ℕ) {ix : List ℕ}
    → IsCanonical 1 maximum p.ranges
    → Strict.is_all p ≡ false
    → Strict.indices p total ≡ ok ix
    → Ipp.indices (record { inner = p }) total ≡ ok ix
unfolding Strict.indices Ipp.indices
ipp_of_strict p maximum total h some_pages e = elim (Bool-cases (last_beyond p.ranges total)) [
  | inl beyond ↦ absurd (ground arith)
  | inr inside ↦
      let h' = IsCanonical-total 1 maximum total p.ranges h inside in
      ground (arith, clipped_indices_inside 1 total p.ranges h')
]
