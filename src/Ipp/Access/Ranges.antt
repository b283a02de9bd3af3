-- ===== src/Ipp/Access/Ranges.antt =====
-- crates/rip-ipp/src/lib.rs: the selection that `page_ranges` returns.
use rip_server.Common.{
  ◌≡◌, List, [], ◌∷◌, Result-cases, ok, >>=-eq-ok, arith, inl, inr, subst, reject_if-eq-ok,
  is_empty,
}
use rip_server.Core.Mapping.Source.{IsSelection}
use rip_server.Core.Pages.{PageRange}
use rip_server.Core.Pages.Canonical.{bounded-IsCanonical, IsCanonical}
use rip_server.Core.Pages.Ipp
use rip_server.Core.Pages.Ipp.{IppPageRanges, i32_max}
use rip_server.Core.Pages.Strict.{bounded}
use rip_server.Core.Pages.Render
use rip_server.Core.Pages.Render.{RenderPages, ipp}
use rip_server.Ipp.{Request}
use rip_server.Ipp.Access.{collect_ranges, selection_of, page_ranges}

ipp_new-IsCanonical :
    (rs : List PageRange) {p : IppPageRanges}
    → Ipp.new rs ≡ ok p
    → IsCanonical 1 i32_max p.inner.ranges
unfolding Ipp.new
ipp_new-IsCanonical rs {p} e =
    let (_, e1) = reject_if-eq-ok (is_empty rs) _ _ e in
    let (q, made, same) = >>=-eq-ok (bounded rs i32_max) _ e1 in
    let whole : record { inner = q } ≡ p = cc in
    subst (λ x. IsCanonical 1 i32_max x.inner.ranges) whole
      (bounded-IsCanonical rs i32_max (omega arith) made)

selection_of-IsSelection :
    (rs : List PageRange) {p : RenderPages} → selection_of rs ≡ ok p → IsSelection p
unfolding selection_of
selection_of-IsSelection [] {p} e =
    let whole : Render.default ≡ p = cc in subst IsSelection whole tt
selection_of-IsSelection (r ∷ rs) {p} e = elim (Result-cases (Ipp.new (r ∷ rs))) [
  | inl (q, made) ↦
      let whole : ipp q ≡ p = ground arith in
      subst IsSelection whole (ipp_new-IsCanonical (r ∷ rs) made)
  | inr (x, failed) ↦ absurd (ground arith)
]

-- The ranges of an IPP request, where they are accepted, are a well-formed selection, so that all that
-- holds of the positions and of the artifacts of a selection holds for it.
pub page_ranges-IsSelection : (r : Request) {p : RenderPages} → page_ranges r ≡ ok p → IsSelection p
unfolding page_ranges
page_ranges-IsSelection r e =
    let (rs, _, made) = >>=-eq-ok (collect_ranges r.attributes) selection_of e in
    selection_of-IsSelection rs made
