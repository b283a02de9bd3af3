-- ===== src/Core/Mapping/Source.antt =====
-- crates/rip-core/src/pages.rs: `source_mapping`, the check of the artifacts against the manifest.
use rip_server.Common.{
  ℕ, suc, ◌+◌, ◌≡◌, inl, inr, true, false, not, ◌||◌, List, [], ◌∷◌, some, length, map, any,
  is_empty, ltb, ◌==◌, ok, ok_or, arith, Bool-cases, >>=-eq-ok, reject_if-eq-ok, subst, subst₂, sym,
}
use rip_server.Common.Ascending.{Between, Between-weaken}
use rip_server.Core.Document.{Manifest}
use rip_server.Core.Error.{invalid_page_mapping}
use rip_server.Core.Mapping.{
  Artifact, misnumbered, mismatched, first_count, selected_mapping, full_mapping, source_mapping,
}
use rip_server.Core.Pages.{counted}
use rip_server.Core.Pages.Canonical.{IsCanonical}
use rip_server.Core.Pages.Indices.{strict_indices-Between, ipp_indices-Between}
use rip_server.Core.Pages.Expansion.{counted-Between, length-counted}
use rip_server.Core.Pages.Render
use rip_server.Core.Pages.Render.{RenderPages, strict, ipp}
use rip_server.Core.Pages.Ipp.{i32_max}

-- What the constructors of the two kinds of selection establish.
abbrev pub IsSelection : RenderPages → Type 0
IsSelection (strict r) = IsCanonical 1 100 r.ranges
IsSelection (ipp r) = IsCanonical 1 i32_max r.inner.ranges

-- The artifacts are numbered 1, 2, 3 and so on after `i`.
abbrev pub Numbered : ℕ → List Artifact → Type 0
Numbered i [] = Unit
Numbered i (a ∷ rest) = (a.page ≡ i + 1) × Numbered (i + 1) rest

-- Each artifact declares the source page of the mapping at its place, and the source's page count.
abbrev pub Declared : ℕ → List Artifact → List ℕ → Type 0
Declared total [] [] = Unit
Declared total (a ∷ rest) (n ∷ ns) =
    (a.source_page ≡ some n) × (a.source_page_count ≡ some total) × Declared total rest ns
Declared total _ _ = ⊥

Numbered-of : (i : ℕ) (as' : List Artifact) → misnumbered i as' ≡ false → Numbered i as'
unfolding misnumbered
Numbered-of i [] h = tt
Numbered-of i (a ∷ rest) h = (ground arith, Numbered-of (i + 1) rest (ground arith))

Declared-of :
    (total : ℕ) (artifacts : List Artifact) (ns : List ℕ)
    → length ns ≡ length artifacts
    → mismatched total artifacts ns ≡ false
    → Declared total artifacts ns
unfolding mismatched
Declared-of total [] [] l h = tt
Declared-of total [] (n ∷ ns) l h = absurd (omega arith)
Declared-of total (a ∷ rest) [] l h = absurd (omega arith)
Declared-of total (a ∷ rest) (n ∷ ns) l h =
    (ground arith, ground arith, Declared-of total rest ns (omega arith) (ground arith))

indices-Between :
    (p : RenderPages) (total : ℕ) {ix : List ℕ}
    → IsSelection p
    → Render.indices p total ≡ ok ix
    → Between 0 total ix
unfolding Render.indices
indices-Between (strict r) total s e = strict_indices-Between r 100 total s e
indices-Between (ipp r) total s e = ipp_indices-Between r i32_max total s e

map-suc-Between :
    (lo hi : ℕ) (xs : List ℕ) → Between lo hi xs → Between (suc lo) (suc hi) (map (λ i. i + 1) xs)
map-suc-Between lo hi [] h = tt
map-suc-Between lo hi (x ∷ xs) (a, b, h) = (
  omega arith,
  omega arith,
  Between-weaken (suc (suc x)) (suc (x + 1)) (suc hi) _ (omega arith)
      (map-suc-Between (suc x) hi xs h),
)

-- What delivery relies on: the artifacts are numbered in order, and the mapping has one source page
-- for each of them, ascending within the source. For a selection of pages it is the page that the
-- artifact declares; for all pages the source has as many pages as there are artifacts.
pub record IsMapping (m : Manifest) (artifacts : List Artifact) (ns : List ℕ) (total : ℕ)
    : Type 0 where
  pub numbered : Numbered 0 artifacts
  pub sized : length ns ≡ length artifacts
  pub ascending : Between 1 (suc total) ns
  pub declared : Render.is_all m.page_ranges ≡ false → Declared total artifacts ns
  pub whole : Render.is_all m.page_ranges ≡ true → total ≡ length artifacts

full_mapping-IsMapping :
    (m : Manifest) (artifacts : List Artifact) {ns : List ℕ} {total : ℕ}
    → Numbered 0 artifacts
    → Render.is_all m.page_ranges ≡ true
    → full_mapping artifacts ≡ ok (ns, total)
    → IsMapping m artifacts ns total
unfolding full_mapping
full_mapping-IsMapping m artifacts {ns} {total} n w e =
    let (_, same) = reject_if-eq-ok (any _ artifacts) _ _ e in
    let pages : counted 1 (length artifacts) ≡ ns = ground arith in
    let count : length artifacts ≡ total = ground arith in
    let ascending = counted-Between 1 (length artifacts) (suc (length artifacts)) (omega arith) in
    record {
      numbered = n;
      sized = subst (λ x. length x ≡ length artifacts) pages (length-counted 1 (length artifacts));
      ascending = subst₂ (λ x y. Between 1 (suc y) x) pages count ascending;
      declared = λ part. absurd (ground arith);
      whole = λ _. sym count;
    }

selected_mapping-IsMapping :
    (m : Manifest) (artifacts : List Artifact) {ns : List ℕ} {total : ℕ}
    → IsSelection m.page_ranges
    → Numbered 0 artifacts
    → Render.is_all m.page_ranges ≡ false
    → selected_mapping m artifacts ≡ ok (ns, total)
    → IsMapping m artifacts ns total
unfolding selected_mapping
selected_mapping-IsMapping m artifacts {ns} {total} s n w e =
    let (t, first, e') = >>=-eq-ok (ok_or (first_count artifacts) invalid_page_mapping) _ e in
    let (ix, found, e'') = >>=-eq-ok (Render.indices m.page_ranges t) _ e' in
    let mapped : List ℕ = map (λ i. i + 1) ix in
    let (agree, same) =
      reject_if-eq-ok (not (length mapped == length artifacts) || mismatched t artifacts mapped)
        invalid_page_mapping (ok (mapped, t)) e'' in
    let pages : mapped ≡ ns = ground arith in
    let count : t ≡ total = ground arith in
    let size : length mapped ≡ length artifacts = ground arith in
    let declared = Declared-of t artifacts mapped size (ground arith) in
    let ascending = map-suc-Between 0 t ix (indices-Between m.page_ranges t s found) in
    record {
      numbered = n;
      sized = subst (λ x. length x ≡ length artifacts) pages size;
      ascending = subst₂ (λ x y. Between 1 (suc y) x) pages count ascending;
      declared = λ _. subst₂ (λ x y. Declared y artifacts x) pages count declared;
      whole = λ all. absurd (ground arith);
    }

-- Whatever `source_mapping` returns for a manifest with a well-formed selection is a mapping that
-- delivery can rely on: the artifacts are numbered 1, 2, 3 and so on, there is one source page
-- for each, the source pages ascend within the source, each is the page that its artifact
-- declares when pages are selected, and the source has as many pages as there are artifacts when
-- all are.
pub source_mapping-IsMapping :
    (m : Manifest) (artifacts : List Artifact) {ns : List ℕ} {total : ℕ}
    → IsSelection m.page_ranges
    → source_mapping m artifacts ≡ ok (ns, total)
    → IsMapping m artifacts ns total
unfolding source_mapping
source_mapping-IsMapping m artifacts s e =
    let bad = is_empty artifacts || ltb 100 (length artifacts) || misnumbered 0 artifacts in
    let (sound, e') = reject_if-eq-ok bad _ _ e in
    let numbered = Numbered-of 0 artifacts (ground arith) in
    elim (Bool-cases (Render.is_all m.page_ranges)) [
      | inl all ↦ full_mapping-IsMapping m artifacts numbered all (rw all at e')
      | inr part ↦ selected_mapping-IsMapping m artifacts s numbered part (rw part at e')
    ]
