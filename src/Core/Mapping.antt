-- ===== src/Core/Mapping.antt =====
-- crates/rip-core/src/pages.rs: the map from delivered pages to rendered artifacts.
pub mod Search
pub mod Source
pub mod Delivery
use rip_server.Common.{
  ℕ, zero, suc, ◌+◌, ◌-◌, ◌/◌, Bool, true, false, not, ◌&&◌, ◌||◌, List, [], ◌∷◌, Option, none,
  some, ltb, leb, ◌==◌, if◌then◌else◌, any, map, is_empty, length, get_elem?, Result, ok, err,
  ◌>>=◌, ◌>>◌, reject_if, ok_or,
}
use rip_server.Common.Bytes.{Bytes}
use rip_server.Core.Document.{Manifest}
use rip_server.Core.Error.{ValidationError, invalid_page_mapping, page_not_rendered}
use rip_server.Core.Pages.{PageRanges, counted}
use rip_server.Core.Pages.Render
use rip_server.Core.Pages.Strict

pub record Artifact : Type 0 where
  pub source_page : Option ℕ
  pub source_page_count : Option ℕ
  pub page : ℕ
  pub name : Bytes
  pub media_type : Bytes
  pub bytes : ℕ
  pub sha256 : Bytes

-- `artifacts.iter().enumerate().any(|(i, a)| a.page != i as u32 + 1)`, from index `i`.
unfoldable pub misnumbered : ℕ → List Artifact → Bool
misnumbered i [] = false
misnumbered i (a ∷ rest) = not (a.page == i + 1) || misnumbered (i + 1) rest

abbrev pub is_some : Option ℕ → Bool
is_some none = false
is_some (some n) = true

-- `x == Some(n)`
abbrev pub is_some_of : Option ℕ → ℕ → Bool
is_some_of none n = false
is_some_of (some x) n = x == n

-- The `any` over `artifacts.iter().zip(&expected)`.
unfoldable pub mismatched : ℕ → List Artifact → List ℕ → Bool
mismatched total [] expected = false
mismatched total (a ∷ rest) [] = false
mismatched total (a ∷ rest) (n ∷ ns) =
    not (is_some_of a.source_page n)
    || not (is_some_of a.source_page_count total)
    || mismatched total rest ns

-- `artifacts[0].source_page_count`; the list is not empty where this is read.
unfoldable pub first_count : List Artifact → Option ℕ
first_count [] = none
first_count (a ∷ rest) = a.source_page_count

-- The branch of `source_mapping` for a selection of pages.
unfoldable pub selected_mapping : Manifest → List Artifact → Result (List ℕ × ℕ) ValidationError
selected_mapping manifest artifacts = do
  total ← ok_or (first_count artifacts) invalid_page_mapping
  positions ← Render.indices manifest.page_ranges total
  let expected = map (λ i. i + 1) positions
  reject_if (not (length expected == length artifacts) || mismatched total artifacts expected)
      invalid_page_mapping
  ok (expected, total)

-- The branch for all pages.
unfoldable pub full_mapping : List Artifact → Result (List ℕ × ℕ) ValidationError
full_mapping artifacts = do
  reject_if (any (λ a. is_some a.source_page || is_some a.source_page_count) artifacts)
      invalid_page_mapping
  ok (counted 1 (length artifacts), length artifacts)

unfoldable pub source_mapping : Manifest → List Artifact → Result (List ℕ × ℕ) ValidationError
unfolding misnumbered selected_mapping full_mapping
source_mapping manifest artifacts = do
  reject_if (is_empty artifacts || ltb 100 (length artifacts) || misnumbered 0 artifacts)
      invalid_page_mapping
  if Render.is_all manifest.page_ranges
      then full_mapping artifacts
      else selected_mapping manifest artifacts

-- `cmp == Greater` for the element read at `mid`.
abbrev pub is_above : Option ℕ → ℕ → Bool
is_above none target = true
is_above (some x) target = ltb target x

-- The loop of `slice::binary_search`: `base` is the start of the part that is left, `size` its
-- length, and `mid` is read inside it.
unfoldable pub search_base : ℕ → List ℕ → ℕ → ℕ → ℕ → ℕ
search_base zero mapping target base size = base
search_base (suc fuel) mapping target base size =
    let half = size / 2 in
    let base' = if is_above (get_elem? mapping (base + half)) target then base else base + half in
    let rest = search_base fuel mapping target base' (size - half) in
    if ltb 1 size then rest else base

-- `slice::binary_search`, with the position that it returns in `Err` left out: the caller drops it.
unfoldable pub binary_search : List ℕ → ℕ → Option ℕ
unfolding search_base
binary_search mapping target =
    let base = search_base (length mapping) mapping target 0 (length mapping) in
    if is_some_of (get_elem? mapping base) target then some base else none

unfoldable pub find_all : List ℕ → List ℕ → Result (List ℕ) ValidationError
find_all mapping [] = ok []
find_all mapping (i ∷ later) = do
  found ← ok_or (binary_search mapping (i + 1)) page_not_rendered
  rest ← find_all mapping later
  ok (found ∷ rest)

unfoldable pub delivery_indices : PageRanges → List ℕ → ℕ → Result (List ℕ) ValidationError
delivery_indices request mapping source_total =
    if Strict.is_all request
    then ok (counted 0 (length mapping))
    else do positions ← Strict.indices request source_total; find_all mapping positions
