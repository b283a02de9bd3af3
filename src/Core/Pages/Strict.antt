-- ===== src/Core/Pages/Strict.antt =====
-- crates/rip-core/src/pages.rs: `impl PageRanges`, the selection that REST manifests carry.
use rip_server.Common.{
  ℕ, ◌+◌, ◌-◌, Bool, false, not, ◌||◌, List, [], ◌∷◌, ◌++◌, Option, none, some, ltb, within,
  if◌then◌else◌, length, is_empty, Result, ok, err, ◌>>=◌, ◌>>◌, reject_if,
}
use rip_server.Core.Error.{ValidationError, invalid_page_ranges, page_range_out_of_bounds}
use rip_server.Core.Pages.{PageRange, PageRanges, add_ranges, counted, range_indices}

unfoldable pub bounded : List PageRange → ℕ → Result PageRanges ValidationError
bounded ranges maximum = do
  reject_if (ltb 100 (length ranges)) invalid_page_ranges
  canonical ← add_ranges maximum [] ranges
  ok (record { ranges = canonical })

unfoldable pub new : List PageRange → Result PageRanges ValidationError
unfolding bounded
new ranges = bounded ranges 100

unfoldable pub is_all : PageRanges → Bool
is_all self = is_empty self.ranges

-- The sum of the ranges' sizes. The constructors make every range ordered, so that the
-- subtraction does not stop at 0.
unfoldable pub count_pages : List PageRange → ℕ
count_pages [] = 0
count_pages (r ∷ rs) = r.last - r.first + 1 + count_pages rs

unfoldable pub selected_count : PageRanges → Option ℕ
unfolding is_all count_pages
selected_count self = if not (is_all self) then some (count_pages self.ranges) else none

-- `self.0.last().is_some_and(|r| r.last > total)`
unfoldable pub last_beyond : List PageRange → ℕ → Bool
last_beyond [] total = false
last_beyond (r ∷ []) total = ltb total r.last
last_beyond (r ∷ s ∷ rs) total = last_beyond (s ∷ rs) total

unfoldable pub selected_indices : List PageRange → List ℕ
selected_indices [] = []
selected_indices (r ∷ rs) = range_indices r.first r.last ++ selected_indices rs

unfoldable pub indices : PageRanges → ℕ → Result (List ℕ) ValidationError
unfolding is_all last_beyond counted selected_indices range_indices
indices self total =
    if not (within 1 100 total) || last_beyond self.ranges total
    then err page_range_out_of_bounds
    else ok (if is_all self then counted 0 total else selected_indices self.ranges)
