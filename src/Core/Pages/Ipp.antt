-- ===== src/Core/Pages/Ipp.antt =====
-- crates/rip-core/src/pages.rs: `impl IppPageRanges`, whose positions outside the source are ignored.
use rip_server.Common.{
  ℕ, min, not, List, [], ◌∷◌, ◌++◌, within, is_empty, if◌then◌else◌, Result, ok, err, ◌>>=◌, ◌>>◌,
  reject_if,
}
use rip_server.Core.Error.{ValidationError, invalid_page_ranges, page_range_out_of_bounds}
use rip_server.Core.Pages.{PageRange, PageRanges, range_indices}
use rip_server.Core.Pages.Strict.{bounded}

pub record IppPageRanges : Type 0 where
  pub inner : PageRanges

-- `i32::MAX as u32`
abbrev pub i32_max : ℕ
i32_max = 2147483647

unfoldable pub new : List PageRange → Result IppPageRanges ValidationError
unfolding bounded
new ranges = do
  reject_if (is_empty ranges) invalid_page_ranges
  inner ← bounded ranges i32_max
  ok (record { inner = inner })

unfoldable pub clipped_indices : List PageRange → ℕ → List ℕ
clipped_indices [] total = []
clipped_indices (r ∷ rs) total =
    range_indices r.first (min r.last total) ++ clipped_indices rs total

unfoldable pub indices : IppPageRanges → ℕ → Result (List ℕ) ValidationError
unfolding clipped_indices range_indices
indices self total =
    if not (within 1 100 total)
    then err page_range_out_of_bounds
    else ok (clipped_indices self.inner.ranges total)
