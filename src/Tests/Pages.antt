-- ===== src/Tests/Pages.antt =====
-- crates/rip-core/src/pages.rs at concrete selections.
use rip_server.Common.{ℕ, suc, ◌≡◌, refl, ◌&&◌, ◌||◌, List, [], ◌∷◌, ok, ltb, arith}
use rip_server.Common.Ascending.{Between, has}
use rip_server.Core.Pages.{PageRange, PageRanges, add_range, bad_range, add_ranges}
use rip_server.Core.Pages.Canonical.{IsCanonical, bounded-IsCanonical}
use rip_server.Core.Pages.Covers.{covers}
use rip_server.Core.Pages.Indices.{new-indices}
use rip_server.Core.Pages.Ipp.{IppPageRanges, i32_max}
use rip_server.Core.Pages.Strict
use rip_server.Core.Pages.Strict.{bounded, selected_count, count_pages}

abbrev range : ℕ → ℕ → PageRange
range first last = record { first = first; last = last }

abbrev asked : List PageRange
asked = range 1 1 ∷ range 2 3 ∷ range 5 5 ∷ []

abbrev selection : PageRanges
selection = record { ranges = range 1 3 ∷ range 5 5 ∷ [] }

bounded_runs : bounded asked 100 ≡ ok selection
unfolding bounded add_ranges add_range bad_range
bounded_runs = refl

bounded-IsCanonical_example : IsCanonical 1 100 selection.ranges
bounded-IsCanonical_example = bounded-IsCanonical asked 100 (omega arith) bounded_runs

abbrev positions : List ℕ
positions = 0 ∷ 1 ∷ 2 ∷ 4 ∷ []

new_runs : Strict.new asked ≡ ok selection
unfolding Strict.new
new_runs = bounded_runs

indices_run : Strict.indices selection 5 ≡ ok positions
unfolding Strict.indices
indices_run = refl

new-indices_example :
    Between 0 5 positions
    × ((i : ℕ) → has i positions ≡ (ltb i 5 && (Strict.is_all selection || covers asked (suc i))))
new-indices_example = new-indices asked 5 new_runs indices_run

abbrev wide : List PageRange
wide = range 2 i32_max ∷ []

abbrev ipp_selection : IppPageRanges
ipp_selection = record { inner = record { ranges = wide } }
