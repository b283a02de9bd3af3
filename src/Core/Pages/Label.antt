-- ===== src/Core/Pages/Label.antt =====
-- crates/rip-core/src/pages.rs: the text of a selection, for tickets and command lines.
use rip_server.Common.{ℕ, zero, suc, ◌+◌, ◌/◌, ◌%◌, List, [], ◌∷◌, ◌++◌, ltb, ◌==◌, if◌then◌else◌}
use rip_server.Common.Bytes.{codes}
use rip_server.Core.Pages.{PageRange, PageRanges}
use rip_server.Core.Pages.Strict
use rip_server.Core.Pages.Render.{RenderPages, strict, ipp}

-- The decimal digits of a number before a text, for as many digits as the fuel.
unfoldable pub decimal : ℕ → ℕ → List ℕ → List ℕ
decimal zero n rest = rest
decimal (suc fuel) n rest =
    let longer = decimal fuel (n / 10) ((b'0' + n % 10) ∷ rest) in
    if ltb n 10 then (b'0' + n) ∷ rest else longer

-- `u32::to_string`, of which no number has more than ten digits.
unfoldable pub to_string : ℕ → List ℕ
unfolding decimal
to_string n = decimal 10 n []

unfoldable pub range_label : PageRange → List ℕ
unfolding to_string
range_label r =
    if r.first == r.last then to_string r.first else to_string r.first ++ b'-' ∷ to_string r.last

-- `collect::<Vec<_>>().join(",")`
unfoldable pub labels : List PageRange → List ℕ
unfolding range_label
labels [] = []
labels (r ∷ []) = range_label r
labels (r ∷ s ∷ rs) = range_label r ++ b',' ∷ labels (s ∷ rs)

-- `PageRanges::label`
unfoldable pub ranges_label : PageRanges → List ℕ
unfolding Strict.is_all labels
ranges_label self = if Strict.is_all self then codes "all" else labels self.ranges

-- `RenderPages::label`
unfoldable pub label : RenderPages → List ℕ
unfolding ranges_label
label (strict r) = ranges_label r
label (ipp r) = ranges_label r.inner
