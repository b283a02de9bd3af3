-- ===== src/Core/Pages/Render.antt =====
-- crates/rip-core/src/pages.rs: `RenderPages`, the two kinds of selection behind one type.
use rip_server.Common.{ℕ, Bool, true, false, List, [], Result}
use rip_server.Core.Error.{ValidationError}
use rip_server.Core.Pages.{PageRange, PageRanges}
use rip_server.Core.Pages.Strict
use rip_server.Core.Pages.Ipp
use rip_server.Core.Pages.Ipp.{IppPageRanges}

pub data RenderPages : Type 0 where
  strict : PageRanges → RenderPages
  ipp : IppPageRanges → RenderPages

-- `RenderPages::default()`
abbrev pub default : RenderPages
default = strict (record { ranges = [] })

unfoldable pub is_all : RenderPages → Bool
unfolding Strict.is_all
is_all (strict r) = Strict.is_all r
is_all (ipp r) = false

unfoldable pub is_ipp : RenderPages → Bool
is_ipp (strict r) = false
is_ipp (ipp r) = true

unfoldable pub ranges : RenderPages → List PageRange
ranges (strict r) = r.ranges
ranges (ipp r) = r.inner.ranges

unfoldable pub indices : RenderPages → ℕ → Result (List ℕ) ValidationError
unfolding Strict.indices Ipp.indices
indices (strict r) total = Strict.indices r total
indices (ipp r) total = Ipp.indices r total
