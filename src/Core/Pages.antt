-- ===== src/Core/Pages.antt =====
-- crates/rip-core/src/pages.rs: page ranges, and the loop that makes a list of them canonical.
-- A `u32` is a native number. `last + 1` keeps its wrap-around; the constructors bound `last` by
-- `i32::MAX`, so that it never wraps. A `usize` holds every `u32` and is left unbounded.
pub mod Strict
pub mod Ipp
pub mod Render
pub mod Canonical
pub mod Covers
pub mod Expansion
pub mod Indices
pub mod Label
use rip_server.Common.{
  ℕ, zero, suc, ◌+◌, ◌-◌, ◌%◌, ◌^◌, min, Bool, true, false, not, ◌&&◌, ◌||◌, List, [], ◌∷◌, ◌++◌,
  Option, none, some, ltb, leb, ◌==◌, within, if◌then◌else◌, length, is_empty, Result, ok, err,
  ◌>>=◌, ◌>>◌, reject_if,
}
use rip_server.Core.Error.{ValidationError, invalid_page_ranges, page_range_out_of_bounds}

pub record PageRange : Type 0 where
  pub first : ℕ
  pub last : ℕ

pub record PageRanges : Type 0 where
  pub ranges : List PageRange

-- One round of the loop of `bounded` against `canonical.last_mut()`.
unfoldable pub add_range : List PageRange → PageRange → Result (List PageRange) ValidationError
add_range [] range = ok (range ∷ [])
add_range (previous ∷ []) range =
    if leb range.first previous.last
    then err invalid_page_ranges
    else if range.first == (previous.last + 1) % 2 ^ 32
    then ok (record previous { last = range.last } ∷ [])
    else ok (previous ∷ range ∷ [])
add_range (p ∷ q ∷ canonical) range = do rest ← add_range (q ∷ canonical) range; ok (p ∷ rest)

-- The test that each range must pass by itself.
unfoldable pub bad_range : ℕ → PageRange → Bool
bad_range maximum range = range.first == 0 || ltb range.last range.first || ltb maximum range.last

unfoldable pub add_ranges :
    ℕ → List PageRange → List PageRange → Result (List PageRange) ValidationError
add_ranges maximum canonical [] = ok canonical
add_ranges maximum canonical (range ∷ ranges) = do
  reject_if (bad_range maximum range) invalid_page_ranges
  canonical' ← add_range canonical range
  add_ranges maximum canonical' ranges

-- The numbers of an inclusive range, from its start and the count of its numbers.
unfoldable pub counted : ℕ → ℕ → List ℕ
counted start zero = []
counted start (suc n) = start ∷ counted (suc start) n

-- `(first..=last).map(|n| n as usize - 1)`; the range is empty where `last` is below `first`.
unfoldable pub range_indices : ℕ → ℕ → List ℕ
unfolding counted
range_indices first last = counted (first - 1) (last + 1 - first)
