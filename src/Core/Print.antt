-- ===== src/Core/Print.antt =====
-- crates/rip-core/src/print.rs: the sides of a sheet, the coordinates of its back, and the progress that a
-- device reports.
use rip_server.Common.{ℕ, Bool, true, false, ◌&&◌, Option, none, some, leb}

-- The pages and sheets that a device has counted.
pub record DeviceProgress : Type 0 where
  pub impressions_completed : Option ℕ
  pub media_sheets_completed : Option ℕ

-- A missing counter passes; the other is within `i32::MAX`.
unfoldable pub fits_i32 : Option ℕ → Bool
fits_i32 none = true
fits_i32 (some n) = leb n 2147483647

unfoldable pub is_valid : DeviceProgress → Bool
is_valid self = fits_i32 self.impressions_completed && fits_i32 self.media_sheets_completed

pub data Sides : Type 0 where
  one_sided two_sided_long_edge two_sided_short_edge : Sides

unfoldable pub is_simplex : Sides → Bool
is_simplex one_sided = true
is_simplex _ = false

pub data SheetBack : Type 0 where
  normal rotated flipped manual_tumble : SheetBack

unfoldable pub is_normal : SheetBack → Bool
is_normal normal = true
is_normal _ = false

-- `==` of the two enumerations
abbrev pub same_sides : Sides → Sides → Bool
same_sides one_sided one_sided = true
same_sides two_sided_long_edge two_sided_long_edge = true
same_sides two_sided_short_edge two_sided_short_edge = true
same_sides _ _ = false

abbrev pub same_sheet_back : SheetBack → SheetBack → Bool
same_sheet_back normal normal = true
same_sheet_back rotated rotated = true
same_sheet_back flipped flipped = true
same_sheet_back manual_tumble manual_tumble = true
same_sheet_back _ _ = false
