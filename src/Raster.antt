-- ===== src/Raster.antt =====
-- crates/rip-raster/src/lib.rs: the layout of a PWG raster page, and the encoder of its rows. The pixels
-- are those that the TIFF decoder has returned, inverted and turned already.
pub mod Inspect
pub mod Runs
pub mod Rows
pub mod Pixels
use rip_server.Common.{
  ℕ, zero, suc, ◌+◌, ◌-◌, ◌*◌, ◌/◌, ◌%◌, ◌^◌, Bool, true, false, List, [], ◌∷◌, ◌++◌, Option, none,
  some, ltb, ◌==◌, length, take, drop, if◌then◌else◌,
}
use rip_server.Common.Bytes.{Bytes, codes}
use rip_server.Core.Print.{SheetBack, normal, rotated, flipped, manual_tumble}

pub data Error : Type 0 where
  io tiff unsupported limit : Error

pub data Color : Type 0 where
  device_rgb device_cmyk black : Color

-- `layout`: the channels and the colour space of a page.
unfoldable pub layout : Color → ℕ × ℕ
layout device_rgb = (3, 1)
layout device_cmyk = (4, 6)
layout black = (1, 3)

pub data DuplexBinding : Type 0 where
  long_edge short_edge : DuplexBinding

unfoldable pub tumble : DuplexBinding → ℕ
tumble long_edge = 0
tumble short_edge = 1

pub record DuplexLayout : Type 0 where
  pub binding : DuplexBinding
  pub sheet_back : SheetBack

-- `u32::MAX`, which stands for -1
abbrev pub backwards : ℕ
backwards = 2 ^ 32 - 1

unfoldable pub back_transforms : DuplexBinding → SheetBack → ℕ × ℕ
back_transforms long_edge flipped = (1, backwards)
back_transforms short_edge flipped = (backwards, 1)
back_transforms long_edge rotated = (backwards, backwards)
back_transforms short_edge manual_tumble = (backwards, backwards)
back_transforms _ _ = (1, 1)

-- The transforms across and along the feed of a page.
unfoldable pub transforms : Option DuplexLayout → Bool → ℕ × ℕ
unfolding back_transforms
transforms none backside = (1, 1)
transforms (some d) false = (1, 1)
transforms (some d) true = back_transforms d.binding d.sheet_back

-- A run of literal pixels: its code and its bytes.
unfoldable pub encode_block : ℕ → Bytes → Bytes
encode_block channels block =
    let count = length block / channels in (if count == 1 then 0 else (257 - count) % 256) ∷ block

-- `row.chunks(128 * channels)`; a round takes a byte or more, so that the row's length is fuel enough.
unfoldable pub encode_blocks : ℕ → ℕ → Bytes → Bytes
unfolding encode_block
encode_blocks zero channels row = []
encode_blocks (suc fuel) channels [] = []
encode_blocks (suc fuel) channels (b ∷ row) =
    encode_block channels (take (128 * channels) (b ∷ row))
    ++ encode_blocks fuel channels (drop (128 * channels) (b ∷ row))

unfoldable pub encode_row : ℕ → Bytes → Bytes
unfolding encode_blocks
encode_row channels row = 0 ∷ encode_blocks (length row) channels row

-- The rows of `pixels.chunks_exact(line)`, as many as the page is high.
unfoldable pub encode_rows : ℕ → ℕ → ℕ → Bytes → Bytes
unfolding encode_row
encode_rows zero channels line pixels = []
encode_rows (suc height) channels line pixels =
    encode_row channels (take line pixels) ++ encode_rows height channels line (drop line pixels)
