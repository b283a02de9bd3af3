-- ===== src/Core/Document.antt =====
-- crates/rip-core/src/lib.rs: document formats, engines, the manifest and the raster layout.
pub mod Detect
pub mod Validate
pub mod Layout
use rip_server.Common.{
  ℕ, ◌+◌, ◌*◌, ◌/◌, ◌^◌, Bool, true, false, not, ◌&&◌, ◌||◌, List, [], ◌∷◌, Option, none, some, ltb,
  leb, ◌==◌, within, if◌then◌else◌, any, all, take, Result, ok, err, ◌>>=◌, ◌>>◌, reject_if, ok_or,
}
use rip_server.Common.Bytes.{Bytes, codes, starts_with}
use rip_server.Core.Error.{
  ValidationError, unsupported_document, engine_format_mismatch, page_selection_requires_pdf,
  invalid_name, invalid_dpi, invalid_priority, invalid_raster_layout, resource_limit,
}
use rip_server.Core.Pages.Render
use rip_server.Core.Pages.Render.{RenderPages}

pub data DocumentFormat : Type 0 where
  pdf postscript eps : DocumentFormat

-- `data.windows(4).any(|s| s == b"EPSF")`, for a nonempty pattern.
any_window : Bytes → Bytes → Bool
any_window pattern [] = starts_with pattern []
any_window pattern (b ∷ bs) = starts_with pattern (b ∷ bs) || any_window pattern bs

unfoldable pub detect : Bytes → Result DocumentFormat ValidationError
unfolding any_window
detect input =
    if starts_with (codes "%PDF-") input
    then ok pdf
    else if starts_with (codes "%!PS-Adobe-") input && any_window (codes "EPSF") (take 100 input)
    then ok eps
    else if starts_with (codes "%!") input
    then ok postscript
    else err unsupported_document

pub data ColorMode : Type 0 where
  rgb cmyk gray : ColorMode

pub data EnginePreference : Type 0 where
  auto mu_pdf ghostscript : EnginePreference

pub data EngineKind : Type 0 where
  mu_pdf ghostscript : EngineKind

unfoldable pub resolve : EnginePreference → DocumentFormat → Result EngineKind ValidationError
resolve auto pdf = ok EngineKind.mu_pdf
resolve EnginePreference.mu_pdf pdf = ok EngineKind.mu_pdf
resolve EnginePreference.mu_pdf _ = err engine_format_mismatch
resolve _ _ = ok EngineKind.ghostscript

-- `name` is the text's code points.
pub record Manifest : Type 0 where
  pub page_ranges : RenderPages
  pub name : List ℕ
  pub format : DocumentFormat
  pub dpi : ℕ
  pub color_mode : ColorMode
  pub priority : ℕ
  pub engine : EnginePreference

-- The length of a code point in UTF-8, so that `utf8_len` is `str::len`.
unfoldable pub char_len : ℕ → ℕ
char_len c = if ltb c 0x80 then 1 else if ltb c 0x800 then 2 else if ltb c 0x10000 then 3 else 4

unfoldable pub utf8_len : List ℕ → ℕ
unfolding char_len
utf8_len [] = 0
utf8_len (c ∷ cs) = char_len c + utf8_len cs

-- `char::is_whitespace`: the Unicode property White_Space.
unfoldable pub is_whitespace : ℕ → Bool
is_whitespace c =
    within 0x9 0xd c
    || c == 0x20
    || c == 0x85
    || c == 0xa0
    || c == 0x1680
    || within 0x2000 0x200a c
    || within 0x2028 0x2029 c
    || c == 0x202f
    || c == 0x205f
    || c == 0x3000

-- `char::is_control`: the Unicode category Cc.
unfoldable pub is_control : ℕ → Bool
is_control c = leb c 0x1f || within 0x7f 0x9f c

abbrev pub is_pdf : DocumentFormat → Bool
is_pdf pdf = true
is_pdf _ = false

-- `name.trim().is_empty()` says that every character is white space.
unfoldable pub bad_name : List ℕ → Bool
unfolding utf8_len is_whitespace is_control
bad_name name = all is_whitespace name || ltb 255 (utf8_len name) || any is_control name

unfoldable pub validate : Manifest → Result (Unit {0}) ValidationError
unfolding resolve
validate self = do
  _ ← resolve self.engine self.format
  reject_if (not (Render.is_all self.page_ranges) && not (is_pdf self.format))
      page_selection_requires_pdf
  reject_if (bad_name self.name) invalid_name
  reject_if (not (within 72 2400 self.dpi)) invalid_dpi
  reject_if (ltb 100 self.priority) invalid_priority
  ok tt

pub record RasterLayout : Type 0 where
  pub width : ℕ
  pub height : ℕ
  pub channels : ℕ
  pub bits_per_channel : ℕ
  pub xdpi : ℕ
  pub ydpi : ℕ

-- `u64::checked_mul`
checked_mul : ℕ → ℕ → Option ℕ
checked_mul a b = if ltb (a * b) (2 ^ 64) then some (a * b) else none

-- `Option::and_then`
and_then : Option ℕ → (ℕ → Option ℕ) → Option ℕ
and_then none f = none
and_then (some n) f = f n

-- `Option::filter`
filter_le : ℕ → Option ℕ → Option ℕ
filter_le budget none = none
filter_le budget (some n) = if leb n budget then some n else none

bad_layout : RasterLayout → Bool
bad_layout self =
    self.width == 0
    || self.height == 0
    || self.channels == 0
    || not (self.bits_per_channel == 8 || self.bits_per_channel == 16)
    || self.xdpi == 0
    || self.ydpi == 0

unfoldable pub byte_len : RasterLayout → ℕ → Result ℕ ValidationError
unfolding bad_layout checked_mul and_then filter_le
byte_len self budget = do
  reject_if (bad_layout self) invalid_raster_layout
  let samples = and_then (checked_mul self.width self.height) (λ n. checked_mul n self.channels)
  let bytes = and_then samples (λ n. checked_mul n (self.bits_per_channel / 8))
  ok_or (filter_le budget bytes) resource_limit
