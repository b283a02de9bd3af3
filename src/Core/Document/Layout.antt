-- ===== src/Core/Document/Layout.antt =====
-- `RasterLayout::byte_len`: the checked multiplications give the exact size or a refusal.
use rip_server.Common.{ℕ, ◌*◌, ◌/◌, ◌^◌, ◌≤◌, ◌<◌, ◌≡◌, ◌⊎◌, ◌↔◌, ok, arith}
use rip_server.Core.Document.{RasterLayout, byte_len}

abbrev pub raster_size : RasterLayout → ℕ
raster_size l = l.width * l.height * l.channels * (l.bits_per_channel / 8)

pub record IsLayout (l : RasterLayout) : Type 0 where
  pub wide : 0 < l.width
  pub high : 0 < l.height
  pub channelled : 0 < l.channels
  pub depth : (l.bits_per_channel ≡ 8) ⊎ (l.bits_per_channel ≡ 16)
  pub across : 0 < l.xdpi
  pub along : 0 < l.ydpi

le_mul_left : (a b : ℕ) → 0 < b → a ≤ a * b
le_mul_left a b h = grind arith

-- For a layout with no zero dimension and 8 or 16 bits to a channel, and a budget below 2^64:
-- `byte_len` returns a size exactly when the product of the dimensions, computed without
-- overflow, is that size and within the budget.
pub byte_len_iff :
    (l : RasterLayout) (budget n : ℕ)
    → budget < 2 ^ 64
    → IsLayout l
    → (byte_len l budget ≡ ok n) ↔ ((raster_size l ≡ n) × (n ≤ budget))
unfolding byte_len
byte_len_iff l budget n b h =
    let depth : 0 < l.bits_per_channel / 8 = ground arith in
    let first = le_mul_left (l.width * l.height) l.channels h.channelled in
    let second = le_mul_left (l.width * l.height * l.channels) (l.bits_per_channel / 8) depth in
    (
      λ e. (ground (arith, first, second), ground (arith, first, second)),
      λ e. ground (arith, first, second),
    )

-- A layout with a zero dimension, or with a depth other than 8 or 16 bits, never has a size.
pub byte_len_refuses : (l : RasterLayout) (budget n : ℕ) → byte_len l budget ≡ ok n → IsLayout l
unfolding byte_len
byte_len_refuses l budget n e = ground arith
