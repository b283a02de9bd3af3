-- ===== src/Raster/Inspect.antt =====
-- crates/rip-raster/src/lib.rs: `inspect_layout`, which checks a stream without decoding its pixels. The
-- rest of the stream stands for the offset.
use rip_server.Common.{
  ℕ, zero, suc, ◌+◌, ◌-◌, ◌*◌, ◌%◌, ◌^◌, Bool, not, ◌||◌, List, [], ◌∷◌, ◌++◌, Option, none, some,
  ltb, leb, ◌==◌, within, length, take, drop, is_empty, if◌then◌else◌, Result, ok, err, ◌>>=◌, ◌>>◌,
  reject_if, ok_or,
}
use rip_server.Common.Bytes.{Bytes, codes, bytes_eq, be32}
use rip_server.Raster.{Error, unsupported, limit, DuplexLayout, tumble, transforms}

-- `*bytes.get(offset).ok_or(Error::Unsupported)?` and `offset += 1`
unfoldable pub next_byte : Bytes → Result (ℕ × Bytes) Error
next_byte [] = err unsupported
next_byte (b ∷ bytes) = ok (b, bytes)

-- `bytes.get(offset..offset + length)` and `offset += length`
unfoldable pub skip : ℕ → Bytes → Result Bytes Error
skip n bytes = if ltb (length bytes) n then err unsupported else ok (drop n bytes)

unfoldable pub run_count : ℕ → ℕ
run_count code = if ltb code 128 then code + 1 else 257 - code

unfoldable pub run_bytes : ℕ → ℕ → ℕ
unfolding run_count
run_bytes channels code = if ltb code 128 then channels else run_count code * channels

-- `while pixels < width`; a round adds a pixel or more, so that the width is fuel enough.
unfoldable pub inspect_runs : ℕ → ℕ → ℕ → ℕ → Bytes → Result Bytes Error
unfolding next_byte skip run_bytes
inspect_runs zero width channels pixels bytes =
    if ltb pixels width then err unsupported else ok bytes
inspect_runs (suc fuel) width channels pixels bytes =
    if not (ltb pixels width) then ok bytes else do
      (code, bytes') ← next_byte bytes
      reject_if (code == 128) unsupported
      reject_if (ltb (width - pixels) (run_count code)) unsupported
      rest ← skip (run_bytes channels code) bytes'
      inspect_runs fuel width channels (pixels + run_count code) rest

-- `while rows < height`; a round adds a row or more.
unfoldable pub inspect_rows : ℕ → ℕ → ℕ → ℕ → ℕ → Bytes → Result Bytes Error
unfolding inspect_runs next_byte
inspect_rows zero height width channels rows bytes =
    if ltb rows height then err unsupported else ok bytes
inspect_rows (suc fuel) height width channels rows bytes =
    if not (ltb rows height) then ok bytes else do
      (repeat, bytes') ← next_byte bytes
      reject_if (ltb (height - rows) (repeat + 1)) unsupported
      rest ← inspect_runs width width channels 0 bytes'
      inspect_rows fuel height width channels (rows + (repeat + 1)) rest

pub record PwgPage : Type 0 where
  pub offset : ℕ
  pub width : ℕ
  pub height : ℕ
  pub dpi : ℕ
  pub document_type : Bytes

-- `u32::from_be_bytes(header[n..n + 4])`, for an offset within the header.
unfoldable pub field : Bytes → ℕ → ℕ
field header n = be (drop n header)
  where
    be : Bytes → ℕ
    be (a ∷ b ∷ c ∷ d ∷ rest) = be32 a b c d
    be _ = 0

-- The channels of a colour space and the type of a document in it.
unfoldable pub document_type_of : ℕ → Option (ℕ × Bytes)
document_type_of space =
    if space == 1
    then some (3, codes "rgb_8")
    else if space == 3
    then some (1, codes "black_8")
    else if space == 6
    then some (4, codes "cmyk_8")
    else none

abbrev is_some : Option DuplexLayout → ℕ
is_some none = 0
is_some (some d) = 1

abbrev tumble_of : Option DuplexLayout → ℕ
tumble_of none = 0
tumble_of (some d) = tumble d.binding

-- The size of a page, a product in 64 bits.
unfoldable pub page_size : Bytes → ℕ → ℕ
unfolding field
page_size header channels = (field header 372 * field header 376 * channels) % 2 ^ 64

-- The guard on a header, by the pages before it and the bytes decoded with it.
unfoldable pub bad_header : Bytes → ℕ → Option DuplexLayout → ℕ → ℕ → Bool
unfolding field page_size
bad_header header channels duplex count decoded =
    let width = field header 372 in
    let height = field header 376 in
    let turn = transforms duplex (count % 2 == 1) in
    width == 0
    || height == 0
    || ltb 67108864 (page_size header channels)
    || ltb 1073741824 decoded
    || not (within 72 2400 (field header 276))
    || not (field header 280 == field header 276)
    || not (field header 384 == 8)
    || not (field header 388 == channels * 8)
    || not (field header 392 == width * channels)
    || not (field header 396 == 0)
    || not (field header 420 == channels)
    || not (field header 272 == is_some duplex)
    || not (field header 368 == tumble_of duplex)
    || not (field header 456 == turn.0)
    || not (field header 460 == turn.1)
    || leb 100 count

-- `checked_add`
unfoldable pub add_decoded : ℕ → ℕ → Result ℕ Error
add_decoded decoded size = if ltb (decoded + size) (2 ^ 64) then ok (decoded + size) else err limit

-- One page: what it is, the total of the decoded bytes with it, and the rest of the stream.
unfoldable pub inspect_page :
    ℕ → Bytes → Option DuplexLayout → ℕ → ℕ → Result ((PwgPage × ℕ) × Bytes) Error
unfolding skip field document_type_of page_size add_decoded bad_header
inspect_page total bytes duplex count decoded = do
  body ← skip 1796 bytes
  (channels, document_type) ← ok_or (document_type_of (field bytes 400)) unsupported
  decoded' ← add_decoded decoded (page_size bytes channels)
  reject_if (bad_header bytes channels duplex count decoded') unsupported
  rest ← inspect_rows (field bytes 376) (field bytes 376) (field bytes 372) channels 0 body
  ok (
    (
      record {
        offset = total - length bytes;
        width = field bytes 372;
        height = field bytes 376;
        dpi = field bytes 276;
        document_type = document_type;
      },
      decoded',
    ),
    rest,
  )

-- `while offset < bytes.len()`; a round reads a header or more, so that the stream's length is fuel enough.
unfoldable pub inspect_pages :
    ℕ → ℕ → Bytes → Option DuplexLayout → ℕ → List PwgPage → Result (List PwgPage) Error
unfolding inspect_page
inspect_pages fuel total [] duplex decoded pages = ok pages
inspect_pages zero total (b ∷ bytes) duplex decoded pages = err unsupported
inspect_pages (suc fuel) total (b ∷ bytes) duplex decoded pages = do
  ((page, decoded'), rest) ← inspect_page total (b ∷ bytes) duplex (length pages) decoded
  inspect_pages fuel total rest duplex decoded' (pages ++ page ∷ [])

-- `inspect_layout`
unfoldable pub inspect_layout : Bytes → Option DuplexLayout → Result (List PwgPage) Error
unfolding inspect_pages
inspect_layout bytes duplex = do
  reject_if (ltb 33554432 (length bytes) || not (bytes_eq (take 4 bytes) (codes "RaS2")))
      unsupported
  pages ← inspect_pages (length bytes) (length bytes) (drop 4 bytes) duplex 0 []
  reject_if (is_empty pages) unsupported
  ok pages
