-- ===== src/Tests/Raster.antt =====
-- crates/rip-raster/src/lib.rs at concrete inputs.
use rip_server.Common.{◌≡◌, refl, [], ◌∷◌, ◌++◌, ok, arith}
use rip_server.Common.Bytes.{Bytes}
use rip_server.Raster.{encode_rows, encode_row, encode_blocks, encode_block}
use rip_server.Raster.Inspect.{inspect_rows}
use rip_server.Raster.Rows.{inspect_rows-encode_rows}
use rip_server.Raster.Pixels.{read_rows, read_rows-encode_rows}

-- Two rows of two pixels in RGB.
abbrev pixels : Bytes
pixels = 255 ∷ 0 ∷ 0 ∷ 0 ∷ 255 ∷ 0 ∷ 1 ∷ 2 ∷ 3 ∷ 4 ∷ 5 ∷ 6 ∷ []

encoded :
    encode_rows 2 3 6 pixels
    ≡ 0 ∷ 255 ∷ 255 ∷ 0 ∷ 0 ∷ 0 ∷ 255 ∷ 0 ∷ 0 ∷ 255 ∷ 1 ∷ 2 ∷ 3 ∷ 4 ∷ 5 ∷ 6 ∷ []
unfolding encode_rows encode_row encode_blocks encode_block
encoded = refl

inspect_rows-encode_rows_example :
    inspect_rows 2 2 2 3 0 (encode_rows 2 3 6 pixels ++ 9 ∷ []) ≡ ok (9 ∷ [])
inspect_rows-encode_rows_example =
    inspect_rows-encode_rows 2 2 2 2 3 0 pixels (9 ∷ []) (omega arith) refl refl (omega arith)

read_rows-encode_rows_example :
    read_rows 2 2 2 3 (encode_rows 2 3 6 pixels ++ 9 ∷ []) ≡ ok (pixels, 9 ∷ [])
read_rows-encode_rows_example = read_rows-encode_rows 2 2 3 pixels (9 ∷ []) (omega arith) refl
