-- ===== src/Raster/Pixels.antt =====
-- crates/rip-raster/src/lib.rs: the encoder of the rows loses no pixel. The reader here follows the PWG raster
-- format, with runs of one repeated pixel, runs of literal pixels and repeated rows.
use rip_server.Common.{
  ℕ, zero, suc, ◌+◌, ◌-◌, ◌*◌, ◌%◌, ◌≤◌, ◌<◌, ◌≡◌, refl, ap, subst, ◌∙◌, inl, inr, Bool-cases, true,
  false, not, [], ◌∷◌, ◌++◌, min, ltb, ◌==◌, length, take, drop, if◌then◌else◌, Result, ok, ◌>>=◌,
  ◌>>◌, reject_if, arith, length-take, length-drop, take-append-drop, take-length_append,
  append_assoc, append-nil,
}
use rip_server.Common.Bytes.{Bytes}
use rip_server.Raster.{Error, unsupported, encode_block, encode_blocks, encode_row, encode_rows}
use rip_server.Raster.Inspect.{next_byte, skip, run_count, run_bytes}
use rip_server.Raster.Rows.{first_pixels, pixels_after, pixels_pos, pixels_none, encode_blocks-nil}
use rip_server.Raster.Runs.{
  code, run_count-code, run_bytes-code, code_used, skip-append, encode_block-code,
}

-- A list of bytes some times over.
unfoldable pub times : ℕ → Bytes → Bytes
times zero bytes = []
times (suc n) bytes = bytes ++ times n bytes

-- The pixels of a run, by its code and its bytes.
unfoldable pub run_pixels : ℕ → Bytes → Bytes
unfolding times
run_pixels c bytes = if ltb c 128 then times (c + 1) bytes else bytes

unfoldable pub read_runs : ℕ → ℕ → ℕ → ℕ → Bytes → Result (Bytes × Bytes) Error
unfolding run_pixels
read_runs zero width channels pixels bytes = ok ([], bytes)
read_runs (suc fuel) width channels pixels bytes =
    if not (ltb pixels width) then ok ([], bytes) else do
      (c, bytes') ← next_byte bytes
      reject_if (c == 128) unsupported
      rest ← skip (run_bytes channels c) bytes'
      (row, end) ← read_runs fuel width channels (pixels + run_count c) rest
      ok (run_pixels c (take (run_bytes channels c) bytes') ++ row, end)

unfoldable pub read_rows : ℕ → ℕ → ℕ → ℕ → Bytes → Result (Bytes × Bytes) Error
unfolding read_runs times
read_rows zero height width channels bytes = ok ([], bytes)
read_rows (suc rounds) height width channels bytes = if height == 0 then ok ([], bytes) else do
  (repeat, bytes') ← next_byte bytes
  (row, rest) ← read_runs width width channels 0 bytes'
  (rows, end) ← read_rows rounds (height - (repeat + 1)) width channels rest
  ok (times (repeat + 1) row ++ rows, end)

run_pixels-code : (k : ℕ) (block : Bytes) → 0 < k → k ≤ 128 → run_pixels (code k) block ≡ block
unfolding run_pixels times
run_pixels-code k block pos small = elim (Bool-cases (k == 1)) [
  | inl one ↦ rw one (append-nil block)
  | inr more ↦ let high : ltb ((257 - k) % 256) 128 ≡ false = ground arith in rw (more, high) refl
]

read_runs_run :
    (fuel width channels pixels c k n : ℕ) (block more row end : Bytes)
    → (c == 128) ≡ false
    → run_count c ≡ k
    → run_bytes channels c ≡ n
    → length block ≡ n
    → run_pixels c block ≡ block
    → pixels < width
    → read_runs fuel width channels (pixels + k) more ≡ ok (row, end)
    → read_runs (suc fuel) width channels pixels (c ∷ block ++ more) ≡ ok (block ++ row, end)
unfolding read_runs next_byte
read_runs_run fuel width channels pixels c k n block more row end used count bytes e same left
      later =
    let before : ltb pixels width ≡ true = ground arith in
    let taken : take n (block ++ more) ≡ block =
      subst (λ m. take m (block ++ more) ≡ block) e (take-length_append block more) in
    rw (before, used, bytes, count, skip-append n block more e, later, taken, same) refl

read_runs_end :
    (fuel width channels pixels : ℕ) (bytes : Bytes)
    → width ≤ pixels
    → read_runs fuel width channels pixels bytes ≡ ok ([], bytes)
unfolding read_runs
read_runs_end zero width channels pixels bytes h = refl
read_runs_end (suc fuel) width channels pixels bytes h =
    let done : ltb pixels width ≡ false = ground arith in rw done refl

read_runs-encode_blocks :
    (fuel rounds n width channels pixels : ℕ) (row more : Bytes)
    → 0 < channels
    → length row ≡ n * channels
    → length row ≤ fuel
    → n ≤ rounds
    → pixels + n ≡ width
    → read_runs rounds width channels pixels (encode_blocks fuel channels row ++ more)
      ≡ ok (row, more)
unfolding encode_blocks
read_runs-encode_blocks fuel rounds n width channels pixels [] more h e enough turns whole =
    ap (λ bytes. read_runs rounds width channels pixels (bytes ++ more))
      (encode_blocks-nil fuel channels)
    ∙ read_runs_end rounds width channels pixels more
        (omega (arith, whole, pixels_none n channels h e))
read_runs-encode_blocks zero rounds n width channels pixels (b ∷ row) more h e enough turns whole =
    ground (arith, enough)
read_runs-encode_blocks (suc fuel) zero n width channels pixels (b ∷ row) more h e enough turns
      whole =
    absurd (omega (arith, pixels_pos n channels (omega (arith, e)), turns))
read_runs-encode_blocks (suc fuel) (suc rounds) n width channels pixels (b ∷ row) more h e enough
      turns whole =
    let all : Bytes = b ∷ row in
    let k = min 128 n in
    let block = take (128 * channels) all in
    let behind = drop (128 * channels) all in
    let some_pixels : 0 < n = pixels_pos n channels (omega (arith, e)) in
    let first : length block ≡ k * channels =
      length-take (128 * channels) all ∙ ap (min (128 * channels)) e ∙ first_pixels n channels in
    let last : length behind ≡ (n - k) * channels =
      length-drop (128 * channels) all ∙ ap (λ m. m - 128 * channels) e ∙ pixels_after n channels in
    let later =
      read_runs-encode_blocks fuel rounds (n - k) width channels (pixels + k) behind more h last
        (omega (arith, length-drop (128 * channels) all, enough)) (omega arith) (omega arith) in
    ap (read_runs (suc rounds) width channels pixels) (
      append_assoc (encode_block channels block) (encode_blocks fuel channels behind) more
      ∙ ap (λ bytes. bytes ++ (encode_blocks fuel channels behind ++ more))
          (encode_block-code k channels block h first))
    ∙ read_runs_run rounds width channels pixels (code k) k (k * channels) block
        (encode_blocks fuel channels behind ++ more) behind more
        (code_used k (omega arith) (omega arith)) (run_count-code k (omega arith) (omega arith))
        (run_bytes-code k channels (omega arith) (omega arith)) first
        (run_pixels-code k block (omega arith) (omega arith)) (omega arith) later
    ∙ ap (λ bytes. ok (bytes, more)) (take-append-drop (128 * channels) all)

read_rows_row :
    (rounds height width channels : ℕ) (row more rows end : Bytes)
    → 0 < channels
    → length row ≡ width * channels
    → read_rows rounds height width channels more ≡ ok (rows, end)
    → read_rows (suc rounds) (suc height) width channels (encode_row channels row ++ more)
      ≡ ok (row ++ rows, end)
unfolding read_rows encode_row next_byte times
read_rows_row rounds height width channels row more rows end h e later =
    let left : (suc height == 0) ≡ false = ground arith in
    let below : suc height - 1 ≡ height = omega arith in
    rw
      (
        left,
        read_runs-encode_blocks (length row) width width width channels 0 row more h e (omega arith)
            (omega arith) (omega arith),
        below,
        later,
        append-nil row,
      )
      refl

-- Encoding the rows of a page loses no pixel: a reader of the format, given the height, the width and the
-- channels of the page, finds the very pixels that were encoded, and leaves the bytes that follow them.
-- The pixels are as many as the page has, and a pixel has a channel.
pub read_rows-encode_rows :
    (height width channels : ℕ) (pixels more : Bytes)
    → 0 < channels
    → length pixels ≡ height * (width * channels)
    → read_rows height height width channels
        (encode_rows height channels (width * channels) pixels ++ more)
      ≡ ok (pixels, more)
unfolding encode_rows read_rows
read_rows-encode_rows zero width channels [] more h e = refl
read_rows-encode_rows zero width channels (b ∷ pixels) more h e = ground (arith, e)
read_rows-encode_rows (suc height) width channels pixels more h e =
    let line = width * channels in
    let split : suc height * line ≡ line + height * line = grind arith in
    let first : length (take line pixels) ≡ line =
      omega (arith, length-take line pixels, e, split) in
    let behind : length (drop line pixels) ≡ height * line =
      omega (arith, length-drop line pixels, e, split) in
    ap (read_rows (suc height) (suc height) width channels) (
      append_assoc (encode_row channels (take line pixels))
        (encode_rows height channels line (drop line pixels)) more)
    ∙ read_rows_row height height width channels (take line pixels)
        (encode_rows height channels line (drop line pixels) ++ more) (drop line pixels) more h
        first (read_rows-encode_rows height width channels (drop line pixels) more h behind)
    ∙ ap (λ bytes. ok (bytes, more)) (take-append-drop line pixels)
