-- ===== src/Raster/Rows.antt =====
-- crates/rip-raster/src/lib.rs: the inspector accepts the rows that the encoder writes, and reads exactly these.
use native.Mathlib.Nat.{}
use rip_server.Common.{
  ℕ, zero, suc, ◌+◌, ◌-◌, ◌*◌, ◌≤◌, ◌<◌, ◌≡◌, refl, ap, ◌∙◌, inl, inr, Bool-cases, true, false, [],
  ◌∷◌, ◌++◌, min, ltb, length, take, drop, ok, arith, length-take, length-drop, append_assoc,
}
use rip_server.Common.Bytes.{Bytes}
use rip_server.Raster.{encode_block, encode_blocks, encode_row, encode_rows}
use rip_server.Raster.Inspect.{next_byte, inspect_runs, inspect_rows}
use rip_server.Raster.Runs.{inspect_runs-block}

-- The pixels of the first run of a row, and those behind it.
mul_mono : (m n p : ℕ) → m ≤ n → m * p ≤ n * p
mul_mono m n p h = grind arith

pub first_pixels : (n channels : ℕ) → min (128 * channels) (n * channels) ≡ min 128 n * channels
first_pixels n channels = elim (Bool-cases (ltb n 128)) [
  | inl few ↦
      let small : min 128 n ≡ n = ground arith in
      omega (arith, mul_mono n 128 channels (ground arith), ap (λ k. k * channels) small)
  | inr many ↦
      let small : min 128 n ≡ 128 = ground arith in
      omega (arith, mul_mono 128 n channels (ground arith), ap (λ k. k * channels) small)
]

pub pixels_after : (n channels : ℕ) → n * channels - 128 * channels ≡ (n - min 128 n) * channels
pixels_after n channels = elim (Bool-cases (ltb n 128)) [
  | inl few ↦
      let none_left : n - min 128 n ≡ 0 = ground arith in
      omega (arith, mul_mono n 128 channels (ground arith), ap (λ k. k * channels) none_left)
  | inr many ↦
      let left : n ≡ (n - min 128 n) + 128 = ground arith in
      let split : ((n - min 128 n) + 128) * channels ≡ (n - min 128 n) * channels + 128 * channels =
        grind arith in
      omega (arith, ap (λ k. k * channels) left, split)
]

pub pixels_pos : (n channels : ℕ) → 0 < n * channels → 0 < n
pixels_pos zero channels h = ground (arith, h)
pixels_pos (suc n) channels h = omega arith

inspect_runs_end :
    (fuel width channels pixels : ℕ) (bytes : Bytes)
    → width ≤ pixels
    → inspect_runs fuel width channels pixels bytes ≡ ok bytes
unfolding inspect_runs
inspect_runs_end zero width channels pixels bytes h = ground arith
inspect_runs_end (suc fuel) width channels pixels bytes h =
    let done : ltb pixels width ≡ false = ground arith in rw done refl

pub pixels_none : (n channels : ℕ) → 0 < channels → 0 ≡ n * channels → n ≡ 0
pixels_none zero channels h e = refl
pixels_none (suc n) channels h e =
    let split : suc n * channels ≡ n * channels + channels = grind arith in
    omega (arith, h, e, split)

pub encode_blocks-nil : (fuel channels : ℕ) → encode_blocks fuel channels [] ≡ []
unfolding encode_blocks
encode_blocks-nil zero channels = refl
encode_blocks-nil (suc fuel) channels = refl

inspect_runs-encode_blocks :
    (fuel rounds n width channels pixels : ℕ) (row more : Bytes)
    → 0 < channels
    → length row ≡ n * channels
    → length row ≤ fuel
    → n ≤ rounds
    → pixels + n ≡ width
    → inspect_runs rounds width channels pixels (encode_blocks fuel channels row ++ more) ≡ ok more
unfolding encode_blocks
inspect_runs-encode_blocks fuel rounds n width channels pixels [] more h e enough turns whole =
    ap (λ bytes. inspect_runs rounds width channels pixels (bytes ++ more))
      (encode_blocks-nil fuel channels)
    ∙ inspect_runs_end rounds width channels pixels more
        (omega (arith, whole, pixels_none n channels h e))
inspect_runs-encode_blocks zero rounds n width channels pixels (b ∷ row) more h e enough turns
      whole =
    ground (arith, enough)
inspect_runs-encode_blocks (suc fuel) zero n width channels pixels (b ∷ row) more h e enough turns
      whole =
    absurd (omega (arith, pixels_pos n channels (omega (arith, e)), turns))
inspect_runs-encode_blocks (suc fuel) (suc rounds) n width channels pixels (b ∷ row) more h e enough
      turns whole =
    let all : Bytes = b ∷ row in
    let k = min 128 n in
    let some_pixels : 0 < n = pixels_pos n channels (omega (arith, e)) in
    let first : length (take (128 * channels) all) ≡ k * channels =
      length-take (128 * channels) all ∙ ap (min (128 * channels)) e ∙ first_pixels n channels in
    let behind : length (drop (128 * channels) all) ≡ (n - k) * channels =
      length-drop (128 * channels) all ∙ ap (λ m. m - 128 * channels) e ∙ pixels_after n channels in
    ap (inspect_runs (suc rounds) width channels pixels) (
      append_assoc (encode_block channels (take (128 * channels) all))
        (encode_blocks fuel channels (drop (128 * channels) all)) more)
    ∙ inspect_runs-block rounds width channels pixels k (take (128 * channels) all)
        (encode_blocks fuel channels (drop (128 * channels) all) ++ more) h (omega arith)
        (omega arith) (omega arith) first
    ∙ inspect_runs-encode_blocks fuel rounds (n - k) width channels (pixels + k)
        (drop (128 * channels) all) more h behind
        (omega (arith, length-drop (128 * channels) all, enough)) (omega arith) (omega arith)

inspect_rows_end :
    (fuel height width channels rows : ℕ) (bytes : Bytes)
    → height ≤ rows
    → inspect_rows fuel height width channels rows bytes ≡ ok bytes
unfolding inspect_rows
inspect_rows_end zero height width channels rows bytes h = ground arith
inspect_rows_end (suc fuel) height width channels rows bytes h =
    let done : ltb rows height ≡ false = ground arith in rw done refl

-- The row of the encoder repeats once.
inspect_rows_row :
    (rounds height width channels rows : ℕ) (row more : Bytes)
    → rows < height
    → 0 < channels
    → length row ≡ width * channels
    → inspect_rows (suc rounds) height width channels rows (encode_row channels row ++ more)
      ≡ inspect_rows rounds height width channels (rows + 1) more
unfolding inspect_rows encode_row next_byte
inspect_rows_row rounds height width channels rows row more left h e =
    let before : ltb rows height ≡ true = ground arith in
    let room : ltb (height - rows) 1 ≡ false = ground arith in
    rw
      (
        before,
        room,
        inspect_runs-encode_blocks (length row) width width width channels 0 row more h e
            (omega arith) (omega arith) (omega arith),
      )
      refl

-- What the encoder writes for the pixels of a page, the inspector accepts for a page of this size, whatever
-- follows: it reads every row of it, and it reads no further.
pub inspect_rows-encode_rows :
    (rounds left height width channels rows : ℕ) (pixels more : Bytes)
    → 0 < channels
    → length pixels ≡ left * (width * channels)
    → rows + left ≡ height
    → left ≤ rounds
    → inspect_rows rounds height width channels rows
        (encode_rows left channels (width * channels) pixels ++ more)
      ≡ ok more
unfolding encode_rows
inspect_rows-encode_rows rounds zero height width channels rows pixels more h e whole turns =
    inspect_rows_end rounds height width channels rows more (omega arith)
inspect_rows-encode_rows zero (suc left) height width channels rows pixels more h e whole turns =
    absurd (omega (arith, turns))
inspect_rows-encode_rows (suc rounds) (suc left) height width channels rows pixels more h e whole
      turns =
    let line = width * channels in
    let split : suc left * line ≡ line + left * line = grind arith in
    let first : length (take line pixels) ≡ line =
      omega (arith, length-take line pixels, e, split) in
    let behind : length (drop line pixels) ≡ left * line =
      omega (arith, length-drop line pixels, e, split) in
    ap (inspect_rows (suc rounds) height width channels rows) (
      append_assoc (encode_row channels (take line pixels))
        (encode_rows left channels line (drop line pixels)) more)
    ∙ inspect_rows_row rounds height width channels rows (take line pixels)
        (encode_rows left channels line (drop line pixels) ++ more) (omega arith) h first
    ∙ inspect_rows-encode_rows rounds left height width channels (rows + 1) (drop line pixels) more
        h behind (omega arith) (omega arith)
