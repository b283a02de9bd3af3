-- ===== src/Raster/Runs.antt =====
-- crates/rip-raster/src/lib.rs: one run of literal pixels, as the encoder writes and the inspector reads it.
use native.Mathlib.Nat.{mul-add-div, zero-div}
use rip_server.Common.{
  ℕ, suc, ◌+◌, ◌-◌, ◌*◌, ◌/◌, ◌%◌, ◌≤◌, ◌<◌, ◌≡◌, refl, ap, ◌∙◌, true, false, ◌∷◌, ◌++◌, ltb, ◌==◌,
  length, if◌then◌else◌, ok, arith, length-append, drop-length_append,
}
use rip_server.Common.Bytes.{Bytes}
use rip_server.Raster.{encode_block}
use rip_server.Raster.Inspect.{next_byte, skip, run_count, run_bytes, inspect_runs}

pub mul_div : (k channels : ℕ) → 0 < channels → k * channels / channels ≡ k
mul_div k channels h =
    let swap : k * channels ≡ channels * k + 0 = grind arith in
    omega (arith, ap (λ n. n / channels) swap, mul-add-div h k 0, zero-div channels)

-- The code of a run of literal pixels.
abbrev pub code : ℕ → ℕ
code k = if k == 1 then 0 else (257 - k) % 256

pub run_count-code : (k : ℕ) → 0 < k → k ≤ 128 → run_count (code k) ≡ k
unfolding run_count
run_count-code k h g = ground arith

pub run_bytes-code : (k channels : ℕ) → 0 < k → k ≤ 128 → run_bytes channels (code k) ≡ k * channels
unfolding run_bytes run_count
run_bytes-code k channels h g = ground arith

pub code_used : (k : ℕ) → 0 < k → k ≤ 128 → (code k == 128) ≡ false
code_used k h g = ground arith

pub skip-append : (n : ℕ) (block rest : Bytes) → length block ≡ n → skip n (block ++ rest) ≡ ok rest
unfolding skip
skip-append n block rest e = ground (arith, length-append block rest, drop-length_append block rest)

pub encode_block-code :
    (k channels : ℕ) (block : Bytes)
    → 0 < channels
    → length block ≡ k * channels
    → encode_block channels block ≡ code k ∷ block
unfolding encode_block
encode_block-code k channels block h e =
    let count : length block / channels ≡ k = ap (λ n. n / channels) e ∙ mul_div k channels h in
    ap (λ n. (if n == 1 then 0 else (257 - n) % 256) ∷ block) count

-- One round of the inspector reads one run.
inspect_runs_run :
    (fuel width channels pixels c k n : ℕ) (block more : Bytes)
    → (c == 128) ≡ false
    → run_count c ≡ k
    → run_bytes channels c ≡ n
    → length block ≡ n
    → 0 < k
    → pixels + k ≤ width
    → inspect_runs (suc fuel) width channels pixels (c ∷ block ++ more)
      ≡ inspect_runs fuel width channels (pixels + k) more
unfolding inspect_runs next_byte
inspect_runs_run fuel width channels pixels c k n block more used count bytes e pos fits =
    let before : ltb pixels width ≡ true = ground arith in
    let room : ltb (width - pixels) k ≡ false = ground arith in
    rw (before, used, bytes, count, room, skip-append n block more e) refl

pub inspect_runs-block :
    (fuel width channels pixels k : ℕ) (block more : Bytes)
    → 0 < channels
    → 0 < k
    → k ≤ 128
    → pixels + k ≤ width
    → length block ≡ k * channels
    → inspect_runs (suc fuel) width channels pixels (encode_block channels block ++ more)
      ≡ inspect_runs fuel width channels (pixels + k) more
inspect_runs-block fuel width channels pixels k block more h pos small fits e =
    ap (λ bytes. inspect_runs (suc fuel) width channels pixels (bytes ++ more))
      (encode_block-code k channels block h e)
    ∙ inspect_runs_run fuel width channels pixels (code k) k (k * channels) block more
        (code_used k pos small) (run_count-code k pos small) (run_bytes-code k channels pos small) e
        pos fits
