-- ===== src/Interpreter.antt =====
-- crates/rip-interpreter/src/page_stream.rs: the reader of the pages that a rendering engine writes to
-- its standard output. The stream is the list of the bytes that the engine writes until it closes the
-- pipe; the output directory lists its files, newest first, each under the page number that its name
-- `page-000001.tiff` carries. The callback `progress` is a function of the page number.
pub mod Copy
pub mod PageStream
use rip_server.Common.{
  ℕ, zero, suc, ◌+◌, ◌-◌, ◌*◌, ◌%◌, ◌^◌, min, Bool, true, false, not, ◌&&◌, ◌||◌, List, [], ◌∷◌,
  ◌++◌, Option, none, some, ltb, ◌==◌, length, take, drop, is_empty, any, if◌then◌else◌, Result, ok,
  err, ◌>>=◌, ◌>>◌, reject_if, ok_or,
}
use rip_server.Common.Bytes.{Bytes, bytes_eq, codes, be32, be64}
use rip_server.Core.Pages.Render
use rip_server.Core.Pages.Render.{RenderPages}

pub data Rejection : Type 0 where
  interpreter_failed invalid_output_protocol page_range_out_of_bounds empty_output invalid_output
        source_page_count_mismatch resource_limit invalid_tiff :
      Rejection

pub data InterpreterError : Type 0 where
  io : InterpreterError
  rejected : Rejection → InterpreterError

pub record RenderedDocument : Type 0 where
  pub pages : List ℕ
  pub source_page_count : Option ℕ

-- A file of the output directory: the page number of its name, and its bytes.
abbrev pub File : Type 0
File = ℕ × Bytes

-- `exact`: the bytes read and those that remain, or an error where fewer remain.
unfoldable pub exact : ℕ → Bytes → Result (Bytes × Bytes) InterpreterError
exact n input =
    if ltb (length input) n
    then err (rejected interpreter_failed)
    else ok (take n input, drop n input)

-- The page number and the size in the head of a frame.
unfoldable pub read_frame : Bytes → Result (ℕ × ℕ) InterpreterError
read_frame (p0 ∷ p1 ∷ p2 ∷ p3 ∷ s0 ∷ s1 ∷ s2 ∷ s3 ∷ s4 ∷ s5 ∷ s6 ∷ s7 ∷ []) =
    ok (be32 p0 p1 p2 p3, be64 s0 s1 s2 s3 s4 s5 s6 s7)
read_frame _ = err (rejected interpreter_failed)

unfoldable pub take_frame : Bytes → Result ((ℕ × ℕ) × Bytes) InterpreterError
unfolding exact read_frame
take_frame input = do (head, rest) ← exact 12 input; frame ← read_frame head; ok (frame, rest)

-- The magic number of a TIFF file, in either byte order.
unfoldable pub is_tiff : Bytes → Bool
is_tiff header =
    bytes_eq (take 4 header) (0x49 ∷ 0x49 ∷ 0x2a ∷ 0x00 ∷ [])
    || bytes_eq (take 4 header) (0x4d ∷ 0x4d ∷ 0x00 ∷ 0x2a ∷ [])

-- The size of the buffer that a page passes through.
abbrev pub buffer_size : ℕ
buffer_size = 65536

-- What remains of a page, copied to its file buffer by buffer; the file as it is left, with the rest
-- of the stream or an error. Each round copies a byte or more, so that the size is fuel enough.
unfoldable pub copy : ℕ → ℕ → Bytes → Bytes → Bytes × Result Bytes InterpreterError
copy zero size input file = (file, ok input)
copy (suc fuel) zero input file = (file, ok input)
copy (suc fuel) (suc left) input file =
    let count = min (suc left) buffer_size in
    elim (exact count input) [
      | err e ↦ (file, err e)
      | ok (bytes, rest) ↦ copy fuel (suc left - count) rest (file ++ bytes)
    ]
