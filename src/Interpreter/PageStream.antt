-- ===== src/Interpreter/PageStream.antt =====
-- crates/rip-interpreter/src/page_stream.rs: `read_selected_page_stream`.
pub mod Pages
pub mod Received
pub mod Announced
pub mod Outcome
pub mod Complete
pub mod Stream
use rip_server.Common.{
  ℕ, zero, suc, ◌+◌, ◌-◌, ◌*◌, ◌%◌, ◌^◌, min, Bool, true, false, not, ◌&&◌, ◌||◌, List, [], ◌∷◌,
  ◌++◌, Option, none, some, ltb, ◌==◌, length, take, drop, is_empty, any, if◌then◌else◌, Result, ok,
  err, ◌>>=◌, ◌>>◌, reject_if, ok_or,
}
use rip_server.Common.Bytes.{Bytes, bytes_eq, codes, be32, be64}
use rip_server.Core.Pages.Render
use rip_server.Core.Pages.Render.{RenderPages}
use rip_server.Interpreter.{
  Rejection, interpreter_failed, invalid_output_protocol, page_range_out_of_bounds, empty_output,
  invalid_output, source_page_count_mismatch, resource_limit, invalid_tiff, InterpreterError, io,
  rejected, RenderedDocument, File, exact, take_frame, is_tiff, copy,
}

-- What stays the same through the loop: `expected` is the number of selected pages, where it is known.
pub record Settings : Type 0 where
  pub max_pages : ℕ
  pub max_bytes : ℕ
  pub source_page_count : Option ℕ
  pub expected : Option ℕ
  pub progress : ℕ → Result (Unit {0}) InterpreterError

-- The variables of the loop, the stream, the directory, and the calls of `progress`.
pub record Receiver : Type 0 where
  pub input : Bytes
  pub files : List File
  pub observed : List ℕ
  pub pages : List ℕ
  pub total : ℕ

-- A round of the loop goes on or leaves it with a result.
pub data Step : Type 0 where
  more : Receiver → Step
  done : Receiver → Result RenderedDocument InterpreterError → Step

-- `expected != Some(n)`
unfoldable pub expects_other : Option ℕ → ℕ → Bool
expects_other none n = true
expects_other (some m) n = not (m == n)

-- `expected.is_some_and(|n| n != pages)` and `expected.is_some_and(|n| page > n)`
unfoldable pub expects_not : Option ℕ → ℕ → Bool
expects_not none n = false
expects_not (some m) n = not (m == n)

unfoldable pub expects_fewer : Option ℕ → ℕ → Bool
expects_fewer none page = false
expects_fewer (some n) page = ltb n page

-- The frame of page 0 and size 0 ends the stream.
unfoldable pub finish : Settings → Receiver → Result RenderedDocument InterpreterError
finish l s = do
  reject_if (is_empty s.pages && expects_other l.expected 0) (rejected empty_output)
  reject_if (not (is_empty s.input)) (rejected invalid_output)
  reject_if (expects_not l.expected (length s.pages)) (rejected source_page_count_mismatch)
  ok (record { pages = s.pages; source_page_count = l.source_page_count })

-- `checked_add` on `u64`, then the limit.
unfoldable pub add_size : ℕ → ℕ → ℕ → Option ℕ
add_size max_bytes total size =
    if ltb (total + size) (2 ^ 64) && not (ltb max_bytes (total + size))
    then some (total + size)
    else none

-- The tests of a frame, and the new total.
unfoldable pub admit_frame : Settings → Receiver → ℕ → ℕ → Result ℕ InterpreterError
admit_frame l s page size = do
  reject_if
      (not (page == (length s.pages % 2 ^ 32 + 1) % 2 ^ 32)
        || ltb l.max_pages page
        || ltb size 8
        || expects_fewer l.expected page)
      (rejected invalid_output)
  ok_or (add_size l.max_bytes s.total size) (rejected resource_limit)

-- The page is complete: it joins the pages and is reported.
unfoldable pub report : Settings → Receiver → ℕ → Step
report l s page =
    let reported = record s { pages = s.pages ++ page ∷ []; observed = s.observed ++ page ∷ [] } in
    elim (l.progress page) [ err e ↦ done reported (err e) | ok _ ↦ more reported ]

-- The body of a page behind its header of 8 bytes.
unfoldable pub store_body : Settings → Receiver → ℕ → ℕ → Bytes → Bytes → Step
store_body l s page size header rest =
    let (file, copied) = copy (size - 8) (size - 8) rest header in
    elim copied [
      | err e ↦ done (record s { files = (page, file) ∷ s.files }) (err e)
      | ok rest' ↦ report l (record s { input = rest'; files = (page, file) ∷ s.files }) page
    ]

-- The new file, which must not exist, and its header.
unfoldable pub store : Settings → Receiver → ℕ → ℕ → Step
store l s page size = elim (any (λ f. f.0 == page) s.files) [
  | true ↦ done s (err io)
  | false ↦ elim (exact 8 s.input) [
    | err e ↦ done (record s { files = (page, []) ∷ s.files }) (err e)
    | ok (header, rest) ↦ elim (is_tiff header) [
      | false ↦ done (record s { files = (page, []) ∷ s.files }) (err (rejected invalid_tiff))
      | true ↦ store_body l s page size header rest
    ]
  ]
]

-- The frame's head is read; `s` stands behind it.
unfoldable pub receive_frame : Settings → Receiver → ℕ → ℕ → Step
receive_frame l s page size = elim (page == 0 && size == 0) [
  | true ↦ done s (finish l s)
  | false ↦ elim (admit_frame l s page size) [
    | err e ↦ done s (err e)
    | ok total ↦ store l (record s { total = total }) page size
  ]
]

unfoldable pub receive : Settings → Receiver → Step
receive l s = elim (take_frame s.input) [
  | err e ↦ done s (err e)
  | ok ((page, size), rest) ↦ receive_frame l (record s { input = rest }) page size
]

-- The loop on fuel; `none` means that the fuel ran out.
unfoldable pub receive_all :
    ℕ → Settings → Receiver → Option (Receiver × Result RenderedDocument InterpreterError)
receive_all zero l s = none
receive_all (suc fuel) l s = elim (receive l s) [
  | more s' ↦ receive_all fuel l s'
  | done s' r ↦ some (s', r)
]

-- `selection.indices(count)`, with the reason of a failure replaced.
unfoldable pub selected : RenderPages → ℕ → Result (List ℕ) InterpreterError
selected selection count = elim (Render.indices selection count) [
  | ok positions ↦ ok positions
  | err e ↦ err (rejected page_range_out_of_bounds)
]

unfoldable pub read_u32 : Bytes → Result ℕ InterpreterError
read_u32 (a ∷ b ∷ c ∷ d ∷ []) = ok (be32 a b c d)
read_u32 _ = err (rejected interpreter_failed)

-- The page count of the source, and the number of selected pages.
unfoldable pub read_part :
    RenderPages → ℕ → Bytes → Result (Option ℕ × Option ℕ × Bytes) InterpreterError
unfolding exact read_u32
read_part selection max_pages input = do
  (bytes, rest) ← exact 4 input
  count ← read_u32 bytes
  reject_if (ltb max_pages count) (rejected page_range_out_of_bounds)
  positions ← selected selection count
  ok (some count, some (length positions), rest)

-- The count is in the stream only where pages are selected.
unfoldable pub read_count :
    RenderPages → ℕ → Bytes → Result (Option ℕ × Option ℕ × Bytes) InterpreterError
unfolding read_part
read_count selection max_pages input =
    if Render.is_all selection then ok (none, none, input) else read_part selection max_pages input

-- The magic line of the stream.
unfoldable pub read_magic : RenderPages → Bytes → Result Bytes InterpreterError
unfolding exact
read_magic selection input = do
  (magic, rest) ← exact 13 input
  reject_if
      (Render.is_all selection && not (bytes_eq magic (codes "JRIP-PAGES-1\n"))
        || not (Render.is_all selection) && not (bytes_eq magic (codes "JRIP-PAGES-2\n")))
      (rejected invalid_output_protocol)
  ok rest

-- What the loop starts with.
unfoldable pub prepare :
    RenderPages → ℕ → Bytes → Result (Option ℕ × Option ℕ × Bytes) InterpreterError
unfolding read_magic read_count
prepare selection max_pages input = do
  rest ← read_magic selection input
  read_count selection max_pages rest

abbrev pub settings :
    ℕ → ℕ → (ℕ → Result (Unit {0}) InterpreterError) → Option ℕ → Option ℕ → Settings
settings max_pages max_bytes progress count expected = record {
  max_pages = max_pages;
  max_bytes = max_bytes;
  source_page_count = count;
  expected = expected;
  progress = progress;
}

abbrev pub first_receiver : Bytes → List File → Receiver
first_receiver input files = record {
  input = input;
  files = files;
  observed = [];
  pages = [];
  total = 0;
}

-- A round that goes on reads at least the head of a frame, so that the length of the stream is fuel
-- enough.
unfoldable pub read_selected_page_stream :
    ℕ
    → ℕ
    → RenderPages
    → (ℕ → Result (Unit {0}) InterpreterError)
    → List File
    → Bytes
    → Option (Receiver × Result RenderedDocument InterpreterError)
unfolding prepare
read_selected_page_stream max_pages max_bytes selection progress files input =
    elim (prepare selection max_pages input) [
      | err e ↦ some (first_receiver input files, err e)
      | ok (count, expected, rest) ↦
          receive_all (suc (length rest)) (settings max_pages max_bytes progress count expected)
            (first_receiver rest files)
    ]
