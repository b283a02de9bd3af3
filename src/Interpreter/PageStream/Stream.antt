-- ===== src/Interpreter/PageStream/Stream.antt =====
-- crates/rip-interpreter/src/page_stream.rs: the frames of a document are received one after the other.
use rip_server.Common.{
  ℕ, zero, suc, ◌+◌, ◌^◌, ◌≤◌, ◌<◌, ◌≡◌, refl, subst, ◌∙◌, true, false, ◌&&◌, List, [], ◌∷◌, ◌++◌,
  append_assoc, append-nil, Option, none, some, ◌==◌, length, take, length-append, any, All,
  is_empty, Result, ok, arith,
}
use rip_server.Common.Bytes.{Bytes}
use rip_server.Core.Pages.{counted}
use rip_server.Interpreter.{
  InterpreterError, RenderedDocument, File, is_tiff, take_frame, read_frame,
}
use rip_server.Interpreter.Copy.{}
use rip_server.Interpreter.PageStream.{
  Settings, Receiver, done, receive, receive_frame, receive_all, finish, expects_fewer, expects_not,
  expects_other,
}
use rip_server.Interpreter.PageStream.Complete.{frame, receive-frame}
use rip_server.Interpreter.PageStream.Pages.{Agrees}

-- The frame that ends a stream.
abbrev pub end_frame : Bytes
end_frame = 0 ∷ 0 ∷ 0 ∷ 0 ∷ 0 ∷ 0 ∷ 0 ∷ 0 ∷ 0 ∷ 0 ∷ 0 ∷ 0 ∷ []

-- The frames of the pages from a number on, and the end.
abbrev pub frames : ℕ → List Bytes → Bytes
frames page [] = end_frame
frames page (body ∷ bodies) = frame page body ++ frames (suc page) bodies

-- The directory with the pages from a number on.
abbrev pub filed : ℕ → List Bytes → List File → List File
filed page [] files = files
filed page (body ∷ bodies) files = filed (suc page) bodies ((page, body) ∷ files)

abbrev pub sizes : List Bytes → ℕ
sizes [] = 0
sizes (body ∷ bodies) = length body + sizes bodies

-- A TIFF image, by its header.
abbrev pub IsImage : Bytes → Type 0
IsImage body = (8 ≤ length body) × (is_tiff (take 8 body) ≡ true)

-- No file has the number `page` or a later one.
abbrev pub IsFree : ℕ → List File → Type 0
IsFree page files = All (λ f. f.0 < page) files

IsFree-any :
    (page : ℕ) (files : List File) → IsFree page files → any (λ f. f.0 == page) files ≡ false
IsFree-any page [] h = refl
IsFree-any page (f ∷ files) (a, h) = ground (arith, IsFree-any page files h)

IsFree-suc : (page : ℕ) (files : List File) → IsFree page files → IsFree (suc page) files
IsFree-suc page [] h = tt
IsFree-suc page (f ∷ files) (a, h) = (omega arith, IsFree-suc page files h)

receive-end :
    (l : Settings) (s : Receiver)
    → s.input ≡ end_frame
    → receive l s ≡ done (record s { input = [] }) (finish l (record s { input = [] }))
unfolding receive take_frame read_frame receive_frame
receive-end l s input = rw (receive, input) refl

not_empty-Agrees :
    (expected : Option ℕ) (pages : List ℕ)
    → Agrees expected (length pages)
    → ((is_empty pages && expects_other expected 0) ≡ false)
      × (expects_not expected (length pages) ≡ false)
unfolding expects_other expects_not
not_empty-Agrees none [] a = absurd (omega arith)
not_empty-Agrees none (p ∷ pages) a = (refl, refl)
not_empty-Agrees (some m) [] a = ground arith
not_empty-Agrees (some m) (p ∷ pages) a = ground arith

finish_complete :
    (l : Settings) (s : Receiver)
    → s.input ≡ []
    → Agrees l.expected (length s.pages)
    → finish l s ≡ ok (record { pages = s.pages; source_page_count = l.source_page_count })
unfolding finish
finish_complete l s input agrees =
    let (some_pages, count) = not_empty-Agrees l.expected s.pages agrees in
    rw (finish, some_pages, input, count) refl

expects_fewer-Agrees :
    (expected : Option ℕ) (page n : ℕ)
    → Agrees expected n
    → page ≤ n
    → expects_fewer expected page ≡ false
unfolding expects_fewer
expects_fewer-Agrees none page n a h = refl
expects_fewer-Agrees (some m) page n a h = ground arith

-- The loop has returned a document at the end of the stream.
abbrev pub received :
    Settings
    → List ℕ
    → List ℕ
    → List File
    → ℕ
    → Option (Receiver × Result RenderedDocument InterpreterError)
received l observed pages files total = some (
  record { input = []; files = files; observed = observed; pages = pages; total = total },
  ok (record { pages = pages; source_page_count = l.source_page_count }),
)

-- The frames of a whole document are received whole: each page is stored byte for byte under its
-- number and reported in order, and the document with all of the pages is returned. The pages start
-- with a TIFF header, fit the limits and the number that is expected, have no files yet, and every
-- report is accepted; one round for each page and one for the end are fuel enough.
pub receive_all-frames :
    (l : Settings) (fuel page : ℕ) (bodies : List Bytes) (s : Receiver)
    → s.input ≡ frames page bodies
    → page ≡ length s.pages + 1
    → length s.pages + length bodies ≤ l.max_pages
    → l.max_pages < 2 ^ 32
    → s.total + sizes bodies ≤ l.max_bytes
    → l.max_bytes < 2 ^ 64
    → All IsImage bodies
    → IsFree page s.files
    → Agrees l.expected (length s.pages + length bodies)
    → ((p : ℕ) → l.progress p ≡ ok tt)
    → length bodies < fuel
    → receive_all fuel l s
      ≡ received l
          (s.observed ++ counted page (length bodies))
          (s.pages ++ counted page (length bodies))
          (filed page bodies s.files)
          (s.total + sizes bodies)
unfolding receive_all counted
receive_all-frames l zero page bodies s input next few p fits m images free agrees accept enough =
    absurd (omega arith)
receive_all-frames l (suc fuel) page [] s input next few p fits m images free agrees accept enough =
    let there = s.total + 0 in
    let same : there ≡ s.total = omega arith in
    let here = subst (Agrees l.expected) (omega (arith, next)) agrees in
    let ended : receive_all (suc fuel) l s ≡ received l s.observed s.pages s.files s.total =
      rw (receive_all, receive-end l s input, finish_complete l (record s { input = [] }) refl here)
        refl in
    ended ∙ rw (append-nil, append-nil, same) refl
receive_all-frames l (suc fuel) page (body ∷ bodies) s input next few p fits m (image, images) free
      agrees accept enough =
    let one =
      receive-frame l s page body (frames (suc page) bodies) input next (omega arith) (omega arith)
        image.0 image.1
        (expects_fewer-Agrees l.expected page (length s.pages + suc (length bodies)) agrees
          (omega arith))
        (omega arith) m (IsFree-any page s.files free) (accept page) in
    let c = counted (suc page) (length bodies) in
    let t : Receiver = record {
      input = frames (suc page) bodies;
      files = (page, body) ∷ s.files;
      observed = s.observed ++ page ∷ [];
      pages = s.pages ++ page ∷ [];
      total = s.total + length body;
    } in
    let count : length t.pages ≡ suc (length s.pages) =
      omega (arith, length-append s.pages (page ∷ [])) in
    let again =
      receive_all-frames l fuel (suc page) bodies t refl (omega (arith, count, next))
        (omega (arith, count, few)) p (omega (arith, fits)) m images
        (omega arith, IsFree-suc page s.files free)
        (subst (Agrees l.expected) (omega (arith, count)) agrees) accept (omega arith) in
    let seen = append_assoc s.observed (page ∷ []) c in
    let kept = append_assoc s.pages (page ∷ []) c in
    let size : s.total + length body + sizes bodies ≡ s.total + (length body + sizes bodies) =
      omega arith in
    let whole : received l (t.observed ++ c) (t.pages ++ c) (filed (suc page) bodies t.files)
          (t.total + sizes bodies)
        ≡ received l (s.observed ++ page ∷ c) (s.pages ++ page ∷ c)
            (filed (suc page) bodies t.files) (s.total + (length body + sizes bodies)) =
      rw (seen, kept, size) refl in
    rw (receive_all, one) (again ∙ whole)
