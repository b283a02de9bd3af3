-- ===== src/Interpreter/PageStream/Outcome.antt =====
-- crates/rip-interpreter/src/page_stream.rs: every outcome of `read_selected_page_stream`.
use rip_server.Common.{
  ℕ, suc, ◌+◌, ◌^◌, ◌≤◌, ◌<◌, ◌≡◌, refl, sym, subst, ◌∙◌, ◌⊎◌, inl, inr, true, false, List, [],
  Option, none, some, length, Result, ok, err, Result-cases, arith,
}
use rip_server.Common.Bytes.{Bytes}
use rip_server.Core.Pages.{counted}
use rip_server.Core.Pages.Render
use rip_server.Core.Pages.Render.{RenderPages}
use rip_server.Interpreter.{InterpreterError, RenderedDocument, File}
use rip_server.Interpreter.PageStream.{
  Settings, Receiver, receive_all, prepare, settings, first_receiver, read_selected_page_stream,
}
use rip_server.Interpreter.PageStream.Received.{}
use rip_server.Interpreter.PageStream.Pages.{IsReceived, Answers, Agrees}
use rip_server.Interpreter.PageStream.Announced.{
  Ends, receive_all-Ends, first-IsReceived, IsExpected, prepare-IsExpected,
}

-- A rendered document has an exact set of pages: for all pages at least one, and for a selection as
-- many as it has in a source of the page count that the engine announced.
abbrev pub IsRendered : ℕ → RenderPages → RenderedDocument → Type 0
IsRendered max_pages selection document =
    ((Render.is_all selection ≡ true)
      × (document.source_page_count ≡ none)
      × (0 < length document.pages))
    ⊎ ((n : ℕ) × (positions : List ℕ) × (Render.is_all selection ≡ false)
        × (n ≤ max_pages)
        × (Render.indices selection n ≡ ok positions)
        × (document.source_page_count ≡ some n)
        × (length document.pages ≡ length positions))

-- What an outcome says where it is a document.
abbrev pub Delivers : ℕ → RenderPages → Receiver → Result RenderedDocument InterpreterError → Type 0
Delivers max_pages selection s (err e) = Unit
Delivers max_pages selection s (ok document) =
    (document.pages ≡ s.observed)
    × (document.pages ≡ counted 1 (length document.pages))
    × (s.input ≡ [])
    × IsRendered max_pages selection document

IsRendered-of :
    (max_pages : ℕ) (selection : RenderPages) (document : RenderedDocument)
    (count expected : Option ℕ)
    → IsExpected max_pages selection count expected
    → document.source_page_count ≡ count
    → Agrees expected (length document.pages)
    → IsRendered max_pages selection document
IsRendered-of max_pages selection document count expected (inl (whole, c, x)) same agrees =
    inl (whole, same ∙ c, subst (λ y. Agrees y (length document.pages)) x agrees)
IsRendered-of max_pages selection document count expected
      (inr (n, positions, part, bound, expanded, c, x)) same agrees =
    let count_agrees = subst (λ y. Agrees y (length document.pages)) x agrees in
    inr (n, positions, part, bound, expanded, same ∙ c, sym count_agrees)

Answers-Delivers :
    (l : Settings) (selection : RenderPages) (before : List File) (s : Receiver)
    (r : Result RenderedDocument InterpreterError)
    → IsExpected l.max_pages selection l.source_page_count l.expected
    → IsReceived l before s
    → Answers l s r
    → Delivers l.max_pages selection s r
Answers-Delivers l selection before s (err e) x k h = tt
Answers-Delivers l selection before s (ok document) x k (pages, count, over, agrees) = (
  pages ∙ sym k.reported,
  subst (λ xs. xs ≡ counted 1 (length xs)) (sym pages) k.numbered,
  over,
  IsRendered-of l.max_pages selection document l.source_page_count l.expected x count
      (subst (λ xs. Agrees l.expected (length xs)) (sym pages) agrees),
)

ended_of :
    (l : Settings) (before : List File)
    (outcome : Option (Receiver × Result RenderedDocument InterpreterError))
    → Ends l before outcome
    → (s : Receiver) × (r : Result RenderedDocument InterpreterError) × (outcome ≡ some (s, r))
      × IsReceived l before s
      × Answers l s r
ended_of l before none x = absurd x
ended_of l before (some (s, r)) (k, a) = (s, r, refl, k, a)

any_count-IsReceived :
    (l : Settings) (before : List File) (s : Receiver)
    → IsReceived l before s
    → IsReceived (settings l.max_pages l.max_bytes l.progress none none) before s
any_count-IsReceived l before s k = record {
  numbered = k.numbered;
  reported = k.reported;
  few = k.few;
  limited = k.limited;
  stored = k.stored;
  complete = k.complete;
}

stream_loop :
    (max_pages max_bytes : ℕ) (selection : RenderPages)
    (progress : ℕ → Result (Unit {0}) InterpreterError) (files : List File) (input : Bytes)
    {count expected : Option ℕ} {rest : Bytes}
    → prepare selection max_pages input ≡ ok (count, expected, rest)
    → read_selected_page_stream max_pages max_bytes selection progress files input
      ≡ receive_all
          (suc (length rest))
          (settings max_pages max_bytes progress count expected)
          (first_receiver rest files)
unfolding read_selected_page_stream
stream_loop max_pages max_bytes selection progress files input begun =
    rw (read_selected_page_stream, begun) refl

-- The reader of a page stream always comes to an end. Whatever the engine writes and whatever the
-- outcome, for a page limit below 2^32 - 1: the pages reported are 1, 2, 3 and so on within the limit,
-- each has a file in the directory that starts with a TIFF header, and the directory has grown by no
-- more than the byte limit. A document is returned only at the end of the stream, and its pages are the pages
-- reported: at least one, or exactly as many as the selection has in the announced source.
pub read_selected_page_stream_total :
    (max_pages max_bytes : ℕ) (selection : RenderPages)
    (progress : ℕ → Result (Unit {0}) InterpreterError) (files : List File) (input : Bytes)
    → max_pages + 1 < 2 ^ 32
    → (s : Receiver) × (r : Result RenderedDocument InterpreterError) × (read_selected_page_stream
          max_pages max_bytes selection progress files input
        ≡ some (s, r))
      × IsReceived (settings max_pages max_bytes progress none none) files s
      × Delivers max_pages selection s r
unfolding read_selected_page_stream
read_selected_page_stream_total max_pages max_bytes selection progress files input m =
    elim (Result-cases (prepare selection max_pages input)) [
      | inr (e, refused) ↦
          let l = settings max_pages max_bytes progress none none in
          (
            first_receiver input files,
            err e,
            rw (read_selected_page_stream, refused) refl,
            first-IsReceived l files input,
            tt,
          )
      | inl ((count, expected, rest), begun) ↦
          let l = settings max_pages max_bytes progress count expected in
          let (s, r, ended, k, a) =
            ended_of l files (receive_all (suc (length rest)) l (first_receiver rest files)) (
              receive_all-Ends l files (suc (length rest)) (first_receiver rest files) m
                (first-IsReceived l files rest) (omega arith)) in
          let x = prepare-IsExpected selection max_pages input begun in
          (
            s,
            r,
            stream_loop max_pages max_bytes selection progress files input begun ∙ ended,
            any_count-IsReceived l files s k,
            Answers-Delivers l selection files s r x k a,
          )
    ]
