-- ===== src/Tests/PageStream.antt =====
-- Runs of the page stream's reader, and an example for each result on it.
use rip_server.Common.{
  List, ℕ, ◌≡◌, refl, [], ◌∷◌, ◌++◌, none, some, take, drop, Result, ok, err, arith,
}
use rip_server.Common.Bytes.{Bytes, codes, bytes_eq}
use rip_server.Core.Pages.Render
use rip_server.Core.Pages.Render.{RenderPages, default, strict}
use rip_server.Interpreter.{
  InterpreterError, rejected, interpreter_failed, copy, take_frame, is_tiff, RenderedDocument,
}
use rip_server.Interpreter.Copy.{}
use rip_server.Interpreter.PageStream.Complete.{frame, receive-frame}
use rip_server.Core.Pages.{counted}
use rip_server.Interpreter.PageStream.Stream
use rip_server.Interpreter.PageStream.Stream.{frames, receive_all-frames}
use rip_server.Interpreter.PageStream.{
  first_receiver, more, receive_all, receive, receive_frame, admit_frame, expects_fewer, add_size,
  store, store_body, report, finish, expects_not, Receiver, read_selected_page_stream, settings,
}
use rip_server.Interpreter.PageStream.Pages.{IsReceived}
use rip_server.Interpreter.PageStream.Outcome.{read_selected_page_stream_total, Delivers}

abbrev tiff : Bytes
tiff = 0x49 ∷ 0x49 ∷ 0x2a ∷ 0 ∷ 8 ∷ 0 ∷ 0 ∷ 0 ∷ []

abbrev head : ℕ → Bytes
head page = 0 ∷ 0 ∷ 0 ∷ page ∷ 0 ∷ 0 ∷ 0 ∷ 0 ∷ 0 ∷ 0 ∷ 0 ∷ 9 ∷ []

abbrev stream : Bytes
stream =
    codes "JRIP-PAGES-1\n"
    ++ head 1
    ++ tiff
    ++ 7 ∷ []
    ++ head 2
    ++ tiff
    ++ 8 ∷ []
    ++ 0 ∷ 0 ∷ 0 ∷ 0 ∷ 0 ∷ 0 ∷ 0 ∷ 0 ∷ 0 ∷ 0 ∷ 0 ∷ 0 ∷ []

abbrev always : ℕ → Result (Unit {0}) InterpreterError
always page = ok tt

abbrev received : Receiver
received = record {
  input = [];
  files = (2, tiff ++ 8 ∷ []) ∷ (1, tiff ++ 7 ∷ []) ∷ [];
  observed = 1 ∷ 2 ∷ [];
  pages = 1 ∷ 2 ∷ [];
  total = 18;
}

stream_runs :
    read_selected_page_stream 100 1000 default always [] stream
    ≡ some (received, ok (record { pages = 1 ∷ 2 ∷ []; source_page_count = none }))
unfolding read_selected_page_stream Render.is_all bytes_eq receive_all receive take_frame
    receive_frame admit_frame expects_fewer add_size store is_tiff store_body copy report finish
    expects_not
stream_runs = refl

-- The second page is cut off: the first stays reported, and no document is returned.
cut_runs :
    read_selected_page_stream 100 1000 default always [] (take 50 stream)
    ≡ some (
      record {
        input = drop 46 (take 50 stream);
        files = (2, []) ∷ (1, tiff ++ 7 ∷ []) ∷ [];
        observed = 1 ∷ [];
        pages = 1 ∷ [];
        total = 18;
      },
      err (rejected interpreter_failed),
    )
unfolding read_selected_page_stream Render.is_all bytes_eq receive_all receive take_frame
    receive_frame admit_frame expects_fewer add_size store is_tiff store_body copy report
cut_runs = refl

read_selected_page_stream_total_example :
    (s : Receiver) × (r : Result RenderedDocument InterpreterError) × (read_selected_page_stream 100
        1000 default always [] stream
      ≡ some (s, r))
    × IsReceived (settings 100 1000 always none none) [] s
    × Delivers 100 default s r
read_selected_page_stream_total_example =
    read_selected_page_stream_total 100 1000 default always [] stream (omega arith)

abbrev one_page : Bytes
one_page = tiff ++ 7 ∷ []

receive-frame_example :
    receive (settings 100 1000 always none none) (first_receiver (frame 1 one_page ++ 0 ∷ []) [])
    ≡ more (record {
      input = 0 ∷ [];
      files = (1, one_page) ∷ [];
      observed = 1 ∷ [];
      pages = 1 ∷ [];
      total = 9;
    })
unfolding is_tiff bytes_eq expects_fewer
receive-frame_example =
    receive-frame (settings 100 1000 always none none)
      (first_receiver (frame 1 one_page ++ 0 ∷ []) []) 1 one_page (0 ∷ []) refl (omega arith)
      (omega arith) (omega arith) (omega arith) refl refl (omega arith) (omega arith) refl refl

abbrev two_pages : List Bytes
two_pages = one_page ∷ tiff ∷ []

receive_all-frames_example :
    receive_all 3 (settings 100 1000 always none none) (first_receiver (frames 1 two_pages) [])
    ≡ Stream.received
        (settings 100 1000 always none none)
        (1 ∷ 2 ∷ [])
        (1 ∷ 2 ∷ [])
        ((2, tiff) ∷ (1, one_page) ∷ [])
        17
unfolding is_tiff bytes_eq counted
receive_all-frames_example =
    receive_all-frames (settings 100 1000 always none none) 3 1 two_pages
      (first_receiver (frames 1 two_pages) []) refl (omega arith) (omega arith) (omega arith)
      (omega arith) (omega arith) ((omega arith, refl), ((omega arith, refl), tt)) tt (omega arith)
      (λ p. refl) (omega arith)
