-- ===== src/Interpreter/PageStream/Received.antt =====
-- crates/rip-interpreter/src/page_stream.rs: what holds of the directory and of the reports after every
-- round of the loop, whatever the engine writes.
use mathlib.Core.List.{Memᴰ}
use rip_server.Common.{
  ℕ, suc, ◌+◌, ◌-◌, ◌^◌, ◌≤◌, ◌<◌, ◌≡◌, refl, sym, ap, ◌∙◌, inl, inr, true, false, not, ◌&&◌, List,
  [], ◌∷◌, ◌++◌, Option, none, some, ltb, ◌==◌, Bool-cases, length, take, drop, length-append,
  length-take, length-drop, any, is_empty, All, Result, ok, err, Result-cases, reject_if-eq-ok,
  >>=-eq-ok, arith,
}
use rip_server.Common.Bytes.{Bytes}
use rip_server.Core.Pages.{counted}
use rip_server.Interpreter.{
  InterpreterError, RenderedDocument, File, exact, read_frame, take_frame, is_tiff, copy,
}
use rip_server.Interpreter.Copy.{length-copy, copy-whole, copy-broken, exact-enough, exact-short}
use rip_server.Interpreter.PageStream.{
  Settings, Receiver, more, done, finish, admit_frame, report, store_body, store, receive_frame,
  receive, expects_not, expects_other,
}
use rip_server.Interpreter.PageStream.Pages.{
  stored_size, Complete, IsReceived, Agrees, Answers, StepKeeps, counted-snoc, Complete-there,
  All-snoc, IsAdmitted, admit_frame-IsAdmitted, refused-IsReceived, abandoned-IsReceived,
}

report-keeps :
    (l : Settings) (before : List File) (s : Receiver) (page n : ℕ)
    → s.pages ≡ counted 1 (length s.pages)
    → s.observed ≡ s.pages
    → page ≡ length s.pages + 1
    → page ≤ l.max_pages
    → s.total ≤ l.max_bytes
    → stored_size s.files ≤ stored_size before + s.total
    → All (Complete s.files) s.pages
    → Complete s.files page
    → length s.input < n
    → StepKeeps l before n (report l s page)
unfolding report
report-keeps l before s page n numbered reported next few limited stored complete own less =
    keeps (l.progress page)
  where
    after : Receiver
    after = record s { pages = s.pages ++ page ∷ []; observed = s.observed ++ page ∷ [] }

    grown : length (s.pages ++ page ∷ []) ≡ suc (length s.pages)
    grown = omega (arith, length-append s.pages (page ∷ []))

    kept : IsReceived l before after
    kept = record {
      numbered =
          ap (λ xs. xs ++ page ∷ []) numbered
          ∙ ap (λ x. counted 1 (length s.pages) ++ x ∷ []) (omega (arith, next))
          ∙ sym (counted-snoc 1 (length s.pages))
          ∙ ap (counted 1) (sym grown);
      reported = ap (λ xs. xs ++ page ∷ []) reported;
      few = omega (arith, grown, next, few);
      limited = limited;
      stored = stored;
      complete = All-snoc (Complete s.files) s.pages page complete own;
    }

    keeps :
        (r : Result (Unit {0}) InterpreterError)
        → StepKeeps l before n (elim r [ err e ↦ done after (err e) | ok _ ↦ more after ])
    keeps (err e) = (kept, tt)
    keeps (ok x) = (kept, less)

Agrees-of :
    (expected : Option ℕ) (pages : List ℕ)
    → (is_empty pages && expects_other expected 0) ≡ false
    → expects_not expected (length pages) ≡ false
    → Agrees expected (length pages)
unfolding expects_other expects_not
Agrees-of none [] h k = ground arith
Agrees-of none (p ∷ pages) h k = omega arith
Agrees-of (some m) pages h k = ground arith

finish-Answers :
    (l : Settings) (s : Receiver) (r : Result RenderedDocument InterpreterError)
    → finish l s ≡ r
    → Answers l s r
unfolding finish
finish-Answers l s (err e) h = tt
finish-Answers l s (ok document) h =
    let (some_pages, h1) = reject_if-eq-ok (is_empty s.pages && expects_other l.expected 0) _ _ h in
    let (whole, h2) = reject_if-eq-ok (not (is_empty s.input)) _ _ h1 in
    let (count, h3) = reject_if-eq-ok (expects_not l.expected (length s.pages)) _ _ h2 in
    let made : record { pages = s.pages; source_page_count = l.source_page_count } ≡ document =
      cc in
    (
      ap (λ (d : RenderedDocument). d.pages) (sym made),
      ap (λ (d : RenderedDocument). d.source_page_count) (sym made),
      ground arith,
      Agrees-of l.expected s.pages some_pages count,
    )

header_length : (input : Bytes) → 8 ≤ length input → length (take 8 input) ≡ 8
header_length input h = omega (arith, length-take 8 input)

store_body-keeps :
    (l : Settings) (before : List File) (s : Receiver) (page size n : ℕ) (header rest : Bytes)
    → IsAdmitted l before s page size
    → is_tiff header ≡ true
    → length header ≡ 8
    → length rest < n
    → StepKeeps l before n (store_body l s page size header rest)
unfolding store_body
store_body-keeps l before s page size n header rest k t eight less =
    let body = size - 8 in
    elim (Bool-cases (ltb (length rest) body)) [
      | inl broken ↦
          rw (StepKeeps, copy-broken body body rest header (omega arith) (ground arith))
            (
              abandoned-IsReceived l before s page size (copy body body rest header).0 k
                  (omega (arith, length-copy body body rest header, k.sized)),
              tt,
            )
      | inr whole ↦
          let file = header ++ take body rest in
          let full : length file ≤ size =
            omega (arith, length-append header (take body rest), length-take body rest, k.sized) in
          let copied = copy-whole body body rest header (omega arith) (ground arith) in
          rw (StepKeeps, ap (λ p. p.1) copied, ap (λ p. p.0) copied)
            (report-keeps l before
              (record s { input = drop body rest; files = (page, file) ∷ s.files }) page n
              k.numbered k.reported k.next k.few k.limited (omega (arith, k.stored))
              (Complete-there (page, file) s.files s.pages k.complete)
              (header, take body rest, t, eight, Memᴰ.head refl)
              (omega (arith, length-drop body rest)))
    ]

store-keeps :
    (l : Settings) (before : List File) (s : Receiver) (page size n : ℕ)
    → IsAdmitted l before s page size
    → length s.input < n
    → StepKeeps l before n (store l s page size)
unfolding store
store-keeps l before s page size n k less = elim (Bool-cases (any (λ f. f.0 == page) s.files)) [
  | inl exists ↦ rw (StepKeeps, exists) (refused-IsReceived l before s page size k, tt)
  | inr free ↦ elim (Bool-cases (ltb (length s.input) 8)) [
    | inl short ↦
        rw (StepKeeps, free, exact-short 8 s.input (ground arith))
          (abandoned-IsReceived l before s page size [] k (omega arith), tt)
    | inr enough ↦ elim (Bool-cases (is_tiff (take 8 s.input))) [
      | inr other ↦
          rw (StepKeeps, free, exact-enough 8 s.input (ground arith), other)
            (abandoned-IsReceived l before s page size [] k (omega arith), tt)
      | inl tiff ↦
          rw (StepKeeps, free, exact-enough 8 s.input (ground arith), tiff)
            (store_body-keeps l before s page size n (take 8 s.input) (drop 8 s.input) k tiff
              (header_length s.input (ground arith)) (omega (arith, length-drop 8 s.input)))
    ]
  ]
]

receive_frame-keeps :
    (l : Settings) (before : List File) (s : Receiver) (page size n : ℕ)
    → l.max_pages + 1 < 2 ^ 32
    → IsReceived l before s
    → length s.input < n
    → StepKeeps l before n (receive_frame l s page size)
unfolding receive_frame
receive_frame-keeps l before s page size n m k less = elim (Bool-cases (page == 0 && size == 0)) [
  | inl end ↦ rw (StepKeeps, end) (k, finish-Answers l s (finish l s) refl)
  | inr frame ↦ elim (Result-cases (admit_frame l s page size)) [
    | inr (e, refused) ↦ rw (StepKeeps, frame, refused) (k, tt)
    | inl (total, admitted) ↦
        rw (StepKeeps, frame, admitted)
          (store-keeps l before (record s { total = total }) page size n
            (admit_frame-IsAdmitted l before s page size total m k admitted) less)
  ]
]

exact-eq-ok :
    (n : ℕ) (input : Bytes) {bytes rest : Bytes}
    → exact n input ≡ ok (bytes, rest)
    → (n ≤ length input) × (rest ≡ drop n input)
unfolding exact
exact-eq-ok n input e = (ground arith, ground arith)

take_frame-less :
    (input : Bytes) {frame : ℕ × ℕ} {rest : Bytes}
    → take_frame input ≡ ok (frame, rest)
    → length rest < length input
unfolding take_frame exact
take_frame-less input {frame} {rest} e =
    let ((head, rest'), read, e1) = >>=-eq-ok (exact 12 input) _ e in
    let (frame', made, e2) = >>=-eq-ok (read_frame head) _ e1 in
    let same : rest' ≡ rest = cc in
    let (enough, dropped) = exact-eq-ok 12 input read in
    omega (arith, enough, ap length (sym same ∙ dropped), length-drop 12 input)

read_on-IsReceived :
    (l : Settings) (before : List File) (s : Receiver) (rest : Bytes)
    → IsReceived l before s
    → IsReceived l before (record s { input = rest })
read_on-IsReceived l before s rest k = record {
  numbered = k.numbered;
  reported = k.reported;
  few = k.few;
  limited = k.limited;
  stored = k.stored;
  complete = k.complete;
}

pub receive-keeps :
    (l : Settings) (before : List File) (s : Receiver)
    → l.max_pages + 1 < 2 ^ 32
    → IsReceived l before s
    → StepKeeps l before (length s.input) (receive l s)
unfolding receive
receive-keeps l before s m k = elim (Result-cases (take_frame s.input)) [
  | inr (e, broken) ↦ rw (StepKeeps, broken) (k, tt)
  | inl (((page, size), rest), read) ↦
      rw (StepKeeps, read)
        (receive_frame-keeps l before (record s { input = rest }) page size (length s.input) m
          (read_on-IsReceived l before s rest k) (take_frame-less s.input read))
]
