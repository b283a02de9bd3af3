-- ===== src/Interpreter/PageStream/Pages.antt =====
-- crates/rip-interpreter/src/page_stream.rs: the pages that are stored, and the frame that comes next.
use mathlib.Core.List.{Memᴰ}
use rip_server.Common.{
  ℕ, zero, suc, ◌+◌, ◌^◌, ◌≤◌, ◌<◌, ◌≡◌, ap, ◌∙◌, true, List, [], ◌∷◌, ◌++◌, Option, none, some,
  length, All, Result, ok, err, arith,
}
use rip_server.Common.Bytes.{Bytes}
use rip_server.Core.Pages.{counted}
use rip_server.Interpreter.{InterpreterError, RenderedDocument, File, is_tiff}
use rip_server.Interpreter.Copy.{}
use rip_server.Interpreter.PageStream.{Settings, Receiver, Step, more, done, add_size, admit_frame}

-- The bytes in the directory.
abbrev pub stored_size : List File → ℕ
stored_size [] = 0
stored_size ((page, file) ∷ files) = length file + stored_size files

-- The directory has a file of the page that starts with a TIFF header.
abbrev pub Complete : List File → ℕ → Type 0
Complete files page =
    (header : Bytes) × (body : Bytes) × (is_tiff header ≡ true)
    × (length header ≡ 8)
    × Memᴰ (page, header ++ body) files

-- The pages are 1, 2, 3 and so on within the limit, each is complete and reported, and the directory
-- has grown by no more bytes than the total, which is within the limit.
pub record IsReceived (l : Settings) (before : List File) (s : Receiver) : Type 0 where
  pub numbered : s.pages ≡ counted 1 (length s.pages)
  pub reported : s.observed ≡ s.pages
  pub few : length s.pages ≤ l.max_pages
  pub limited : s.total ≤ l.max_bytes
  pub stored : stored_size s.files ≤ stored_size before + s.total
  pub complete : All (Complete s.files) s.pages

-- The pages agree with what is expected: their number where that is known, or else one at least.
abbrev pub Agrees : Option ℕ → ℕ → Type 0
Agrees none n = 0 < n
Agrees (some m) n = m ≡ n

-- A document that is returned has all pages, as many as are expected, and the stream is at its end.
abbrev pub Answers : Settings → Receiver → Result RenderedDocument InterpreterError → Type 0
Answers l s (err e) = Unit
Answers l s (ok document) =
    (document.pages ≡ s.pages)
    × (document.source_page_count ≡ l.source_page_count)
    × (s.input ≡ [])
    × Agrees l.expected (length s.pages)

abbrev pub StepKeeps : Settings → List File → ℕ → Step → Type 0
StepKeeps l before n (more s) = IsReceived l before s × (length s.input < n)
StepKeeps l before n (done s r) = IsReceived l before s × Answers l s r

pub counted-snoc : (start n : ℕ) → counted start (suc n) ≡ counted start n ++ (start + n) ∷ []
unfolding counted
counted-snoc start zero = ap (λ x. x ∷ []) (omega arith)
counted-snoc start (suc n) =
    ap (◌∷◌ start)
      (counted-snoc (suc start) n ∙ ap (λ x. counted (suc start) n ++ x ∷ []) (omega arith))

pub Complete-there :
    (f : File) (files : List File) (pages : List ℕ)
    → All (Complete files) pages
    → All (Complete (f ∷ files)) pages
Complete-there f files [] h = tt
Complete-there f files (p ∷ pages) ((header, body, t, k, m), h) =
    ((header, body, t, k, Memᴰ.tail m), Complete-there f files pages h)

pub All-snoc : (P : ℕ → Type 0) (xs : List ℕ) (x : ℕ) → All P xs → P x → All P (xs ++ x ∷ [])
All-snoc P [] x h p = (p, tt)
All-snoc P (y ∷ xs) x (q, h) p = (q, All-snoc P xs x h p)

-- A frame that passed its tests, before its file is made.
pub record IsAdmitted (l : Settings) (before : List File) (s : Receiver) (page size : ℕ)
    : Type 0 where
  pub numbered : s.pages ≡ counted 1 (length s.pages)
  pub reported : s.observed ≡ s.pages
  pub next : page ≡ length s.pages + 1
  pub few : page ≤ l.max_pages
  pub sized : 8 ≤ size
  pub limited : s.total ≤ l.max_bytes
  pub stored : stored_size s.files + size ≤ stored_size before + s.total
  pub complete : All (Complete s.files) s.pages

pub admit_frame-IsAdmitted :
    (l : Settings) (before : List File) (s : Receiver) (page size total : ℕ)
    → l.max_pages + 1 < 2 ^ 32
    → IsReceived l before s
    → admit_frame l s page size ≡ ok total
    → IsAdmitted l before (record s { total = total }) page size
unfolding admit_frame add_size
admit_frame-IsAdmitted l before s page size total m k e =
    let few = k.few in
    let kept = k.stored in
    record {
      numbered = k.numbered;
      reported = k.reported;
      next = ground arith;
      few = ground arith;
      sized = ground arith;
      limited = ground arith;
      stored = ground arith;
      complete = k.complete;
    }

pub refused-IsReceived :
    (l : Settings) (before : List File) (s : Receiver) (page size : ℕ)
    → IsAdmitted l before s page size
    → IsReceived l before s
refused-IsReceived l before s page size k = record {
  numbered = k.numbered;
  reported = k.reported;
  few = omega (arith, k.few, k.next);
  limited = k.limited;
  stored = omega (arith, k.stored);
  complete = k.complete;
}

-- A file that is left incomplete is within the size of its frame.
pub abandoned-IsReceived :
    (l : Settings) (before : List File) (s : Receiver) (page size : ℕ) (file : Bytes)
    → IsAdmitted l before s page size
    → length file ≤ size
    → IsReceived l before (record s { files = (page, file) ∷ s.files })
abandoned-IsReceived l before s page size file k h = record {
  numbered = k.numbered;
  reported = k.reported;
  few = omega (arith, k.few, k.next);
  limited = k.limited;
  stored = omega (arith, k.stored);
  complete = Complete-there (page, file) s.files s.pages k.complete;
}
