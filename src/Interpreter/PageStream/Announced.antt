-- ===== src/Interpreter/PageStream/Announced.antt =====
-- crates/rip-interpreter/src/page_stream.rs: what the head of the stream announces, and the whole loop.
use rip_server.Common.{
  ℕ, zero, suc, ◌+◌, ◌^◌, ◌≤◌, ◌<◌, ◌≡◌, refl, ◌⊎◌, inl, inr, true, false, List, Option, none, some,
  ltb, Bool-cases, length, Result, ok, reject_if-eq-ok, >>=-eq-ok, arith,
}
use rip_server.Common.Bytes.{Bytes}
use rip_server.Core.Pages.{counted}
use rip_server.Core.Pages.Render
use rip_server.Core.Pages.Render.{RenderPages}
use rip_server.Interpreter.{InterpreterError, RenderedDocument, File, exact}
use rip_server.Interpreter.PageStream.{
  Settings, Receiver, Step, more, done, receive, receive_all, selected, read_part, read_count,
  read_u32, read_magic, prepare, first_receiver,
}
use rip_server.Interpreter.PageStream.Received.{receive-keeps}
use rip_server.Interpreter.PageStream.Pages.{IsReceived, Answers, StepKeeps}

-- The loop ended, with the invariant and an answer that fits it.
abbrev pub Ends :
    Settings → List File → Option (Receiver × Result RenderedDocument InterpreterError) → Type 0
Ends l before none = ⊥
Ends l before (some (s, r)) = IsReceived l before s × Answers l s r

pub receive_all-Ends :
    (l : Settings) (before : List File) (fuel : ℕ) (s : Receiver)
    → l.max_pages + 1 < 2 ^ 32
    → IsReceived l before s
    → length s.input < fuel
    → Ends l before (receive_all fuel l s)
unfolding receive_all
receive_all-Ends l before zero s m k enough = absurd (omega arith)
receive_all-Ends l before (suc fuel) s m k enough =
    go_on (λ t k' less. receive_all-Ends l before fuel t m k' less) (receive l s)
      (receive-keeps l before s m k)
  where
    go_on :
        ((t : Receiver)
          → IsReceived l before t
          → length t.input < fuel
          → Ends l before (receive_all fuel l t))
        → (step : Step) → StepKeeps l before (length s.input) step
        → Ends l before (elim step [ more s' ↦ receive_all fuel l s' | done s' r ↦ some (s', r) ])
    go_on later (more t) (k', less) = later t k' (omega arith)
    go_on later (done t r) h = h

pub first-IsReceived :
    (l : Settings) (files : List File) (input : Bytes)
    → IsReceived l files (first_receiver input files)
unfolding counted
first-IsReceived l files input = record {
  numbered = refl;
  reported = refl;
  few = omega arith;
  limited = omega arith;
  stored = omega arith;
  complete = tt;
}

-- The page count and the number of pages that a stream for the selection announces.
abbrev pub IsExpected : ℕ → RenderPages → Option ℕ → Option ℕ → Type 0
IsExpected max_pages selection count expected =
    ((Render.is_all selection ≡ true) × (count ≡ none) × (expected ≡ none))
    ⊎ ((n : ℕ) × (positions : List ℕ) × (Render.is_all selection ≡ false)
        × (n ≤ max_pages)
        × (Render.indices selection n ≡ ok positions)
        × (count ≡ some n)
        × (expected ≡ some (length positions)))

selected-eq-ok :
    (selection : RenderPages) (n : ℕ) {positions : List ℕ}
    → selected selection n ≡ ok positions
    → Render.indices selection n ≡ ok positions
unfolding selected
selected-eq-ok selection n e = ground arith

read_part-IsExpected :
    (selection : RenderPages) (max_pages : ℕ) (input : Bytes) {count expected : Option ℕ}
    {rest : Bytes}
    → Render.is_all selection ≡ false
    → read_part selection max_pages input ≡ ok (count, expected, rest)
    → IsExpected max_pages selection count expected
unfolding read_part
read_part-IsExpected selection max_pages input part e =
    let ((bytes, rest'), read, e1) = >>=-eq-ok (exact 4 input) _ e in
    let (n, made, e2) = >>=-eq-ok (read_u32 bytes) _ e1 in
    let (within, e3) = reject_if-eq-ok (ltb max_pages n) _ _ e2 in
    let (positions, expanded, e4) = >>=-eq-ok (selected selection n) _ e3 in
    inr (n, positions, part, ground arith, selected-eq-ok selection n expanded, cc, cc)

read_count-IsExpected :
    (selection : RenderPages) (max_pages : ℕ) (input : Bytes) {count expected : Option ℕ}
    {rest : Bytes}
    → read_count selection max_pages input ≡ ok (count, expected, rest)
    → IsExpected max_pages selection count expected
unfolding read_count
read_count-IsExpected selection max_pages input {count} {expected} {rest} e =
    elim (Bool-cases (Render.is_all selection)) [
      | inl whole ↦ inl (whole, ground arith, ground arith)
      | inr part ↦ read_part-IsExpected selection max_pages input {rest = rest} part (ground arith)
    ]

pub prepare-IsExpected :
    (selection : RenderPages) (max_pages : ℕ) (input : Bytes) {count expected : Option ℕ}
    {rest : Bytes}
    → prepare selection max_pages input ≡ ok (count, expected, rest)
    → IsExpected max_pages selection count expected
unfolding prepare
prepare-IsExpected selection max_pages input e =
    let (rest, read, e1) = >>=-eq-ok (read_magic selection input) _ e in
    read_count-IsExpected selection max_pages rest e1
