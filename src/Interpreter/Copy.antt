-- ===== src/Interpreter/Copy.antt =====
-- crates/rip-interpreter/src/page_stream.rs: the buffered copy of a page is one read of its whole size.
use rip_server.Common.{
  ℕ, zero, suc, ◌+◌, ◌-◌, ◌≤◌, ◌<◌, min, ◌≡◌, refl, ap, ◌∙◌, inl, inr, [], ◌∷◌, ◌++◌, append_assoc,
  append-nil, ltb, Bool-cases, ltb→le, length, take, drop, length-append, length-take, length-drop,
  ok, err, arith,
}
use rip_server.Common.Bytes.{Bytes}
use rip_server.Interpreter.{rejected, interpreter_failed, exact, copy, buffer_size}

take-split : (m n r : ℕ) (xs : Bytes) → m + n ≡ r → take m xs ++ take n (drop m xs) ≡ take r xs
take-split zero n r xs e = ap (λ k. take k xs) (omega (arith, e))
take-split (suc m) n zero xs e = absurd (omega arith)
take-split (suc m) zero (suc r) [] e = refl
take-split (suc m) (suc n) (suc r) [] e = refl
take-split (suc m) n (suc r) (x ∷ xs) e = ap (◌∷◌ x) (take-split m n r xs (omega arith))

drop-split : (m n r : ℕ) (xs : Bytes) → m + n ≡ r → drop n (drop m xs) ≡ drop r xs
drop-split zero n r xs e = ap (λ k. drop k xs) (omega (arith, e))
drop-split (suc m) n zero xs e = absurd (omega arith)
drop-split (suc m) zero (suc r) [] e = refl
drop-split (suc m) (suc n) (suc r) [] e = refl
drop-split (suc m) n (suc r) (x ∷ xs) e = drop-split m n r xs (omega arith)

pub exact-enough :
    (n : ℕ) (input : Bytes) → n ≤ length input → exact n input ≡ ok (take n input, drop n input)
unfolding exact
exact-enough n input h = ground arith

pub exact-short :
    (n : ℕ) (input : Bytes) → length input < n → exact n input ≡ err (rejected interpreter_failed)
unfolding exact
exact-short n input h = ground arith

-- One round of the loop.
copy-go :
    (fuel left : ℕ) (input file : Bytes)
    → min (suc left) buffer_size ≤ length input
    → let m = min (suc left) buffer_size in
      copy (suc fuel) (suc left) input file
      ≡ copy fuel (suc left - m) (drop m input) (file ++ take m input)
unfolding copy
copy-go fuel left input file h = rw (copy, exact-enough (min (suc left) buffer_size) input h) refl

copy-stop :
    (fuel left : ℕ) (input file : Bytes)
    → length input < min (suc left) buffer_size
    → copy (suc fuel) (suc left) input file ≡ (file, err (rejected interpreter_failed))
unfolding copy
copy-stop fuel left input file h = rw (copy, exact-short (min (suc left) buffer_size) input h) refl

-- A page that the stream holds whole is copied as one piece, whatever the number of buffers that
-- it takes.
pub copy-whole :
    (fuel size : ℕ) (input file : Bytes)
    → size ≤ fuel
    → size ≤ length input
    → copy fuel size input file ≡ (file ++ take size input, ok (drop size input))
unfolding copy
copy-whole zero zero input file f h = rw append-nil refl
copy-whole zero (suc left) input file f h = absurd (omega arith)
copy-whole (suc fuel) zero input file f h = rw append-nil refl
copy-whole (suc fuel) (suc left) input file f h =
    let m = min (suc left) buffer_size in
    let n = suc left - m in
    let again =
      copy-whole fuel n (drop m input) (file ++ take m input) (omega arith)
        (omega (arith, length-drop m input)) in
    let front = append_assoc file (take m input) (take n (drop m input)) in
    copy-go fuel left input file (omega arith)
    ∙ (again
        ∙ rw
            (
              front,
              take-split m n (suc left) input (omega arith),
              drop-split m n (suc left) input (omega arith),
            )
            refl)

-- A page that the stream breaks off is an error.
pub copy-broken :
    (fuel size : ℕ) (input file : Bytes)
    → size ≤ fuel
    → length input < size
    → (copy fuel size input file).1 ≡ err (rejected interpreter_failed)
unfolding copy
copy-broken fuel zero input file f h = absurd (omega arith)
copy-broken zero (suc left) input file f h = absurd (omega arith)
copy-broken (suc fuel) (suc left) input file f h =
    let m = min (suc left) buffer_size in
    elim (Bool-cases (ltb (length input) m)) [
      | inl short ↦ rw (copy-stop fuel left input file (ground arith)) refl
      | inr enough ↦ rw (copy-go fuel left input file (ground arith)) (
          copy-broken fuel (suc left - m) (drop m input) (file ++ take m input) (omega arith)
            (omega (arith, length-drop m input, ltb→le _ _ enough)))
    ]

-- In every case at most the announced size is added to the file.
pub length-copy :
    (fuel size : ℕ) (input file : Bytes) → length (copy fuel size input file).0 ≤ length file + size
unfolding copy
length-copy zero size input file = omega arith
length-copy (suc fuel) zero input file = omega arith
length-copy (suc fuel) (suc left) input file =
    let m = min (suc left) buffer_size in
    elim (Bool-cases (ltb (length input) m)) [
      | inl short ↦ rw (copy-stop fuel left input file (ground arith)) (omega arith)
      | inr enough ↦ rw (copy-go fuel left input file (ground arith)) (
          omega (
            arith,
            length-copy fuel (suc left - m) (drop m input) (file ++ take m input),
            length-append file (take m input),
            length-take m input,
          ))
    ]
