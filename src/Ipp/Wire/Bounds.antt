-- ===== src/Ipp/Wire/Bounds.antt =====
-- crates/rip-ipp/src/lib.rs: the bounds of what `Request::parse` returns, and that its fuel suffices.
use rip_server.Common.{
  ℕ, zero, suc, ◌+◌, ◌≤◌, ◌<◌, ◌≡◌, refl, sym, ap, ◌∙◌, ◌≢◌, inl, inr, true, not, ◌&&◌, ◌||◌, [],
  ◌∷◌, ◌++◌, Option, none, some, ltb, leb, ◌==◌, length, length-append, Result, ok, err,
  reject_if-eq-ok, arith, Bool-cases, within, subst, append_assoc,
}
use rip_server.Common.Bytes.{Bytes, be16, be32}
use rip_server.Ipp.{ParseError, Request}
use rip_server.Ipp.Wire.{
  Cursor, Scan, Round, go, stop, scan_tag, scan_rest, round, scan, close, parse, first_scan,
  is_delimiter, starts_in_operation_group,
}
use rip_server.Ipp.Wire.Reading.{Reads, Reads-refl, Reads-trans}
use rip_server.Ipp.Wire.Header.{
  IsGroup, InOrder, InOrder-raise, IsScan, RoundKeeps, scan_attribute-keeps,
}

delimiter-keeps :
    (c : Cursor) (s : Scan) (d : Cursor) (tag : ℕ)
    → IsScan c s
    → Reads s.cursor d
    → s.group ≤ tag
    → IsGroup tag
    → IsScan c (record s { cursor = d; group = tag; current = [] })
delimiter-keeps c s d tag k r le g = record {
  reads = Reads-trans k.reads r;
  current_name = record { plain = refl; short = omega arith };
  in_order = InOrder-raise 0 s.group tag s.attributes le k.in_order;
  known_group = inr g;
  count = k.count;
}

end-keeps :
    (c : Cursor) (s : Scan) (d : Cursor)
    → IsScan c s
    → Reads s.cursor d
    → IsScan c (record s { cursor = d })
end-keeps c s d k r = record {
  reads = Reads-trans k.reads r;
  current_name = k.current_name;
  in_order = k.in_order;
  known_group = k.known_group;
  count = k.count;
}

scan_tag-keeps :
    (c : Cursor) (s : Scan) (d : Cursor) (tag : ℕ)
    → IsScan c s
    → Reads s.cursor d
    → length d.rest < length s.cursor.rest
    → d.offset ≤ 16385
    → RoundKeeps c s (scan_tag s d tag)
unfolding scan_tag
scan_tag-keeps c s d tag k r less bound = elim (Bool-cases (tag == 0x03)) [
  | inl end ↦ rw end (end-keeps c s d k r, bound)
  | inr more ↦ elim (Bool-cases (is_delimiter tag && leb s.group tag)) [
    | inl delimiter ↦
        rw (more, delimiter) (delimiter-keeps c s d tag k r (ground arith) (ground arith), less)
    | inr other ↦ elim (Bool-cases (within 0x10 0x5f tag && not (s.group == 0))) [
      | inl value ↦
          rw (more, other, value)
            (scan_attribute-keeps c s d tag k r less (ground arith) (ground arith) (ground arith))
      | inr unknown ↦ rw (more, other, unknown) tt
    ]
  ]
]

scan_rest-keeps :
    (c : Cursor) (s : Scan) (offset : ℕ) (rest : Bytes)
    → s.cursor.offset ≡ offset
    → s.cursor.rest ≡ rest
    → IsScan c s
    → offset ≤ 16384
    → RoundKeeps c s (scan_rest s offset rest)
unfolding scan_rest
scan_rest-keeps c s offset [] o e k bound = tt
scan_rest-keeps c s offset (tag ∷ rest) o e k bound =
    scan_tag-keeps c s (record { offset = offset + 1; rest = rest }) tag k
      (record { bytes = tag ∷ []; split = e; moved = omega arith }) (omega (arith, ap length e))
      (omega arith)

round-keeps : (c : Cursor) (s : Scan) → IsScan c s → RoundKeeps c s (round s)
unfolding round
round-keeps c s k = elim (Bool-cases (ltb 16384 s.cursor.offset)) [
  | inl far ↦ rw far tt
  | inr near ↦
      rw near (scan_rest-keeps c s s.cursor.offset s.cursor.rest refl refl k (ground arith))
]

-- The end of the loop: the fuel did not run out, and a state that it ends in keeps the invariant.
abbrev Ends : Cursor → Option (Result Scan ParseError) → Type 0
Ends c none = ⊥
Ends c (some (err e)) = Unit
Ends c (some (ok t)) = IsScan c t × (t.cursor.offset ≤ 16385)

scan-Ends :
    (c : Cursor) (fuel : ℕ) (s : Scan)
    → IsScan c s
    → length s.cursor.rest < fuel
    → Ends c (scan fuel s)
unfolding scan
scan-Ends c zero s k enough = absurd (omega arith)
scan-Ends c (suc fuel) s k enough =
    go_on (λ t k' less. scan-Ends c fuel t k' less) (round s) (round-keeps c s k)
  where
    go_on :
        ((t : Scan) → IsScan c t → length t.cursor.rest < fuel → Ends c (scan fuel t))
        → (r : Round) → RoundKeeps c s r
        → Ends c (elim r [ go s' ↦ scan fuel s' | stop r' ↦ some r' ])
    go_on later (go t) (k', less) = later t k' (omega arith)
    go_on later (stop (ok t)) h = h
    go_on later (stop (err e)) h = tt

start-IsScan : (rest : Bytes) → IsScan (first_scan rest).cursor (first_scan rest)
start-IsScan rest = record {
  reads = Reads-refl (first_scan rest).cursor;
  current_name = record { plain = refl; short = omega arith };
  in_order = omega arith;
  known_group = inl refl;
  count = omega arith;
}

-- The fuel that `parse` gives its loop, one more than the bytes behind the header, suffices for
-- every input: the loop ends with a request or an error.
pub scan_total : (rest : Bytes) → scan (suc (length rest)) (first_scan rest) ≢ none
scan_total rest e = subst (Ends (first_scan rest).cursor) e (
    scan-Ends (first_scan rest).cursor (suc (length rest)) (first_scan rest) (start-IsScan rest)
      (omega arith))

-- What every accepted message is.
pub record IsRequest (input : Bytes) (r : Request) : Type 0 where
  pub header : Bytes
  pub split : input ≡ header ++ r.document
  pub header_short : length header ≤ 16385
  pub numbered : r.request_id ≢ 0
  pub counted : length r.attributes ≤ 128
  pub ordered : InOrder 0 4 r.attributes
  pub operation_first : starts_in_operation_group r.attributes ≡ true

scan_end-IsRequest :
    (head : Bytes) (rest : Bytes) (version : ℕ × ℕ) (operation id : ℕ)
    → length head ≡ 8
    → id ≢ 0
    → (result : Option (Result Scan ParseError)) → Ends (first_scan rest).cursor result
    → {r : Request} → close version operation id result ≡ ok r
    → IsRequest (head ++ rest) r
unfolding close
scan_end-IsRequest head rest version operation id eight ne none h e = absurd h
scan_end-IsRequest head rest version operation id eight ne (some (err x)) h e = cc
scan_end-IsRequest head rest version operation id eight ne (some (ok t)) (k, bound) {r} e =
    let (first, same) = reject_if-eq-ok (not (starts_in_operation_group t.attributes)) _ _ e in
    let result : Request = record {
      version = version;
      operation = operation;
      request_id = id;
      attributes = t.attributes;
      document = t.cursor.rest;
    } in
    let whole : result ≡ r = cc in
    subst (IsRequest (head ++ rest)) whole (record {
      header = head ++ k.reads.bytes;
      split = ap (λ x. head ++ x) k.reads.split ∙ sym (append_assoc head k.reads.bytes _);
      header_short = omega (arith, length-append head k.reads.bytes, k.reads.moved);
      numbered = ne;
      counted = k.count;
      ordered = InOrder-raise 0 t.group 4 t.attributes (ground arith) k.in_order;
      operation_first = ground arith;
    })

-- An accepted message is a header of at most 16385 bytes and its document: nothing of the input is
-- lost or made up. The header has a request id that is not 0, and at most 128 attributes; each has a
-- name of 1 to 255 bytes of `a-z`, `0-9` and `-`, a value of at most 4096 bytes, a value tag, and a
-- group that does not go back behind that of the attribute before; the first is in group 1.
pub parse-IsRequest : (input : Bytes) {r : Request} → parse input ≡ ok r → IsRequest input r
unfolding parse
parse-IsRequest (v0 ∷ v1 ∷ o0 ∷ o1 ∷ r0 ∷ r1 ∷ r2 ∷ r3 ∷ b ∷ rest) e =
    let (_, e1) = reject_if-eq-ok (not (v0 == 1 && v1 == 1 || v0 == 2 && v1 == 0)) _ _ e in
    let (id, e2) = reject_if-eq-ok (be32 r0 r1 r2 r3 == 0) _ _ e1 in
    let body = b ∷ rest in
    let ends =
      scan-Ends (first_scan body).cursor (suc (length body)) (first_scan body) (start-IsScan body)
        (omega arith) in
    scan_end-IsRequest (v0 ∷ v1 ∷ o0 ∷ o1 ∷ r0 ∷ r1 ∷ r2 ∷ r3 ∷ []) body (v0, v1) (be16 o0 o1)
      (be32 r0 r1 r2 r3) refl (ground arith) (scan (suc (length body)) (first_scan body)) ends e2
parse-IsRequest _ e = cc
