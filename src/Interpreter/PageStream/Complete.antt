-- ===== src/Interpreter/PageStream/Complete.antt =====
-- crates/rip-interpreter/src/page_stream.rs: a frame as the engine writes it is received whole.
use rip_server.Common.{
  ℕ, zero, suc, ◌+◌, ◌-◌, ◌/◌, ◌%◌, ◌^◌, ◌≤◌, ◌<◌, ◌≡◌, refl, ap, subst, ◌∙◌, true, false, ◌&&◌, [],
  ◌∷◌, ◌++◌, ◌==◌, length, take, drop, length-append, take-append-drop, take-length_append,
  drop-length_append, length-drop, any, ok, arith,
}
use rip_server.Common.Bytes.{Bytes, be32, be64, to_be32}
use rip_server.Interpreter.{take_frame, read_frame, is_tiff, copy}
use rip_server.Interpreter.Copy.{copy-whole, exact-enough}
use rip_server.Interpreter.PageStream.{
  Settings, Receiver, more, admit_frame, add_size, report, store_body, store, receive_frame,
  receive, expects_fewer,
}

-- `to_be_bytes` of a `u64`
abbrev to_be64 : ℕ → Bytes
to_be64 n = to_be32 (n / 4294967296) ++ to_be32 n

-- A frame: the page number, the size of the data, and the data.
abbrev pub frame : ℕ → Bytes → Bytes
frame page body = to_be32 page ++ (to_be64 (length body) ++ body)

be32-to_be32 :
    (n : ℕ) → n < 2 ^ 32 → be32 (n / 16777216 % 256) (n / 65536 % 256) (n / 256 % 256) (n % 256) ≡ n
be32-to_be32 n h = omega arith

be32-low :
    (n : ℕ) → be32 (n / 16777216 % 256) (n / 65536 % 256) (n / 256 % 256) (n % 256) ≡ n % 4294967296
be32-low n = omega arith

size-to_be64 :
    (n : ℕ)
    → n < 2 ^ 64
    → let h = n / 4294967296 in
      be64
        (h / 16777216 % 256)
        (h / 65536 % 256)
        (h / 256 % 256)
        (h % 256)
        (n / 16777216 % 256)
        (n / 65536 % 256)
        (n / 256 % 256)
        (n % 256)
      ≡ n
size-to_be64 n d = omega (arith, be32-to_be32 (n / 4294967296) (omega arith), be32-low n)

pair-eq : {a b c e : ℕ} → a ≡ c → b ≡ e → ◌≡◌ {A = ℕ × ℕ} (a, b) (c, e)
pair-eq p q = cc

take_frame-frame :
    (page : ℕ) (body rest : Bytes)
    → page < 2 ^ 32
    → length body < 2 ^ 64
    → take_frame (frame page body ++ rest) ≡ ok ((page, length body), body ++ rest)
unfolding take_frame read_frame
take_frame-frame page body rest p d =
    rw (exact-enough 12 (frame page body ++ rest) (omega arith)) (
      ap (λ x. ok (x, body ++ rest)) (pair-eq (be32-to_be32 page p) (size-to_be64 (length body) d)))

admit_frame-next :
    (l : Settings) (s : Receiver) (page size : ℕ)
    → page ≡ length s.pages + 1
    → page < 2 ^ 32
    → page ≤ l.max_pages
    → 8 ≤ size
    → expects_fewer l.expected page ≡ false
    → s.total + size ≤ l.max_bytes
    → l.max_bytes < 2 ^ 64
    → admit_frame l s page size ≡ ok (s.total + size)
unfolding admit_frame add_size
admit_frame-next l s page size next p few sized x t m = ground arith

take-front : (n : ℕ) (xs ys : Bytes) → n ≤ length xs → take n (xs ++ ys) ≡ take n xs
take-front zero xs ys h = refl
take-front (suc n) [] ys h = absurd (omega arith)
take-front (suc n) (x ∷ xs) ys h = ap (◌∷◌ x) (take-front n xs ys (omega arith))

drop-front : (n : ℕ) (xs ys : Bytes) → n ≤ length xs → drop n (xs ++ ys) ≡ drop n xs ++ ys
drop-front zero xs ys h = refl
drop-front (suc n) [] ys h = absurd (omega arith)
drop-front (suc n) (x ∷ xs) ys h = drop-front n xs ys (omega arith)

copy-page :
    (body rest : Bytes)
    → 8 ≤ length body
    → let n = length body - 8 in
      copy n n (drop 8 (body ++ rest)) (take 8 (body ++ rest)) ≡ (body, ok rest)
copy-page body rest sized =
    let n = length body - 8 in
    let tail : length (drop 8 body) ≡ n = length-drop 8 body in
    let whole : take n (drop 8 body ++ rest) ≡ drop 8 body =
      subst (λ k. take k (drop 8 body ++ rest) ≡ drop 8 body) tail
        (take-length_append (drop 8 body) rest) in
    let behind : drop n (drop 8 body ++ rest) ≡ rest =
      subst (λ k. drop k (drop 8 body ++ rest) ≡ rest) tail
        (drop-length_append (drop 8 body) rest) in
    rw (take-front 8 body rest sized, drop-front 8 body rest sized)
      (copy-whole n n (drop 8 body ++ rest) (take 8 body) (omega arith)
          (omega (arith, length-append (drop 8 body) rest, tail))
        ∙ rw (whole, behind, take-append-drop 8 body) refl)

receive_frame-next :
    (l : Settings) (s : Receiver) (page : ℕ) (body rest : Bytes)
    → s.input ≡ body ++ rest
    → page ≡ length s.pages + 1
    → page < 2 ^ 32
    → page ≤ l.max_pages
    → 8 ≤ length body
    → is_tiff (take 8 body) ≡ true
    → expects_fewer l.expected page ≡ false
    → s.total + length body ≤ l.max_bytes
    → l.max_bytes < 2 ^ 64
    → any (λ f. f.0 == page) s.files ≡ false
    → l.progress page ≡ ok tt
    → receive_frame l s page (length body)
      ≡ more (record {
        input = rest;
        files = (page, body) ∷ s.files;
        observed = s.observed ++ page ∷ [];
        pages = s.pages ++ page ∷ [];
        total = s.total + length body;
      })
unfolding receive_frame store store_body report
receive_frame-next l s page body rest input next p few sized tiff x t m free accepted =
    let not_end : (page == 0 && length body == 0) ≡ false = ground arith in
    let whole = copy-page body rest sized in
    rw
      (
        receive_frame,
        not_end,
        admit_frame-next l s page (length body) next p few sized x t m,
        store,
        free,
        input,
        exact-enough 8 (body ++ rest) (omega (arith, length-append body rest)),
      )
      (rw (ap is_tiff (take-front 8 body rest sized) ∙ tiff)
        (rw (store_body, ap (λ c. c.1) whole, report, accepted, ap (λ c. c.0) whole) refl))

-- The frame of the next page, as an engine writes it, is received: the page is stored byte for byte,
-- counted and reported, and the stream goes on behind it. The page starts with a TIFF header, fits the
-- limits and the selection, and has no file yet; the report is accepted.
pub receive-frame :
    (l : Settings) (s : Receiver) (page : ℕ) (body rest : Bytes)
    → s.input ≡ frame page body ++ rest
    → page ≡ length s.pages + 1
    → page < 2 ^ 32
    → page ≤ l.max_pages
    → 8 ≤ length body
    → is_tiff (take 8 body) ≡ true
    → expects_fewer l.expected page ≡ false
    → s.total + length body ≤ l.max_bytes
    → l.max_bytes < 2 ^ 64
    → any (λ f. f.0 == page) s.files ≡ false
    → l.progress page ≡ ok tt
    → receive l s
      ≡ more (record {
        input = rest;
        files = (page, body) ∷ s.files;
        observed = s.observed ++ page ∷ [];
        pages = s.pages ++ page ∷ [];
        total = s.total + length body;
      })
unfolding receive
receive-frame l s page body rest input next p few sized tiff x t m free accepted =
    rw (receive, input, take_frame-frame page body rest p (omega arith))
      (receive_frame-next l (record s { input = body ++ rest }) page body rest refl next p few sized
        tiff x t m free accepted)
