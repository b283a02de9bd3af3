-- ===== src/Jobs/Prefix.antt =====
-- crates/rip-jobs: the loop over the reads of a document, whatever they cut it into.
use rip_server.Common.{
  ℕ, zero, suc, ◌+◌, ◌-◌, ◌^◌, min, ◌≤◌, ◌<◌, ◌≡◌, ◌≢◌, refl, sym, ap, ◌∙◌, true, false, List, [],
  ◌∷◌, ◌++◌, append_assoc, append-nil, ltb, ◌==◌, take, length, length-append, length-take,
  if◌then◌else◌, inl, inr, All, Bool-cases, ltb→lt, lt→ltb, Result, ok, err, arith,
}
use rip_server.Common.Bytes.{Bytes}
use rip_server.Jobs.{SubmitError, document_too_large, Hasher, read_all, max_document_bytes}

-- The bytes that the reads return, together.
abbrev pub concat : List Bytes → Bytes
concat [] = []
concat (chunk ∷ chunks) = chunk ++ concat chunks

-- A hash of pieces is the hash of the whole.
pub record IsStreaming {S : Type 0} (h : Hasher S) : Type 0 where
  pub update-nil : (s : S) → h.update s [] ≡ s
  pub update-append : (s : S) (a b : Bytes) → h.update s (a ++ b) ≡ h.update (h.update s a) b

take-append : (n : ℕ) (a b : Bytes) → take n (a ++ b) ≡ take n a ++ take (n - length a) b
take-append zero a b = let none_left : 0 - length a ≡ 0 = omega arith in rw none_left refl
take-append (suc n) [] b = ground arith
take-append (suc n) (x ∷ a) b = ground (arith, take-append n a b)

take-all : (k : ℕ) (b : Bytes) → take (min k (length b)) b ≡ take k b
take-all zero b = let nothing : min 0 (length b) ≡ 0 = omega arith in rw nothing refl
take-all (suc k) [] = ground arith
take-all (suc k) (x ∷ b) =
    let more : min (suc k) (suc (length b)) ≡ suc (min k (length b)) = omega arith in
    rw more (ap (◌∷◌ x) (take-all k b))

prefix_grows :
    (seen chunk : Bytes)
    → take 100 seen ++ take (min (100 - length (take 100 seen)) (length chunk)) chunk
      ≡ take 100 (seen ++ chunk)
prefix_grows seen chunk =
    let left : 100 - length (take 100 seen) ≡ 100 - length seen =
      omega (arith, length-take 100 seen) in
    ap (λ k. take 100 seen ++ take (min k (length chunk)) chunk) left
    ∙ ap (take 100 seen ++◌) (take-all (100 - length seen) chunk)
    ∙ sym (take-append 100 seen chunk)

-- What the loop comes to on all the bytes.
abbrev pub read_whole : {S : Type 0} → Hasher S → Bytes → Result (Bytes × ℕ × S) SubmitError
read_whole h whole =
    if ltb max_document_bytes (length whole)
    then err document_too_large
    else ok (take 100 whole, length whole, h.update h.new whole)

module _ {S : Type 0} (h : Hasher S) (streaming : IsStreaming h) where
  read_all-from :
      (chunks : List Bytes) (seen : Bytes)
      → All (λ c. c ≢ []) chunks
      → length seen ≤ 33554432
      → read_all h chunks (take 100 seen) (length seen) (h.update h.new seen)
        ≡ read_whole h (seen ++ concat chunks)
  unfolding read_all
  read_all-from [] seen full fits = rw append-nil (ground (arith, fits))
  read_all-from ([] ∷ chunks) seen full fits = absurd (full.0 refl)
  read_all-from ((x ∷ xs) ∷ chunks) seen full fits =
      let chunk : Bytes = x ∷ xs in
      let filled : (length chunk == 0) ≡ false = ground arith in
      let grown : length (seen ++ chunk) ≡ length seen + length chunk = length-append seen chunk in
      let assoc : seen ++ (chunk ++ concat chunks) ≡ (seen ++ chunk) ++ concat chunks =
        sym (append_assoc seen chunk (concat chunks)) in
      elim (Bool-cases (ltb 33554432 (length seen + length chunk))) [
        | inl large ↦
            let over : 33554432 < length seen + length chunk =
              ltb→lt 33554432 (length seen + length chunk) large in
            let whole_over : ltb 33554432 (length (seen ++ (chunk ++ concat chunks))) ≡ true =
              lt→ltb 33554432 (length (seen ++ (chunk ++ concat chunks))) (
                omega (
                  arith,
                  over,
                  length-append seen (chunk ++ concat chunks),
                  length-append chunk (concat chunks),
                )) in
            elim (Bool-cases (ltb (length seen + length chunk) (2 ^ 64))) [
              | inl room ↦ rw (filled, room, large, whole_over) refl
              | inr no_room ↦ rw (filled, no_room, whole_over) refl
            ]
        | inr small ↦
            let room : ltb (length seen + length chunk) (2 ^ 64) ≡ true = ground (arith, small) in
            let rest = read_all-from chunks (seen ++ chunk) full.1 (ground (arith, small, grown)) in
            rw
              (
                filled,
                room,
                small,
                prefix_grows seen chunk,
                sym grown,
                sym (streaming.update-append h.new seen chunk),
                assoc,
              )
              rest
      ]

  -- The reads of a document may cut it into any pieces that are not empty: the loop finds its first hundred
  -- bytes, its size and the hash of the whole, or that it is too large.
  pub read_all-concat :
      (chunks : List Bytes)
      → All (λ c. c ≢ []) chunks
      → read_all h chunks [] 0 h.new ≡ read_whole h (concat chunks)
  read_all-concat chunks full =
      ap (read_all h chunks [] 0) (sym (streaming.update-nil h.new))
      ∙ read_all-from chunks [] full (omega arith)
