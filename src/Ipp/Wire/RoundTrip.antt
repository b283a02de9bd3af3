-- ===== src/Ipp/Wire/RoundTrip.antt =====
-- crates/rip-ipp/src/lib.rs: what `Response` writes, `Request::parse` reads back.
use rip_server.Common.{
  ℕ, zero, suc, ◌+◌, ◌≤◌, ◌<◌, ◌≡◌, refl, sym, ◌∙◌, ◌≢◌, List, [], ◌∷◌, ◌++◌, Option, some, length,
  length-append, append_assoc, append-nil, Result, ok, arith,
}
use rip_server.Common.Bytes.{Bytes, to_be16}
use rip_server.Ipp.{ParseError, Attribute}
use rip_server.Ipp.Wire.{Scan, go, stop, round, scan}
use rip_server.Ipp.Wire.Header.{}
use rip_server.Ipp.Wire.Pieces.{
  scan_name-append, scan_name_again, scan_value, made, extended, round-attribute, round-group,
  round-end,
}
use rip_server.Ipp.Wire.Reading.{}
use rip_server.Ipp.Response.{}
use rip_server.Ipp.Wire.Items.{attribute, additional, group, Item, contents, IsMessage, encode, At}

scan-go : (fuel : ℕ) (s t : Scan) → round s ≡ go t → scan (suc fuel) s ≡ scan fuel t
unfolding scan
scan-go fuel s t e = rw (e, scan)

scan-stop :
    (fuel : ℕ) (s : Scan) (r : Result Scan ParseError)
    → round s ≡ stop r
    → scan (suc fuel) s ≡ some r
unfolding scan
scan-stop fuel s r e = rw (e, scan)

-- The loop ended with these attributes, in front of the document.
abbrev pub Ended : List Attribute → Bytes → Option (Result Scan ParseError) → Type 0
Ended attributes document result =
    (t : Scan) × (result ≡ some (ok t)) × (t.attributes ≡ attributes) × (t.cursor.rest ≡ document)

pub Ended-go :
    (fuel : ℕ) (s t : Scan) (attributes attributes' : List Attribute) (document : Bytes)
    → round s ≡ go t
    → attributes' ≡ attributes
    → Ended attributes' document (scan fuel t)
    → Ended attributes document (scan (suc fuel) s)
Ended-go fuel s t attributes attributes' document e same (u, done, found, rest) =
    (u, scan-go fuel s t e ∙ done, found ∙ same, rest)

-- The rest of the input behind a call, with the end tag and the document.
unfoldable pub behind : List Item → Bytes → Bytes
behind items document = encode items ++ 3 ∷ document

behind-additional :
    (tag : ℕ) (value : Bytes) (items : List Item) (document : Bytes)
    → behind (additional tag value ∷ items) document
      ≡ tag ∷ (to_be16 0 ++ (to_be16 (length value) ++ (value ++ behind items document)))
unfolding behind encode
behind-additional tag value items document = simp append_assoc

behind-attribute :
    (tag : ℕ) (name value : Bytes) (items : List Item) (document : Bytes)
    → behind (attribute tag name value ∷ items) document
      ≡ tag
        ∷ (to_be16 (length name)
            ++ (name ++ (to_be16 (length value) ++ (value ++ behind items document))))
unfolding behind encode
behind-attribute tag name value items document = simp append_assoc

behind-group :
    (tag : ℕ) (items : List Item) (document : Bytes)
    → behind (group tag ∷ items) document ≡ tag ∷ behind items document
unfolding behind encode
behind-group tag items document = refl

length-additional :
    (tag : ℕ) (value : Bytes) (items : List Item)
    → length (encode (additional tag value ∷ items)) ≡ 5 + length value + length (encode items)
unfolding encode
length-additional tag value items = omega (arith, length-append value (encode items))

length-attribute :
    (tag : ℕ) (name value : Bytes) (items : List Item)
    → length (encode (attribute tag name value ∷ items))
      ≡ 5 + length name + length value + length (encode items)
unfolding encode
length-attribute tag name value items =
    let tail = to_be16 (length value) ++ value in
    omega (
      arith,
      length-append value (encode items),
      length-append name tail,
      length-append (name ++ tail) (encode items),
    )

length-group :
    (tag : ℕ) (items : List Item) → length (encode (group tag ∷ items)) ≡ 1 + length (encode items)
unfolding encode
length-group tag items = omega arith

-- The loop reads the encoded calls up to the end tag, and leaves the document.
pub scan-encode :
    (fuel : ℕ) (items : List Item) (offset g : ℕ) (current : Bytes) (attributes : List Attribute)
    (document : Bytes)
    → g ≢ 0
    → IsMessage g current items
    → offset + length (encode items) ≤ 16384
    → length attributes + length (contents g current items) ≤ 128
    → length (encode items) < fuel
    → Ended
        (attributes ++ contents g current items)
        document
        (scan fuel (At offset g current attributes (behind items document)))
unfolding contents
scan-encode zero items offset g current attributes document ne m size count enough =
    absurd (omega arith)
scan-encode (suc fuel) [] offset g current attributes document ne m size count enough =
    let s = At offset g current attributes (behind [] document) in
    (
      At (offset + 1) g current attributes document,
      scan-stop fuel s _ (round-end s offset document (unfold behind encode in refl) (omega arith)),
      sym (append-nil attributes),
      refl,
    )
scan-encode (suc fuel) (group tag ∷ items) offset g current attributes document ne m size count
      enough =
    let (known, le, later) = m in
    let s = At offset g current attributes (behind (group tag ∷ items) document) in
    let size' = length-group tag items in
    Ended-go fuel s _ _ _ document
      (round-group s offset tag (behind items document) (rw behind-group) (omega arith) known le)
      refl
      (scan-encode fuel items (offset + 1) tag [] attributes document (ground arith) later
        (omega arith) count (omega arith))
scan-encode (suc fuel) (additional tag value ∷ items) offset g current attributes document ne m size
      count enough =
    let (named, short, lo, hi, later) = m in
    let s = At offset g current attributes (behind (additional tag value ∷ items) document) in
    let tail = to_be16 (length value) ++ (value ++ behind items document) in
    let offset' = offset + 1 + 2 + 2 + length value in
    let t = extended s tag (behind items document) offset' current value in
    let a = made s tag current value in
    let size' = length-additional tag value items in
    let read =
      scan_value s (offset + 1) (offset + 1 + 2) tag 0 current value (behind items document) tail
        (omega arith) (omega arith) short (scan_name_again _ current named) in
    Ended-go fuel s t _ _ document
      (round-attribute s offset tag (to_be16 0 ++ tail) t (rw behind-additional) (omega arith) lo hi
        ne read)
      (append_assoc attributes (a ∷ []) (contents g current items))
      (scan-encode fuel items offset' g current (attributes ++ a ∷ []) document ne later
        (omega arith) (omega (arith, length-append attributes (a ∷ []))) (omega arith))
scan-encode (suc fuel) (attribute tag name value ∷ items) offset g current attributes document ne m
      size count enough =
    let (is_name, named, short, lo, hi, later) = m in
    let s = At offset g current attributes (behind (attribute tag name value ∷ items) document) in
    let tail = to_be16 (length value) ++ (value ++ behind items document) in
    let offset' = offset + 1 + 2 + length name + 2 + length value in
    let t = extended s tag (behind items document) offset' name value in
    let a = made s tag name value in
    let size' = length-attribute tag name value items in
    let read =
      scan_value s (offset + 1) (offset + 1 + 2 + length name) tag (length name) name value
        (behind items document) (name ++ tail) (omega arith) is_name.short short
        (scan_name-append (offset + 1 + 2) current name tail is_name named) in
    Ended-go fuel s t _ _ document
      (round-attribute s offset tag (to_be16 (length name) ++ (name ++ tail)) t
        (rw behind-attribute) (omega arith) lo hi ne read)
      (append_assoc attributes (a ∷ []) (contents g name items))
      (scan-encode fuel items offset' g name (attributes ++ a ∷ []) document ne later (omega arith)
        (omega (arith, length-append attributes (a ∷ []))) (omega arith))
