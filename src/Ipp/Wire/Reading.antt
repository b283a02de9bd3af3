-- ===== src/Ipp/Wire/Reading.antt =====
-- crates/rip-ipp/src/lib.rs: the bytes that each step of the parser reads.
use rip_server.Common.{
  ℕ, ◌+◌, ◌≤◌, ◌<◌, ◌≡◌, refl, sym, ap, ◌∙◌, inl, inr, true, false, not, [], ◌∷◌, ◌++◌, ltb, leb,
  ◌==◌, length, length-append, length-take, take-append-drop, append_assoc, all, is_empty, ok,
  >>=-eq-ok, reject_if-eq-ok, arith, Bool-cases, subst, subst₂,
}
use rip_server.Common.Bytes.{Bytes}
use rip_server.Common.Bytes.Utf8.{is_utf8}
use rip_server.Ipp.{Attribute}
use rip_server.Ipp.Wire.{
  Cursor, take_bytes, read_u16, take_u16, Scan, is_name_byte, repeat_name, new_name, scan_name,
  scan_attribute,
}

-- From `c` to `d` these bytes are read, and the offset moves by as many.
pub record Reads (c d : Cursor) : Type 0 where
  pub bytes : Bytes
  pub split : c.rest ≡ bytes ++ d.rest
  pub moved : d.offset ≡ c.offset + length bytes

pub Reads-refl : (c : Cursor) → Reads c c
Reads-refl c = record { bytes = []; split = refl; moved = omega arith }

pub Reads-trans : {c d e : Cursor} → Reads c d → Reads d e → Reads c e
Reads-trans r s = record {
  bytes = r.bytes ++ s.bytes;
  split = r.split ∙ ap (λ x. r.bytes ++ x) s.split ∙ sym (append_assoc r.bytes s.bytes _);
  moved = omega (arith, r.moved, s.moved, length-append r.bytes s.bytes);
}

pub take_bytes-Reads :
    (c : Cursor) (len : ℕ) {bs : Bytes} {d : Cursor}
    → take_bytes c len ≡ ok (bs, d)
    → Reads c d × (length bs ≡ len)
unfolding take_bytes
take_bytes-Reads c len {bs} {d} e = (
  record {
    bytes = bs;
    split = ground (arith, take-append-drop len c.rest);
    moved = ground (arith, length-take len c.rest);
  },
  ground (arith, length-take len c.rest),
)

pub take_u16-Reads : (c : Cursor) {n : ℕ} {d : Cursor} → take_u16 c ≡ ok (n, d) → Reads c d
unfolding take_u16
take_u16-Reads c {n} {d} e =
    let ((bs, c'), found, later) = >>=-eq-ok (take_bytes c 2) _ e in
    let (m, read, same) = >>=-eq-ok (read_u16 bs) _ later in
    let whole : c' ≡ d = cc in subst (Reads c) whole (take_bytes-Reads c 2 found).0

-- A name that may stand in an attribute, or none yet.
pub record IsName (name : Bytes) : Type 0 where
  pub plain : all is_name_byte name ≡ true
  pub short : length name ≤ 255

length_of_not_empty : (xs : Bytes) → is_empty xs ≡ false → 0 < length xs
length_of_not_empty [] h = cc
length_of_not_empty (x ∷ xs) h = omega arith

-- The name that a length of at most 255 introduces.
record Named (c d : Cursor) (name : Bytes) : Type 0 where
  reads : Reads c d
  is_name : IsName name
  ne_nil : 0 < length name

repeat_name-Named :
    (c : Cursor) (current : Bytes) {name : Bytes} {d : Cursor}
    → IsName current
    → repeat_name c current ≡ ok (name, d)
    → Named c d name
unfolding repeat_name
repeat_name-Named c current {name} {d} h e =
    let (used, same) = reject_if-eq-ok (is_empty current) _ _ e in
    let there : c ≡ d = cc in
    let again : current ≡ name = cc in
    subst₂ (Named c) there again
      (record { reads = Reads-refl c; is_name = h; ne_nil = length_of_not_empty current used })

new_name-Named :
    (c : Cursor) (len : ℕ) {name : Bytes} {d : Cursor}
    → 0 < len
    → len ≤ 255
    → new_name c len ≡ ok (name, d)
    → Named c d name
unfolding new_name
new_name-Named c len {name} {d} pos short e =
    let ((bs, c'), found, e1) = >>=-eq-ok (take_bytes c len) _ e in
    let (_, e2) = reject_if-eq-ok (not (is_utf8 bs)) _ _ e1 in
    let (plain, same) = reject_if-eq-ok (not (all is_name_byte bs)) _ _ e2 in
    let (reads, size) = take_bytes-Reads c len found in
    let there : c' ≡ d = cc in
    let again : bs ≡ name = cc in
    subst₂ (Named c) there again (record {
      reads = reads;
      is_name = record { plain = ground arith; short = omega arith };
      ne_nil = omega arith;
    })

scan_name-Named :
    (c : Cursor) (current : Bytes) (len : ℕ) {name : Bytes} {d : Cursor}
    → IsName current
    → len ≤ 255
    → scan_name c current len ≡ ok (name, d)
    → Named c d name
unfolding scan_name
scan_name-Named c current len h short e = elim (Bool-cases (len == 0)) [
  | inl zero_len ↦ repeat_name-Named c current h (rw zero_len at e)
  | inr pos ↦ new_name-Named c len (ground arith) short (rw pos at e)
]

-- What the parser accepts as an attribute.
pub record IsAttribute (a : Attribute) : Type 0 where
  pub is_name : IsName a.name
  pub named : 0 < length a.name
  pub value_short : length a.value ≤ 4096

-- One attribute is read and appended, in the group of the state.
pub record Scanned (s : Scan) (c : Cursor) (tag : ℕ) (t : Scan) : Type 0 where
  pub attribute : Attribute
  pub reads : Reads c t.cursor
  pub grown : t.attributes ≡ s.attributes ++ attribute ∷ []
  pub same_group : t.group ≡ s.group
  pub in_group : attribute.group ≡ s.group
  pub tagged : attribute.tag ≡ tag
  pub current_name : IsName t.current
  pub room : length s.attributes < 128
  pub is_attribute : IsAttribute attribute

pub scan_attribute-Scanned :
    (s : Scan) (c : Cursor) (tag : ℕ) {t : Scan}
    → IsName s.current
    → scan_attribute s c tag ≡ ok t
    → Scanned s c tag t
unfolding scan_attribute
scan_attribute-Scanned s c tag {t} h e =
    let (room, e1) = reject_if-eq-ok (leb 128 (length s.attributes)) _ _ e in
    let ((name_len, c1), r1, e2) = >>=-eq-ok (take_u16 c) _ e1 in
    let (short, e3) = reject_if-eq-ok (ltb 255 name_len) _ _ e2 in
    let ((name, c2), r2, e4) = >>=-eq-ok (scan_name c1 s.current name_len) _ e3 in
    let ((len, c3), r3, e5) = >>=-eq-ok (take_u16 c2) _ e4 in
    let (value_short, e6) = reject_if-eq-ok (ltb 4096 len) _ _ e5 in
    let ((value, c4), r4, same) = >>=-eq-ok (take_bytes c3 len) _ e6 in
    let named = scan_name-Named c1 s.current name_len h (ground arith) r2 in
    let (value_reads, value_len) = take_bytes-Reads c3 len r4 in
    let attribute : Attribute = record { group = s.group; tag = tag; name = name; value = value } in
    let result : Scan = record {
      cursor = c4;
      group = s.group;
      current = name;
      attributes = s.attributes ++ attribute ∷ [];
    } in
    let whole : result ≡ t = cc in
    subst (Scanned s c tag) whole (record {
      attribute = attribute;
      reads =
          Reads-trans (take_u16-Reads c r1)
            (Reads-trans named.reads (Reads-trans (take_u16-Reads c2 r3) value_reads));
      grown = refl;
      same_group = refl;
      in_group = refl;
      tagged = refl;
      current_name = named.is_name;
      room = ground arith;
      is_attribute = record {
        is_name = named.is_name;
        named = named.ne_nil;
        value_short = ground arith;
      };
    })
