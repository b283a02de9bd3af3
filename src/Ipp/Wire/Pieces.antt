-- ===== src/Ipp/Wire/Pieces.antt =====
-- crates/rip-ipp/src/lib.rs: each piece of a written message, as one step of the parser reads it.
use rip_server.Common.{
  ℕ, ◌+◌, ◌/◌, ◌%◌, ◌≤◌, ◌<◌, ◌≡◌, refl, ◌≢◌, true, false, [], ◌∷◌, ◌++◌, ltb, leb, ◌==◌, length,
  length-append, take-length_append, drop-length_append, ok, arith,
}
use rip_server.Common.Bytes.{Bytes, be16, to_be16}
use rip_server.Common.Bytes.Utf8.{is_utf8_ascii}
use rip_server.Ipp.{Attribute}
use rip_server.Ipp.Wire.{
  Cursor, take_bytes, take_u16, new_name, repeat_name, scan_name, is_name_byte, Scan, go, stop,
  scan_attribute, scan_tag, round,
}
use rip_server.Ipp.Wire.Reading.{IsName}
use rip_server.Ipp.Wire.Header.{IsGroup}

pub take_bytes-append :
    (offset : ℕ) (bs rest : Bytes)
    → take_bytes (record { offset = offset; rest = bs ++ rest }) (length bs)
      ≡ ok (bs, record { offset = offset + length bs; rest = rest })
unfolding take_bytes
take_bytes-append offset bs rest =
    let enough : ltb (length (bs ++ rest)) (length bs) ≡ false =
      ground (arith, length-append bs rest) in
    rw (enough, take-length_append bs rest, drop-length_append bs rest)

pub take_u16-to_be16 :
    (offset n : ℕ) (rest : Bytes)
    → n ≤ 65535
    → take_u16 (record { offset = offset; rest = to_be16 n ++ rest })
      ≡ ok (n, record { offset = offset + 2; rest = rest })
unfolding take_u16
take_u16-to_be16 offset n rest small =
    let value : be16 (n / 256 % 256) (n % 256) ≡ n = omega arith in
    rw (take_bytes-append offset (to_be16 n) rest, value)

is_name_byte_ascii : (b : ℕ) → is_name_byte b ≡ true → ltb b 0x80 ≡ true
unfolding is_name_byte
is_name_byte_ascii b h = ground arith

pub scan_name-append :
    (offset : ℕ) (current name rest : Bytes)
    → IsName name
    → 0 < length name
    → scan_name (record { offset = offset; rest = name ++ rest }) current (length name)
      ≡ ok (name, record { offset = offset + length name; rest = rest })
unfolding scan_name new_name
scan_name-append offset current name rest h pos =
    let nonzero : (length name == 0) ≡ false = ground arith in
    rw (
      nonzero,
      take_bytes-append offset name rest,
      is_utf8_ascii name is_name_byte is_name_byte_ascii h.plain,
      h.plain,
    )

pub scan_name_again :
    (c : Cursor) (current : Bytes) → 0 < length current → scan_name c current 0 ≡ ok (current, c)
unfolding scan_name repeat_name
scan_name_again c [] pos = elim pos [ ]
scan_name_again c (x ∷ xs) pos = refl

abbrev pub made : Scan → ℕ → Bytes → Bytes → Attribute
made s tag name value = record { group = s.group; tag = tag; name = name; value = value }

-- The state behind an attribute.
abbrev pub extended : Scan → ℕ → Bytes → ℕ → Bytes → Bytes → Scan
extended s tag rest offset name value = record {
  cursor = record { offset = offset; rest = rest };
  group = s.group;
  current = name;
  attributes = s.attributes ++ made s tag name value ∷ [];
}

pub scan_value :
    (s : Scan) (here offset tag name_len : ℕ) (name value rest before : Bytes)
    → length s.attributes < 128
    → name_len ≤ 255
    → length value ≤ 4096
    → scan_name (record { offset = here + 2; rest = before }) s.current name_len
      ≡ ok (name, record { offset = offset; rest = to_be16 (length value) ++ (value ++ rest) })
    → scan_attribute s (record { offset = here; rest = to_be16 name_len ++ before }) tag
      ≡ ok (extended s tag rest (offset + 2 + length value) name value)
unfolding scan_attribute
scan_value s here offset tag name_len name value rest before room short value_short named =
    let fits : leb 128 (length s.attributes) ≡ false = ground arith in
    let fits_name : ltb 255 name_len ≡ false = ground arith in
    let fits_value : ltb 4096 (length value) ≡ false = ground arith in
    rw (
      fits,
      take_u16-to_be16 here name_len before (omega arith),
      fits_name,
      named,
      take_u16-to_be16 offset (length value) (value ++ rest) (omega arith),
      fits_value,
      take_bytes-append (offset + 2) value rest,
    )

pub round-attribute :
    (s : Scan) (offset tag : ℕ) (rest : Bytes) (t : Scan)
    → s.cursor ≡ record { offset = offset; rest = tag ∷ rest }
    → offset ≤ 16384
    → 16 ≤ tag
    → tag ≤ 95
    → s.group ≢ 0
    → scan_attribute s (record { offset = offset + 1; rest = rest }) tag ≡ ok t
    → round s ≡ go t
unfolding round scan_tag
round-attribute s offset tag rest t at near lo hi g found = ground arith

pub round-group :
    (s : Scan) (offset tag : ℕ) (rest : Bytes)
    → s.cursor ≡ record { offset = offset; rest = tag ∷ rest }
    → offset ≤ 16384
    → IsGroup tag
    → s.group ≤ tag
    → round s
      ≡ go (record {
        cursor = record { offset = offset + 1; rest = rest };
        group = tag;
        current = [];
        attributes = s.attributes;
      })
unfolding round scan_tag
round-group s offset tag rest at near g le = ground arith

pub round-end :
    (s : Scan) (offset : ℕ) (rest : Bytes)
    → s.cursor ≡ record { offset = offset; rest = 3 ∷ rest }
    → offset ≤ 16384
    → round s ≡ stop (ok (record s { cursor = record { offset = offset + 1; rest = rest } }))
unfolding round scan_tag
round-end s offset rest at near = ground arith
