-- ===== src/Ipp/Wire.antt =====
-- crates/rip-ipp/src/lib.rs: `Request::parse`, `take` and `take_u16`. The source reads the input at an
-- offset; here a cursor holds the offset with the bytes that remain there.
pub mod Reading
pub mod Header
pub mod Bounds
pub mod Pieces
pub mod Items
pub mod RoundTrip
pub mod Message
use rip_server.Common.{
  ℕ, zero, suc, ◌+◌, Bool, true, false, not, ◌&&◌, ◌||◌, List, [], ◌∷◌, ◌++◌, Option, none, some,
  ltb, leb, ◌==◌, within, if◌then◌else◌, length, take, drop, all, is_empty, Result, ok, err, ◌>>=◌,
  ◌>>◌, reject_if,
}
use rip_server.Common.Bytes.{Bytes, be16, be32}
use rip_server.Common.Bytes.Utf8.{is_utf8}
use rip_server.Ipp.{ParseError, invalid_ipp_message, Attribute, Request}

pub record Cursor : Type 0 where
  pub offset : ℕ
  pub rest : Bytes

-- `take`: the next `len` bytes, or an error where fewer remain.
unfoldable pub take_bytes : Cursor → ℕ → Result (Bytes × Cursor) ParseError
take_bytes c len =
    if ltb (length c.rest) len
    then err invalid_ipp_message
    else ok (take len c.rest, record { offset = c.offset + len; rest = drop len c.rest })

unfoldable pub read_u16 : Bytes → Result ℕ ParseError
read_u16 (a ∷ b ∷ []) = ok (be16 a b)
read_u16 _ = err invalid_ipp_message

unfoldable pub take_u16 : Cursor → Result (ℕ × Cursor) ParseError
unfolding read_u16
take_u16 c = do (bytes, c') ← take_bytes c 2; n ← read_u16 bytes; ok (n, c')

-- The variables of the loop of `parse`.
pub record Scan : Type 0 where
  pub cursor : Cursor
  pub group : ℕ
  pub current : Bytes
  pub attributes : List Attribute

-- A byte that an attribute name may hold.
unfoldable pub is_name_byte : ℕ → Bool
is_name_byte b = within b'a' b'z' b || within b'0' b'9' b || b == b'-'

-- A name of length 0 repeats the current one.
unfoldable pub repeat_name : Cursor → Bytes → Result (Bytes × Cursor) ParseError
repeat_name c current = do reject_if (is_empty current) invalid_ipp_message; ok (current, c)

unfoldable pub new_name : Cursor → ℕ → Result (Bytes × Cursor) ParseError
new_name c len = do
  (name, c') ← take_bytes c len
  reject_if (not (is_utf8 name)) invalid_ipp_message
  reject_if (not (all is_name_byte name)) invalid_ipp_message
  ok (name, c')

unfoldable pub scan_name : Cursor → Bytes → ℕ → Result (Bytes × Cursor) ParseError
scan_name c current len = if len == 0 then repeat_name c current else new_name c len

-- The branch of the loop for a value tag; the cursor stands behind the tag.
unfoldable pub scan_attribute : Scan → Cursor → ℕ → Result Scan ParseError
scan_attribute s c tag = do
  reject_if (leb 128 (length s.attributes)) invalid_ipp_message
  (name_len, c1) ← take_u16 c
  reject_if (ltb 255 name_len) invalid_ipp_message
  (name, c2) ← scan_name c1 s.current name_len
  (len, c3) ← take_u16 c2
  reject_if (ltb 4096 len) invalid_ipp_message
  (value, c4) ← take_bytes c3 len
  let attribute : Attribute = record { group = s.group; tag = tag; name = name; value = value }
  ok (record {
    cursor = c4;
    group = s.group;
    current = name;
    attributes = s.attributes ++ attribute ∷ [];
  })

-- What one round of the loop does: go on, or leave it with a state or an error.
pub data Round : Type 0 where
  go : Scan → Round
  stop : Result Scan ParseError → Round

abbrev pub continue_with : Result Scan ParseError → Round
continue_with (ok s) = go s
continue_with (err e) = stop (err e)

abbrev pub is_delimiter : ℕ → Bool
is_delimiter tag = tag == 0x01 || tag == 0x02 || tag == 0x04

unfoldable pub scan_tag : Scan → Cursor → ℕ → Round
unfolding scan_attribute
scan_tag s c tag =
    if tag == 0x03
    then stop (ok (record s { cursor = c }))
    else if is_delimiter tag && leb s.group tag
    then go (record s { cursor = c; group = tag; current = [] })
    else if within 0x10 0x5f tag && not (s.group == 0)
    then continue_with (scan_attribute s c tag)
    else stop (err invalid_ipp_message)

unfoldable pub scan_rest : Scan → ℕ → Bytes → Round
scan_rest s offset [] = stop (err invalid_ipp_message)
scan_rest s offset (tag ∷ rest) = scan_tag s (record { offset = offset + 1; rest = rest }) tag

unfoldable pub round : Scan → Round
unfolding scan_rest
round s =
    if ltb 16384 s.cursor.offset
    then stop (err invalid_ipp_message)
    else scan_rest s s.cursor.offset s.cursor.rest

-- The loop on fuel; `none` means that the fuel ran out.
unfoldable pub scan : ℕ → Scan → Option (Result Scan ParseError)
scan zero s = none
scan (suc fuel) s = elim (round s) [ go s' ↦ scan fuel s' | stop r ↦ some r ]

abbrev pub starts_in_operation_group : List Attribute → Bool
starts_in_operation_group [] = false
starts_in_operation_group (a ∷ rest) = a.group == 1

-- What follows the loop.
unfoldable pub close : ℕ × ℕ → ℕ → ℕ → Option (Result Scan ParseError) → Result Request ParseError
close version operation request_id none = err invalid_ipp_message
close version operation request_id (some (err e)) = err e
close version operation request_id (some (ok s)) = do
  reject_if (not (starts_in_operation_group s.attributes)) invalid_ipp_message
  ok (record {
    version = version;
    operation = operation;
    request_id = request_id;
    attributes = s.attributes;
    document = s.cursor.rest;
  })

abbrev pub first_scan : Bytes → Scan
first_scan rest = record {
  cursor = record { offset = 8; rest = rest };
  group = 0;
  current = [];
  attributes = [];
}

-- A round reads at least one byte, so that the length of the input is fuel enough.
unfoldable pub parse : Bytes → Result Request ParseError
unfolding close
parse (v0 ∷ v1 ∷ o0 ∷ o1 ∷ r0 ∷ r1 ∷ r2 ∷ r3 ∷ b ∷ rest) = do
  reject_if (not (v0 == 1 && v1 == 1 || v0 == 2 && v1 == 0)) invalid_ipp_message
  reject_if (be32 r0 r1 r2 r3 == 0) invalid_ipp_message
  let body : Bytes = b ∷ rest
  close (v0, v1) (be16 o0 o1) (be32 r0 r1 r2 r3) (scan (suc (length body)) (first_scan body))
parse _ = err invalid_ipp_message
