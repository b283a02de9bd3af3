-- ===== src/Tests/Wire.antt =====
-- crates/rip-ipp/src/lib.rs: a small message, read and written.
use rip_server.Common.{
  suc, ◌≡◌, ◌≢◌, refl, List, [], ◌∷◌, ◌++◌, ok, some, none, inl, inr, length, arith,
}
use rip_server.Common.Bytes.{Bytes, codes}
use rip_server.Common.Bytes.Utf8.{is_utf8}
use rip_server.Ipp.{Request}
use rip_server.Ipp.Response
use rip_server.Ipp.Response.{Response}
use rip_server.Ipp.Wire.{
  parse, scan, first_scan, round, scan_tag, take_bytes, take_u16, scan_name, new_name, is_name_byte,
}
use rip_server.Ipp.Wire.Bounds.{IsRequest, parse-IsRequest, scan_total}
use rip_server.Ipp.Wire.Message.{parse-finish}
use rip_server.Ipp.Wire.Items.{
  attribute, additional, group, Item, write, contents, encode, IsMessage,
}

abbrev items : List Item
items =
    attribute 0x44 (codes "a-1") (codes "x")
    ∷ additional 0x44 (codes "y")
    ∷ group 2
    ∷ attribute 0x21 (codes "copies") (0 ∷ 0 ∷ 0 ∷ 1 ∷ [])
    ∷ []

abbrev input : Bytes
input =
    1
    ∷ 1
    ∷ 0
    ∷ 2
    ∷ 0
    ∷ 0
    ∷ 0
    ∷ 7
    ∷ 1
    ∷ 0x44
    ∷ 0
    ∷ 3
    ∷ b'a'
    ∷ b'-'
    ∷ b'1'
    ∷ 0
    ∷ 1
    ∷ b'x'
    ∷ 3
    ∷ codes "%PDF-"

abbrev message : Request
message = record {
  version = (1, 1);
  operation = 2;
  request_id = 7;
  attributes = record { group = 1; tag = 0x44; name = codes "a-1"; value = codes "x" } ∷ [];
  document = codes "%PDF-";
}

parse_runs : parse input ≡ ok message
unfolding parse scan round scan_tag take_bytes take_u16 scan_name new_name is_name_byte is_utf8
parse_runs = refl

parse-IsRequest_example : IsRequest input message
parse-IsRequest_example = parse-IsRequest input parse_runs

scan_total_example : scan (suc (length input)) (first_scan input) ≢ none
scan_total_example = scan_total input

items-IsMessage : IsMessage 1 [] items
unfolding is_name_byte
items-IsMessage = (
  record { plain = refl; short = omega arith },
  omega arith,
  omega arith,
  omega arith,
  omega arith,
  (
    omega arith,
    omega arith,
    omega arith,
    omega arith,
    (
      inr (inl refl),
      omega arith,
      (
        record { plain = refl; short = omega arith },
        omega arith,
        omega arith,
        omega arith,
        omega arith,
        tt,
      ),
    ),
  ),
)

parse-finish_example :
    (r : Response) × (write items (Response.new (1, 1) 0 7) ≡ some r)
    × (parse (Response.finish r ++ codes "%PDF-")
        ≡ ok (record {
          version = (1, 1);
          operation = 0;
          request_id = 7;
          attributes = contents 1 [] items;
          document = codes "%PDF-";
        }))
unfolding encode contents
parse-finish_example =
    parse-finish 1 1 0 7 items (codes "%PDF-") (inl (refl, refl)) (omega arith) (omega arith)
      (omega arith) items-IsMessage (omega arith) (omega arith) refl
