-- ===== src/Ipp.antt =====
-- crates/rip-ipp/src/lib.rs: the bounded IPP/1.1 codec of the proof printer. An octet is a number
-- below 256; an attribute's name and value are byte sequences, and so are texts.
pub mod Wire
pub mod Access
pub mod Operation
pub mod Response
use rip_server.Common.{ℕ, List}
use rip_server.Common.Bytes.{Bytes}

abbrev pub print_job : ℕ
print_job = 0x0002

abbrev pub validate_job : ℕ
validate_job = 0x0004

abbrev pub cancel_job : ℕ
cancel_job = 0x0008

abbrev pub get_job_attributes : ℕ
get_job_attributes = 0x0009

abbrev pub get_jobs : ℕ
get_jobs = 0x000a

abbrev pub get_printer_attributes : ℕ
get_printer_attributes = 0x000b

abbrev pub hold_job : ℕ
hold_job = 0x000c

abbrev pub release_job : ℕ
release_job = 0x000d

abbrev pub bad_request : ℕ
bad_request = 0x0400

abbrev pub document_format_not_supported : ℕ
document_format_not_supported = 0x040a

abbrev pub attributes_not_supported : ℕ
attributes_not_supported = 0x040b

abbrev pub format_error : ℕ
format_error = 0x0411

abbrev pub operation_not_supported : ℕ
operation_not_supported = 0x0501

pub data ParseError : Type 0 where
  invalid_ipp_message : ParseError

pub record Attribute : Type 0 where
  pub group : ℕ
  pub tag : ℕ
  pub name : Bytes
  pub value : Bytes

pub record Request : Type 0 where
  pub version : ℕ × ℕ
  pub operation : ℕ
  pub request_id : ℕ
  pub attributes : List Attribute
  pub document : Bytes
