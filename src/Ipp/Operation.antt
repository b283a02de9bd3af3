-- ===== src/Ipp/Operation.antt =====
-- crates/rip-ipp/src/lib.rs: `validate_operation`, the admission of a parsed request. A status code is
-- a number below 2^16.
pub mod Validate
pub mod Attributes
pub mod Single
pub mod Accepted
use Prim.Native.String.{String}
use rip_server.Common.{
  ℕ, ◌+◌, Bool, true, false, not, ◌&&◌, ◌||◌, List, [], ◌∷◌, Option, none, some, ltb, ◌==◌,
  if◌then◌else◌, length, any, all, is_empty, get_elem?, Result, ok, err, ◌>>=◌, ◌>>◌, reject_if,
}
use rip_server.Common.Bytes.{Bytes, codes, bytes_eq, starts_with, i32_lt}
use rip_server.Common.Bytes.Utf8.{is_utf8}
use rip_server.Ipp.{
  Attribute, Request, bad_request, attributes_not_supported, document_format_not_supported,
  format_error, operation_not_supported, print_job, validate_job, cancel_job, get_job_attributes,
  get_jobs, get_printer_attributes, hold_job, release_job,
}
use rip_server.Ipp.Access.{
  is_text, matching, one, text, integer, enumeration, resolution_dpi, page_ranges,
}

abbrev pub is_some {ℓ} : {A : Type ℓ} → Option A → Bool
is_some none = false
is_some (some a) = true

-- `is_some_and` and `is_none_or`
abbrev pub some_and {ℓ} : {A : Type ℓ} → Option A → (A → Bool) → Bool
some_and none p = false
some_and (some a) p = p a

abbrev pub none_or {ℓ} : {A : Type ℓ} → Option A → (A → Bool) → Bool
none_or none p = true
none_or (some a) p = p a

-- `option != Some(literal)` and `!= Some(n)`
unfoldable pub is_other_text : Option Bytes → String → Bool
is_other_text none literal = true
is_other_text (some bytes) literal = not (is_text bytes literal)

unfoldable pub is_other : Option ℕ → ℕ → Bool
is_other none n = true
is_other (some x) n = not (x == n)

-- The name is one of a list of literals.
unfoldable pub is_one_of : List String → Bytes → Bool
is_one_of [] name = false
is_one_of (literal ∷ literals) name = is_text name literal || is_one_of literals name

unfoldable pub ends_with : Bytes → Bytes → Bool
ends_with suffix [] = bytes_eq suffix []
ends_with suffix (b ∷ bs) = bytes_eq suffix (b ∷ bs) || ends_with suffix bs

unfoldable pub contains : Bytes → Bytes → Bool
contains pattern [] = starts_with pattern []
contains pattern (b ∷ bs) = starts_with pattern (b ∷ bs) || contains pattern bs

-- The operations on one job.
unfoldable pub is_job_operation : ℕ → Bool
is_job_operation op =
    op == get_job_attributes || op == cancel_job || op == hold_job || op == release_job

unfoldable pub bad_job_uri : Bytes → Bool
bad_job_uri uri =
    not (starts_with (codes "ipp://") uri) || not (contains (codes "/ipp/print/jobs/") uri)

unfoldable pub bad_printer_uri : Bytes → Bool
bad_printer_uri uri =
    not (starts_with (codes "ipp://") uri) || not (ends_with (codes "/ipp/print") uri)

-- The first two attributes, with the charset and the language.
unfoldable pub check_language : Request → Result (Unit {0}) ℕ
check_language self = do
  reject_if
      (none_or (get_elem? self.attributes 0) (λ a. not (is_text a.name "attributes-charset"))
        || none_or (get_elem? self.attributes 1)
            (λ a. not (is_text a.name "attributes-natural-language")))
      bad_request
  reject_if
      (is_other_text (text self 1 "attributes-charset" 0x47) "utf-8"
        || not (is_some (text self 1 "attributes-natural-language" 0x48)))
      bad_request

-- The target of the operation: a job by one of two ways, or the printer.
unfoldable pub check_target : Request → Result (Unit {0}) ℕ
check_target self =
    let printer_uri = text self 1 "printer-uri" 0x45 in
    let job_uri = text self 1 "job-uri" 0x45 in
    let job_bad =
      is_some printer_uri && is_some job_uri
      || not (is_some printer_uri) && not (is_some job_uri)
      || is_some printer_uri && not (is_some (integer self 1 "job-id"))
      || is_some job_uri && is_some (one self 1 "job-id")
      || some_and job_uri bad_job_uri in
    let printer_bad = not (is_some printer_uri) || is_some job_uri in
    do
      reject_if (if is_job_operation self.operation then job_bad else printer_bad) bad_request
      reject_if (some_and printer_uri bad_printer_uri) bad_request

-- The value tag that a known name requires.
unfoldable pub expected_tag : Bytes → Option ℕ
expected_tag name =
    if is_text name "attributes-charset"
    then some 0x47
    else if is_text name "attributes-natural-language"
    then some 0x48
    else if is_one_of ("printer-uri" ∷ "job-uri" ∷ []) name
    then some 0x45
    else if is_one_of
        ("requesting-user-name" ∷ "job-name" ∷ "document-name-supplied"
          ∷ "job-originating-host-name" ∷ [])
        name
    then some 0x42
    else if is_text name "job-uuid"
    then some 0x45
    else if is_text name "finishings"
    then some 0x23
    else if is_one_of ("number-up" ∷ "copies" ∷ []) name
    then some 0x21
    else if is_text name "sides"
    then some 0x44
    else if is_text name "page-ranges"
    then some 0x33
    else if is_text name "document-format"
    then some 0x49
    else if is_text name "job-id"
    then some 0x21
    else if is_text name "requested-attributes"
    then some 0x44
    else if is_text name "printer-resolution"
    then some 0x32
    else if is_text name "print-color-mode"
    then some 0x44
    else if is_text name "limit"
    then some 0x21
    else if is_text name "which-jobs"
    then some 0x44
    else if is_text name "my-jobs"
    then some 0x22
    else none

-- `a.value.len() != 1 || a.value[0] > 1`
unfoldable pub bad_boolean : Bytes → Bool
bad_boolean (b ∷ []) = ltb 1 b
bad_boolean _ = true

unfoldable pub bad_shape : Attribute → ℕ → Bool
bad_shape a expected =
    not (a.tag == expected)
    || (expected == 0x21 || expected == 0x23) && not (length a.value == 4)
    || expected == 0x32 && not (length a.value == 9)
    || expected == 0x33 && not (length a.value == 8)
    || expected == 0x22 && bad_boolean a.value

-- A value of a text tag is nonempty UTF-8 with no zero byte.
unfoldable pub bad_text : Attribute → ℕ → Bool
bad_text a expected =
    not (
      expected == 0x21
      || expected == 0x23
      || expected == 0x33
      || expected == 0x32
      || expected == 0x22)
    && (is_empty a.value || any (λ b. b == 0) a.value || not (is_utf8 a.value))

-- The `filter` of the duplicate test, by the name of an attribute.
unfoldable pub count_same : Attribute → List Attribute → ℕ
count_same a [] = 0
count_same a (other ∷ rest) =
    (if other.group == a.group && bytes_eq other.name a.name then 1 else 0) + count_same a rest

unfoldable pub is_repeated : List Attribute → Attribute → Bool
unfolding count_same
is_repeated attributes a =
    not (is_text a.name "requested-attributes")
    && not (is_text a.name "page-ranges")
    && not (count_same a attributes == 1)

unfoldable pub check_tagged : List Attribute → Attribute → Option ℕ → Result (Unit {0}) ℕ
check_tagged attributes a none = err attributes_not_supported
check_tagged attributes a (some expected) = do
  reject_if (bad_shape a expected) bad_request
  reject_if (bad_text a expected) bad_request
  reject_if (is_repeated attributes a) bad_request

unfoldable pub check_attribute : List Attribute → Attribute → Result (Unit {0}) ℕ
unfolding check_tagged
check_attribute attributes a = check_tagged attributes a (expected_tag a.name)

-- The loop over the attributes, with the whole list for the duplicate test.
unfoldable pub check_attributes : List Attribute → List Attribute → Result (Unit {0}) ℕ
check_attributes attributes [] = ok tt
check_attributes attributes (a ∷ rest) = do
  check_attribute attributes a
  check_attributes attributes rest
