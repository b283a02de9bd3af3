-- ===== src/Ipp/Operation/Validate.antt =====
-- crates/rip-ipp/src/lib.rs: `validate_operation`, the checks of each operation and the whole.
use rip_server.Common.{
  ℕ, Bool, false, not, ◌&&◌, ◌||◌, [], ◌∷◌, Option, ◌==◌, if◌then◌else◌, any, all, is_empty, Result,
  err, ◌>>=◌, ◌>>◌, reject_if,
}
use rip_server.Common.Bytes.{Bytes, codes, starts_with, i32_lt}
use rip_server.Ipp.{
  Attribute, Request, bad_request, attributes_not_supported, document_format_not_supported,
  format_error, operation_not_supported, print_job, validate_job, get_job_attributes, get_jobs,
  get_printer_attributes,
}
use rip_server.Ipp.Access.{is_text, one, text, integer, enumeration, resolution_dpi, page_ranges}
use rip_server.Ipp.Operation.{
  is_some, some_and, is_other_text, is_other, is_one_of, is_job_operation, check_language,
  check_target, check_attributes,
}

-- `self.integer(1, …).is_some_and(|n| n < 1)`
abbrev pub not_positive : Option ℕ → Bool
not_positive n = some_and n (λ x. i32_lt x 1)

unfoldable pub known_in_print : Attribute → Bool
known_in_print a =
    (not (a.group == 2)
      || is_one_of
          ("printer-resolution" ∷ "print-color-mode" ∷ "document-name-supplied"
            ∷ "job-originating-host-name" ∷ "job-uuid" ∷ "finishings" ∷ "number-up" ∷ "copies"
            ∷ "sides" ∷ "page-ranges" ∷ [])
          a.name)
    && (not (a.group == 1)
        || is_one_of
            ("attributes-charset" ∷ "attributes-natural-language" ∷ "printer-uri"
              ∷ "requesting-user-name" ∷ "job-name" ∷ "document-format" ∷ [])
            a.name)

-- The attributes that must have the one value that the printer supports.
unfoldable pub fixed_values : Request → Bool
fixed_values self =
    not (is_some (one self 2 "copies") && is_other (integer self 2 "copies") 1)
    && not (is_some (one self 2 "number-up") && is_other (integer self 2 "number-up") 1)
    && not (is_some (one self 2 "finishings") && is_other (enumeration self 2 "finishings") 3)
    && not (is_some (one self 2 "sides") && is_other_text (text self 2 "sides" 0x44) "one-sided")

unfoldable pub resolution_supported : Request → Bool
resolution_supported self =
    not (is_some (one self 2 "printer-resolution"))
    || some_and (resolution_dpi self 2 "printer-resolution") (λ dpi. dpi == 300 || dpi == 600)

unfoldable pub other_color_mode : Attribute → Bool
other_color_mode a = not (is_text a.value "color") && not (is_text a.value "monochrome")

unfoldable pub check_print : Request → Result (Unit {0}) ℕ
check_print self = do
  _ ← page_ranges self
  reject_if (not (fixed_values self)) attributes_not_supported
  reject_if (self.operation == print_job && not (starts_with (codes "%PDF-") self.document))
      format_error
  reject_if (self.operation == validate_job && not (is_empty self.document)) bad_request
  reject_if (not (all known_in_print self.attributes)) attributes_not_supported
  reject_if (not (resolution_supported self)) attributes_not_supported
  reject_if (some_and (one self 2 "print-color-mode") other_color_mode) attributes_not_supported
  reject_if (some_and (text self 1 "document-format" 0x49) (λ v. not (is_text v "application/pdf")))
      document_format_not_supported

unfoldable pub known_in_printer : Attribute → Bool
known_in_printer a =
    a.group == 1
    && is_one_of
        ("attributes-charset" ∷ "attributes-natural-language" ∷ "printer-uri"
          ∷ "requesting-user-name" ∷ "document-format" ∷ "requested-attributes" ∷ [])
        a.name

unfoldable pub check_printer : Request → Result (Unit {0}) ℕ
check_printer self =
    reject_if (not (is_empty self.document && all known_in_printer self.attributes)) bad_request

unfoldable pub known_in_jobs : Attribute → Bool
known_in_jobs a =
    a.group == 1
    && is_one_of
        ("attributes-charset" ∷ "attributes-natural-language" ∷ "printer-uri"
          ∷ "requesting-user-name" ∷ "limit" ∷ "which-jobs" ∷ "my-jobs" ∷ "requested-attributes"
          ∷ [])
        a.name

abbrev pub is_true : Bytes → Bool
is_true (b ∷ []) = b == 1
is_true _ = false

unfoldable pub check_jobs : Request → Result (Unit {0}) ℕ
check_jobs self = do
  reject_if
      (not (is_empty self.document)
        || not (all known_in_jobs self.attributes)
        || not_positive (integer self 1 "limit"))
      bad_request
  reject_if
      (some_and (text self 1 "which-jobs" 0x44)
          (λ v. not (is_text v "completed") && not (is_text v "not-completed"))
        || some_and (one self 1 "my-jobs") (λ a. is_true a.value))
      attributes_not_supported

-- The attributes of an operation on one job; only `get_job_attributes` takes a list of names.
unfoldable pub known_in_job : ℕ → Attribute → Bool
known_in_job operation a =
    not (a.group == 2)
    && is_one_of
        ("attributes-charset" ∷ "attributes-natural-language" ∷ "printer-uri" ∷ "job-uri"
          ∷ "requesting-user-name" ∷ "job-id" ∷ "requested-attributes" ∷ [])
        a.name
    && (operation == get_job_attributes || not (is_text a.name "requested-attributes"))

unfoldable pub check_job : Request → Result (Unit {0}) ℕ
check_job self =
    reject_if
      (not (is_empty self.document)
        || not_positive (integer self 1 "job-id")
        || not (is_some (text self 1 "job-uri" 0x45)) && not (is_some (integer self 1 "job-id"))
        || not (all (known_in_job self.operation) self.attributes))
      bad_request

-- The `match self.operation` at the end.
unfoldable pub check_operation : Request → Result (Unit {0}) ℕ
check_operation self =
    if self.operation == print_job || self.operation == validate_job
    then check_print self
    else if self.operation == get_printer_attributes
    then check_printer self
    else if self.operation == get_jobs
    then check_jobs self
    else if is_job_operation self.operation
    then check_job self
    else err operation_not_supported

unfoldable pub validate_operation : Request → Result (Unit {0}) ℕ
validate_operation self = do
  check_language self
  check_target self
  reject_if (any (λ a. not (a.group == 1) && not (a.group == 2)) self.attributes)
      attributes_not_supported
  check_attributes self.attributes self.attributes
  check_operation self
