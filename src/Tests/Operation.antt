-- ===== src/Tests/Operation.antt =====
-- crates/rip-ipp/src/lib.rs: `validate_operation` on concrete requests.
use rip_server.Common.{ℕ, ◌≡◌, refl, List, [], ◌∷◌, ok, inl, All}
use rip_server.Common.Bytes.{Bytes, codes, bytes_eq, starts_with}
use rip_server.Common.Bytes.Utf8.{is_utf8}
use rip_server.Ipp.{Attribute, Request, print_job, cancel_job}
use rip_server.Ipp.Access.{is_text, one, matching, text, integer, enumeration, page_ranges}
use rip_server.Ipp.Operation.{
  is_other_text, is_other, is_one_of, ends_with, is_job_operation, bad_printer_uri, check_language,
  check_target, expected_tag, bad_shape, bad_text, is_repeated, check_attribute, check_attributes,
}
use rip_server.Ipp.Operation.Accepted.{
  NamesOneJob, IsPrintable, accepted-NamesOneJob, accepted-IsPrintable,
}
use rip_server.Ipp.Operation.Attributes.{IsTyped, accepted-IsTyped}
use rip_server.Ipp.Operation.Single.{one_complete}
use rip_server.Ipp.Operation.Validate.{
  known_in_print, fixed_values, resolution_supported, check_print, known_in_job, check_job,
  check_operation, validate_operation,
}

abbrev word : ℕ → ℕ → Bytes → Bytes → Attribute
word group tag name value = record { group = group; tag = tag; name = name; value = value }

abbrev language : List Attribute → List Attribute
language rest =
    word 1 0x47 (codes "attributes-charset") (codes "utf-8")
    ∷ word 1 0x48 (codes "attributes-natural-language") (codes "en")
    ∷ rest

abbrev print : Request
print = record {
  version = (1, 1);
  operation = print_job;
  request_id = 7;
  attributes = language (
      word 1 0x45 (codes "printer-uri") (codes "ipp://h/ipp/print")
      ∷ word 2 0x21 (codes "copies") (0 ∷ 0 ∷ 0 ∷ 1 ∷ [])
      ∷ []);
  document = codes "%PDF-1.4";
}

abbrev cancel : Request
cancel = record {
  version = (1, 1);
  operation = cancel_job;
  request_id = 8;
  attributes = language (
      word 1 0x45 (codes "printer-uri") (codes "ipp://h/ipp/print")
      ∷ word 1 0x21 (codes "job-id") (0 ∷ 0 ∷ 0 ∷ 5 ∷ [])
      ∷ []);
  document = [];
}

print_runs : validate_operation print ≡ ok tt
unfolding validate_operation check_language check_target check_attributes check_attribute
    expected_tag bad_shape bad_text is_repeated check_operation check_print known_in_print
    fixed_values resolution_supported is_other_text is_other is_one_of is_job_operation
    bad_printer_uri starts_with ends_with bytes_eq is_text one text integer enumeration page_ranges
    is_utf8
print_runs = refl

cancel_runs : validate_operation cancel ≡ ok tt
unfolding validate_operation check_language check_target check_attributes check_attribute
    expected_tag bad_shape bad_text is_repeated check_operation check_job known_in_job is_other_text
    is_one_of is_job_operation bad_printer_uri starts_with ends_with bytes_eq is_text one text
    integer is_utf8
cancel_runs = refl

accepted-IsPrintable_example : IsPrintable print
accepted-IsPrintable_example = accepted-IsPrintable print print_runs (inl refl)

accepted-IsTyped_example : All IsTyped print.attributes
accepted-IsTyped_example = accepted-IsTyped print print_runs

accepted-NamesOneJob_example : NamesOneJob cancel × (cancel.document ≡ [])
accepted-NamesOneJob_example =
    accepted-NamesOneJob cancel cancel_runs (unfold is_job_operation in refl)

one_complete_example : matching 2 "sides" print.attributes ≡ []
unfolding one is_text bytes_eq
one_complete_example = one_complete print 2 "sides" print_runs refl refl
