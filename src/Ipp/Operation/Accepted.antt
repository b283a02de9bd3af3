-- ===== src/Ipp/Operation/Accepted.antt =====
-- crates/rip-ipp/src/lib.rs: what `validate_operation` establishes of the request as a whole.
use rip_server.Common.{
  ℕ, ◌≡◌, refl, ◌⊎◌, inl, inr, true, false, ◌&&◌, [], Option, none, some, ok, >>=-eq-ok, arith,
  Bool-cases, Option-cases, all,
}
use rip_server.Common.Bytes.{Bytes, codes, starts_with}
use rip_server.Core.Mapping.Source.{IsSelection}
use rip_server.Core.Pages.Render.{RenderPages}
use rip_server.Ipp.{Attribute, Request, print_job, validate_job, get_printer_attributes, get_jobs}
use rip_server.Ipp.Access.{one, text, integer, page_ranges, resolution_dpi, enumeration}
use rip_server.Ipp.Access.Ranges.{page_ranges-IsSelection}
use rip_server.Ipp.Operation.{
  is_some, is_other, is_job_operation, check_target, bad_job_uri, bad_printer_uri,
}
use rip_server.Ipp.Operation.Attributes.{validate_operation-Passed}
use rip_server.Ipp.Operation.Validate.{
  check_operation, check_print, check_job, fixed_values, known_in_print, resolution_supported,
  not_positive, validate_operation,
}

-- The operations that the printer supports.
abbrev pub IsSupported : ℕ → Type 0
IsSupported op =
    (op ≡ print_job)
    ⊎ (op ≡ validate_job)
    ⊎ (op ≡ get_printer_attributes)
    ⊎ (op ≡ get_jobs)
    ⊎ (is_job_operation op ≡ true)

-- A job is named by its own URI, or by the printer's URI with a positive job id; never by both.
abbrev pub NamesOneJob : Request → Type 0
NamesOneJob r =
    ((uri : Bytes) × (text r 1 "job-uri" 0x45 ≡ some uri)
      × (bad_job_uri uri ≡ false)
      × (text r 1 "printer-uri" 0x45 ≡ none)
      × (one r 1 "job-id" ≡ none))
    ⊎ ((uri : Bytes) × (id : ℕ) × (text r 1 "printer-uri" 0x45 ≡ some uri)
        × (bad_printer_uri uri ≡ false)
        × (text r 1 "job-uri" 0x45 ≡ none)
        × (integer r 1 "job-id" ≡ some id)
        × (not_positive (some id) ≡ false))

check_job-document :
    (r : Request)
    → check_job r ≡ ok tt
    → (r.document ≡ []) × (not_positive (integer r 1 "job-id") ≡ false)
unfolding check_job
check_job-document r e = ground arith

check_operation-job :
    (r : Request)
    → is_job_operation r.operation ≡ true
    → check_operation r ≡ ok tt
    → check_job r ≡ ok tt
unfolding check_operation is_job_operation
check_operation-job r j e = ground arith

check_target-job :
    (r : Request)
    → is_job_operation r.operation ≡ true
    → check_target r ≡ ok tt
    → not_positive (integer r 1 "job-id") ≡ false
    → NamesOneJob r
unfolding check_target
check_target-job r j e pos = elim (Option-cases (text r 1 "printer-uri" 0x45)) [
  | inl no_printer ↦ elim (Option-cases (text r 1 "job-uri" 0x45)) [
    | inl no_job ↦ absurd (ground arith)
    | inr (uri, found) ↦ inl (uri, found, ground arith, no_printer, ground arith)
  ]
  | inr (uri, found) ↦ elim (Option-cases (integer r 1 "job-id")) [
    | inl no_id ↦ absurd (ground arith)
    | inr (id, given) ↦ inr (uri, id, found, ground arith, ground arith, given, rw given at pos)
  ]
]

-- An accepted operation on a job names exactly one job, by a job URI or by the printer's URI and
-- a positive job id but not both, and has no document.
pub accepted-NamesOneJob :
    (r : Request)
    → validate_operation r ≡ ok tt
    → is_job_operation r.operation ≡ true
    → NamesOneJob r × (r.document ≡ [])
accepted-NamesOneJob r e j =
    let p = validate_operation-Passed r e in
    let (document, pos) = check_job-document r (check_operation-job r j p.operation) in
    (check_target-job r j p.target pos, document)

-- An accepted request is for one of the eight operations that the printer supports.
pub accepted-IsSupported : (r : Request) → validate_operation r ≡ ok tt → IsSupported r.operation
unfolding check_operation
accepted-IsSupported r e =
    let done = (validate_operation-Passed r e).operation in
    elim (Bool-cases (is_job_operation r.operation)) [
      | inl job ↦ inr (inr (inr (inr job)))
      | inr other ↦ ground arith
    ]

-- What the frontend relies on when it accepts a document, or a request to check its settings.
pub record IsPrintable (r : Request) : Type 0 where
  pub selection : RenderPages
  pub selected : page_ranges r ≡ ok selection
  pub well_formed : IsSelection selection
  pub pdf : r.operation ≡ print_job → starts_with (codes "%PDF-") r.document ≡ true
  pub no_document : r.operation ≡ validate_job → r.document ≡ []
  pub copies : (one r 2 "copies" ≡ none) ⊎ (integer r 2 "copies" ≡ some 1)
  pub number_up : (one r 2 "number-up" ≡ none) ⊎ (integer r 2 "number-up" ≡ some 1)
  pub finishings : (one r 2 "finishings" ≡ none) ⊎ (enumeration r 2 "finishings" ≡ some 3)
  pub known : all known_in_print r.attributes ≡ true
  pub resolution :
      (one r 2 "printer-resolution" ≡ none)
      ⊎ (resolution_dpi r 2 "printer-resolution" ≡ some 300)
      ⊎ (resolution_dpi r 2 "printer-resolution" ≡ some 600)

fixed_case :
    (o : Option Attribute) (n : Option ℕ) (v : ℕ)
    → (is_some o && is_other n v) ≡ false
    → (o ≡ none) ⊎ (n ≡ some v)
unfolding is_other
fixed_case none n v h = inl refl
fixed_case (some a) none v h = cc
fixed_case (some a) (some x) v h = inr (ground arith)

resolution_cases :
    (r : Request)
    → resolution_supported r ≡ true
    → (one r 2 "printer-resolution" ≡ none)
      ⊎ (resolution_dpi r 2 "printer-resolution" ≡ some 300)
      ⊎ (resolution_dpi r 2 "printer-resolution" ≡ some 600)
unfolding resolution_supported
resolution_cases r h = elim (Option-cases (one r 2 "printer-resolution")) [
  | inl missing ↦ inl missing
  | inr (a, given) ↦ elim (Option-cases (resolution_dpi r 2 "printer-resolution")) [
    | inl unread ↦ absurd (ground arith)
    | inr (dpi, read) ↦ inr (ground arith)
  ]
]

check_print-IsPrintable : (r : Request) → check_print r ≡ ok tt → IsPrintable r
unfolding check_print fixed_values
check_print-IsPrintable r e =
    let (selection, selected, later) = >>=-eq-ok (page_ranges r) _ e in
    record {
      selection = selection;
      selected = selected;
      well_formed = page_ranges-IsSelection r selected;
      pdf = ground arith;
      no_document = ground arith;
      copies = fixed_case (one r 2 "copies") (integer r 2 "copies") 1 (ground arith);
      number_up = fixed_case (one r 2 "number-up") (integer r 2 "number-up") 1 (ground arith);
      finishings =
          fixed_case (one r 2 "finishings") (enumeration r 2 "finishings") 3 (ground arith);
      known = ground arith;
      resolution = resolution_cases r (ground arith);
    }

check_operation-print :
    (r : Request)
    → (r.operation ≡ print_job) ⊎ (r.operation ≡ validate_job)
    → check_operation r ≡ ok tt
    → check_print r ≡ ok tt
unfolding check_operation
check_operation-print r op e = ground arith

-- An accepted print or validation request: its page ranges are a well-formed selection; a print
-- request carries a PDF and a validation request no document; one copy, one page to a sheet, no
-- finishing and a resolution of 300 or 600 dpi are asked for, or nothing is said of them; and it has
-- only the attributes of such a request.
pub accepted-IsPrintable :
    (r : Request)
    → validate_operation r ≡ ok tt
    → (r.operation ≡ print_job) ⊎ (r.operation ≡ validate_job)
    → IsPrintable r
accepted-IsPrintable r e op =
    check_print-IsPrintable r (check_operation-print r op (validate_operation-Passed r e).operation)
