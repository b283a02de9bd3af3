-- ===== src/Tests/Submission.antt =====
-- crates/rip-jobs and the tickets of crates/rip-core/src/print.rs at concrete inputs.
use rip_server.Common.{
  ℕ, ◌≡◌, ◌↔◌, refl, true, List, [], ◌∷◌, ◌++◌, append_assoc, append-nil, none, some, sym, ok, err,
}
use rip_server.Common.Bytes.{Bytes, codes, bytes_eq, starts_with}
use rip_server.Core.Document.{
  Manifest, pdf, rgb, auto, mu_pdf, validate, resolve, detect, bad_name, utf8_len, char_len,
  is_whitespace, is_control, postscript,
}
use rip_server.Core.Pages.Render
use rip_server.Core.Pages.Strict
use rip_server.Core.Pages.Label.{label, ranges_label, labels, range_label, to_string, decimal}
use rip_server.Core.Ticket.{
  JobTicket, Texts, new_ticket, source_of, validate_raster, build, bad_version, bad_source,
  bad_reference, bad_evidence, bad_setting, bad_output, valid_digest, valid_https_reference,
}
use rip_server.Core.Ticket.Exact.{validate_raster_iff}
use rip_server.Jobs.{Hasher, prepare_staged, format_mismatch}
use rip_server.Jobs.Prefix.{concat, IsStreaming}
use rip_server.Jobs.Publish.{IsIdText}
use rip_server.Jobs.Whole.{settled, judged, job_of, prepare_staged-judged}

abbrev id_text : List ℕ
id_text = codes "00000000-0000-4000-8000-000000000007"

abbrev texts : Texts
texts = record { uuid = λ id. id_text; parse_url = λ uri. none }

-- In place of SHA-256, the bytes themselves, and one digest for all.
abbrev digest_text : List ℕ
digest_text = codes "00000000000000000000000000000000000000000000000000000000000000af"

abbrev hasher : Hasher Bytes
hasher = record { new = []; update = λ seen more. seen ++ more; hex = λ seen. digest_text }

hasher-IsStreaming : IsStreaming hasher
hasher-IsStreaming = record {
  update-nil = λ s. append-nil s;
  update-append = λ s a b. sym (append_assoc s a b);
}

abbrev manifest : Manifest
manifest = record {
  page_ranges = Render.default;
  name = codes "card";
  format = pdf;
  dpi = 300;
  color_mode = rgb;
  priority = 50;
  engine = auto;
}

abbrev pieces : List Bytes
pieces = codes "%P" ∷ codes "DF-1." ∷ codes "7" ∷ []

texts-IsIdText : IsIdText (texts.uuid 7)
texts-IsIdText = (refl, refl)

valid_text : valid_digest digest_text ≡ true
unfolding valid_digest
valid_text = refl

prepare_staged-judged_example :
    prepare_staged texts hasher
      (record { source_part = some pieces; document = none })
      7
      manifest
      none
      100
    ≡ (
      settled
          (record { source_part = some pieces; document = none })
          (judged texts hasher (concat pieces) 7 manifest none 100),
      judged texts hasher (concat pieces) 7 manifest none 100,
    )
prepare_staged-judged_example =
    prepare_staged-judged texts hasher pieces none 7 manifest none 100 hasher-IsStreaming
      ((λ p. cc), ((λ p. cc), ((λ p. cc), tt))) (λ s. valid_text) texts-IsIdText

-- The document is a PDF, as the manifest says.
is_taken :
    judged texts hasher (concat pieces) 7 manifest none 100
    ≡ ok (
      job_of hasher (concat pieces) 7 manifest 100,
      new_ticket
          (source_of texts (job_of hasher (concat pieces) 7 manifest 100) 8)
          manifest
          (some 7)
          mu_pdf,
    )
unfolding validate resolve detect bad_name Render.is_all Strict.is_all utf8_len char_len
    is_whitespace is_control starts_with
is_taken = refl

is_refused :
    judged texts hasher (concat pieces) 7 (record manifest { format = postscript }) none 100
    ≡ err format_mismatch
unfolding validate resolve detect bad_name Render.is_all Strict.is_all utf8_len char_len
    is_whitespace is_control starts_with
is_refused = refl

abbrev ticket : JobTicket
ticket =
    new_ticket (source_of texts (job_of hasher (concat pieces) 7 manifest 100) 8) manifest (some 7)
      mu_pdf

passes : validate_raster texts ticket ≡ ok tt
unfolding validate_raster new_ticket bad_version bad_source bad_reference bad_evidence bad_setting
    bad_output valid_digest valid_https_reference validate resolve bad_name Render.is_all
    Strict.is_all utf8_len char_len is_whitespace is_control bytes_eq label ranges_label
passes = refl

two_copies : ¬ (validate_raster texts (record ticket { copies = 2 }) ≡ ok tt)
unfolding validate_raster new_ticket bad_version bad_source bad_reference bad_evidence bad_setting
    bad_output valid_digest valid_https_reference validate resolve bad_name Render.is_all
    Strict.is_all utf8_len char_len is_whitespace is_control bytes_eq label ranges_label
two_copies e = cc

labels_text :
    labels (
      (record { first = 1; last = 3 })
      ∷ (record { first = 5; last = 5 })
      ∷ (record { first = 90; last = 100 })
      ∷ [])
    ≡ codes "1-3,5,90-100"
unfolding labels range_label to_string decimal
labels_text = refl

validate_raster_iff_example :
    (validate_raster texts ticket ≡ ok tt)
    ↔ (build texts ticket.document ticket.manifest ticket.job_id ≡ ok ticket)
validate_raster_iff_example = validate_raster_iff texts ticket
