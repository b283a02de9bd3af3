-- ===== src/Core/Ticket/Exact.antt =====
-- crates/rip-core/src/print.rs: which tickets the check lets pass.
use rip_server.Common.{
  ℕ, ◌≡◌, ◌↔◌, refl, sym, ap, subst, ◌∙◌, true, false, not, List, [], ◌∷◌, Option, none, some,
  is_empty, ==_iff, Result, ok, ◌>>=◌, ◌>>◌, >>=-eq-ok, reject_if-eq-ok, arith,
}
use rip_server.Common.Bytes.{codes, bytes_eq, bytes_eq_iff}
use rip_server.Core.Error.{ValidationError}
use rip_server.Core.Document.{EngineKind, mu_pdf, ghostscript, Manifest, resolve, validate}
use rip_server.Core.Pages.Label.{label}
use rip_server.Core.Ticket.{
  JobTicket, SourceDocument, Destination, artifact, printer, Texts, is_some, same_engine, same_id,
  is_artifact, bad_version, bad_source, bad_reference, bad_evidence, bad_setting, bad_output,
  validate_raster, new_ticket, build, same_format,
}

is_none-eq : (o : Option (List ℕ)) → is_some o ≡ false → o ≡ none
is_none-eq none e = refl
is_none-eq (some a) e = cc

is_empty-eq : (l : List (List ℕ)) → is_empty l ≡ true → l ≡ []
is_empty-eq [] e = refl
is_empty-eq (x ∷ l) e = cc

same_id-eq : (a b : Option ℕ) → same_id a b ≡ true → a ≡ b
same_id-eq none none e = refl
same_id-eq (some a) (some b) e = ap some ((==_iff a b).0 e)
same_id-eq none (some b) e = cc
same_id-eq (some a) none e = cc

same_engine-eq : (a b : EngineKind) → same_engine a b ≡ true → a ≡ b
same_engine-eq mu_pdf mu_pdf e = refl
same_engine-eq ghostscript ghostscript e = refl
same_engine-eq mu_pdf ghostscript e = cc
same_engine-eq ghostscript mu_pdf e = cc

is_artifact-eq : (d : Destination) → is_artifact d ≡ true → d ≡ artifact
is_artifact-eq artifact e = refl
is_artifact-eq printer e = cc

-- What the check has found of a ticket that passes.
record Checked (texts : Texts) (self : JobTicket) : Type 0 where
  engine : EngineKind
  resolved : resolve self.manifest.engine self.manifest.format ≡ ok engine
  engine_is : self.selected_engine ≡ engine
  version_is : bad_version self ≡ false
  reference_is : bad_reference texts self ≡ false
  evidence_is : bad_evidence self ≡ false
  setting_is : bad_setting self ≡ false
  output_is : bad_output self ≡ false

validate_raster-Checked :
    (texts : Texts) (self : JobTicket) → validate_raster texts self ≡ ok tt → Checked texts self
unfolding validate_raster
validate_raster-Checked texts self e =
    let (_, _, e1) = >>=-eq-ok (validate self.manifest) _ e in
    let (version_is, e2) = reject_if-eq-ok (bad_version self) _ _ e1 in
    let (_, e3) =
      reject_if-eq-ok (not (same_format self.document.media_type self.manifest.format)) _ _ e2 in
    let (engine, resolved, e4) =
      >>=-eq-ok (resolve self.manifest.engine self.manifest.format) _ e3 in
    let (engine_is, e5) = reject_if-eq-ok (not (same_engine self.selected_engine engine)) _ _ e4 in
    let (_, e6) = reject_if-eq-ok (bad_source self.document) _ _ e5 in
    let (reference_is, e7) = reject_if-eq-ok (bad_reference texts self) _ _ e6 in
    let (evidence_is, e8) = reject_if-eq-ok (bad_evidence self) _ _ e7 in
    let (setting_is, e9) = reject_if-eq-ok (bad_setting self) _ _ e8 in
    let (output_is, _) = reject_if-eq-ok (bad_output self) _ _ e9 in
    record {
      engine = engine;
      resolved = resolved;
      engine_is = same_engine-eq self.selected_engine engine (ground (arith, engine_is));
      version_is = version_is;
      reference_is = reference_is;
      evidence_is = evidence_is;
      setting_is = setting_is;
      output_is = output_is;
    }

text_is : (a b : List ℕ) → bytes_eq a b ≡ true → a ≡ b
text_is a b = (bytes_eq_iff a b).0

-- Every field of a ticket that passes is what `build` writes there.
Checked-new_ticket :
    (texts : Texts) (self : JobTicket) (c : Checked texts self)
    → new_ticket self.document self.manifest self.job_id c.engine ≡ self
unfolding new_ticket bad_version bad_reference bad_evidence bad_setting bad_output
Checked-new_ticket texts self c =
    let version : self.version ≡ codes "0.1" =
      text_is self.version _ (ground (arith, c.version_is)) in
    let revision : self.capability_revision ≡ codes "jrip-rip-v1" =
      text_is self.capability_revision _ (ground (arith, c.version_is)) in
    let schema : self.schema_version ≡ 1 = ground (arith, c.version_is) in
    let attempt : self.attempt_id ≡ self.job_id =
      same_id-eq self.attempt_id self.job_id (ground (arith, c.reference_is)) in
    let copies : self.copies ≡ 1 = ground (arith, c.setting_is) in
    let sides : self.sides ≡ codes "one-sided" =
      text_is self.sides _ (ground (arith, c.setting_is)) in
    let media = is_none-eq self.media (ground (arith, c.setting_is)) in
    let finishings = is_empty-eq self.finishings (ground (arith, c.setting_is)) in
    let selection : self.page_selection ≡ label self.manifest.page_ranges =
      text_is self.page_selection _ (ground (arith, c.setting_is)) in
    let number_up : self.number_up ≡ 1 = ground (arith, c.setting_is) in
    let imposition : self.imposition ≡ codes "none" =
      text_is self.imposition _ (ground (arith, c.setting_is)) in
    let quality : self.quality ≡ codes "standard" =
      text_is self.quality _ (ground (arith, c.setting_is)) in
    let deadline = is_none-eq self.deadline (ground (arith, c.setting_is)) in
    let color_policy = is_none-eq self.color_policy (ground (arith, c.setting_is)) in
    let destination = is_artifact-eq self.output.destination (ground (arith, c.output_is)) in
    let printer_id = is_none-eq self.output.printer_id (ground (arith, c.output_is)) in
    let media_type : self.output.media_type ≡ codes "image/tiff" =
      text_is self.output.media_type _ (ground (arith, c.output_is)) in
    let meaning : self.completion_meaning ≡ codes "raster_export" =
      text_is self.completion_meaning _ (ground (arith, c.output_is)) in
    let verified : self.document_verified ≡ false = ground (arith, c.evidence_is) in
    let engine = c.engine_is in
    λ i. record {
      schema_version = sym schema i;
      version = sym version i;
      job_id = self.job_id;
      attempt_id = sym attempt i;
      capability_revision = sym revision i;
      document = self.document;
      manifest = self.manifest;
      selected_engine = sym engine i;
      copies = sym copies i;
      sides = sym sides i;
      media = sym media i;
      finishings = sym finishings i;
      page_selection = sym selection i;
      number_up = sym number_up i;
      imposition = sym imposition i;
      quality = sym quality i;
      deadline = sym deadline i;
      color_policy = sym color_policy i;
      output = record {
        destination = sym destination i;
        printer_id = sym printer_id i;
        media_type = sym media_type i;
      };
      completion_meaning = sym meaning i;
      document_verified = sym verified i;
    }

pub build-ok :
    (texts : Texts) (document : SourceDocument) (manifest : Manifest) (job_id : Option ℕ)
    (engine : EngineKind)
    → resolve manifest.engine manifest.format ≡ ok engine
    → validate_raster texts (new_ticket document manifest job_id engine) ≡ ok tt
    → build texts document manifest job_id ≡ ok (new_ticket document manifest job_id engine)
unfolding build
build-ok texts document manifest job_id engine resolved passed =
    ap
      (λ (r : Result EngineKind ValidationError). r >>= λ e.
        validate_raster texts (new_ticket document manifest job_id e)
        >> ok (new_ticket document manifest job_id e))
      resolved
    ∙ ap
        (λ (r : Result (Unit {0}) ValidationError).
          r >> ok (new_ticket document manifest job_id engine))
        passed

-- The check of a ticket lets exactly those pass that the server would have written itself: `validate_raster`
-- accepts a ticket if and only if `build`, on the ticket's own source document, manifest and job, makes this very
-- ticket.
pub validate_raster_iff :
    (texts : Texts) (self : JobTicket)
    → (validate_raster texts self ≡ ok tt)
      ↔ (build texts self.document self.manifest self.job_id ≡ ok self)
unfolding build
validate_raster_iff texts self = (
  λ e.
      let c = validate_raster-Checked texts self e in
      let is = Checked-new_ticket texts self c in
      build-ok texts self.document self.manifest self.job_id c.engine c.resolved
        (subst (λ x. validate_raster texts x ≡ ok tt) (sym is) e)
      ∙ ap ok is,
  λ e.
      let (engine, _, e1) = >>=-eq-ok (resolve self.manifest.engine self.manifest.format) _ e in
      let (done_it, passed, e2) =
        >>=-eq-ok
          (validate_raster texts (new_ticket self.document self.manifest self.job_id engine)) _
          e1 in
      let is : new_ticket self.document self.manifest self.job_id engine ≡ self =
        ground (arith, e2) in
      subst (λ x. validate_raster texts x ≡ ok tt) is passed,
)
