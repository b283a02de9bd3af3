-- ===== src/Core/Ticket.antt =====
-- crates/rip-core/src/print.rs: the ticket of a job. A `String` is the list of its code points, an id a number. The
-- text of an id (uuid) and the parser of references (url) are parameters.
pub mod Exact
use rip_server.Common.{
  ℕ, Bool, true, false, not, ◌&&◌, ◌||◌, List, [], ◌∷◌, ◌++◌, Option, none, some, ltb, ◌==◌,
  is_empty, length, all, any, Result, ok, err, ◌>>=◌, ◌>>◌, reject_if, within,
}
use rip_server.Common.Bytes.{codes, bytes_eq}
use rip_server.Core.Error.{
  ValidationError, unsupported_ticket_version, ticket_manifest_mismatch, invalid_source_reference,
  invalid_source_evidence, unsupported_ticket_setting, unsupported_ticket_output,
}
use rip_server.Core.Document.{
  DocumentFormat, pdf, postscript, eps, EngineKind, mu_pdf, ghostscript, Manifest, resolve,
  validate, utf8_len, is_control,
}
use rip_server.Core.Pages.Label.{label}
use rip_server.Core.Job.{Job}

pub record SourceDocument : Type 0 where
  pub uri : List ℕ
  pub media_type : DocumentFormat
  pub sha256 : List ℕ
  pub bytes : Option ℕ
  pub page_count : Option ℕ
  pub integrity_verified : Bool
  pub structure_verified : Bool

pub data Destination : Type 0 where
  artifact printer : Destination

pub record Output : Type 0 where
  pub destination : Destination
  pub printer_id : Option (List ℕ)
  pub media_type : List ℕ

pub record JobTicket : Type 0 where
  pub schema_version : ℕ
  pub version : List ℕ
  pub job_id : Option ℕ
  pub attempt_id : Option ℕ
  pub capability_revision : List ℕ
  pub document : SourceDocument
  pub manifest : Manifest
  pub selected_engine : EngineKind
  pub copies : ℕ
  pub sides : List ℕ
  pub media : Option (List ℕ)
  pub finishings : List (List ℕ)
  pub page_selection : List ℕ
  pub number_up : ℕ
  pub imposition : List ℕ
  pub quality : List ℕ
  pub deadline : Option (List ℕ)
  pub color_policy : Option (List ℕ)
  pub output : Output
  pub completion_meaning : List ℕ
  pub document_verified : Bool

-- `url::Url`, as far as it is looked at.
pub record Url : Type 0 where
  pub scheme : List ℕ
  pub host_str : Option (List ℕ)
  pub username : List ℕ
  pub password : Option (List ℕ)
  pub fragment : Option (List ℕ)

pub record Texts : Type 0 where
  pub uuid : ℕ → List ℕ
  pub parse_url : List ℕ → Option Url

abbrev pub is_some {ℓ} : {A : Type ℓ} → Option A → Bool
is_some none = false
is_some (some a) = true

abbrev pub same_format : DocumentFormat → DocumentFormat → Bool
same_format pdf pdf = true
same_format postscript postscript = true
same_format eps eps = true
same_format _ _ = false

abbrev pub same_engine : EngineKind → EngineKind → Bool
same_engine mu_pdf mu_pdf = true
same_engine ghostscript ghostscript = true
same_engine _ _ = false

abbrev pub same_id : Option ℕ → Option ℕ → Bool
same_id none none = true
same_id (some a) (some b) = a == b
same_id _ _ = false

abbrev pub is_artifact : Destination → Bool
is_artifact artifact = true
is_artifact printer = false

-- The ASCII digits and `a` to `f`. A text with another character has a byte outside these.
unfoldable pub valid_digest : List ℕ → Bool
valid_digest digest =
    length digest == 64 && all (λ b. within b'0' b'9' b || within b'a' b'f' b) digest

is_https : Option Url → Bool
is_https none = false
is_https (some url) =
    bytes_eq url.scheme (codes "https")
    && is_some url.host_str
    && is_empty url.username
    && not (is_some url.password)
    && not (is_some url.fragment)

unfoldable pub valid_https_reference : Texts → List ℕ → Bool
unfolding is_https utf8_len is_control
valid_https_reference texts uri =
    not (ltb 2048 (utf8_len uri) || any is_control uri) && is_https (texts.parse_url uri)

-- `format!("jrip://jobs/{id}/source")`
abbrev pub source_uri : Texts → ℕ → List ℕ
source_uri texts id = codes "jrip://jobs/" ++ (texts.uuid id ++ codes "/source")

abbrev pub is_published : Texts → Option ℕ → List ℕ → Bool
is_published texts none uri = false
is_published texts (some id) uri = bytes_eq (source_uri texts id) uri

abbrev pub bad_bytes : Option ℕ → Bool
bad_bytes none = false
bad_bytes (some bytes) = bytes == 0 || ltb 33554432 bytes

abbrev pub bad_count : Option ℕ → Bool
bad_count none = false
bad_count (some count) = count == 0 || ltb 100 count

-- What `validate_raster` asks of the source, in its two parts.
unfoldable pub bad_source : SourceDocument → Bool
unfolding valid_digest
bad_source document =
    not (valid_digest document.sha256) || bad_bytes document.bytes || bad_count document.page_count

unfoldable pub bad_reference : Texts → JobTicket → Bool
unfolding valid_https_reference utf8_len is_control
bad_reference texts self =
    ltb 2048 (utf8_len self.document.uri)
    || any is_control self.document.uri
    || not (valid_https_reference texts self.document.uri)
      && not (is_published texts self.job_id self.document.uri)
    || not (same_id self.attempt_id self.job_id)

unfoldable pub bad_version : JobTicket → Bool
bad_version self =
    not (self.schema_version == 1)
    || not (bytes_eq self.version (codes "0.1"))
    || not (bytes_eq self.capability_revision (codes "jrip-rip-v1"))

unfoldable pub bad_evidence : JobTicket → Bool
bad_evidence self =
    self.document.integrity_verified && not (is_some self.document.bytes)
    || self.document.structure_verified
    || self.document_verified

unfoldable pub bad_setting : JobTicket → Bool
unfolding label
bad_setting self =
    not (self.copies == 1)
    || not (bytes_eq self.sides (codes "one-sided"))
    || is_some self.media
    || not (is_empty self.finishings)
    || not (bytes_eq self.page_selection (label self.manifest.page_ranges))
    || not (self.number_up == 1)
    || not (bytes_eq self.imposition (codes "none"))
    || not (bytes_eq self.quality (codes "standard"))
    || is_some self.deadline
    || is_some self.color_policy

unfoldable pub bad_output : JobTicket → Bool
bad_output self =
    not (is_artifact self.output.destination)
    || is_some self.output.printer_id
    || not (bytes_eq self.output.media_type (codes "image/tiff"))
    || not (bytes_eq self.completion_meaning (codes "raster_export"))

-- `validate_raster`
unfoldable pub validate_raster : Texts → JobTicket → Result (Unit {0}) ValidationError
validate_raster texts self = do
  validate self.manifest
  reject_if (bad_version self) unsupported_ticket_version
  reject_if (not (same_format self.document.media_type self.manifest.format))
      ticket_manifest_mismatch
  engine ← resolve self.manifest.engine self.manifest.format
  reject_if (not (same_engine self.selected_engine engine)) ticket_manifest_mismatch
  reject_if (bad_source self.document) invalid_source_reference
  reject_if (bad_reference texts self) invalid_source_reference
  reject_if (bad_evidence self) invalid_source_evidence
  reject_if (bad_setting self) unsupported_ticket_setting
  reject_if (bad_output self) unsupported_ticket_output
  ok tt

-- The ticket that `build` fills in.
unfoldable pub new_ticket : SourceDocument → Manifest → Option ℕ → EngineKind → JobTicket
unfolding label
new_ticket document manifest job_id engine = record {
  schema_version = 1;
  version = codes "0.1";
  job_id = job_id;
  attempt_id = job_id;
  capability_revision = codes "jrip-rip-v1";
  document = document;
  manifest = manifest;
  selected_engine = engine;
  copies = 1;
  sides = codes "one-sided";
  media = none;
  finishings = [];
  page_selection = label manifest.page_ranges;
  number_up = 1;
  imposition = codes "none";
  quality = codes "standard";
  deadline = none;
  color_policy = none;
  output = record { destination = artifact; printer_id = none; media_type = codes "image/tiff" };
  completion_meaning = codes "raster_export";
  document_verified = false;
}

-- `JobTicket::build`
unfoldable pub build :
    Texts → SourceDocument → Manifest → Option ℕ → Result JobTicket ValidationError
build texts document manifest job_id = do
  engine ← resolve manifest.engine manifest.format
  let ticket = new_ticket document manifest job_id engine
  validate_raster texts ticket
  ok ticket

-- `JobTicket::raster`
unfoldable pub raster : Texts → SourceDocument → Manifest → Result JobTicket ValidationError
unfolding build
raster texts document manifest = build texts document manifest none

abbrev pub source_of : Texts → Job → ℕ → SourceDocument
source_of texts job bytes = record {
  uri = source_uri texts job.id;
  media_type = job.manifest.format;
  sha256 = job.source_sha256;
  bytes = some bytes;
  page_count = none;
  integrity_verified = true;
  structure_verified = false;
}

-- `JobTicket::published`
unfoldable pub published : Texts → Job → ℕ → Result JobTicket ValidationError
unfolding build
published texts job bytes = build texts (source_of texts job bytes) job.manifest (some job.id)
