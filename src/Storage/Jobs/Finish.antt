-- ===== src/Storage/Jobs/Finish.antt =====
-- crates/rip-storage/src/lib.rs: the completion of a job with its artifacts, and its deletion.
use rip_server.Common.{
  ℕ, ◌+◌, ◌/◌, ◌%◌, Bool, false, not, ◌&&◌, ◌||◌, List, [], ◌∷◌, ◌++◌, Option, none, some, ltb,
  ◌==◌, within, any, all, length, is_empty, if◌then◌else◌, Result, ok, ◌>>=◌, ◌>>◌, reject_if,
  ok_or,
}
use rip_server.Common.Bytes.{Bytes, codes, bytes_eq}
use rip_server.Core.Job.{Job}
use rip_server.Core.Mapping.{Artifact, source_mapping}
use rip_server.Core.Pages.Render
use rip_server.Core.State.{completed, terminal}
use rip_server.Storage.{StorageError, conflict, not_found, Text}
use rip_server.Storage.Rows.{find}
use rip_server.Storage.Delivery.Enqueue.{is_lower_hex}
use rip_server.Storage.Jobs.{JobTables, or_conflict}
use rip_server.Storage.Jobs.Work.{transition_recorded}

-- A decimal digit of a page number, and `format!("page-{:06}.tiff", page)` for a page below 10^6.
digit : ℕ → ℕ → ℕ
digit page unit = b'0' + page / unit % 10

unfoldable pub page_name : ℕ → Bytes
unfolding digit
page_name page =
    codes "page-"
    ++ (digit page 100000
        ∷ digit page 10000
        ∷ digit page 1000
        ∷ digit page 100
        ∷ digit page 10
        ∷ digit page 1
        ∷ [])
    ++ codes ".tiff"

-- The `any` over `artifacts.iter().enumerate()`, from index `i`.
unfoldable pub bad_artifacts : ℕ → List Artifact → Bool
bad_artifacts i [] = false
bad_artifacts i (a ∷ rest) =
    not (a.page == i + 1)
    || not (bytes_eq a.name (page_name a.page))
    || not (bytes_eq a.media_type (codes "image/tiff"))
    || a.bytes == 0
    || not (length a.sha256 == 64)
    || not (all is_lower_hex a.sha256)
    || bad_artifacts (i + 1) rest

-- The fields that are read of the report of a source's validation; a field of another JSON type is
-- missing.
pub record Validation : Type 0 where
  pub page_count : Option ℕ
  pub source_sha256 : Option Text
  pub strict_pdf_inspection : Option Bool
  pub page_selection_semantics : Option Text
  pub rendered_page_count : Option ℕ

abbrev is_text : Option Text → Text → Bool
is_text none t = false
is_text (some s) t = bytes_eq s t

abbrev is_true : Option Bool → Bool
is_true none = false
is_true (some b) = b

abbrev is_zero : Option ℕ → Bool
is_zero none = false
is_zero (some n) = n == 0

-- `filter(|n| (1..=100).contains(n))`
abbrev usable : Option ℕ → Option ℕ
usable none = none
usable (some n) = if within 1 100 n then some n else none

-- No page was selected: an IPP selection that lies behind the last page of the source.
unfoldable pub check_empty : Job → Validation → Result (Unit {0}) StorageError
check_empty job report = do
  total ← ok_or (usable report.page_count) conflict
  reject_if
      (not (Render.is_ipp job.manifest.page_ranges)
        || not (is_text report.source_sha256 job.source_sha256)
        || not (is_true report.strict_pdf_inspection)
        || not (is_text report.page_selection_semantics (codes "ipp-input-pages"))
        || not (is_zero report.rendered_page_count))
      conflict
  indices ← or_conflict (Render.indices job.manifest.page_ranges total)
  reject_if (not (is_empty indices)) conflict

unfoldable pub check_artifacts :
    Job → List Artifact → List (ℕ × Validation) → Result (Unit {0}) StorageError
unfolding check_empty
check_artifacts job [] validations = do
  report ← ok_or (find job.id validations) not_found
  check_empty job report
check_artifacts job (a ∷ rest) validations = do
  _ ← or_conflict (source_mapping job.manifest (a ∷ rest))
  ok tt

-- `complete_with_artifacts`
unfoldable pub complete_with_artifacts :
    Job
    → List Artifact
    → List (ℕ × Validation)
    → ℕ
    → JobTables
    → Result (JobTables × Job) StorageError
unfolding bad_artifacts check_artifacts
complete_with_artifacts job artifacts validations now t = do
  reject_if (ltb 100 (length artifacts) || bad_artifacts 0 artifacts) conflict
  check_artifacts job artifacts validations
  transition_recorded job completed none (some artifacts) now t

-- The rows of `print_pipelines` and `color_attempts` that keep a job: their job and their state.
pub record Pipeline : Type 0 where
  pub source_job : ℕ
  pub state : Text

pub record ColorRow : Type 0 where
  pub id : ℕ
  pub source_job : ℕ
  pub state : Text

abbrev is_open : Text → Bool
is_open state = not (
    bytes_eq state (codes "COMPLETED")
    || bytes_eq state (codes "FAILED")
    || bytes_eq state (codes "CANCELLED"))

abbrev is_busy : List ℕ → ColorRow → Bool
is_busy cleanup c =
    bytes_eq c.state (codes "QUEUED")
    || bytes_eq c.state (codes "RUNNING")
    || any (λ id. id == c.id) cleanup

unfoldable pub is_kept : ℕ → List Pipeline → List ColorRow → List ℕ → Bool
is_kept id pipelines colors cleanup =
    any (λ p. p.source_job == id && is_open p.state) pipelines
    || any (λ c. c.source_job == id && is_busy cleanup c) colors

unfoldable pub remove {ℓ} : {A : Type ℓ} → ℕ → List (ℕ × A) → List (ℕ × A)
remove id [] = []
remove id ((key, row) ∷ rows) =
    let rest = remove id rows in if key == id then rest else (key, row) ∷ rest

-- `delete`
unfoldable pub delete :
    Job → List Pipeline → List ColorRow → List ℕ → JobTables → Result JobTables StorageError
unfolding is_kept remove
delete job pipelines colors cleanup t = do
  reject_if (not (terminal job.state)) conflict
  row ← ok_or (find job.id t.jobs) conflict
  reject_if (not (row.revision == job.revision) || is_kept job.id pipelines colors cleanup) conflict
  ok (record t { jobs = remove job.id t.jobs })
