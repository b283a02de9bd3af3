-- ===== src/Storage/Jobs.antt =====
-- crates/rip-storage/src/lib.rs: the tables of the jobs, their events and their receipts, and `UPDATE
-- jobs`, the one statement that changes a job. A revision counts the changes of a job; it is a number
-- without a bound. A receipt is kept without its digests and its signature.
pub mod Work
pub mod Finish
pub mod Intake
pub mod Choice
pub mod Update
pub mod Changes
pub mod Recovery
pub mod Runs
pub mod Current
pub mod Aging
use rip_server.Common.{
  ℕ, ◌+◌, Bool, true, false, not, ◌&&◌, ◌||◌, List, [], ◌∷◌, ◌++◌, Option, none, some, ◌==◌, any,
  if◌then◌else◌, Result, ok, err, ◌>>=◌, ◌>>◌, reject_if, ok_or,
}
use rip_server.Common.Bytes.{codes, bytes_eq}
use rip_server.Core.Error.{ValidationError}
use rip_server.Core.Job.{Job}
use rip_server.Core.Mapping.{Artifact}
use rip_server.Core.State.{
  JobState, received, validating, preflight, queued, ripping, color_processing, halftoning,
  spooling, printing, completed, held, cancelled, failed, terminal, transition,
}
use rip_server.Storage.{
  StorageError, conflict, db, Text, ReceiptStatus, succeeded, cancelled_receipt,
}
use rip_server.Storage
use rip_server.Storage.Rows.{find, replace}

-- A row of `jobs`: the job, and the columns by which it is chosen and changed.
pub record JobRow : Type 0 where
  pub job : Job
  pub priority : ℕ
  pub created_at : ℕ
  pub revision : ℕ

pub record Lease : Type 0 where
  pub job_id : ℕ
  pub run_id : ℕ
  pub expires_at : ℕ

-- A row of `job_events` with its details.
pub record JobEvent : Type 0 where
  pub job_id : ℕ
  pub state : JobState
  pub created_at : ℕ
  pub stage : Text
  pub revision : ℕ
  pub reason_code : Text
  pub retryable : Bool
  pub progress_percent : Option ℕ
  pub completion_kind : Option Text

pub record ResultReceipt : Type 0 where
  pub job_id : ℕ
  pub status : ReceiptStatus
  pub job : Job
  pub artifacts : Option (List Artifact)

pub record JobTables : Type 0 where
  pub jobs : List (ℕ × JobRow)
  pub leases : List Lease
  pub events : List JobEvent
  pub job_artifacts : List (ℕ × List Artifact)
  pub print_receipts : List ℕ
  pub result_receipts : List ResultReceipt

unfoldable pub stage_of : JobState → Text
stage_of received = codes "VALIDATING"
stage_of validating = codes "VALIDATING"
stage_of preflight = codes "VALIDATING"
stage_of queued = codes "QUEUED_FOR_RIP"
stage_of held = codes "QUEUED_FOR_RIP"
stage_of ripping = codes "RIPPING"
stage_of color_processing = codes "COLOR_MANAGING"
stage_of halftoning = codes "HALFTONING"
stage_of spooling = codes "EXPORTING"
stage_of printing = codes "PRINTING"
stage_of completed = codes "COMPLETED"
stage_of cancelled = codes "CANCELED"
stage_of failed = codes "FAILED"

unfoldable pub default_reason : JobState → Text
default_reason held = codes "HELD_BY_USER"
default_reason cancelled = codes "CANCELED_BY_USER"
default_reason completed = codes "TIFF_EXPORT_COMPLETED"
default_reason failed = codes "UNSPECIFIED_FAILURE"
default_reason _ = codes "NONE"

-- `error_code.as_deref().unwrap_or(…)`
unfoldable pub reason_of : Option Text → JobState → Text
unfolding default_reason
reason_of (some code) state = code
reason_of none state = default_reason state

unfoldable pub is_retryable : Text → Bool
is_retryable reason =
    bytes_eq reason (codes "LEASE_EXPIRED")
    || bytes_eq reason (codes "WORKER_EXIT")
    || bytes_eq reason (codes "TIMEOUT")

abbrev if_completed {ℓ} : {A : Type ℓ} → JobState → A → Option A
if_completed completed a = some a
if_completed _ a = none

-- `store_job_event`
unfoldable pub job_event : Job → JobEvent
unfolding stage_of reason_of is_retryable
job_event job = record {
  job_id = job.id;
  state = job.state;
  created_at = job.updated_at;
  stage = stage_of job.state;
  revision = job.revision;
  reason_code = reason_of job.error_code job.state;
  retryable = is_retryable (reason_of job.error_code job.state);
  progress_percent = if_completed job.state 100;
  completion_kind = if_completed job.state (codes "tiff-export");
}

unfoldable pub receipt_status : JobState → ReceiptStatus
receipt_status completed = succeeded
receipt_status cancelled = cancelled_receipt
receipt_status _ = Storage.failed

-- `store_result_receipt`: a job that ended has a receipt if its acceptance had one; the key must be new.
unfoldable pub store_result_receipt : Job → JobTables → Result JobTables StorageError
unfolding receipt_status
store_result_receipt job t =
    if not (terminal job.state) || not (any (λ id. id == job.id) t.print_receipts)
    then ok t
    else if any (λ r. r.job_id == job.id) t.result_receipts
    then err db
    else ok (record t {
      result_receipts =
          t.result_receipts
          ++ record {
            job_id = job.id;
            status = receipt_status job.state;
            job = job;
            artifacts = find job.id t.job_artifacts;
          }
            ∷ [];
    })

-- The change of the row that was found, if it has the revision.
unfoldable pub change_row : Option JobRow → Job → ℕ → JobTables → Option JobTables
change_row none job previous t = none
change_row (some row) job previous t =
    if row.revision == previous
    then some (record t {
      jobs = replace job.id (record row { job = job; revision = job.revision }) t.jobs;
    })
    else none

-- `UPDATE jobs SET payload=?, revision=? WHERE id=? AND revision=?`; nothing is changed where no row
-- fits.
unfoldable pub update_job : Job → ℕ → JobTables → Option JobTables
unfolding change_row
update_job job previous t = change_row (find job.id t.jobs) job previous t

-- The update with its event.
unfoldable pub record_job : Job → ℕ → JobTables → Result JobTables StorageError
unfolding update_job
record_job job previous t = do
  t' ← ok_or (update_job job previous t) conflict
  ok (record t' { events = t'.events ++ job_event job ∷ [] })

-- `.map_err(|_| StorageError::Conflict)?`
abbrev pub or_conflict {ℓ} : {A : Type ℓ} → Result A ValidationError → Result A StorageError
or_conflict (ok a) = ok a
or_conflict (err e) = err conflict
