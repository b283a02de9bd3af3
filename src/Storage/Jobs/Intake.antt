-- ===== src/Storage/Jobs/Intake.antt =====
-- crates/rip-storage/src/lib.rs: `insert_with_preflight`, how a job enters the tables.
use rip_server.Common.{
  ℕ, not, ◌&&◌, ◌||◌, List, [], ◌∷◌, ◌++◌, Option, none, some, ltb, ◌==◌, any, if◌then◌else◌,
  Result, ok, err, ◌>>=◌, ◌>>◌, reject_if,
}
use rip_server.Core.Job.{Job}
use rip_server.Storage.{StorageError, conflict, db}
use rip_server.Storage.Rows.{find}
use rip_server.Storage.Jobs.{JobTables, JobRow, job_event}

pub record Preflight : Type 0 where
  pub id : ℕ
  pub expires_at : ℕ

-- A row of `print_commits`: a preflight and the one job that it became.
pub record Commit : Type 0 where
  pub preflight_id : ℕ
  pub job_id : ℕ

-- `INSERT OR IGNORE INTO print_commits`, where both columns are keys; a row that is not inserted is a
-- conflict.
unfoldable pub commit_preflight :
    Option ℕ → ℕ → ℕ → List Preflight → List Commit → Result (List Commit) StorageError
commit_preflight none job_id now preflights commits = ok commits
commit_preflight (some id) job_id now preflights commits = do
  reject_if (not (any (λ p. p.id == id && ltb now p.expires_at) preflights)) conflict
  reject_if (any (λ c. c.preflight_id == id || c.job_id == job_id) commits) conflict
  ok (commits ++ record { preflight_id = id; job_id = job_id } ∷ [])

abbrev pub new_row : Job → JobRow
new_row job = record {
  job = job;
  priority = job.manifest.priority;
  created_at = job.created_at;
  revision = job.revision;
}

-- `INSERT INTO jobs`, by the row that is there already, with the event.
unfoldable pub insert_new : Option JobRow → Job → JobTables → Result JobTables StorageError
insert_new (some row) job t = err db
insert_new none job t = ok (record t {
  jobs = t.jobs ++ (job.id, new_row job) ∷ [];
  events = t.events ++ job_event job ∷ [];
})

unfoldable pub insert_job : Job → JobTables → Result JobTables StorageError
unfolding insert_new
insert_job job t = insert_new (find job.id t.jobs) job t

-- The receipt of a job that was accepted with a preflight.
unfoldable pub insert_receipt : Option ℕ → ℕ → JobTables → Result JobTables StorageError
insert_receipt none job_id t = ok t
insert_receipt (some id) job_id t =
    if any (λ j. j == job_id) t.print_receipts
    then err db
    else ok (record t { print_receipts = t.print_receipts ++ job_id ∷ [] })

-- `insert_with_preflight`, which is `insert_with_pipeline` without a ticket and a pipeline.
unfoldable pub insert_with_preflight :
    Job
    → Option ℕ
    → ℕ
    → List Preflight
    → List Commit × JobTables
    → Result (List Commit × JobTables) StorageError
unfolding commit_preflight insert_job insert_receipt
insert_with_preflight job preflight now preflights (commits, t) = do
  commits' ← commit_preflight preflight job.id now preflights commits
  t' ← insert_job job t
  t'' ← insert_receipt preflight job.id t'
  ok (commits', t'')
