-- ===== src/Storage/Jobs/Work.antt =====
-- crates/rip-storage/src/lib.rs: the work on a job, from its claim to its end. A worker passes the job as
-- it read it, so that the job in an argument may be older than the row.
use rip_server.Common.{
  ℕ, ◌+◌, Bool, false, not, ◌&&◌, ◌||◌, List, [], ◌∷◌, ◌++◌, Option, none, some, leb, ◌==◌, any,
  if◌then◌else◌, Result, ok, err, ◌>>=◌, ◌>>◌,
}
use rip_server.Common.Bytes.{codes}
use rip_server.Core.Job.{Job}
use rip_server.Core.Mapping.{Artifact}
use rip_server.Core.State.{JobState, ripping, failed, terminal, transition}
use rip_server.Storage.{StorageError, conflict, db, Text}
use rip_server.Storage.Rows.{find}
use rip_server.Storage.Jobs.{
  Lease, JobTables, JobRow, job_event, store_result_receipt, update_job, record_job, or_conflict,
}

-- `INSERT INTO worker_leases`, whose key is the job.
unfoldable pub insert_lease : Lease → JobTables → Result JobTables StorageError
insert_lease lease t =
    if any (λ l. l.job_id == lease.job_id) t.leases
    then err db
    else ok (record t { leases = t.leases ++ lease ∷ [] })

abbrev pub claimed_job : Job → ℕ → ℕ → Job
claimed_job job run_id now = record job {
  state = ripping;
  worker_run_id = some run_id;
  revision = job.revision + 1;
  updated_at = now;
  error_code = none;
}

-- `claim_queued`
unfoldable pub claim_queued : Job → ℕ → ℕ → ℕ → JobTables → Result (JobTables × Job) StorageError
unfolding insert_lease
claim_queued job run_id lease_until now t = do
  or_conflict (transition job.state ripping)
  let claimed = claimed_job job run_id now
  t' ← record_job claimed job.revision t
  t'' ← insert_lease (record { job_id = job.id; run_id = run_id; expires_at = lease_until }) t'
  ok (t'', claimed)

abbrev pub is_lease : ℕ → ℕ → Lease → Bool
is_lease job_id run_id l = l.job_id == job_id && l.run_id == run_id

unfoldable pub extend : ℕ → ℕ → ℕ → List Lease → List Lease
extend job_id run_id lease_until [] = []
extend job_id run_id lease_until (l ∷ ls) =
    (if is_lease job_id run_id l then record l { expires_at = lease_until } else l)
    ∷ extend job_id run_id lease_until ls

-- `renew_lease`
unfoldable pub renew_lease : ℕ → ℕ → ℕ → JobTables → Result JobTables StorageError
renew_lease job_id run_id lease_until t =
    if any (is_lease job_id run_id) t.leases
    then ok (record t { leases = extend job_id run_id lease_until t.leases })
    else err conflict

unfoldable pub delete_leases : (Lease → Bool) → List Lease → List Lease
delete_leases drops [] = []
delete_leases drops (l ∷ ls) =
    let rest = delete_leases drops ls in if drops l then rest else l ∷ rest

-- `clear_lease`
unfoldable pub clear_lease : ℕ → ℕ → JobTables → JobTables
unfolding delete_leases
clear_lease job_id run_id t = record t { leases = delete_leases (is_lease job_id run_id) t.leases }

-- The job as `transition_recorded` stores it.
abbrev pub moved_job : Job → JobState → Option Text → ℕ → Job
moved_job job next error now = record job {
  state = next;
  revision = job.revision + 1;
  updated_at = now;
  error_code = error;
}

-- The artifacts of a job that is completed; their key must be new.
unfoldable pub insert_artifacts :
    ℕ → Option (List Artifact) → JobTables → Result JobTables StorageError
insert_artifacts id none t = ok t
insert_artifacts id (some artifacts) t = elim (find id t.job_artifacts) [
  | none ↦ ok (record t { job_artifacts = t.job_artifacts ++ (id, artifacts) ∷ [] })
  | some old ↦ err db
]

-- `transition_recorded`
unfoldable pub transition_recorded :
    Job
    → JobState
    → Option Text
    → Option (List Artifact)
    → ℕ
    → JobTables
    → Result (JobTables × Job) StorageError
unfolding insert_artifacts
transition_recorded job next error artifacts now t = do
  or_conflict (transition job.state next)
  let moved = moved_job job next error now
  t1 ← record_job moved job.revision t
  t2 ← insert_artifacts job.id artifacts t1
  t3 ← store_result_receipt moved t2
  ok (t3, moved)

-- One row of the join of the leases that ran out with their jobs.
abbrev pub lost : Job → ℕ → Job
lost job now = moved_job job failed (some (codes "LEASE_EXPIRED")) now

abbrev pub runs : Job → ℕ → Bool
runs job run_id = is_run job.worker_run_id
  where
    is_run : Option ℕ → Bool
    is_run none = false
    is_run (some r) = r == run_id

-- A job that was written anew has its event and its receipt; the ids of the jobs that failed.
unfoldable pub fail_updated :
    Option JobTables → Job → ℕ → JobTables → Result (JobTables × List ℕ) StorageError
fail_updated none job now t = ok (t, [])
fail_updated (some t') job now t = do
  t'' ←
      store_result_receipt (lost job now)
        (record t' { events = t'.events ++ job_event (lost job now) ∷ [] })
  ok (t'', job.id ∷ [])

unfoldable pub lapse : Job → ℕ → JobTables → Result (JobTables × List ℕ) StorageError
unfolding fail_updated
lapse job now t = do
  or_conflict (transition job.state failed)
  fail_updated (update_job (lost job now) job.revision t) job now t

-- The job of a lease that ran out fails, if the lease's run still works on it.
unfoldable pub fail_job : Job → ℕ → ℕ → JobTables → Result (JobTables × List ℕ) StorageError
unfolding lapse
fail_job job run_id now t =
    if not (runs job run_id) || terminal job.state then ok (t, []) else lapse job now t

abbrev is_expired : ℕ → Lease → Bool
is_expired cutoff l = leb l.expires_at cutoff

-- `SELECT … FROM worker_leases JOIN jobs … WHERE expires_at<=?`
unfoldable pub joined : ℕ → List Lease → List (ℕ × JobRow) → List (Job × ℕ)
joined cutoff [] jobs = []
joined cutoff (l ∷ ls) jobs =
    let rest = joined cutoff ls jobs in
    elim (find l.job_id jobs) [
      | none ↦ rest
      | some row ↦ if is_expired cutoff l then (row.job, l.run_id) ∷ rest else rest
    ]

-- One round of `recover_expired_leases`.
unfoldable pub recover_lease :
    Job → ℕ → ℕ → ℕ → JobTables → Result (JobTables × List ℕ) StorageError
unfolding fail_job delete_leases
recover_lease job run_id cutoff now t = do
  (t', recovered) ← fail_job job run_id now t
  ok (
    record t' {
      leases = delete_leases (λ l. is_lease job.id run_id l && is_expired cutoff l) t'.leases;
    },
    recovered,
  )

unfoldable pub recover_leases :
    List (Job × ℕ) → ℕ → ℕ → JobTables → List ℕ → Result (JobTables × List ℕ) StorageError
unfolding recover_lease
recover_leases [] cutoff now t recovered = ok (t, recovered)
recover_leases ((job, run_id) ∷ rows) cutoff now t recovered = do
  (t', failed_now) ← recover_lease job run_id cutoff now t
  recover_leases rows cutoff now t' (recovered ++ failed_now)

-- `recover_expired_leases`, one transaction.
unfoldable pub recover_expired_leases : ℕ → ℕ → JobTables → Result (JobTables × List ℕ) StorageError
unfolding joined recover_leases
recover_expired_leases cutoff now t = recover_leases (joined cutoff t.leases t.jobs) cutoff now t []
