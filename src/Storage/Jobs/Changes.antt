-- ===== src/Storage/Jobs/Changes.antt =====
-- crates/rip-storage/src/lib.rs: the two changes of a job that a worker asks for.
use rip_server.Common.{ℕ, ◌<◌, ◌≡◌, ap, ◌∙◌, List, Option, Result, ok, >>=-eq-ok, arith}
use rip_server.Core.Job.{Job}
use rip_server.Core.Mapping.{Artifact}
use rip_server.Core.State.{JobState, ripping, transition}
use rip_server.Storage.{StorageError, Text}
use rip_server.Storage.Rows.{}
use rip_server.Storage.Jobs.{JobTables, store_result_receipt, record_job, or_conflict}
use rip_server.Storage.Jobs.Work.{
  claim_queued, claimed_job, transition_recorded, moved_job, insert_lease, insert_artifacts,
}
use rip_server.Storage.Jobs.Update.{
  Updated, Evolves, Updated-Evolves, record_job-Updated, insert_artifacts-jobs,
  store_result_receipt-jobs, insert_lease-jobs,
}

-- The two changes of a job that a worker asks for.
pub data Change : Type 0 where
  claims : ℕ → ℕ → Change
  moves : JobState → Option Text → Option (List Artifact) → Change

abbrev pub target : Change → JobState
target (claims run_id lease_until) = ripping
target (moves next error artifacts) = next

abbrev pub changed : Change → Job → ℕ → Job
changed (claims run_id lease_until) job now = claimed_job job run_id now
changed (moves next error artifacts) job now = moved_job job next error now

unfoldable pub change : Change → Job → ℕ → JobTables → Result (JobTables × Job) StorageError
change (claims run_id lease_until) job now t = claim_queued job run_id lease_until now t
change (moves next error artifacts) job now t = transition_recorded job next error artifacts now t

-- A change that succeeds: it was accepted for the state of the job that was passed, the row had that
-- job's revision, and it is written anew.
pub record Changed (c : Change) (job : Job) (now : ℕ) (t t' : JobTables) (result : Job)
    : Type 0 where
  pub accepted : or_conflict (transition job.state (target c)) ≡ ok tt
  pub result_is : result ≡ changed c job now
  pub updated : Updated (changed c job now) job.revision t t'

pub retable :
    {job : Job} {previous : ℕ} {t t' t'' : JobTables}
    → t''.jobs ≡ t'.jobs
    → Updated job previous t t'
    → Updated job previous t t''
retable same u = record { row = u.row; found = u.found; current = u.current; jobs = same ∙ u.jobs }

pub change-Changed :
    (c : Change) (job : Job) (now : ℕ) (t t' : JobTables) (result : Job)
    → change c job now t ≡ ok (t', result)
    → Changed c job now t t' result
unfolding change claim_queued transition_recorded
change-Changed (claims run_id lease_until) job now t t' result e =
    let (u, fine, e1) = >>=-eq-ok (or_conflict (transition job.state ripping)) _ e in
    let (t1, updated, e2) =
      >>=-eq-ok (record_job (claimed_job job run_id now) job.revision t) _ e1 in
    let (t2, leased, e3) =
      >>=-eq-ok
        (insert_lease (record { job_id = job.id; run_id = run_id; expires_at = lease_until }) t1) _
        e2 in
    let same : t' ≡ t2 = cc in
    record {
      accepted = fine;
      result_is = cc;
      updated =
          retable (ap (λ (x : JobTables). x.jobs) same ∙ insert_lease-jobs _ t1 t2 leased)
            (record_job-Updated (claimed_job job run_id now) job.revision t t1 updated);
    }
change-Changed (moves next error artifacts) job now t t' result e =
    let (u, fine, e1) = >>=-eq-ok (or_conflict (transition job.state next)) _ e in
    let moved = moved_job job next error now in
    let (t1, updated, e2) = >>=-eq-ok (record_job moved job.revision t) _ e1 in
    let (t2, stored, e3) = >>=-eq-ok (insert_artifacts job.id artifacts t1) _ e2 in
    let (t3, receipted, e4) = >>=-eq-ok (store_result_receipt moved t2) _ e3 in
    let same : t' ≡ t3 = cc in
    record {
      accepted = fine;
      result_is = cc;
      updated =
          retable
            (ap (λ (x : JobTables). x.jobs) same
              ∙ store_result_receipt-jobs moved t2 t3 receipted
              ∙ insert_artifacts-jobs job.id artifacts t1 t2 stored)
            (record_job-Updated moved job.revision t t1 updated);
    }

pub change-Evolves :
    (c : Change) (job : Job) (now : ℕ) (t t' : JobTables) (result : Job)
    → change c job now t ≡ ok (t', result)
    → Evolves t.jobs t'.jobs
change-Evolves c job now t t' result e =
    Updated-Evolves (change-Changed c job now t t' result e).updated (higher c)
  where
    higher : (c : Change) → job.revision < (changed c job now).revision
    higher (claims run_id lease_until) = omega arith
    higher (moves next error artifacts) = omega arith
