-- ===== src/Storage/Jobs/Runs.antt =====
-- crates/rip-storage/src/lib.rs: sequences of operations on the jobs. Between the reading of a job and the
-- change of it, other connections may run any operations but the deletion of that very job, whose id
-- is never used again.
use rip_server.Common.{ℕ, ◌≡◌, refl, List, [], ◌∷◌, Option, Result, ok, err, arith}
use rip_server.Core.Job.{Job}
use rip_server.Core.Mapping.{}
use rip_server.Core.State.{}
use rip_server.Storage.{StorageError}
use rip_server.Storage.Rows.{find}
use rip_server.Storage.Jobs.{JobTables}
use rip_server.Storage.Jobs.Work.{
  renew_lease, clear_lease, recover_expired_leases, recover_leases, joined,
}
use rip_server.Storage.Jobs.Intake.{Preflight, Commit, insert_with_preflight}
use rip_server.Storage.Jobs.Update.{Evolves, Evolves-refl, Evolves-trans, Evolves-eq, IsStored}
use rip_server.Storage.Jobs.Changes.{Change, change, change-Evolves}
use rip_server.Storage.Jobs.Recovery.{recover_leases-Evolves, insert_with_preflight-Evolves}

pub data Action : Type 0 where
  changes : Change → Job → ℕ → Action
  renews : ℕ → ℕ → ℕ → Action
  clears : ℕ → ℕ → Action
  recovers : ℕ → ℕ → Action
  inserts : Job → Option ℕ → ℕ → List Preflight → List Commit → Action

-- The tables that a call leaves: those that it returns, or after an error those from before.
abbrev pub after {ℓ} :
    {A : Type ℓ} → (A → JobTables) → JobTables → Result A StorageError → JobTables
after tables t (ok a) = tables a
after tables t (err e) = t

unfoldable pub perform : Action → JobTables → JobTables
perform (changes c job now) t = after (λ (x : JobTables × Job). x.0) t (change c job now t)
perform (renews job_id run_id lease_until) t =
    after (λ (x : JobTables). x) t (renew_lease job_id run_id lease_until t)
perform (clears job_id run_id) t = clear_lease job_id run_id t
perform (recovers cutoff now) t =
    after (λ (x : JobTables × List ℕ). x.0) t (recover_expired_leases cutoff now t)
perform (inserts job preflight now preflights commits) t =
    after (λ (x : List Commit × JobTables). x.1) t
      (insert_with_preflight job preflight now preflights (commits, t))

unfoldable pub run : List Action → JobTables → JobTables
run [] t = t
run (a ∷ actions) t = run actions (perform a t)

abbrev pub no_jobs : JobTables
no_jobs = record {
  jobs = [];
  leases = [];
  events = [];
  job_artifacts = [];
  print_receipts = [];
  result_receipts = [];
}

after-Evolves {ℓ} :
    {A : Type ℓ} (tables : A → JobTables) (t : JobTables) (m : Result A StorageError)
    → ((a : A) → m ≡ ok a → Evolves t.jobs (tables a).jobs)
    → Evolves t.jobs (after tables t m).jobs
after-Evolves tables t (ok a) h = h a refl
after-Evolves tables t (err e) h = Evolves-refl t.jobs

renew_lease-jobs :
    (job_id run_id lease_until : ℕ) (t t' : JobTables)
    → renew_lease job_id run_id lease_until t ≡ ok t'
    → t.jobs ≡ t'.jobs
unfolding renew_lease
renew_lease-jobs job_id run_id lease_until t t' e = ground arith

perform-Evolves : (a : Action) (t : JobTables) → Evolves t.jobs (perform a t).jobs
unfolding perform clear_lease recover_expired_leases
perform-Evolves (changes c job now) t =
    after-Evolves (λ (x : JobTables × Job). x.0) t (change c job now t)
      (λ (t', result) e. change-Evolves c job now t t' result e)
perform-Evolves (renews job_id run_id lease_until) t =
    after-Evolves (λ (x : JobTables). x) t (renew_lease job_id run_id lease_until t)
      (λ t' e. Evolves-eq (renew_lease-jobs job_id run_id lease_until t t' e))
perform-Evolves (clears job_id run_id) t = Evolves-refl t.jobs
perform-Evolves (recovers cutoff now) t =
    after-Evolves (λ (x : JobTables × List ℕ). x.0) t
      (recover_leases (joined cutoff t.leases t.jobs) cutoff now t [])
      (λ (t', ids) e.
        recover_leases-Evolves (joined cutoff t.leases t.jobs) cutoff now t t' [] ids e)
perform-Evolves (inserts job preflight now preflights commits) t =
    after-Evolves (λ (x : List Commit × JobTables). x.1) t
      (insert_with_preflight job preflight now preflights (commits, t))
      (λ (commits', t') e.
        insert_with_preflight-Evolves job preflight now preflights commits commits' t t' e)

pub run-Evolves : (actions : List Action) (t : JobTables) → Evolves t.jobs (run actions t).jobs
unfolding run
run-Evolves [] t = Evolves-refl t.jobs
run-Evolves (a ∷ actions) t =
    Evolves-trans t.jobs (perform a t).jobs (run actions (perform a t)).jobs (perform-Evolves a t)
      (run-Evolves actions (perform a t))

no_jobs-IsStored : IsStored no_jobs.jobs
unfolding find
no_jobs-IsStored j row f = ground arith

pub run-IsStored : (actions : List Action) → IsStored (run actions no_jobs).jobs
run-IsStored actions = (run-Evolves actions no_jobs).stored no_jobs-IsStored
