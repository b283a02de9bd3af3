-- ===== src/Tests/Jobs.antt =====
-- crates/rip-storage/src/lib.rs at concrete inputs.
use mathlib.Core.List.{Memᴰ}
use rip_server.Common.{ℕ, ◌≤◌, ◌≡◌, refl, List, [], ◌∷◌, none, some, Result, ok, err, arith, true}
use rip_server.Common.Bytes.{codes}
use rip_server.Core.Document.{EnginePreference, pdf, cmyk}
use rip_server.Core.Job.{Job}
use rip_server.Core.Pages.Render
use rip_server.Core.State.{queued, ripping, transition, terminal}
use rip_server.Storage.{StorageError, conflict}
use rip_server.Storage.Rows.{find, replace}
use rip_server.Storage.Jobs.{
  JobTables, JobRow, Lease, store_result_receipt, update_job, change_row, record_job,
}
use rip_server.Storage.Jobs.Work.{
  claim_queued, claimed_job, insert_lease, recover_expired_leases, joined, recover_leases,
  recover_lease, fail_job, lapse, fail_updated, delete_leases, renew_lease, extend,
}
use rip_server.Storage.Jobs.Intake.{
  insert_with_preflight, commit_preflight, insert_job, insert_new, insert_receipt, new_row,
}
use rip_server.Storage.Jobs.Choice.{next_queued_at, is_queued}
use rip_server.Storage.Jobs.Changes.{claims, change}
use rip_server.Storage.Jobs.Runs.{Action, inserts, changes, renews, perform, run, no_jobs}
use rip_server.Storage.Jobs.Current.{change_current, claimed_once}
use rip_server.Storage.Jobs.Aging.{aged_first}

abbrev poster : Job
poster = record {
  id = 5;
  manifest = record {
    page_ranges = Render.default;
    name = codes "poster.pdf";
    format = pdf;
    dpi = 600;
    color_mode = cmyk;
    priority = 50;
    engine = EnginePreference.auto;
  };
  state = queued;
  source_sha256 = [];
  created_at = 1000;
  updated_at = 1000;
  revision = 2;
  error_code = none;
  selected_engine = none;
  worker_run_id = none;
}

abbrev intake : List Action
intake = inserts poster none 1000 [] [] ∷ []

abbrev waiting : JobTables
waiting = run intake no_jobs

poster_waits : find 5 waiting.jobs ≡ some (new_row poster)
unfolding run perform insert_with_preflight commit_preflight insert_job insert_new insert_receipt
    find
poster_waits = refl

abbrev taken : JobTables
taken = perform (changes (claims 77 1100) poster 1040) waiting

poster_claimed :
    change (claims 77 1100) poster 1040 waiting ≡ ok (taken, claimed_job poster 77 1040)
unfolding run perform insert_with_preflight commit_preflight insert_job insert_new insert_receipt
    find replace change claim_queued transition record_job update_job change_row insert_lease
poster_claimed = refl

-- What a recovery leaves of the leases, and the jobs that it failed.
abbrev outcome : Result (JobTables × List ℕ) StorageError → List Lease × List ℕ
outcome (ok (t, ids)) = (t.leases, ids)
outcome (err e) = ([], [])

-- The lease runs out: the job fails, and the lease is gone.
lease_lost : outcome (recover_expired_leases 1100 1101 taken) ≡ ([], 5 ∷ [])
unfolding run perform insert_with_preflight commit_preflight insert_job insert_new insert_receipt
    find replace change claim_queued transition record_job update_job change_row insert_lease
    recover_expired_leases joined recover_leases recover_lease fail_job lapse fail_updated terminal
    delete_leases store_result_receipt
lease_lost = refl

-- A renewed lease outlives the recovery.
lease_kept :
    outcome (recover_expired_leases 1100 1101 (perform (renews 5 77 1200) taken))
    ≡ (record { job_id = 5; run_id = 77; expires_at = 1200 } ∷ [], [])
unfolding run perform insert_with_preflight commit_preflight insert_job insert_new insert_receipt
    find replace change claim_queued transition record_job update_job change_row insert_lease
    recover_expired_leases joined recover_leases renew_lease extend
lease_kept = refl

change_current_example :
    (find 5 waiting.jobs ≡ some (new_row poster))
    × (transition queued ripping ≡ ok tt)
    × (find 5 taken.jobs
        ≡ some (record (new_row poster) { job = claimed_job poster 77 1040; revision = 3 }))
    × ((claimed_job poster 77 1040).state ≡ ripping)
change_current_example =
    unfold run in
    change_current intake [] 5 (new_row poster) (claims 77 1100) 1040 taken
      (claimed_job poster 77 1040) poster_waits poster_claimed

claimed_once_example : change (claims 78 1105) poster 1041 (run [] taken) ≡ err conflict
claimed_once_example =
    claimed_once (claims 77 1100) (claims 78 1105) poster 1040 1041 waiting taken
      (claimed_job poster 77 1040) [] poster_claimed

-- A job of priority 10 that has waited for 90 minutes, and one of priority 100 that has just come.
abbrev rows : List (ℕ × JobRow)
rows =
    (6, record (new_row poster) { priority = 100; created_at = 6400 })
    ∷ (5, record (new_row poster) { priority = 10 })
    ∷ []

aged_first_example :
    (next : ℕ × JobRow) × (next_queued_at 6400 rows ≡ some next.1.job)
    × Memᴰ next rows
    × (is_queued next.1.job.state ≡ true)
    × (next.1.created_at ≤ 1000)
aged_first_example =
    aged_first 6400 rows 5 (record (new_row poster) { priority = 10 }) (Memᴰ.tail (Memᴰ.head refl))
      refl (omega arith)
