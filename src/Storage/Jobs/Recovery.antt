-- ===== src/Storage/Jobs/Recovery.antt =====
-- crates/rip-storage/src/lib.rs: how far the recovery of leases and the intake take each row of the jobs.
use rip_server.Common.{
  ℕ, ◌≡◌, refl, sym, ap, subst, ◌∙◌, inl, inr, not, ◌||◌, List, [], ◌∷◌, ◌++◌, Option, none, some,
  ◌==◌, Bool-cases, ==_iff, ok, >>=-eq-ok, arith,
}
use rip_server.Core.Job.{Job}
use rip_server.Core.Mapping.{}
use rip_server.Core.State.{failed, transition, terminal}
use rip_server.Storage.{}
use rip_server.Storage.Rows.{find, find-append}
use rip_server.Storage.Jobs.{
  JobTables, JobRow, job_event, store_result_receipt, update_job, or_conflict,
}
use rip_server.Storage.Jobs.Work.{
  recover_leases, recover_lease, fail_job, fail_updated, lapse, lost, runs,
}
use rip_server.Storage.Jobs.Intake.{
  Preflight, Commit, commit_preflight, insert_new, insert_job, insert_receipt,
  insert_with_preflight, new_row,
}
use rip_server.Storage.Jobs.Update.{
  Evolves, Evolves-trans, Evolves-eq, update_job-Updated, Updated-Evolves,
  store_result_receipt-jobs,
}
use rip_server.Storage.Jobs.Changes.{retable}

fail_updated-Evolves :
    (o : Option JobTables) (job : Job) (now : ℕ) (t t' : JobTables) (ids : List ℕ)
    → update_job (lost job now) job.revision t ≡ o
    → fail_updated o job now t ≡ ok (t', ids)
    → Evolves t.jobs t'.jobs
unfolding fail_updated
fail_updated-Evolves none job now t t' ids f e =
    let same : t ≡ t' = cc in Evolves-eq (ap (λ (x : JobTables). x.jobs) same)
fail_updated-Evolves (some t1) job now t t' ids f e =
    let next : JobTables = record t1 { events = t1.events ++ job_event (lost job now) ∷ [] } in
    let (t2, receipted, e1) = >>=-eq-ok (store_result_receipt (lost job now) next) _ e in
    let same : t' ≡ t2 = cc in
    let kept =
      ap (λ (x : JobTables). x.jobs) same
      ∙ store_result_receipt-jobs (lost job now) next t2 receipted in
    Updated-Evolves
      (retable {t'' = t'} kept (update_job-Updated (lost job now) job.revision t t1 f))
      (omega arith)

lapse-Evolves :
    (job : Job) (now : ℕ) (t t' : JobTables) (ids : List ℕ)
    → lapse job now t ≡ ok (t', ids)
    → Evolves t.jobs t'.jobs
unfolding lapse
lapse-Evolves job now t t' ids e =
    let (u, fine, e1) = >>=-eq-ok (or_conflict (transition job.state failed)) _ e in
    fail_updated-Evolves (update_job (lost job now) job.revision t) job now t t' ids refl e1

fail_job-Evolves :
    (job : Job) (run_id now : ℕ) (t t' : JobTables) (ids : List ℕ)
    → fail_job job run_id now t ≡ ok (t', ids)
    → Evolves t.jobs t'.jobs
unfolding fail_job
fail_job-Evolves job run_id now t t' ids e =
    elim (Bool-cases (not (runs job run_id) || terminal job.state)) [
      | inl skip ↦
          let same : t ≡ t' = ground (arith, skip, e) in
          Evolves-eq (ap (λ (x : JobTables). x.jobs) same)
      | inr over ↦ lapse-Evolves job now t t' ids (ground (arith, over, e))
    ]

recover_lease-Evolves :
    (job : Job) (run_id cutoff now : ℕ) (t t' : JobTables) (ids : List ℕ)
    → recover_lease job run_id cutoff now t ≡ ok (t', ids)
    → Evolves t.jobs t'.jobs
unfolding recover_lease
recover_lease-Evolves job run_id cutoff now t t' ids e =
    let ((t1, ids1), done, e1) = >>=-eq-ok (fail_job job run_id now t) _ e in
    let same : t1.jobs ≡ t'.jobs = ground (arith, e1) in
    Evolves-trans t.jobs t1.jobs t'.jobs (fail_job-Evolves job run_id now t t1 ids1 done)
      (Evolves-eq same)

pub recover_leases-Evolves :
    (rows : List (Job × ℕ)) (cutoff now : ℕ) (t t' : JobTables) (before ids : List ℕ)
    → recover_leases rows cutoff now t before ≡ ok (t', ids)
    → Evolves t.jobs t'.jobs
unfolding recover_leases
recover_leases-Evolves [] cutoff now t t' before ids e =
    let same : t ≡ t' = cc in Evolves-eq (ap (λ (x : JobTables). x.jobs) same)
recover_leases-Evolves ((job, run_id) ∷ rows) cutoff now t t' before ids e =
    let ((t1, ids1), done, e1) = >>=-eq-ok (recover_lease job run_id cutoff now t) _ e in
    Evolves-trans t.jobs t1.jobs t'.jobs
      (recover_lease-Evolves job run_id cutoff now t t1 ids1 done)
      (recover_leases-Evolves rows cutoff now t1 t' (before ++ ids1) ids e1)

Inserted-Evolves :
    (id : ℕ) (new : JobRow) (js : List (ℕ × JobRow))
    → find id js ≡ none
    → new.revision ≡ new.job.revision
    → new.job.id ≡ id
    → Evolves js (js ++ (id, new) ∷ [])
Inserted-Evolves id new js missing same own = record {
  later = λ j old f.
      let there = find-append id j new js missing in
      elim (Bool-cases (id == j)) [
        | inl here ↦ absurd (ground (arith, f, missing, ap (λ i. find i js) ((==_iff id j).0 here)))
        | inr other ↦ (old, there ∙ ground (arith, other, f), inl refl)
      ];
  stored = λ h j row f.
      let at = sym (find-append id j new js missing) ∙ f in
      elim (Bool-cases (id == j)) [
        | inl here ↦
            let equal : new ≡ row = ground (arith, here, at) in
            subst (λ (x : JobRow). (x.revision ≡ x.job.revision) × (x.job.id ≡ j)) equal
              (same, own ∙ (==_iff id j).0 here)
        | inr other ↦ h j row (ground (arith, other, at))
      ];
}

insert_new-Evolves :
    (o : Option JobRow) (job : Job) (t t' : JobTables)
    → find job.id t.jobs ≡ o
    → insert_new o job t ≡ ok t'
    → Evolves t.jobs t'.jobs
unfolding insert_new
insert_new-Evolves none job t t' f e =
    let next : JobTables = record t {
      jobs = t.jobs ++ (job.id, new_row job) ∷ [];
      events = t.events ++ job_event job ∷ [];
    } in
    let same : next ≡ t' = cc in
    Evolves-trans t.jobs next.jobs t'.jobs
      (Inserted-Evolves job.id (new_row job) t.jobs f refl refl)
      (Evolves-eq (ap (λ (x : JobTables). x.jobs) same))
insert_new-Evolves (some row) job t t' f e = ground arith

insert_receipt-jobs :
    (preflight : Option ℕ) (id : ℕ) (t t' : JobTables)
    → insert_receipt preflight id t ≡ ok t'
    → t.jobs ≡ t'.jobs
unfolding insert_receipt
insert_receipt-jobs none id t t' e = ground arith
insert_receipt-jobs (some p) id t t' e = ground arith

pub insert_with_preflight-Evolves :
    (job : Job) (preflight : Option ℕ) (now : ℕ) (preflights : List Preflight)
    (commits commits' : List Commit) (t t' : JobTables)
    → insert_with_preflight job preflight now preflights (commits, t) ≡ ok (commits', t')
    → Evolves t.jobs t'.jobs
unfolding insert_with_preflight insert_job
insert_with_preflight-Evolves job preflight now preflights commits commits' t t' e =
    let (c, committed, e1) =
      >>=-eq-ok (commit_preflight preflight job.id now preflights commits) _ e in
    let (t1, inserted, e2) = >>=-eq-ok (insert_job job t) _ e1 in
    let (t2, receipted, e3) = >>=-eq-ok (insert_receipt preflight job.id t1) _ e2 in
    let same : t2 ≡ t' = ground (arith, e3) in
    Evolves-trans t.jobs t1.jobs t'.jobs
      (insert_new-Evolves (find job.id t.jobs) job t t1 refl inserted)
      (Evolves-eq (
        insert_receipt-jobs preflight job.id t1 t2 receipted ∙ ap (λ (x : JobTables). x.jobs) same))
