-- ===== src/Storage/Jobs/Update.antt =====
-- crates/rip-storage/src/lib.rs: what a successful write of a job has found and done, and how far it takes
-- each row of the jobs.
use rip_server.Common.{
  ℕ, ◌<◌, ◌≡◌, refl, sym, ap, subst, ◌∙◌, inl, inr, List, [], ◌∷◌, ◌++◌, Option, none, some, ◌==◌,
  if◌then◌else◌, Bool-cases, Option-cases, ==_iff, ok, >>=-eq-ok, ok_or, arith,
}
use rip_server.Core.Job.{Job}
use rip_server.Core.Mapping.{Artifact}
use rip_server.Core.State.{}
use rip_server.Storage.{conflict}
use rip_server.Storage.Rows.{find, replace, find-replace, Later, Later-trans}
use rip_server.Storage.Jobs.{
  Lease, JobTables, JobRow, job_event, store_result_receipt, update_job, change_row, record_job,
}
use rip_server.Storage.Jobs.Work.{insert_lease, insert_artifacts}

abbrev pub revision_of : JobRow → ℕ
revision_of row = row.revision

-- A row repeats the revision of its job and stands under the job's id.
abbrev pub IsStored : List (ℕ × JobRow) → Type 0
IsStored js =
    (j : ℕ) (row : JobRow)
    → find j js ≡ some row
    → (row.revision ≡ row.job.revision) × (row.job.id ≡ j)

pub record Evolves (js js' : List (ℕ × JobRow)) : Type 0 where
  pub later : (j : ℕ) (old : JobRow) → find j js ≡ some old → Later revision_of old (find j js')
  pub stored : IsStored js → IsStored js'

pub Evolves-refl : (js : List (ℕ × JobRow)) → Evolves js js
Evolves-refl js = record { later = λ j old f. (old, f, inl refl); stored = λ h. h }

pub Evolves-trans : (js ks ls : List (ℕ × JobRow)) → Evolves js ks → Evolves ks ls → Evolves js ls
Evolves-trans js ks ls first next = record {
  later = λ j old f.
      let (mid, there, step) = first.later j old f in
      Later-trans revision_of old mid (find j ls) step (next.later j mid there);
  stored = λ h. next.stored (first.stored h);
}

pub Evolves-eq : {js ks : List (ℕ × JobRow)} → js ≡ ks → Evolves js ks
Evolves-eq {js} e = subst (λ ks. Evolves js ks) e (Evolves-refl js)

-- What a successful `UPDATE jobs` has found and done.
pub record Updated (job : Job) (previous : ℕ) (t t' : JobTables) : Type 0 where
  pub row : JobRow
  pub found : find job.id t.jobs ≡ some row
  pub current : row.revision ≡ previous
  pub jobs : t'.jobs ≡ replace job.id (record row { job = job; revision = job.revision }) t.jobs

change_row-Updated :
    (o : Option JobRow) (job : Job) (previous : ℕ) (t t' : JobTables)
    → find job.id t.jobs ≡ o
    → change_row o job previous t ≡ some t'
    → Updated job previous t t'
unfolding change_row
change_row-Updated none job previous t t' f e = ground arith
change_row-Updated (some row) job previous t t' f e = record {
  row = row;
  found = f;
  current = ground (arith, e);
  jobs = ground (arith, e);
}

pub update_job-Updated :
    (job : Job) (previous : ℕ) (t t' : JobTables)
    → update_job job previous t ≡ some t'
    → Updated job previous t t'
unfolding update_job
update_job-Updated job previous t t' e =
    change_row-Updated (find job.id t.jobs) job previous t t' refl e

pub Updated-find :
    {job : Job} {previous : ℕ} {t t' : JobTables} (u : Updated job previous t t') (j : ℕ)
    → find j t'.jobs ≡ (
        if job.id == j
        then some (record u.row { job = job; revision = job.revision })
        else find j t.jobs)
Updated-find {job} {previous} {t} {t'} u j =
    ap (find j) u.jobs
    ∙ find-replace job.id j (record u.row { job = job; revision = job.revision }) t.jobs u.found

pub Updated-found :
    {job : Job} {previous : ℕ} {t t' : JobTables} (u : Updated job previous t t')
    → find job.id t'.jobs ≡ some (record u.row { job = job; revision = job.revision })
Updated-found {job} u = Updated-find u job.id ∙ ground (arith, (==_iff job.id job.id).1 refl)

Updated-Later :
    {job : Job} {previous : ℕ} {t t' : JobTables} (u : Updated job previous t t')
    → previous < job.revision
    → (j : ℕ) (old : JobRow) → find j t.jobs ≡ some old
    → Later revision_of old (find j t'.jobs)
Updated-Later {job} {previous} {t} {t'} u higher j old f = elim (Bool-cases (job.id == j)) [
  | inl own ↦
      let here = (==_iff job.id j).0 own in
      let same : some old ≡ some u.row = sym f ∙ ap (λ i. find i t.jobs) (sym here) ∙ u.found in
      let there : find j t'.jobs ≡ some (record u.row { job = job; revision = job.revision }) =
        Updated-find u j ∙ ground (arith, own) in
      (
        record u.row { job = job; revision = job.revision },
        there,
        inr (ground (arith, u.current, higher, same)),
      )
  | inr other ↦
      let there : find j t'.jobs ≡ find j t.jobs = Updated-find u j ∙ ground (arith, other) in
      (old, there ∙ f, inl refl)
]

Updated-IsStored :
    {job : Job} {previous : ℕ} {t t' : JobTables} (u : Updated job previous t t')
    → IsStored t.jobs
    → IsStored t'.jobs
Updated-IsStored {job} {previous} {t} {t'} u h j row f =
    let at = sym (Updated-find u j) ∙ f in
    elim (Bool-cases (job.id == j)) [
      | inl own ↦
          let here = (==_iff job.id j).0 own in
          let new : (record u.row { job = job; revision = job.revision }) ≡ row =
            ground (arith, own, at) in
          subst (λ (x : JobRow). (x.revision ≡ x.job.revision) × (x.job.id ≡ j)) new (refl, here)
      | inr other ↦ h j row (ground (arith, other, at))
    ]

pub Updated-Evolves :
    {job : Job} {previous : ℕ} {t t' : JobTables} (u : Updated job previous t t')
    → previous < job.revision
    → Evolves t.jobs t'.jobs
Updated-Evolves u higher = record { later = Updated-Later u higher; stored = Updated-IsStored u }

pub record_job-Updated :
    (job : Job) (previous : ℕ) (t t' : JobTables)
    → record_job job previous t ≡ ok t'
    → Updated job previous t t'
unfolding record_job
record_job-Updated job previous t t' e =
    let (t1, done, e1) = >>=-eq-ok (ok_or (update_job job previous t) conflict) _ e in
    let u = update_job-Updated job previous t t1 (ground (arith, done)) in
    let next : JobTables = record t1 { events = t1.events ++ job_event job ∷ [] } in
    let whole : next ≡ t' = cc in
    let same : t1.jobs ≡ t'.jobs = ap (λ (x : JobTables). x.jobs) whole in
    record { row = u.row; found = u.found; current = u.current; jobs = sym same ∙ u.jobs }

pub insert_artifacts-jobs :
    (id : ℕ) (o : Option (List Artifact)) (t t' : JobTables)
    → insert_artifacts id o t ≡ ok t'
    → t'.jobs ≡ t.jobs
unfolding insert_artifacts
insert_artifacts-jobs id none t t' e = ground arith
insert_artifacts-jobs id (some a) t t' e = elim (Option-cases (find id t.job_artifacts)) [
  | inl new ↦ ground (arith, new)
  | inr (old, f) ↦ ground (arith, f)
]

pub store_result_receipt-jobs :
    (job : Job) (t t' : JobTables) → store_result_receipt job t ≡ ok t' → t'.jobs ≡ t.jobs
unfolding store_result_receipt
store_result_receipt-jobs job t t' e = ground arith

pub insert_lease-jobs :
    (lease : Lease) (t t' : JobTables) → insert_lease lease t ≡ ok t' → t'.jobs ≡ t.jobs
unfolding insert_lease
insert_lease-jobs lease t t' e = ground arith
