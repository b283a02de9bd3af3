-- ===== src/Storage/Jobs/Current.antt =====
-- crates/rip-storage/src/lib.rs: no operation on a job overwrites a change that it has not seen.
use rip_server.Common.{
  ℕ, suc, ◌<◌, ◌≡◌, refl, sym, ap, ◌∙◌, inl, inr, Result-cases, List, some, Result, ok, err, arith,
}
use rip_server.Core.Job.{Job}
use rip_server.Core.State.{ripping, transition}
use rip_server.Core.Error.{ValidationError}
use rip_server.Storage.{conflict}
use rip_server.Storage.Rows.{find, Later}
use rip_server.Storage.Jobs.{JobTables, JobRow, or_conflict, update_job, change_row, record_job}
use rip_server.Storage.Jobs.Work.{claim_queued, transition_recorded}
use rip_server.Storage.Jobs.Update.{Updated-found, revision_of}
use rip_server.Storage.Jobs.Changes.{
  Change, claims, moves, change, Changed, change-Changed, target, changed,
}
use rip_server.Storage.Jobs.Runs.{Action, run, no_jobs, run-Evolves, run-IsStored}

changed-id : (c : Change) (job : Job) (now : ℕ) → (changed c job now).id ≡ job.id
changed-id (claims run_id lease_until) job now = refl
changed-id (moves next error artifacts) job now = refl

changed-revision :
    (c : Change) (job : Job) (now : ℕ) → (changed c job now).revision ≡ suc job.revision
changed-revision (claims run_id lease_until) job now = omega arith
changed-revision (moves next error artifacts) job now = omega arith

changed-state : (c : Change) (job : Job) (now : ℕ) → (changed c job now).state ≡ target c
changed-state (claims run_id lease_until) job now = refl
changed-state (moves next error artifacts) job now = refl

or_conflict-ok : (m : Result (Unit {0}) ValidationError) → or_conflict m ≡ ok tt → m ≡ ok tt
or_conflict-ok (ok u) e = refl
or_conflict-ok (err x) e = ground arith

-- The row that a change found, where the job was read from a row of the same revision or an older one.
found_row :
    (c : Change) (id : ℕ) (row : JobRow) (now : ℕ) (t t' : JobTables) (result : Job)
    → row.revision ≡ row.job.revision
    → row.job.id ≡ id
    → Later revision_of row (find id t.jobs)
    → Changed c row.job now t t' result
    → find id t.jobs ≡ some row
found_row c id row now t t' result repeats own (new, there, step) ch =
    let at : find id t.jobs ≡ some ch.updated.row =
      ap (λ i. find i t.jobs) (sym (changed-id c row.job now ∙ own)) ∙ ch.updated.found in
    let same : new ≡ ch.updated.row = ground (arith, there, at) in
    elim step [
      | inl kept ↦ there ∙ ap some kept
      | inr newer ↦ absurd (omega (arith, newer, ap revision_of same, ch.updated.current, repeats))
    ]

rewritten :
    (r s : JobRow) (j k : Job) (m n : ℕ)
    → r ≡ s
    → j ≡ k
    → m ≡ n
    → ◌≡◌ {A = JobRow} (record r { job = j; revision = m }) (record s { job = k; revision = n })
rewritten r s j k m n p q e = cc

written_row :
    (c : Change) (id : ℕ) (row : JobRow) (now : ℕ) (t t' : JobTables) (result : Job)
    → row.revision ≡ row.job.revision
    → row.job.id ≡ id
    → find id t.jobs ≡ some row
    → Changed c row.job now t t' result
    → find id t'.jobs ≡ some (record row { job = result; revision = suc row.revision })
written_row c id row now t t' result repeats own here ch =
    let at : find id t.jobs ≡ some ch.updated.row =
      ap (λ i. find i t.jobs) (sym (changed-id c row.job now ∙ own)) ∙ ch.updated.found in
    ap (λ i. find i t'.jobs) (sym (changed-id c row.job now ∙ own))
    ∙ Updated-found ch.updated
    ∙ ap some (
        rewritten ch.updated.row row (changed c row.job now) result (changed c row.job now).revision
          (suc row.revision) (ground (arith, at, here)) (sym ch.result_is)
          (omega (arith, changed-revision c row.job now, repeats)))

-- No update of a job is lost. A worker reads a job from tables that some operations have left, others run
-- any operations, and then it asks for a change of the job and succeeds. Then the row was still the one
-- that it had read, the change is one that the life of a job accepts in the state of that row, and
-- the row now has the new state and the next revision.
pub change_current :
    (before between : List Action) (id : ℕ) (row : JobRow) (c : Change) (now : ℕ) (t' : JobTables)
    (result : Job)
    → find id (run before no_jobs).jobs ≡ some row
    → change c row.job now (run between (run before no_jobs)) ≡ ok (t', result)
    → (find id (run between (run before no_jobs)).jobs ≡ some row)
      × (transition row.job.state (target c) ≡ ok tt)
      × (find id t'.jobs ≡ some (record row { job = result; revision = suc row.revision }))
      × (result.state ≡ target c)
change_current before between id row c now t' result read e =
    let t = run between (run before no_jobs) in
    let ch = change-Changed c row.job now t t' result e in
    let (repeats, own) = run-IsStored before id row read in
    let here =
      found_row c id row now t t' result repeats own
        ((run-Evolves between (run before no_jobs)).later id row read) ch in
    (
      here,
      or_conflict-ok (transition row.job.state (target c)) ch.accepted,
      written_row c id row now t t' result repeats own here ch,
      ap (λ (x : Job). x.state) ch.result_is ∙ changed-state c row.job now,
    )

record_job-stale :
    (job : Job) (previous : ℕ) (t : JobTables) (row : JobRow)
    → find job.id t.jobs ≡ some row
    → previous < row.revision
    → record_job job previous t ≡ err conflict
unfolding record_job update_job change_row
record_job-stale job previous t row f newer = rw (record_job, update_job, f) (ground (arith, newer))

change-refused :
    (c : Change) (job : Job) (now : ℕ) (t : JobTables)
    → record_job (changed c job now) job.revision t ≡ err conflict
    → change c job now t ≡ err conflict
unfolding change claim_queued transition_recorded
change-refused (claims run_id lease_until) job now t e =
    elim (Result-cases (transition job.state ripping)) [
      | inl (u, fine) ↦ rw (fine, e) refl
      | inr (x, bad) ↦ rw bad refl
    ]
change-refused (moves next error artifacts) job now t e =
    elim (Result-cases (transition job.state next)) [
      | inl (u, fine) ↦ rw (fine, e) refl
      | inr (x, bad) ↦ rw bad refl
    ]

-- One copy of a job is used once: after a change of the job that was read has succeeded, and whatever
-- operations have run since, every further claim or transition of that same copy, by this worker or by
-- another one, is a conflict. So of the workers that read one queued job only one claims it.
pub claimed_once :
    (c again : Change) (job : Job) (now later : ℕ) (t t' : JobTables) (result : Job)
    (between : List Action)
    → change c job now t ≡ ok (t', result)
    → change again job later (run between t') ≡ err conflict
claimed_once c again job now later t t' result between e =
    let u = (change-Changed c job now t t' result e).updated in
    let written : JobRow = record u.row {
      job = changed c job now;
      revision = (changed c job now).revision;
    } in
    let stored : find job.id t'.jobs ≡ some written =
      ap (λ i. find i t'.jobs) (sym (changed-id c job now)) ∙ Updated-found u in
    let (new, there, step) = (run-Evolves between t').later job.id written stored in
    let found : find (changed again job later).id (run between t').jobs ≡ some new =
      ap (λ i. find i (run between t').jobs) (changed-id again job later) ∙ there in
    let newer : job.revision < new.revision = elim step [
      | inl kept ↦ omega (arith, ap revision_of kept, changed-revision c job now)
      | inr higher ↦ omega (arith, higher, changed-revision c job now)
    ] in
    change-refused again job later (run between t')
      (record_job-stale (changed again job later) job.revision (run between t') new found newer)
