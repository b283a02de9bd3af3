-- ===== src/Storage/Retention.antt =====
-- crates/rip-storage/src/retention.rs and src/maintenance.rs: how long the files of a job are kept. The view of
-- the color attempts, deliveries and pipelines of a job is a table here; times are not negative.
pub mod Extension
pub mod Held
use rip_server.Common.{
  ℕ, ◌+◌, ◌^◌, Bool, true, false, not, ◌&&◌, ◌||◌, List, [], ◌∷◌, ◌++◌, Option, none, some, ltb,
  leb, ◌==◌, is_empty, any, all, if◌then◌else◌, Result, ok, err, ◌>>=◌, ◌>>◌, reject_if,
}
use rip_server.Core.Document.{utf8_len, is_whitespace}
use rip_server.Core.State.{JobState, completed, cancelled, failed}
use rip_server.Core.State
use rip_server.Storage.{StorageError, conflict, db, Text}
use rip_server.Storage.Rows.{find, replace}

-- A row of `jobs`: its state and when it was last written.
pub record KeptJob : Type 0 where
  pub state : JobState
  pub updated_at : ℕ

-- The last row of `job_events` of a job.
pub record LastEvent : Type 0 where
  pub state : JobState
  pub created_at : ℕ

-- A row of `artifact_retention_dependencies`; an activity that is no integer is none.
pub record Dependency : Type 0 where
  pub source_job : ℕ
  pub active : Bool
  pub activity_at : Option ℕ

pub record Policy : Type 0 where
  pub revision : ℕ
  pub retain_until : ℕ
  pub previous_retain_until : Option ℕ
  pub updated_at : ℕ
  pub actor : Text
  pub reason : Text

-- A row of `artifact_retention_holds`, whose columns repeat the policy's.
pub record Hold : Type 0 where
  pub retain_until : ℕ
  pub revision : ℕ
  pub payload : Policy

pub record RetentionTables : Type 0 where
  pub jobs : List (ℕ × KeptJob)
  pub job_events : List (ℕ × LastEvent)
  pub worker_leases : List ℕ
  pub dependencies : List Dependency
  pub job_artifacts : List (ℕ × List Text)
  pub holds : List (ℕ × Hold)
  pub revisions : List (ℕ × ℕ × Policy)
  pub tombstones : List (ℕ × Option ℕ)
  pub audit : List (ℕ × Text)

abbrev pub is_some {ℓ} : {A : Type ℓ} → Option A → Bool
is_some none = false
is_some (some a) = true

abbrev pub is_recent : Option ℕ → ℕ → Bool
is_recent none cutoff = true
is_recent (some at) cutoff = ltb cutoff at

abbrev pub is_held : Option Hold → ℕ → Bool
is_held none clock = false
is_held (some h) clock = ltb clock h.retain_until

-- `guard`
unfoldable pub guard : ℕ → ℕ → ℕ → RetentionTables → Bool
guard job cutoff clock t =
    not (
      any (λ d. d.source_job == job && (d.active || is_recent d.activity_at cutoff)) t.dependencies)
    && not (is_held (find job t.holds) clock)

abbrev pub is_over : JobState → Bool
is_over State.completed = true
is_over State.cancelled = true
is_over State.failed = true
is_over _ = false

-- The `DELETE` of a job that is old enough.
abbrev pub old_job : Option KeptJob → ℕ → Bool
old_job none cutoff = false
old_job (some job) cutoff = is_over job.state && leb job.updated_at cutoff

abbrev pub is_leased : ℕ → RetentionTables → Bool
is_leased id t = any (λ l. l == id) t.worker_leases

unfoldable pub deletes : ℕ → ℕ → ℕ → RetentionTables → Bool
unfolding guard
deletes id cutoff now t =
    old_job (find id t.jobs) cutoff && not (is_leased id t) && guard id cutoff now t

abbrev pub old_event : Option LastEvent → ℕ → Bool
old_event none cutoff = false
old_event (some e) cutoff = is_over e.state && leb e.created_at cutoff

-- The test of a job whose row is gone already.
unfoldable pub orphaned : ℕ → ℕ → ℕ → RetentionTables → Bool
unfolding guard
orphaned id cutoff now t =
    old_event (find id t.job_events) cutoff
    && not (is_some (find id t.jobs))
    && not (is_some (find id t.tombstones))
    && not (is_leased id t)
    && guard id cutoff now t

unfoldable pub without {ℓ} : {A : Type ℓ} → ℕ → List (ℕ × A) → List (ℕ × A)
without id [] = []
without id ((key, row) ∷ rows) =
    let rest = without id rows in if key == id then rest else (key, row) ∷ rest

-- `INSERT INTO retention_tombstones`, whose jobs are its primary key.
abbrev pub bury : ℕ → Option (Option ℕ) → RetentionTables → Result RetentionTables StorageError
bury id none t = ok (record t { tombstones = t.tombstones ++ (id, none) ∷ [] })
bury id (some finished) t = err db

abbrev pub forget : ℕ → RetentionTables → RetentionTables
forget id t = record t { job_artifacts = without id t.job_artifacts }

-- `claim_retention`, with a reading of the clock for each of its two tests.
unfoldable pub claim_retention :
    ℕ → ℕ → ℕ → ℕ → RetentionTables → Result RetentionTables StorageError
claim_retention id cutoff now later t =
    if deletes id cutoff now t
    then bury id (find id t.tombstones) (forget id (record t { jobs = without id t.jobs }))
    else (reject_if (not (orphaned id cutoff later t)) conflict
        >> bury id (find id t.tombstones) (forget id t))

abbrev pub blank : Text → ℕ → Bool
blank s limit = all is_whitespace s || ltb limit (utf8_len s)

unfoldable pub bad_request : ℕ → ℕ → Text → Text → Bool
bad_request until clock actor reason =
    leb until clock || ltb (clock + 315360000) until || blank actor 256 || blank reason 1024

unfoldable pub known : ℕ → RetentionTables → Bool
known id t =
    (is_some (find id t.jobs) || is_some (find id t.job_events))
    && not (is_some (find id t.tombstones))

abbrev pub revision_of : Option Hold → ℕ
revision_of none = 0
revision_of (some h) = h.revision

abbrev pub previous_of : Option Hold → ℕ
previous_of none = 0
previous_of (some h) = h.retain_until

-- `ON CONFLICT(job_id) DO UPDATE`
abbrev pub put_hold : ℕ → Hold → Option Hold → List (ℕ × Hold) → List (ℕ × Hold)
put_hold id h none holds = holds ++ (id, h) ∷ []
put_hold id h (some old) holds = replace id h holds

abbrev pub has_revision : ℕ → ℕ → List (ℕ × ℕ × Policy) → Bool
has_revision id revision rows = any (λ (j, r, p). j == id && r == revision) rows

abbrev pub policy_of :
    Option Hold → RetentionTables → Result (RetentionTables × Policy) StorageError
policy_of none t = err db
policy_of (some h) t = ok (t, h.payload)

abbrev pub new_policy : ℕ → ℕ → ℕ → ℕ → Text → Text → Policy
new_policy revision until previous clock actor reason = record {
  revision = revision;
  retain_until = until;
  previous_retain_until = if ltb 0 previous then some previous else none;
  updated_at = clock;
  actor = actor;
  reason = reason;
}

-- The writes of an extension to a later time.
unfoldable pub extend_to :
    ℕ
    → ℕ
    → Text
    → Text
    → ℕ
    → Option Hold
    → RetentionTables
    → Result (RetentionTables × Policy) StorageError
extend_to id until actor reason clock old t = do
  reject_if (leb (2 ^ 63) (revision_of old + 1)) conflict
  let revision = revision_of old + 1
  let policy = new_policy revision until (previous_of old) clock actor reason
  reject_if (has_revision id revision t.revisions) db
  ok (
    record t {
      holds =
          put_hold id (record { retain_until = until; revision = revision; payload = policy }) old
            t.holds;
      revisions = t.revisions ++ (id, revision, policy) ∷ [];
      audit = t.audit ++ (id, actor) ∷ [];
    },
    policy,
  )

-- `extend_artifact_retention` once it has read the hold.
unfoldable pub extend_row :
    ℕ
    → ℕ
    → ℕ
    → Text
    → Text
    → ℕ
    → Option Hold
    → RetentionTables
    → Result (RetentionTables × Policy) StorageError
extend_row id expected until actor reason clock old t = do
  reject_if (not (expected == revision_of old) || ltb until (previous_of old)) conflict
  if until == previous_of old then policy_of old t else extend_to id until actor reason clock old t

-- `extend_artifact_retention`
unfoldable pub extend :
    ℕ → ℕ → ℕ → Text → Text → ℕ → RetentionTables → Result (RetentionTables × Policy) StorageError
extend id expected until actor reason clock t = do
  reject_if (bad_request until clock actor reason) conflict
  reject_if (not (known id t)) conflict
  extend_row id expected until actor reason clock (find id t.holds) t
