-- ===== src/Storage/Jobs/Choice.antt =====
-- crates/rip-storage/src/lib.rs: `next_queued_at`, the choice of the job that is rendered next.
use rip_server.Common.{
  ℕ, ◌+◌, ◌-◌, ◌*◌, ◌/◌, min, Bool, true, false, ◌&&◌, ◌||◌, List, [], ◌∷◌, Option, none, some, ltb,
  ◌==◌, if◌then◌else◌,
}
use rip_server.Core.Job.{Job}
use rip_server.Core.State.{JobState, queued}
use rip_server.Storage.Jobs.{JobRow}

abbrev pub rip_priority_aging_seconds : ℕ
rip_priority_aging_seconds = 60

abbrev pub rip_priority_max : ℕ
rip_priority_max = 100

abbrev pub is_queued : JobState → Bool
is_queued queued = true
is_queued _ = false

-- The priority with a point for each minute of waiting; a job from the future has not waited.
unfoldable pub aged : ℕ → JobRow → ℕ
aged observed_at row = min rip_priority_max (
    row.priority
    + min (rip_priority_max * rip_priority_aging_seconds) (observed_at - row.created_at)
      / rip_priority_aging_seconds)

-- `ORDER BY … DESC, created_at ASC, id ASC`; ids are compared as their texts are, by the digits.
unfoldable pub goes_first : ℕ → ℕ × JobRow → ℕ × JobRow → Bool
goes_first observed_at (id, row) (id', row') =
    ltb (aged observed_at row') (aged observed_at row)
    || aged observed_at row == aged observed_at row'
      && (ltb row.created_at row'.created_at || row.created_at == row'.created_at && ltb id id')

abbrev pub better : ℕ → ℕ × JobRow → Option (ℕ × JobRow) → ℕ × JobRow
better observed_at row none = row
better observed_at row (some best) = if goes_first observed_at best row then best else row

-- The first of the queued rows.
unfoldable pub first_queued : ℕ → List (ℕ × JobRow) → Option (ℕ × JobRow)
unfolding goes_first
first_queued observed_at [] = none
first_queued observed_at ((id, row) ∷ rows) =
    let best = first_queued observed_at rows in
    if is_queued row.job.state then some (better observed_at (id, row) best) else best

abbrev pub job_of : Option (ℕ × JobRow) → Option Job
job_of none = none
job_of (some (id, row)) = some row.job

-- `next_queued_at`
unfoldable pub next_queued_at : ℕ → List (ℕ × JobRow) → Option Job
unfolding first_queued
next_queued_at observed_at rows = job_of (first_queued observed_at rows)
