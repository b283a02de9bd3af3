-- ===== src/Storage/Color.antt =====
-- crates/rip-storage/src/color.rs: the attempts to convert the colours of a job. A state is an enumeration of the
-- five texts that the statements accept; of a ticket the model has the number of its source artifacts, and
-- the other fields as one text.
pub mod Calls
pub mod Progress
use rip_server.Common.{
  ℕ, ◌+◌, ◌*◌, ◌/◌, Bool, true, false, not, ◌&&◌, ◌||◌, List, [], ◌∷◌, ◌++◌, Option, none, some,
  ltb, leb, ◌==◌, any, if◌then◌else◌, Result, ok, err, ◌>>=◌, ◌>>◌, reject_if, ok_or,
}
use rip_server.Common.Bytes.{codes, bytes_eq}
use rip_server.Core.State.{JobState}
use rip_server.Core.State
use rip_server.Storage.{StorageError, conflict, not_found, Text}
use rip_server.Storage.Rows.{find, replace}
use rip_server.Storage.Jobs.{JobRow}

pub data ColorState : Type 0 where
  queued running completed failed cancelled : ColorState

pub record ColorTicket : Type 0 where
  pub source_artifacts : ℕ
  pub settings : Text

-- A row of `color_attempts` with its payload.
pub record Attempt : Type 0 where
  pub source_job : ℕ
  pub ticket : ColorTicket
  pub state : ColorState
  pub revision : ℕ
  pub lease_until : Option ℕ
  pub completed_pages : ℕ
  pub created_at : ℕ
  pub updated_at : ℕ
  pub reason : Option Text
  pub result : Option Text

pub record ColorEvent : Type 0 where
  pub attempt_id : ℕ
  pub state : ColorState
  pub revision : ℕ
  pub completed_pages : ℕ
  pub page_count : ℕ
  pub progress_percent : Option ℕ
  pub retryable : Bool

pub record ColorTables : Type 0 where
  pub attempts : List (ℕ × Attempt)
  pub events : List ColorEvent
  pub cleanup : List ℕ

abbrev pub is_reason : Option Text → Text → Bool
is_reason none t = false
is_reason (some reason) t = bytes_eq reason t

-- `(total > 0).then(|| completed * 100 / total)`
unfoldable pub progress : ℕ → ℕ → Option ℕ
progress total pages = if ltb 0 total then some (pages * 100 / total) else none

-- `event`
unfoldable pub color_event : ℕ → Attempt → ColorEvent
unfolding progress
color_event id a = record {
  attempt_id = id;
  state = a.state;
  revision = a.revision;
  completed_pages = a.completed_pages;
  page_count = a.ticket.source_artifacts;
  progress_percent = progress a.ticket.source_artifacts a.completed_pages;
  retryable =
      is_reason a.reason (codes "COLOR_WORKER_TIMEOUT")
      || is_reason a.reason (codes "COLOR_WORKER_LEASE_EXPIRED");
}

abbrev pub same_ticket : ColorTicket → ColorTicket → Bool
same_ticket a b = a.source_artifacts == b.source_artifacts && bytes_eq a.settings b.settings

abbrev is_completed : JobState → Bool
is_completed State.completed = true
is_completed _ = false

unfoldable pub is_eligible : ℕ → ℕ → List (ℕ × JobRow) → Bool
is_eligible source revision jobs = fits (find source jobs)
  where
    fits : Option JobRow → Bool
    fits none = false
    fits (some row) = row.revision == revision && is_completed row.job.state

abbrev pub new_attempt : ℕ → ColorTicket → ℕ → Attempt
new_attempt source ticket now = record {
  source_job = source;
  ticket = ticket;
  state = queued;
  revision = 0;
  lease_until = none;
  completed_pages = 0;
  created_at = now;
  updated_at = now;
  reason = none;
  result = none;
}

-- The attempt that is there already is the answer if it has the ticket; otherwise a new one is stored
-- with its event.
unfoldable pub create_at :
    Option Attempt
    → ℕ
    → ℕ
    → ℕ
    → ColorTicket
    → ℕ
    → List (ℕ × JobRow)
    → ColorTables
    → Result (ColorTables × Attempt) StorageError
unfolding is_eligible
create_at (some a) id source revision ticket now jobs t = do
  reject_if (not (same_ticket a.ticket ticket)) conflict
  ok (t, a)
create_at none id source revision ticket now jobs t = do
  reject_if (not (is_eligible source revision jobs)) conflict
  let a = new_attempt source ticket now
  ok (
    record t { attempts = t.attempts ++ (id, a) ∷ []; events = t.events ++ color_event id a ∷ [] },
    a,
  )

-- `create_color`
unfoldable pub create :
    ℕ
    → ℕ
    → ℕ
    → ColorTicket
    → ℕ
    → List (ℕ × JobRow)
    → ColorTables
    → Result (ColorTables × Attempt) StorageError
unfolding create_at
create id source revision ticket now jobs t =
    create_at (find id t.attempts) id source revision ticket now jobs t

-- The pairs that `matches!((state, next), …)` lists.
unfoldable pub allowed : ColorState → ColorState → Bool
allowed queued running = true
allowed queued cancelled = true
allowed running running = true
allowed running completed = true
allowed running failed = true
allowed _ _ = false

abbrev pub is_queued : ColorState → Bool
is_queued queued = true
is_queued _ = false

abbrev pub is_running : ColorState → Bool
is_running running = true
is_running _ = false

abbrev pub is_failed : ColorState → Bool
is_failed failed = true
is_failed _ = false

abbrev pub is_done : ColorState → Bool
is_done completed = true
is_done _ = false

-- `is_none_or(|expiry| expiry <= now())`
abbrev pub is_over : Option ℕ → ℕ → Bool
is_over none now = true
is_over (some expiry) now = leb expiry now

-- The guard on the pages and on the lease.
unfoldable pub bad_pages : Attempt → ColorState → ℕ → ℕ → Bool
bad_pages a next pages now =
    ltb pages a.completed_pages
    || ltb a.ticket.source_artifacts pages
    || is_queued a.state && not (pages == 0)
    || is_running a.state && is_running next && ltb (a.completed_pages + 1) pages
    || is_failed next && not (pages == a.completed_pages)
    || is_done next
      && (a.ticket.source_artifacts == 0
          || not (pages == a.ticket.source_artifacts)
          || not (a.completed_pages == a.ticket.source_artifacts))
    || is_running a.state && (is_running next || is_done next) && is_over a.lease_until now

abbrev pub lease_for : ColorState → ℕ → Option ℕ
lease_for running now = some (now + 600)
lease_for _ now = none

abbrev pub updated : Attempt → ColorState → ℕ → Option Text → Option Text → ℕ → Attempt
updated a next pages result reason now = record a {
  state = next;
  revision = a.revision + 1;
  lease_until = lease_for next now;
  completed_pages = pages;
  updated_at = now;
  reason = reason;
  result = result;
}

-- `INSERT OR IGNORE INTO color_cleanup`
unfoldable pub request_cleanup : ℕ → Option Text → List ℕ → List ℕ
request_cleanup id reason cleanup =
    if is_reason reason (codes "COLOR_CLEANUP_FAILED") && not (any (λ i. i == id) cleanup)
    then cleanup ++ id ∷ []
    else cleanup

-- `update_color`, one transaction; `now` is one reading of the clock for three.
unfoldable pub update :
    ℕ
    → ℕ
    → ColorState
    → ℕ
    → Option Text
    → Option Text
    → ℕ
    → ColorTables
    → Result (ColorTables × Attempt) StorageError
unfolding allowed bad_pages request_cleanup
update id revision next pages result reason now t = do
  a ← ok_or (find id t.attempts) not_found
  reject_if (not (a.revision == revision) || not (allowed a.state next)) conflict
  reject_if (bad_pages a next pages now) conflict
  let a' = updated a next pages result reason now
  ok (
    record {
      attempts = replace id a' t.attempts;
      events = t.events ++ color_event id a' ∷ [];
      cleanup = request_cleanup id reason t.cleanup;
    },
    a',
  )

unfoldable pub drop_id : ℕ → List ℕ → List ℕ
drop_id id [] = []
drop_id id (i ∷ ids) = let rest = drop_id id ids in if i == id then rest else i ∷ rest

-- `finish_color_cleanup`
unfoldable pub finish_cleanup : ℕ → ColorTables → ColorTables
unfolding drop_id
finish_cleanup id t = record t { cleanup = drop_id id t.cleanup }
