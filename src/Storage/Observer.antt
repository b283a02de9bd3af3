-- ===== src/Storage/Observer.antt =====
-- crates/rip-storage/src/printer_observer.rs: which worker observes a printer next, and when. The table is a
-- function of the printer's id and its binding; the clock is never negative.
pub mod Kept
pub mod Fence
pub mod Stale
use rip_server.Common.{
  ℕ, ◌+◌, ◌-◌, ◌*◌, ◌^◌, min, Bool, true, false, not, ◌&&◌, ◌||◌, List, [], ◌∷◌, Option, none, some,
  ltb, leb, ◌==◌, within, all, is_empty, length, if◌then◌else◌, Result, ok, err, ◌>>=◌, ◌>>◌,
  reject_if,
}
use rip_server.Common.Bytes.{bytes_eq}
use rip_server.Storage.{StorageError, conflict, Text}
use rip_server.Storage.Delivery.Enqueue.{is_printer_byte, is_lower_hex}

abbrev pub lease_seconds : ℕ
lease_seconds = 60

-- A row of `printer_observer_schedule`.
pub record Schedule : Type 0 where
  pub next_at : ℕ
  pub failures : ℕ
  pub run_id : Option ℕ
  pub lease_until : Option ℕ
  pub last_finished_at : Option ℕ
  pub last_success_at : Option ℕ

abbrev pub Schedules : Type 0
Schedules = Text → Text → Option Schedule

pub record ObserverLease : Type 0 where
  pub id : Text
  pub binding : Text
  pub run : ℕ
  pub failures : ℕ

-- `valid` with `valid_digest`; an id passes only if it is ASCII, so that its length is in bytes.
unfoldable pub valid : Text → Text → Bool
valid id binding =
    not (is_empty id)
    && leb (length id) 128
    && all is_printer_byte id
    && length binding == 64
    && all is_lower_hex binding

abbrev pub is_key : Text → Text → Text → Text → Bool
is_key id binding i b = bytes_eq id i && bytes_eq binding b

abbrev pub set : Text → Text → Schedule → Schedules → Schedules
set id binding row t i b = if is_key id binding i b then some row else t i b

-- `lease_until>?` and `lease_until<=?`; a lease without an end is neither.
abbrev pub ends_after : ℕ → Option ℕ → Bool
ends_after at none = false
ends_after at (some until) = ltb at until

abbrev pub ends_by : ℕ → Option ℕ → Bool
ends_by at none = false
ends_by at (some until) = leb until at

abbrev pub is_some {ℓ} : {A : Type ℓ} → Option A → Bool
is_some none = false
is_some (some a) = true

-- `SELECT 1 … WHERE next_at>? OR (run_id IS NOT NULL AND lease_until>?)`
unfoldable pub not_due : ℕ → Option Schedule → Bool
not_due at none = false
not_due at (some row) = ltb at row.next_at || is_some row.run_id && ends_after at row.lease_until

abbrev pub first_schedule : Schedule
first_schedule = record {
  next_at = 0;
  failures = 0;
  run_id = none;
  lease_until = none;
  last_finished_at = none;
  last_success_at = none;
}

-- `INSERT OR IGNORE`
unfoldable pub ensure : Text → Text → Schedules → Schedules
ensure id binding t = put (t id binding)
  where
    put : Option Schedule → Schedules
    put none = set id binding first_schedule t
    put (some row) = t

-- `next_at<=? AND (run_id IS NULL OR lease_until<=?)`
unfoldable pub is_free : ℕ → Schedule → Bool
is_free at row = leb row.next_at at && (not (is_some row.run_id) || ends_by at row.lease_until)

-- `UPDATE … RETURNING failures`
unfoldable pub take_row : Option Schedule → Text → Text → ℕ → ℕ → Schedules → Schedules × Option ℕ
unfolding is_free
take_row none id binding run at t = (t, none)
take_row (some row) id binding run at t =
    if is_free at row
    then (
      set id binding (record row { run_id = some run; lease_until = some (at + lease_seconds) }) t,
      some row.failures,
    )
    else (t, none)

-- The lease of an update that returned a row. The row is kept where its failures are out of range.
unfoldable pub lease_of : Text → Text → ℕ → Option ℕ → Result (Option ObserverLease) StorageError
lease_of id binding run none = ok none
lease_of id binding run (some failures) =
    if leb failures 16
    then ok (some (record { id = id; binding = binding; run = run; failures = failures }))
    else err conflict

abbrev pub bad_time : ℕ → Bool
bad_time at = ltb (2 ^ 63 - 1 - 86400) at

-- `claim_printer_observer_at`: three statements, each of its own. `seen` is the table at the first;
-- `t` at the second; and other connections do what `others` says between the second and the third.
unfoldable pub claim :
    Text
    → Text
    → ℕ
    → ℕ
    → Schedules
    → Schedules
    → (Schedules → Schedules)
    → Schedules × Result (Option ObserverLease) StorageError
unfolding not_due ensure take_row lease_of
claim id binding run at seen t others =
    if not (valid id binding) || bad_time at
    then (t, err conflict)
    else if not_due at (seen id binding)
    then (t, ok none)
    else let u = others (ensure id binding t) in
      let (after, failures) = take_row (u id binding) id binding run at u in
      (after, lease_of id binding run failures)

-- The failures in a row, and the seconds to wait: the interval doubled for each failure, up to a maximum.
unfoldable pub next_failures : Bool → ℕ → ℕ
next_failures true failures = 0
next_failures false failures = min (failures + 1) 16

unfoldable pub delay : Bool → ℕ → ℕ → ℕ → ℕ
delay true failures interval max_backoff = interval
delay false failures interval max_backoff = min (interval * 2 ^ failures) max_backoff

abbrev pub is_run : ℕ → Option ℕ → Bool
is_run run none = false
is_run run (some r) = r == run

unfoldable pub is_held : ObserverLease → ℕ → Schedule → Bool
is_held lease at row = is_run lease.run row.run_id && ends_after at row.lease_until

abbrev pub finished : Schedule → ObserverLease → Bool → ℕ → ℕ → ℕ → Schedule
finished row lease success interval max_backoff at = record row {
  next_at = at + delay success (next_failures success lease.failures) interval max_backoff;
  failures = next_failures success lease.failures;
  run_id = none;
  lease_until = none;
  last_finished_at = some at;
  last_success_at = if success then some at else row.last_success_at;
}

unfoldable pub finish_row :
    Option Schedule → ObserverLease → Bool → ℕ → ℕ → ℕ → Schedules → Schedules × Bool
unfolding is_held delay next_failures
finish_row none lease success interval max_backoff at t = (t, false)
finish_row (some row) lease success interval max_backoff at t =
    if is_held lease at row
    then (set lease.id lease.binding (finished row lease success interval max_backoff at) t, true)
    else (t, false)

-- `finish_printer_observer_at`
unfoldable pub finish :
    ObserverLease → Bool → ℕ → ℕ → ℕ → Schedules → Result (Schedules × Bool) StorageError
unfolding finish_row
finish lease success interval max_backoff at t = do
  reject_if (not (within 5 3600 interval) || not (within interval 86400 max_backoff) || bad_time at)
      conflict
  ok (finish_row (t lease.id lease.binding) lease success interval max_backoff at t)
