-- ===== src/Storage/Delivery/Operations.antt =====
-- crates/rip-storage/src/delivery.rs: the operations on a delivery. Each reads the delivery, decides, and
-- commits what it decided with `update_delivery`; other connections may write in between, so that the
-- tables that it reads (`seen`) and those that it commits to are two arguments. The clock is read once
-- for the decision and once for the commit.
use rip_server.Common.{
  ℕ, ◌+◌, ◌^◌, Bool, true, false, not, ◌&&◌, ◌||◌, Option, none, some, ltb, leb, ◌==◌,
  if◌then◌else◌, Result, ok, err, ◌>>=◌, ◌>>◌, reject_if, ok_or,
}
use rip_server.Common.Bytes.{codes, bytes_eq, starts_with, i32_lt}
use rip_server.Core.Document.{utf8_len}
use rip_server.Core.Print.{}
use rip_server.Storage.{StorageError, conflict, not_found, Text}
use rip_server.Storage.Rows.{find}
use rip_server.Storage.Delivery.{
  Delivery, DeliveryState, queued, sending, accepted, completed, cancelled, aborted, rejected,
  unknown, same_state, DeviceQuery, DeviceQueryFailure, unavailable, invalid_response,
  job_not_found, registration_unavailable,
}
use rip_server.Storage.Delivery.Table.{Tables, update_delivery, not_positive}

-- What an operation does with the delivery that it read: return it as it is, or commit a change of
-- it against the state, the revision and the run that the row must still have.
pub data Decision : Type 0 where
  answer : Delivery → Decision
  change : Delivery → DeliveryState → ℕ → Option ℕ → Decision

unfoldable pub commit : Decision → ℕ → Tables → Result (Tables × Delivery) StorageError
commit (answer delivery) now tables = ok (tables, delivery)
commit (change delivery previous revision run) now tables =
    update_delivery delivery previous revision run now tables

unfoldable pub operate :
    (Delivery → Result Decision StorageError)
    → ℕ
    → ℕ
    → Tables
    → Tables
    → Result (Tables × Delivery) StorageError
operate decide id now seen tables = do
  row ← ok_or (find id seen.deliveries) not_found
  decision ← decide row.payload
  commit decision now tables

-- `now().checked_add(60)`
unfoldable pub lease_from : ℕ → Option ℕ
lease_from now = if ltb (now + 60) (2 ^ 63) then some (now + 60) else none

-- `claim_delivery`
unfoldable pub claim : ℕ → ℕ → ℕ → Delivery → Result Decision StorageError
claim revision run now d = do
  reject_if (not (same_state d.state queued) || not (d.revision == revision)) conflict
  until ← ok_or (lease_from now) conflict
  ok (
      change (record d { state = sending; run_id = some run; lease_until = some until }) queued
        revision none)

-- `x != Some(y)` and `x.is_none_or(|y| y <= now)`
unfoldable pub is_not : Option ℕ → ℕ → Bool
is_not none n = true
is_not (some m) n = not (m == n)

unfoldable pub is_past : Option ℕ → ℕ → Bool
is_past none now = true
is_past (some until) now = leb until now

abbrev pub is_some {ℓ} : {A : Type ℓ} → Option A → Bool
is_some none = false
is_some (some a) = true

unfoldable pub is_long : Option Text → Bool
is_long none = false
is_long (some reason) = ltb 256 (utf8_len reason)

unfoldable pub is_send_result : DeliveryState → Bool
is_send_result accepted = true
is_send_result rejected = true
is_send_result unknown = true
is_send_result _ = false

-- `finish_delivery`
unfoldable pub finish :
    ℕ → DeliveryState → Option ℕ → Option Text → ℕ → Delivery → Result Decision StorageError
unfolding is_long
finish run next device_job_id reason now d = do
  reject_if
      (not (same_state d.state sending)
        || is_not d.run_id run
        || is_past d.lease_until now
        || not (is_send_result next)
        || same_state next accepted && not_positive device_job_id
        || not (same_state next accepted) && is_some device_job_id
        || is_long reason)
      conflict
  ok (
      change (record d { state = next; device_job_id = device_job_id; reason = reason }) sending
        d.revision (some run))

abbrev pub cancelled_before_send : Text
cancelled_before_send = codes "CANCELLED_BEFORE_SEND"

abbrev pub cancel_requested : Text
cancel_requested = codes "CANCEL_REQUESTED"

abbrev pub cancel_dispatching : Text
cancel_dispatching = codes "CANCEL_DISPATCHING"

-- `is_some_and(|r| r.starts_with("CANCEL_"))`
unfoldable pub is_cancelling : Option Text → Bool
is_cancelling none = false
is_cancelling (some reason) = starts_with (codes "CANCEL_") reason

-- The cancellation by the state of the delivery.
unfoldable pub cancel_in : DeliveryState → ℕ → Delivery → Result Decision StorageError
cancel_in cancelled revision d = ok (answer d)
cancel_in queued revision d = ok (
    change (record d { state = cancelled; reason = some cancelled_before_send }) queued revision
      none)
cancel_in accepted revision d =
    if is_cancelling d.reason
    then ok (answer d)
    else ok (change (record d { reason = some cancel_requested }) accepted revision none)
cancel_in _ revision d = err conflict

-- `request_delivery_cancel`
unfoldable pub request_cancel : ℕ → Delivery → Result Decision StorageError
unfolding cancel_in is_cancelling
request_cancel revision d = do
  reject_if (not (d.revision == revision)) conflict
  cancel_in d.state revision d

unfoldable pub is_requested : Option Text → Bool
is_requested none = false
is_requested (some reason) = bytes_eq reason cancel_requested

-- `claim_delivery_cancel`
unfoldable pub claim_cancel : ℕ → Delivery → Result Decision StorageError
unfolding is_requested
claim_cancel revision d = do
  reject_if
      (not (same_state d.state accepted)
        || not (d.revision == revision)
        || not (is_requested d.reason))
      conflict
  ok (change (record d { reason = some cancel_dispatching }) accepted revision none)

-- `fail_delivery_device_query`; `q.failure == Some(failure)`
unfoldable pub same_failure : DeviceQueryFailure → DeviceQueryFailure → Bool
same_failure unavailable unavailable = true
same_failure invalid_response invalid_response = true
same_failure job_not_found job_not_found = true
same_failure registration_unavailable registration_unavailable = true
same_failure _ _ = false

unfoldable pub has_failure : DeviceQueryFailure → Option DeviceQueryFailure → Bool
unfolding same_failure
has_failure failure none = false
has_failure failure (some f) = same_failure f failure

unfoldable pub query_failed : DeviceQueryFailure → Option DeviceQuery → Bool
unfolding has_failure
query_failed failure none = false
query_failed failure (some q) = has_failure failure q.failure

unfoldable pub fail_query : ℕ → DeviceQueryFailure → ℕ → Delivery → Result Decision StorageError
unfolding query_failed
fail_query revision failure now d = do
  reject_if (not (same_state d.state accepted) || not (d.revision == revision)) conflict
  if query_failed failure d.device_query
      then ok (answer d)
      else ok (
          change
            (record d { device_query = some (record { failure = some failure; changed_at = now }) })
            accepted revision none)

unfoldable pub is_terminal_observation : DeliveryState → Bool
is_terminal_observation completed = true
is_terminal_observation cancelled = true
is_terminal_observation aborted = true
is_terminal_observation _ = false

-- `observe_delivery`
unfoldable pub observe : ℕ → DeliveryState → Delivery → Result Decision StorageError
observe revision next d = do
  reject_if
      (not (same_state d.state accepted)
        || not (d.revision == revision)
        || not (is_terminal_observation next))
      conflict
  ok (change (record d { state = next }) accepted revision none)

-- `reconcile_delivery`
unfoldable pub reconcile : ℕ → ℕ → DeliveryState → Delivery → Result Decision StorageError
reconcile revision device_job_id next d = do
  reject_if
      (not (same_state d.state unknown)
        || not (d.revision == revision)
        || not (i32_lt 0 device_job_id)
        || not (same_state next accepted || is_terminal_observation next))
      conflict
  ok (
      change
        (record d {
          device_job_id = some device_job_id;
          state = next;
          reason = some (codes "REMOTE_JOB_RECONCILED");
          lease_until = none;
        })
        unknown revision none)
