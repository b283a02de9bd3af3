-- ===== src/Storage/Delivery/Table.antt =====
-- crates/rip-storage/src/delivery.rs and delivery_receipt.rs: the tables of the deliveries, their events
-- and their receipts, and `update_delivery`, the one statement that changes a delivery. A receipt is
-- kept without its digests and its signature.
use rip_server.Common.{
  ℕ, ◌+◌, ◌^◌, Bool, true, false, not, ◌&&◌, List, [], ◌∷◌, ◌++◌, Option, none, some, ltb, ◌==◌,
  any, if◌then◌else◌, Result, ok, err, ◌>>=◌, ◌>>◌, reject_if, ok_or,
}
use rip_server.Common.Bytes.{i32_lt}
use rip_server.Storage.Rows.{find, replace}
use rip_server.Storage.{
  ReceiptStatus, succeeded, cancelled_receipt, failed, StorageError, conflict, db, Text,
}
use rip_server.Storage.Delivery.{
  Delivery, DeliveryState, completed, cancelled, aborted, rejected, same_state, DeviceObservation,
  DeviceQuery,
}

-- A row of `deliveries`: the delivery, and the columns that repeat some of its fields.
pub record Row : Type 0 where
  pub payload : Delivery
  pub state : DeliveryState
  pub revision : ℕ
  pub lease_until : Option ℕ

-- A row of `delivery_events` with its details.
pub record DeliveryEvent : Type 0 where
  pub delivery_id : ℕ
  pub state : DeliveryState
  pub created_at : ℕ
  pub revision : ℕ
  pub reason : Option Text
  pub device_job_id : Option ℕ
  pub device_observation : Option DeviceObservation
  pub device_query : Option DeviceQuery

pub record DeliveryReceipt : Type 0 where
  pub delivery_id : ℕ
  pub status : ReceiptStatus
  pub result : Delivery

pub record Tables : Type 0 where
  pub deliveries : List (ℕ × Row)
  pub events : List DeliveryEvent
  pub receipts : List DeliveryReceipt

-- `event`
unfoldable pub event : Delivery → ℕ → DeliveryEvent
event delivery now = record {
  delivery_id = delivery.id;
  state = delivery.state;
  created_at = now;
  revision = delivery.revision;
  reason = delivery.reason;
  device_job_id = delivery.device_job_id;
  device_observation = delivery.device_observation;
  device_query = delivery.device_query;
}

-- `is_none_or(|id| id <= 0)` on an `i32`
unfoldable pub not_positive : Option ℕ → Bool
not_positive none = true
not_positive (some id) = not (i32_lt 0 id)

-- The status of a receipt, for the states that end a delivery with a known result.
unfoldable pub status_of : DeliveryState → Option ReceiptStatus
status_of completed = some succeeded
status_of cancelled = some cancelled_receipt
status_of aborted = some failed
status_of rejected = some failed
status_of _ = none

abbrev pub is_completed : DeliveryState → Bool
is_completed completed = true
is_completed _ = false

-- The row of the receipt; its key must be new.
unfoldable pub insert_receipt :
    DeliveryReceipt → List DeliveryReceipt → Result (List DeliveryReceipt) StorageError
insert_receipt receipt receipts =
    if any (λ r. r.delivery_id == receipt.delivery_id) receipts
    then err db
    else ok (receipts ++ receipt ∷ [])

-- `delivery_receipt::store`
unfoldable pub store : Delivery → List DeliveryReceipt → Result (List DeliveryReceipt) StorageError
unfolding not_positive insert_receipt
store delivery receipts = elim (status_of delivery.state) [
  | none ↦ ok receipts
  | some status ↦ do
    reject_if (is_completed delivery.state && not_positive delivery.device_job_id) conflict
    insert_receipt (record { delivery_id = delivery.id; status = status; result = delivery })
        receipts
]

-- `checked_add(1)` on an `i64`
unfoldable pub next_revision : ℕ → Option ℕ
next_revision revision = if ltb (revision + 1) (2 ^ 63) then some (revision + 1) else none

-- `? IS NULL OR (runId=? AND lease_until>?)`
unfoldable pub is_held : Option ℕ → Row → ℕ → Bool
is_held none row now = true
is_held (some run) row now = is_run row.payload.run_id && is_live row.lease_until
  where
    is_run : Option ℕ → Bool
    is_run none = false
    is_run (some r) = r == run

    is_live : Option ℕ → Bool
    is_live none = false
    is_live (some until) = ltb now until

unfoldable pub is_current : Row → DeliveryState → ℕ → Option ℕ → ℕ → Bool
unfolding is_held
is_current row previous revision run now =
    same_state row.state previous && row.revision == revision && is_held run row now

-- The row that a delivery is stored as.
abbrev pub row_of : Delivery → Row
row_of delivery = record {
  payload = delivery;
  state = delivery.state;
  revision = delivery.revision;
  lease_until = delivery.lease_until;
}

-- The row, its event and its receipt.
unfoldable pub write : Delivery → ℕ → Tables → Result (Tables × Delivery) StorageError
write delivery now tables = do
  receipts ← store delivery tables.receipts
  ok (
    record {
      deliveries = replace delivery.id (row_of delivery) tables.deliveries;
      events = tables.events ++ event delivery now ∷ [];
      receipts = receipts;
    },
    delivery,
  )

unfoldable pub update_delivery :
    Delivery → DeliveryState → ℕ → Option ℕ → ℕ → Tables → Result (Tables × Delivery) StorageError
unfolding is_current
update_delivery delivery previous revision run now tables = do
  next ← ok_or (next_revision revision) conflict
  row ← ok_or (find delivery.id tables.deliveries) conflict
  reject_if (not (is_current row previous revision run now)) conflict
  write (record delivery { revision = next }) now tables
