-- ===== src/Storage/Delivery/Device.antt =====
-- crates/rip-storage/src/delivery.rs: what a device reports of an accepted delivery, and the recovery of
-- sends whose lease has run out.
use rip_server.Common.{
  ℕ, Bool, true, false, not, ◌&&◌, ◌||◌, List, [], ◌∷◌, ◌++◌, Option, none, some, ltb, leb, ◌==◌,
  within, any, is_empty, length, if◌then◌else◌, Result, ok, err, ◌>>◌, reject_if,
}
use rip_server.Common.Bytes.{codes, bytes_eq, i32_lt}
use rip_server.Core.Document.{utf8_len, is_control}
use rip_server.Core.Print
use rip_server.Core.Print.{DeviceProgress}
use rip_server.Storage.{StorageError, conflict, Text}
use rip_server.Storage.Delivery.{
  Delivery, DeliveryState, sending, accepted, completed, cancelled, aborted, unknown, same_state,
  DeviceObservation, DeviceQuery,
}
use rip_server.Storage.Delivery.Table.{Row, Tables, update_delivery}
use rip_server.Storage.Delivery.Operations.{Decision, answer, change, is_not}

-- The order of strings: that of their UTF-8 bytes is that of their code points.
unfoldable pub text_le : Text → Text → Bool
text_le [] ys = true
text_le (x ∷ xs) [] = false
text_le (x ∷ xs) (y ∷ ys) = ltb x y || x == y && text_le xs ys

-- `sort`
unfoldable pub insert_text : Text → List Text → List Text
unfolding text_le
insert_text t [] = t ∷ []
insert_text t (u ∷ us) = let rest = insert_text t us in if text_le t u then t ∷ u ∷ us else u ∷ rest

unfoldable pub sort : List Text → List Text
sort [] = []
sort (t ∷ ts) = insert_text t (sort ts)

-- `dedup`: of equal neighbours the first is kept.
unfoldable pub dedup_after : Text → List Text → List Text
dedup_after last [] = []
dedup_after last (t ∷ ts) =
    let rest = dedup_after t ts in
    let same = dedup_after last ts in if bytes_eq last t then same else t ∷ rest

unfoldable pub dedup : List Text → List Text
unfolding dedup_after
dedup [] = []
dedup (t ∷ ts) = t ∷ dedup_after t ts

-- A reason that the guard refuses.
unfoldable pub bad_reason : Text → Bool
bad_reason r = is_empty r || ltb 255 (utf8_len r) || any is_control r

unfoldable pub texts_eq : List Text → List Text → Bool
texts_eq [] [] = true
texts_eq (t ∷ ts) (u ∷ us) = bytes_eq t u && texts_eq ts us
texts_eq _ _ = false

unfoldable pub count_eq : Option ℕ → Option ℕ → Bool
count_eq none none = true
count_eq (some a) (some b) = a == b
count_eq _ _ = false

unfoldable pub progress_eq : DeviceProgress → DeviceProgress → Bool
unfolding count_eq
progress_eq a b =
    count_eq a.impressions_completed b.impressions_completed
    && count_eq a.media_sheets_completed b.media_sheets_completed

abbrev is_none {ℓ} : {A : Type ℓ} → Option A → Bool
is_none none = true
is_none (some a) = false

-- The last query of the device succeeded.
unfoldable pub query_succeeded : Option DeviceQuery → Bool
query_succeeded none = false
query_succeeded (some q) = is_none q.failure

unfoldable pub same_observation : Option DeviceObservation → ℕ → List Text → DeviceProgress → Bool
unfolding texts_eq progress_eq
same_observation none state reasons progress = false
same_observation (some o) state reasons progress =
    o.state == state && texts_eq o.reasons reasons && progress_eq o.progress progress

-- The state of a delivery by the state of the device's job.
unfoldable pub observed_state : ℕ → DeliveryState
observed_state state =
    if state == 7
    then cancelled
    else if state == 8
    then aborted
    else if state == 9
    then completed
    else accepted

-- The query of an observation: one that failed before has now succeeded.
unfoldable pub query_after : Option DeviceQuery → ℕ → Option DeviceQuery
unfolding query_succeeded
query_after query now =
    if query_succeeded query then query else some (record { failure = none; changed_at = now })

abbrev pub observation_profile : Text
observation_profile = codes "org.jrip.device-job-observation-v1"

-- `observe_delivery_device_progress`
unfoldable pub observe_device :
    ℕ → ℕ → ℕ → List Text → DeviceProgress → ℕ → ℕ → Delivery → Result Decision StorageError
unfolding query_succeeded query_after bad_reason sort dedup
observe_device revision device_job_id state reasons progress queried_at observed_at d = do
  reject_if
      (not (Print.is_valid progress)
        || not (same_state d.state accepted)
        || not (d.revision == revision)
        || not (i32_lt 0 device_job_id)
        || is_not d.device_job_id device_job_id
        || not (within 3 9 state)
        || ltb 64 (length reasons)
        || any bad_reason reasons)
      conflict
  let ordered = dedup (sort reasons)
  if query_succeeded d.device_query && same_observation d.device_observation state ordered progress
      then ok (answer d)
      else ok (
          change
            (record d {
              device_query = query_after d.device_query queried_at;
              device_observation = some (record {
                profile = observation_profile;
                state = state;
                reasons = ordered;
                observed_at = observed_at;
                progress = progress;
              });
              state = observed_state state;
            })
            accepted revision none)

-- `WHERE state='SENDING' AND lease_until<=?`
unfoldable pub is_expired : ℕ → Row → Bool
is_expired now row = same_state row.state sending && is_over row.lease_until
  where
    is_over : Option ℕ → Bool
    is_over none = false
    is_over (some until) = leb until now

unfoldable pub expired : ℕ → List (ℕ × Row) → List Delivery
unfolding is_expired
expired now [] = []
expired now ((id, row) ∷ rows) =
    let rest = expired now rows in if is_expired now row then row.payload ∷ rest else rest

-- One round of the loop of `recover_delivery_sends`; a conflict passes the delivery over.
unfoldable pub recover_one : Delivery → ℕ → Tables → Result (Tables × Delivery) StorageError
recover_one d now tables =
    update_delivery (record d { state = unknown; reason = some (codes "SENDER_LEASE_EXPIRED") })
      sending d.revision none now tables

unfoldable pub recover_each :
    List Delivery → ℕ → Tables → List ℕ → Tables × Result (List ℕ) StorageError
unfolding recover_one
recover_each [] now tables recovered = (tables, ok recovered)
recover_each (d ∷ ds) now tables recovered = elim (recover_one d now tables) [
  | ok (tables', d') ↦ recover_each ds now tables' (recovered ++ d.id ∷ [])
  | err conflict ↦ recover_each ds now tables recovered
  | err e ↦ (tables, err e)
]

-- `recover_delivery_sends`
unfoldable pub recover_sends : ℕ → ℕ → Tables → Tables → Tables × Result (List ℕ) StorageError
unfolding expired
recover_sends read_at now seen tables = recover_each (expired read_at seen.deliveries) now tables []
