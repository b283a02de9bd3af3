-- ===== src/Storage/Delivery/Diagram.antt =====
-- crates/rip-storage/src/delivery.rs: the life of a delivery as a diagram, and that every decision follows it.
use rip_server.Common.{
  ℕ, ◌≡◌, refl, true, not, ◌||◌, List, Option, ◌==◌, Result, ok, reject_if-eq-ok, arith,
}
use rip_server.Common.Bytes.{}
use rip_server.Core.Print.{DeviceProgress}
use rip_server.Storage.{StorageError, Text}
use rip_server.Storage.Delivery.{
  Delivery, DeliveryState, queued, sending, accepted, completed, cancelled, aborted, rejected,
  unknown, same_state, DeviceQueryFailure,
}
use rip_server.Storage.Delivery.Operations.{
  Decision, answer, change, claim, lease_from, finish, is_send_result, request_cancel, cancel_in,
  claim_cancel, fail_query, observe, is_terminal_observation, reconcile,
}
use rip_server.Storage.Delivery.Device.{observe_device, observed_state}

infix 40 ◌⟶◌
pub data ◌⟶◌ : DeliveryState → DeliveryState → Type 0 where
  send : queued ⟶ sending
  withdraw : queued ⟶ cancelled
  accept : sending ⟶ accepted
  reject : sending ⟶ rejected
  lose : sending ⟶ unknown
  watch : accepted ⟶ accepted
  complete : accepted ⟶ completed
  cancel : accepted ⟶ cancelled
  abort : accepted ⟶ aborted
  find_accepted : unknown ⟶ accepted
  find_completed : unknown ⟶ completed
  find_cancelled : unknown ⟶ cancelled
  find_aborted : unknown ⟶ aborted

-- The operations that decide on one delivery.
pub data Call : Type 0 where
  claims : ℕ → ℕ → ℕ → Call
  finishes : ℕ → DeliveryState → Option ℕ → Option Text → ℕ → Call
  requests_cancel claims_cancel : ℕ → Call
  observes_device : ℕ → ℕ → ℕ → List Text → DeviceProgress → ℕ → ℕ → Call
  fails_query : ℕ → DeviceQueryFailure → ℕ → Call
  observes : ℕ → DeliveryState → Call
  reconciles : ℕ → ℕ → DeliveryState → Call

abbrev pub decide : Call → Delivery → Result Decision StorageError
decide (claims revision run now) d = claim revision run now d
decide (finishes run next job reason now) d = finish run next job reason now d
decide (requests_cancel revision) d = request_cancel revision d
decide (claims_cancel revision) d = claim_cancel revision d
decide (observes_device revision job state reasons progress queried_at observed_at) d =
    observe_device revision job state reasons progress queried_at observed_at d
decide (fails_query revision failure now) d = fail_query revision failure now d
decide (observes revision next) d = observe revision next d
decide (reconciles revision job next) d = reconcile revision job next d

-- A decision either returns the delivery as it is or changes the very delivery that was read, against the
-- state and the revision that were read, along an edge of the diagram; the ticket is kept.
abbrev pub IsSound : Delivery → Decision → Type 0
IsSound d (answer d') = d' ≡ d
IsSound d (change c previous revision run) =
    (previous ⟶ c.state)
    × (previous ≡ d.state)
    × (revision ≡ d.revision)
    × (c.id ≡ d.id)
    × (c.ticket ≡ d.ticket)

pub same_state-eq : (s t : DeliveryState) → same_state s t ≡ true → s ≡ t
unfolding same_state
same_state-eq s t h = ground arith

send_result_edge : (s : DeliveryState) → is_send_result s ≡ true → sending ⟶ s
unfolding is_send_result
send_result_edge s h = grind (arith, accept, reject, lose)

observation_edge : (s : DeliveryState) → is_terminal_observation s ≡ true → accepted ⟶ s
unfolding is_terminal_observation
observation_edge s h = grind (arith, complete, cancel, abort)

device_edge : (state : ℕ) → accepted ⟶ observed_state state
unfolding observed_state
device_edge state = grind (arith, complete, cancel, abort, watch)

reconciled_edge :
    (s : DeliveryState) → (same_state s accepted || is_terminal_observation s) ≡ true → unknown ⟶ s
unfolding is_terminal_observation same_state
reconciled_edge s h = grind (arith, find_accepted, find_completed, find_cancelled, find_aborted)

claim-IsSound :
    (revision run now : ℕ) (d : Delivery) (decision : Decision)
    → claim revision run now d ≡ ok decision
    → IsSound d decision
unfolding claim lease_from
claim-IsSound revision run now d decision e = ground (arith, send, same_state-eq d.state queued)

finish-IsSound :
    (run : ℕ) (next : DeliveryState) (job : Option ℕ) (reason : Option Text) (now : ℕ)
    (d : Delivery) (decision : Decision)
    → finish run next job reason now d ≡ ok decision
    → IsSound d decision
unfolding finish
finish-IsSound run next job reason now d decision e =
    ground (arith, same_state-eq d.state sending, send_result_edge next)

cancel_in-IsSound :
    (state : DeliveryState) (revision : ℕ) (d : Delivery) (decision : Decision)
    → state ≡ d.state
    → revision ≡ d.revision
    → cancel_in state revision d ≡ ok decision
    → IsSound d decision
unfolding cancel_in
cancel_in-IsSound state revision d decision s r e = ground (arith, withdraw, watch)

request_cancel-IsSound :
    (revision : ℕ) (d : Delivery) (decision : Decision)
    → request_cancel revision d ≡ ok decision
    → IsSound d decision
unfolding request_cancel
request_cancel-IsSound revision d decision e =
    let (same, e1) = reject_if-eq-ok (not (d.revision == revision)) _ _ e in
    cancel_in-IsSound d.state revision d decision refl (ground arith) e1

claim_cancel-IsSound :
    (revision : ℕ) (d : Delivery) (decision : Decision)
    → claim_cancel revision d ≡ ok decision
    → IsSound d decision
unfolding claim_cancel
claim_cancel-IsSound revision d decision e = ground (arith, watch, same_state-eq d.state accepted)

observe-IsSound :
    (revision : ℕ) (next : DeliveryState) (d : Delivery) (decision : Decision)
    → observe revision next d ≡ ok decision
    → IsSound d decision
unfolding observe
observe-IsSound revision next d decision e =
    ground (arith, same_state-eq d.state accepted, observation_edge next)

reconcile-IsSound :
    (revision job : ℕ) (next : DeliveryState) (d : Delivery) (decision : Decision)
    → reconcile revision job next d ≡ ok decision
    → IsSound d decision
unfolding reconcile
reconcile-IsSound revision job next d decision e =
    ground (arith, same_state-eq d.state unknown, reconciled_edge next)

fail_query-IsSound :
    (revision : ℕ) (failure : DeviceQueryFailure) (now : ℕ) (d : Delivery) (decision : Decision)
    → fail_query revision failure now d ≡ ok decision
    → IsSound d decision
unfolding fail_query
fail_query-IsSound revision failure now d decision e =
    ground (arith, watch, same_state-eq d.state accepted)

observe_device-IsSound :
    (revision job state : ℕ) (reasons : List Text) (progress : DeviceProgress)
    (queried_at observed_at : ℕ) (d : Delivery) (decision : Decision)
    → observe_device revision job state reasons progress queried_at observed_at d ≡ ok decision
    → IsSound d decision
unfolding observe_device
observe_device-IsSound revision job state reasons progress queried_at observed_at d decision e =
    ground (arith, device_edge state, same_state-eq d.state accepted)

-- Every operation decides along the diagram, and on the delivery that it read.
pub decide-IsSound :
    (call : Call) (d : Delivery) {decision : Decision}
    → decide call d ≡ ok decision
    → IsSound d decision
decide-IsSound (claims r run now) d e = claim-IsSound r run now d _ e
decide-IsSound (finishes run next job reason now) d e = finish-IsSound run next job reason now d _ e
decide-IsSound (requests_cancel r) d e = request_cancel-IsSound r d _ e
decide-IsSound (claims_cancel r) d e = claim_cancel-IsSound r d _ e
decide-IsSound (observes_device r job state reasons progress q o) d e =
    observe_device-IsSound r job state reasons progress q o d _ e
decide-IsSound (fails_query r failure now) d e = fail_query-IsSound r failure now d _ e
decide-IsSound (observes r next) d e = observe-IsSound r next d _ e
decide-IsSound (reconciles r job next) d e = reconcile-IsSound r job next d _ e
