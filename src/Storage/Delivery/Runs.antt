-- ===== src/Storage/Delivery/Runs.antt =====
-- crates/rip-storage/src/delivery.rs: sequences of operations, in any order and from any reader.
use rip_server.Common.{
  ℕ, ◌+◌, ◌≤◌, ◌≡◌, refl, sym, ap, subst, ◌∙◌, inl, inr, not, List, [], ◌∷◌, ◌++◌, Option, none,
  some, ◌==◌, Bool-cases, Option-cases, ==_iff, Result, ok, err, Result-cases, >>=-eq-ok,
  reject_if-eq-ok, ok_or, arith,
}
use rip_server.Common.Bytes.{codes}
use rip_server.Storage.{StorageError, conflict}
use rip_server.Storage.Rows.{find, find-append}
use rip_server.Storage.Delivery.{
  Delivery, DeliveryState, queued, sending, accepted, completed, cancelled, aborted, rejected,
  unknown, DeliveryTicket, same_state,
}
use rip_server.Storage.Delivery.Table.{Row, Tables, event, row_of}
use rip_server.Storage.Delivery.Operations.{operate}
use rip_server.Storage.Delivery.Device.{recover_one}
use rip_server.Storage.Delivery.Diagram
use rip_server.Storage.Delivery.Diagram.{Call, decide, decide-IsSound}
use rip_server.Storage.Delivery.Enqueue.{
  Catalog, JobRow, enqueue, insert_or_ignore, new_delivery, has_completed_job, bad_ticket,
  color_is_ready, is_approved, same_ticket,
}
use rip_server.Storage.Delivery.Update.{sends, sends-append, receipts_of, is_final}
use rip_server.Storage.Delivery.History.{
  IsHistory, Holds, Sent, SentIn, ends, update-IsHistory, operate-IsHistory,
}

-- An operation of any connection: an operation on a delivery, by the tables that it reads first; the
-- recovery of a send, by the delivery that it read; and a new delivery.
pub data Action : Type 0 where
  calls : Call → ℕ → ℕ → Tables → Action
  recovers : Delivery → ℕ → Action
  enqueues : ℕ → DeliveryTicket → Option ℕ → ℕ → Catalog → Action

unfoldable pub perform : Action → Tables → Result (Tables × Delivery) StorageError
perform (calls call id now seen) t = operate (decide call) id now seen t
perform (recovers d now) t = recover_one d now t
perform (enqueues id ticket approval now catalog) t = enqueue id ticket approval now catalog t

-- An operation that fails leaves the tables as they were.
abbrev pub after : Tables → Result (Tables × Delivery) StorageError → Tables
after t (ok (t', d)) = t'
after t (err e) = t

unfoldable pub run : List Action → Tables → Tables
run [] t = t
run (a ∷ actions) t = run actions (after t (perform a t))

abbrev pub no_deliveries : Tables
no_deliveries = record { deliveries = []; events = []; receipts = [] }

SentIn-le : (s : DeliveryState) (n : ℕ) → SentIn s n → n ≤ 1
SentIn-le cancelled n h = h
SentIn-le queued n h = omega arith
SentIn-le sending n h = omega arith
SentIn-le accepted n h = omega arith
SentIn-le completed n h = omega arith
SentIn-le aborted n h = omega arith
SentIn-le rejected n h = omega arith
SentIn-le unknown n h = omega arith

insert-IsHistory :
    (id : ℕ) (ticket : DeliveryTicket) (now : ℕ) (t : Tables)
    → IsHistory t
    → find id t.deliveries ≡ none
    → let d = new_delivery id ticket in
      IsHistory (record t {
        deliveries = t.deliveries ++ (id, row_of d) ∷ [];
        events = t.events ++ event d now ∷ [];
      })
unfolding event same_state is_final
insert-IsHistory id ticket now t h f j =
    let d = new_delivery id ticket in
    rw (find-append id j (row_of d) t.deliveries f, sends-append j t.events (event d now))
      (elim (Bool-cases (id == j)) [
        | inl own ↦
            let here = (==_iff id j).0 own in
            let old : Holds j none (sends j t.events) (receipts_of j t.receipts) =
              subst (λ o. Holds j o (sends j t.events) (receipts_of j t.receipts))
                (ap (λ i. find i t.deliveries) (sym here) ∙ f) (h j) in
            rw own (record {
              keyed = (refl, here);
              sends_fit = omega (arith, old.sends_fit);
              receipted = old.receipted;
            })
        | inr other ↦
            let none_sent : sends j t.events + 0 ≡ sends j t.events = omega arith in
            rw other (rw none_sent (h j))
      ])

insert_or_ignore-IsHistory :
    (id : ℕ) (ticket : DeliveryTicket) (now : ℕ) (jobs : List JobRow) (t : Tables)
    → IsHistory t
    → IsHistory (insert_or_ignore (new_delivery id ticket) now jobs t)
unfolding insert_or_ignore
insert_or_ignore-IsHistory id ticket now jobs t h = elim (Option-cases (find id t.deliveries)) [
  | inr (row, e) ↦ rw (insert_or_ignore, e) h
  | inl e ↦ elim (Bool-cases (has_completed_job ticket.source_job jobs)) [
    | inl ready ↦ rw (insert_or_ignore, e, ready) (insert-IsHistory id ticket now t h e)
    | inr busy ↦ rw (insert_or_ignore, e, busy) h
  ]
]

pub enqueue-tables :
    (id : ℕ) (ticket : DeliveryTicket) (approval : Option ℕ) (now : ℕ) (catalog : Catalog)
    (t t' : Tables) (d : Delivery)
    → enqueue id ticket approval now catalog t ≡ ok (t', d)
    → insert_or_ignore (new_delivery id ticket) now catalog.jobs t ≡ t'
unfolding enqueue
enqueue-tables id ticket approval now catalog t t' d e =
    let (good, e1) = reject_if-eq-ok (bad_ticket ticket) _ _ e in
    let (ready, e2) =
      reject_if-eq-ok
        (not (color_is_ready ticket.color_attempt_id ticket.source_job catalog.color_attempts)) _ _
        e1 in
    let (approved, e3) =
      reject_if-eq-ok (not (is_approved approval id ticket now catalog.approvals)) _ _ e2 in
    let (row, found, e4) =
      >>=-eq-ok
        (ok_or (find id (insert_or_ignore (new_delivery id ticket) now catalog.jobs t).deliveries)
          conflict)
        _ e3 in
    let (same, e5) = reject_if-eq-ok (not (same_ticket row.payload.ticket ticket)) _ _ e4 in cc

pub perform-IsHistory :
    (a : Action) (t t' : Tables) (d : Delivery)
    → IsHistory t
    → perform a t ≡ ok (t', d)
    → IsHistory t'
unfolding perform recover_one
perform-IsHistory (calls call id now seen) t t' d h e =
    operate-IsHistory call id now seen t t' d h e
perform-IsHistory (recovers d0 now) t t' d h e =
    update-IsHistory (record d0 { state = unknown; reason = some (codes "SENDER_LEASE_EXPIRED") })
      sending d0.revision none now t t' d h Diagram.lose e
perform-IsHistory (enqueues id ticket approval now catalog) t t' d h e =
    subst IsHistory (enqueue-tables id ticket approval now catalog t t' d e)
      (insert_or_ignore-IsHistory id ticket now catalog.jobs t h)

step-IsHistory : (a : Action) (t : Tables) → IsHistory t → IsHistory (after t (perform a t))
step-IsHistory a t h = elim (Result-cases (perform a t)) [
  | inl ((t', d), e) ↦ rw e (perform-IsHistory a t t' d h e)
  | inr (e', e) ↦ rw e h
]

pub run-IsHistory : (actions : List Action) (t : Tables) → IsHistory t → IsHistory (run actions t)
unfolding run
run-IsHistory [] t h = h
run-IsHistory (a ∷ actions) t h =
    run-IsHistory actions (after t (perform a t)) (step-IsHistory a t h)

Sent-le : (row : Option Row) (n : ℕ) → Sent row n → n ≤ 1
Sent-le none n h = omega arith
Sent-le (some row) n h = SentIn-le row.state n h

pub no_deliveries-IsHistory : IsHistory no_deliveries
unfolding find sends receipts_of
no_deliveries-IsHistory id = record { keyed = tt; sends_fit = refl; receipted = refl }

-- Whatever actions run on the empty tables, in whatever order and however stale the tables that they read:
-- the sending of a delivery is recorded at most once, so that no lease that ran out, no recovery, no
-- reconciliation and no repeated request makes it sendable again.
pub sent_once : (actions : List Action) (id : ℕ) → sends id (run actions no_deliveries).events ≤ 1
sent_once actions id =
    Sent-le (find id (run actions no_deliveries).deliveries)
      (sends id (run actions no_deliveries).events)
      (run-IsHistory actions no_deliveries no_deliveries-IsHistory id).sends_fit

-- Whatever actions run on the empty tables: a delivery that has ended, completed, cancelled, aborted
-- or rejected, has exactly one receipt, and no other delivery has one.
pub receipted_once :
    (actions : List Action) (id : ℕ)
    → let t = run actions no_deliveries in receipts_of id t.receipts ≡ ends (find id t.deliveries)
receipted_once actions id =
    (run-IsHistory actions no_deliveries no_deliveries-IsHistory id).receipted
