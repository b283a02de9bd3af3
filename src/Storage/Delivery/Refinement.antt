-- ===== src/Storage/Delivery/Refinement.antt =====
-- crates/rip-storage/src/delivery.rs: every action on the deliveries follows the diagram of states.
use rip_server.Common.{
  ℕ, suc, ◌≡◌, refl, sym, ap, subst, ◌∙◌, ◌⊎◌, inl, inr, List, Option, none, some, ◌==◌,
  if◌then◌else◌, Bool-cases, Option-cases, ==_iff, ok, >>=-eq-ok, ok_or, arith,
}
use rip_server.Common.Bytes.{codes}
use rip_server.Storage.{not_found}
use rip_server.Storage.Rows.{find, find-append, find-replace}
use rip_server.Storage.Delivery.{Delivery, DeliveryState, queued, sending, unknown, DeliveryTicket}
use rip_server.Storage.Delivery.Table.{Row, Tables, row_of, update_delivery}
use rip_server.Storage.Delivery.Operations.{Decision, answer, change, commit, operate}
use rip_server.Storage.Delivery.Device.{recover_one}
use rip_server.Storage.Delivery.Diagram
use rip_server.Storage.Delivery.Diagram.{◌⟶◌, Call, decide, decide-IsSound, IsSound}
use rip_server.Storage.Delivery.Enqueue.{insert_or_ignore, new_delivery, has_completed_job, JobRow}
use rip_server.Storage.Delivery.Update.{update_delivery-Updated}
use rip_server.Storage.Delivery.History.{}
use rip_server.Storage.Delivery.Runs.{
  Action, calls, recovers, enqueues, perform, after, run, enqueue-tables,
}

-- The abstract view of one step on one delivery: it stays as it is; a new one starts in the queue at
-- revision 0; or it takes one edge of the diagram and its revision goes up by one.
abbrev pub Follows : Option Row → Option Row → Type 0
Follows none after =
    (after ≡ none) ⊎ ((new : Row) × (after ≡ some new) × (new.state ≡ queued) × (new.revision ≡ 0))
Follows (some old) after =
    (new : Row) × (after ≡ some new)
    × ((new ≡ old) ⊎ ((old.state ⟶ new.state) × (new.revision ≡ suc old.revision)))

Follows-refl : (o : Option Row) → Follows o o
Follows-refl none = inl refl
Follows-refl (some row) = (row, refl, inl refl)

update-Follows :
    (changed : Delivery) (previous : DeliveryState) (revision : ℕ) (run : Option ℕ) (now : ℕ)
    (t t' : Tables) (d : Delivery)
    → previous ⟶ changed.state
    → update_delivery changed previous revision run now t ≡ ok (t', d)
    → (j : ℕ) → Follows (find j t.deliveries) (find j t'.deliveries)
update-Follows changed previous revision run now t t' d edge e j =
    let u = update_delivery-Updated changed previous revision run now t t' d e in
    let f = subst (λ (x : Delivery). find x.id t.deliveries ≡ some u.row) u.same u.found in
    let found : find j t'.deliveries
        ≡ (if d.id == j then some (row_of d) else find j t.deliveries) =
      ap (find j) u.written.deliveries ∙ find-replace d.id j (row_of d) t.deliveries f in
    let step =
      subst (λ (x : Delivery). u.row.state ⟶ x.state) u.same
        (subst (λ s. s ⟶ changed.state) (sym u.state) edge) in
    let next : d.revision ≡ suc u.row.revision =
      omega (arith, ap (λ (x : Delivery). x.revision) u.same, u.current) in
    elim (Bool-cases (d.id == j)) [
      | inl own ↦
          let here = ap (λ i. find i t.deliveries) (sym ((==_iff d.id j).0 own)) ∙ f in
          let there : find j t'.deliveries ≡ some (row_of d) = found ∙ ground arith in
          rw (here, there) (row_of d, refl, inr (step, next))
      | inr other ↦
          let there : find j t'.deliveries ≡ find j t.deliveries = found ∙ ground arith in
          rw there (Follows-refl (find j t.deliveries))
    ]

commit-Follows :
    (read : Delivery) (decision : Decision) (now : ℕ) (t t' : Tables) (d : Delivery)
    → IsSound read decision
    → commit decision now t ≡ ok (t', d)
    → (j : ℕ) → Follows (find j t.deliveries) (find j t'.deliveries)
unfolding commit
commit-Follows read (answer a) now t t' d sound e j =
    let same : t ≡ t' = cc in
    subst (λ (x : Tables). Follows (find j t.deliveries) (find j x.deliveries)) same
      (Follows-refl (find j t.deliveries))
commit-Follows read (change changed previous revision run) now t t' d sound e j =
    update-Follows changed previous revision run now t t' d sound.0 e j

insert-Follows :
    (id : ℕ) (ticket : DeliveryTicket) (now : ℕ) (jobs : List JobRow) (t : Tables) (j : ℕ)
    → Follows
        (find j t.deliveries)
        (find j (insert_or_ignore (new_delivery id ticket) now jobs t).deliveries)
unfolding insert_or_ignore
insert-Follows id ticket now jobs t j = elim (Option-cases (find id t.deliveries)) [
  | inr (row, e) ↦ rw (insert_or_ignore, e) (Follows-refl (find j t.deliveries))
  | inl e ↦ elim (Bool-cases (has_completed_job ticket.source_job jobs)) [
    | inr busy ↦ rw (insert_or_ignore, e, busy) (Follows-refl (find j t.deliveries))
    | inl ready ↦
        rw
          (
            insert_or_ignore,
            e,
            ready,
            find-append id j (row_of (new_delivery id ticket)) t.deliveries e,
          )
          (elim (Bool-cases (id == j)) [
            | inl own ↦
                let here = ap (λ i. find i t.deliveries) (sym ((==_iff id j).0 own)) ∙ e in
                rw (own, here) (inr (row_of (new_delivery id ticket), refl, refl, refl))
            | inr other ↦ rw other (Follows-refl (find j t.deliveries))
          ])
  ]
]

-- Every action that succeeds, an operation that read any tables, a recovery or an insertion, refines the
-- diagram of states: each delivery of the tables stays as it is or takes one edge of the diagram while its
-- revision goes up by one, and a delivery that was not there is still missing or starts in the queue at
-- revision 0.
pub perform-Follows :
    (a : Action) (t t' : Tables) (d : Delivery)
    → perform a t ≡ ok (t', d)
    → (j : ℕ) → Follows (find j t.deliveries) (find j t'.deliveries)
unfolding perform recover_one operate
perform-Follows (calls call id now seen) t t' d e j =
    let (row, found, e1) = >>=-eq-ok (ok_or (find id seen.deliveries) not_found) _ e in
    let (decision, decided, e2) = >>=-eq-ok (decide call row.payload) _ e1 in
    commit-Follows row.payload decision now t t' d (decide-IsSound call row.payload decided) e2 j
perform-Follows (recovers d0 now) t t' d e j =
    update-Follows (record d0 { state = unknown; reason = some (codes "SENDER_LEASE_EXPIRED") })
      sending d0.revision none now t t' d Diagram.lose e j
perform-Follows (enqueues id ticket approval now catalog) t t' d e j =
    subst (λ (x : Tables). Follows (find j t.deliveries) (find j x.deliveries))
      (enqueue-tables id ticket approval now catalog t t' d e)
      (insert-Follows id ticket now catalog.jobs t j)
