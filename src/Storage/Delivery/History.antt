-- ===== src/Storage/Delivery/History.antt =====
-- crates/rip-storage/src/delivery.rs: what holds of the tables after every sequence of operations.
use rip_server.Common.{
  ℕ, ◌+◌, ◌≤◌, ◌≡◌, refl, sym, ap, subst, ◌∙◌, false, ◌&&◌, Option, none, some, ◌==◌, if◌then◌else◌,
  Bool-cases, inl, inr, ok, arith, >>=-eq-ok, ok_or, ==_iff,
}
use rip_server.Storage.{not_found}
use rip_server.Storage.Rows.{find, find-replace}
use rip_server.Storage.Delivery.{Delivery, DeliveryState, queued, sending, cancelled, same_state}
use rip_server.Storage.Delivery.Table.{Row, Tables, event, row_of, update_delivery}
use rip_server.Storage.Delivery.Operations.{Decision, answer, change, commit, operate}
use rip_server.Storage.Delivery.Diagram
use rip_server.Storage.Delivery.Diagram.{◌⟶◌}
use rip_server.Storage.Delivery.Update.{
  sends, sends-append, receipts_of, receipts_of-store, is_final, Written, update_delivery-Updated,
}

-- The sends of a delivery by its state: none in the queue, one in every state behind the send, and at
-- most one of a delivery that was cancelled.
abbrev pub SentIn : DeliveryState → ℕ → Type 0
SentIn queued n = n ≡ 0
SentIn cancelled n = n ≤ 1
SentIn _ n = n ≡ 1

abbrev pub Sent : Option Row → ℕ → Type 0
Sent none n = n ≡ 0
Sent (some row) n = SentIn row.state n

abbrev pub ends : Option Row → ℕ
ends none = 0
ends (some row) = if is_final row.state then 1 else 0

abbrev pub Keyed : ℕ → Option Row → Type 0
Keyed id none = Unit
Keyed id (some row) = (row ≡ row_of row.payload) × (row.payload.id ≡ id)

-- What holds of the row, the sends and the receipts of one id: the row repeats the columns of its
-- delivery and stands under its id; the sends fit the state; and a delivery has one receipt once it has
-- ended, and none before.
pub record Holds (id : ℕ) (row : Option Row) (sent receipts : ℕ) : Type 0 where
  pub keyed : Keyed id row
  pub sends_fit : Sent row sent
  pub receipted : receipts ≡ ends row

abbrev pub IsHistory : Tables → Type 0
IsHistory t =
    (id : ℕ) → Holds id (find id t.deliveries) (sends id t.events) (receipts_of id t.receipts)

SentIn-step :
    {s t : DeliveryState}
    → s ⟶ t
    → (n : ℕ) → SentIn s n
    → SentIn t (n + (if same_state t sending then 1 else 0))
unfolding same_state
SentIn-step Diagram.send n h = omega arith
SentIn-step Diagram.withdraw n h = omega arith
SentIn-step Diagram.accept n h = omega arith
SentIn-step Diagram.reject n h = omega arith
SentIn-step Diagram.lose n h = omega arith
SentIn-step Diagram.watch n h = omega arith
SentIn-step Diagram.complete n h = omega arith
SentIn-step Diagram.cancel n h = omega arith
SentIn-step Diagram.abort n h = omega arith
SentIn-step Diagram.find_accepted n h = omega arith
SentIn-step Diagram.find_completed n h = omega arith
SentIn-step Diagram.find_cancelled n h = omega arith
SentIn-step Diagram.find_aborted n h = omega arith

is_final-source : {s t : DeliveryState} → s ⟶ t → is_final s ≡ false
unfolding is_final
is_final-source Diagram.send = refl
is_final-source Diagram.withdraw = refl
is_final-source Diagram.accept = refl
is_final-source Diagram.reject = refl
is_final-source Diagram.lose = refl
is_final-source Diagram.find_accepted = refl
is_final-source Diagram.find_completed = refl
is_final-source Diagram.find_cancelled = refl
is_final-source Diagram.find_aborted = refl
is_final-source _ = refl

pub Written-IsHistory :
    (d : Delivery) (now : ℕ) (t t' : Tables) (row : Row)
    → IsHistory t
    → Written d now t t'
    → find d.id t.deliveries ≡ some row
    → row.state ⟶ d.state
    → IsHistory t'
unfolding event
Written-IsHistory d now t t' row h w f edge j =
    let found : find j t'.deliveries
        ≡ (if d.id == j then some (row_of d) else find j t.deliveries) =
      ap (find j) w.deliveries ∙ find-replace d.id j (row_of d) t.deliveries f in
    let sent : sends j t'.events
        ≡ sends j t.events + (if d.id == j && same_state d.state sending then 1 else 0) =
      ap (sends j) w.events ∙ sends-append j t.events (event d now) in
    let stored = receipts_of-store d t.receipts t'.receipts j w.receipts in
    rw (found, sent, stored)
      (elim (Bool-cases (d.id == j)) [
        | inl own ↦
            let here = (==_iff d.id j).0 own in
            let old : Holds j (some row) (sends j t.events) (receipts_of j t.receipts) =
              subst (λ o. Holds j o (sends j t.events) (receipts_of j t.receipts))
                (ap (λ i. find i t.deliveries) (sym here) ∙ f) (h j) in
            rw own (record {
              keyed = (refl, here);
              sends_fit = SentIn-step edge (sends j t.events) old.sends_fit;
              receipted = ground (arith, is_final-source edge, old.receipted);
            })
        | inr other ↦
            let none_sent : sends j t.events + 0 ≡ sends j t.events = omega arith in
            let none_stored : receipts_of j t.receipts
                  + (if is_final d.state && false then 1 else 0)
                ≡ receipts_of j t.receipts =
              ground arith in
            rw other (rw (none_sent, none_stored) (h j))
      ])

-- An update keeps the invariant.
pub update-IsHistory :
    (changed : Delivery) (previous : DeliveryState) (revision : ℕ) (run : Option ℕ) (now : ℕ)
    (t t' : Tables) (d : Delivery)
    → IsHistory t
    → previous ⟶ changed.state
    → update_delivery changed previous revision run now t ≡ ok (t', d)
    → IsHistory t'
update-IsHistory changed previous revision run now t t' d h edge e =
    let u = update_delivery-Updated changed previous revision run now t t' d e in
    Written-IsHistory d now t t' u.row h u.written
      (subst (λ (x : Delivery). find x.id t.deliveries ≡ some u.row) u.same u.found)
      (subst (λ (x : Delivery). u.row.state ⟶ x.state) u.same
        (subst (λ s. s ⟶ changed.state) (sym u.state) edge))

commit-IsHistory :
    (read : Delivery) (decision : Decision) (now : ℕ) (t t' : Tables) (d : Delivery)
    → IsHistory t
    → Diagram.IsSound read decision
    → commit decision now t ≡ ok (t', d)
    → IsHistory t'
unfolding commit
commit-IsHistory read (answer a) now t t' d h sound e =
    let same : t ≡ t' = cc in subst IsHistory same h
commit-IsHistory read (change changed previous revision run) now t t' d h sound e =
    update-IsHistory changed previous revision run now t t' d h sound.0 e

-- An operation on tables with the invariant keeps it, whatever the tables that it read.
pub operate-IsHistory :
    (call : Diagram.Call) (id now : ℕ) (seen t t' : Tables) (d : Delivery)
    → IsHistory t
    → operate (Diagram.decide call) id now seen t ≡ ok (t', d)
    → IsHistory t'
unfolding operate
operate-IsHistory call id now seen t t' d h e =
    let (row, found, e1) = >>=-eq-ok (ok_or (find id seen.deliveries) not_found) _ e in
    let (decision, decided, e2) = >>=-eq-ok (Diagram.decide call row.payload) _ e1 in
    commit-IsHistory row.payload decision now t t' d h
      (Diagram.decide-IsSound call row.payload decided) e2
