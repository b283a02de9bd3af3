-- ===== src/Storage/Delivery/Versions.antt =====
-- crates/rip-storage/src/delivery.rs: no operation overwrites a change that it has not seen.
use rip_server.Common.{
  ℕ, ◌≡◌, refl, sym, ap, subst, ◌∙◌, ◌⊎◌, inl, inr, List, [], ◌∷◌, some, ok, Result-cases,
  >>=-eq-ok, ok_or, arith,
}
use rip_server.Common.Bytes.{}
use rip_server.Storage.{not_found}
use rip_server.Storage.Rows.{Later, Later-trans, find}
use rip_server.Storage.Delivery.{Delivery}
use rip_server.Storage.Delivery.Table.{Row, Tables, row_of}
use rip_server.Storage.Delivery.Operations.{Decision, answer, change, commit, operate}
use rip_server.Storage.Delivery.Device.{}
use rip_server.Storage.Delivery.Diagram.{Call, decide, decide-IsSound, IsSound}
use rip_server.Storage.Delivery.Enqueue.{}
use rip_server.Storage.Delivery.Update.{update_delivery-Updated, ok_or-eq-ok}
use rip_server.Storage.Delivery.History.{IsHistory, Keyed}
use rip_server.Storage.Delivery.Runs.{Action, perform, after, run}
use rip_server.Storage.Delivery.Refinement.{Follows, perform-Follows}

abbrev revision_of : Row → ℕ
revision_of row = row.revision

step-Later :
    (a : Action) (t : Tables) (j : ℕ) (old : Row)
    → find j t.deliveries ≡ some old
    → Later revision_of old (find j (after t (perform a t)).deliveries)
step-Later a t j old f = elim (Result-cases (perform a t)) [
  | inr (e', e) ↦ rw e (old, f, inl refl)
  | inl ((t', d), e) ↦
      let (new, there, step) =
        subst (λ o. Follows o (find j t'.deliveries)) f (perform-Follows a t t' d e j) in
      rw e (new, there, elim step [ inl same ↦ inl same | inr (edge, next) ↦ inr (omega arith) ])
]

run-Later :
    (actions : List Action) (t : Tables) (j : ℕ) (old : Row)
    → find j t.deliveries ≡ some old
    → Later revision_of old (find j (run actions t).deliveries)
unfolding run
run-Later [] t j old f = (old, f, inl refl)
run-Later (a ∷ actions) t j old f =
    let (mid, there, step) = step-Later a t j old f in
    Later-trans revision_of old mid (find j (run (a ∷ actions) t).deliveries) step
      (run-Later actions (after t (perform a t)) j mid there)

unlost-commit :
    (row : Row) (decision : Decision) (id now : ℕ) (t between t' : Tables) (d : Delivery)
    → IsSound row.payload decision
    → row ≡ row_of row.payload
    → row.payload.id ≡ id
    → Later revision_of row (find id between.deliveries)
    → commit decision now between ≡ ok (t', d)
    → (t' ≡ between) ⊎ (find id between.deliveries ≡ some row)
unfolding commit
unlost-commit row (answer a) id now t between t' d sound whole own later e = inl cc
unlost-commit row (change changed previous revision run) id now t between t' d sound whole own later
      e =
    let u = update_delivery-Updated changed previous revision run now between t' d e in
    let (new, there, step) = later in
    let at : find id between.deliveries ≡ some u.row =
      ap (λ i. find i between.deliveries) (sym (sound.3 ∙ own)) ∙ u.found in
    let same : new ≡ u.row = cc in
    elim step [
      | inl kept ↦ inr (there ∙ ap some kept)
      | inr newer ↦ absurd (
          omega (
            arith,
            newer,
            ap (λ (x : Row). x.revision) same,
            u.current,
            sound.2,
            ap (λ (x : Row). x.revision) whole,
          ))
    ]

-- No update is lost. An operation reads a delivery from tables that some sequence of operations could have
-- left (`IsHistory`), other connections run any actions, and then it commits and succeeds. Then it has
-- changed nothing, or the row of the delivery was still the one that it had read.
pub unlost :
    (call : Call) (id now : ℕ) (t : Tables) (between : List Action) (t' : Tables) (d : Delivery)
    → IsHistory t
    → operate (decide call) id now t (run between t) ≡ ok (t', d)
    → (t' ≡ run between t) ⊎ (find id (run between t).deliveries ≡ find id t.deliveries)
unfolding operate
unlost call id now t between t' d h e =
    let (row, read, e1) = >>=-eq-ok (ok_or (find id t.deliveries) not_found) _ e in
    let (decision, decided, e2) = >>=-eq-ok (decide call row.payload) _ e1 in
    let found = ok_or-eq-ok (find id t.deliveries) not_found read in
    let holds = subst (λ o. Keyed id o) found (h id).keyed in
    let result =
      unlost-commit row decision id now t (run between t) t' d
        (decide-IsSound call row.payload decided) holds.0 holds.1 (run-Later between t id row found)
        e2 in
    elim result [ inl same ↦ inl same | inr kept ↦ inr (kept ∙ sym found) ]
