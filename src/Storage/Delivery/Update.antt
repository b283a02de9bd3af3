-- ===== src/Storage/Delivery/Update.antt =====
-- crates/rip-storage/src/delivery.rs: what a successful `update_delivery` and a receipt have done.
use rip_server.Common.{
  ℕ, suc, ◌+◌, ◌≡◌, refl, sym, ◌⊎◌, inl, inr, ap, subst, ◌∙◌, Bool, true, false, not, ◌&&◌, List,
  [], ◌∷◌, ◌++◌, Option, none, some, ◌==◌, if◌then◌else◌, ok, >>=-eq-ok, reject_if-eq-ok, ok_or,
  arith,
}
use rip_server.Storage.{conflict, ReceiptStatus}
use rip_server.Storage.Rows.{find, replace}
use rip_server.Storage.Delivery.{
  Delivery, DeliveryState, queued, sending, accepted, completed, cancelled, aborted, rejected,
  unknown, same_state,
}
use rip_server.Storage.Delivery.Table.{
  Row, Tables, DeliveryEvent, DeliveryReceipt, event, store, status_of, insert_receipt, is_current,
  row_of, next_revision, write, update_delivery,
}
use rip_server.Storage.Delivery.Diagram.{same_state-eq}

-- The sends of a delivery, by its events.
abbrev pub is_send : ℕ → DeliveryEvent → Bool
is_send id e = e.delivery_id == id && same_state e.state sending

unfoldable pub sends : ℕ → List DeliveryEvent → ℕ
sends id [] = 0
sends id (e ∷ events) = (if is_send id e then 1 else 0) + sends id events

pub sends-append :
    (id : ℕ) (events : List DeliveryEvent) (e : DeliveryEvent)
    → sends id (events ++ e ∷ []) ≡ sends id events + (if is_send id e then 1 else 0)
unfolding sends
sends-append id [] e = omega arith
sends-append id (f ∷ events) e = omega (arith, sends-append id events e)

-- The receipts of a delivery.
unfoldable pub receipts_of : ℕ → List DeliveryReceipt → ℕ
receipts_of id [] = 0
receipts_of id (r ∷ receipts) = (if r.delivery_id == id then 1 else 0) + receipts_of id receipts

pub receipts_of-append :
    (id : ℕ) (receipts : List DeliveryReceipt) (r : DeliveryReceipt)
    → receipts_of id (receipts ++ r ∷ [])
      ≡ receipts_of id receipts + (if r.delivery_id == id then 1 else 0)
unfolding receipts_of
receipts_of-append id [] r = omega arith
receipts_of-append id (q ∷ receipts) r = omega (arith, receipts_of-append id receipts r)

-- The states in which a delivery has ended.
unfoldable pub is_final : DeliveryState → Bool
is_final completed = true
is_final cancelled = true
is_final aborted = true
is_final rejected = true
is_final queued = false
is_final sending = false
is_final accepted = false
is_final unknown = false

-- `store` takes exactly these for the states with a receipt.
status_of-is_final :
    (s : DeliveryState)
    → ((status_of s ≡ none) × (is_final s ≡ false))
      ⊎ ((status : ReceiptStatus) × (status_of s ≡ some status) × (is_final s ≡ true))
unfolding status_of is_final
status_of-is_final completed = inr (ReceiptStatus.succeeded, refl, refl)
status_of-is_final cancelled = inr (ReceiptStatus.cancelled_receipt, refl, refl)
status_of-is_final aborted = inr (ReceiptStatus.failed, refl, refl)
status_of-is_final rejected = inr (ReceiptStatus.failed, refl, refl)
status_of-is_final queued = inl (refl, refl)
status_of-is_final sending = inl (refl, refl)
status_of-is_final accepted = inl (refl, refl)
status_of-is_final unknown = inl (refl, refl)

-- `store` adds one receipt of the delivery, in the states that end it.
pub receipts_of-store :
    (d : Delivery) (receipts receipts' : List DeliveryReceipt) (id : ℕ)
    → store d receipts ≡ ok receipts'
    → receipts_of id receipts'
      ≡ receipts_of id receipts + (if is_final d.state && d.id == id then 1 else 0)
unfolding store insert_receipt
receipts_of-store d receipts receipts' id e = elim (status_of-is_final d.state) [
  | inl (no_status, going) ↦ ground (arith, e, no_status, going)
  | inr (status, known, ended) ↦ ground (
    arith,
    e,
    known,
    ended,
    receipts_of-append id receipts (record { delivery_id = d.id; status = status; result = d }),
  )
]

is_current-eq :
    (row : Row) (previous : DeliveryState) (revision : ℕ) (run : Option ℕ) (now : ℕ)
    → is_current row previous revision run now ≡ true
    → (row.state ≡ previous) × (row.revision ≡ revision)
unfolding is_current
is_current-eq row previous revision run now h =
    (same_state-eq row.state previous (ground arith), ground arith)

pub ok_or-eq-ok {ℓ μ} :
    {A : Type ℓ} {E : Type μ} (o : Option A) (e : E) {a : A} → ok_or o e ≡ ok a → o ≡ some a
ok_or-eq-ok none e h = cc
ok_or-eq-ok (some b) e h = cc

next_revision-eq :
    (revision : ℕ) {next : ℕ} → next_revision revision ≡ some next → next ≡ suc revision
unfolding next_revision
next_revision-eq revision e = ground arith

-- What a commit has written.
pub record Written (d : Delivery) (now : ℕ) (tables tables' : Tables) : Type 0 where
  pub deliveries : tables'.deliveries ≡ replace d.id (row_of d) tables.deliveries
  pub events : tables'.events ≡ tables.events ++ event d now ∷ []
  pub receipts : store d tables.receipts ≡ ok tables'.receipts

write-Written :
    (d0 : Delivery) (now : ℕ) (tables tables' : Tables) (d : Delivery)
    → write d0 now tables ≡ ok (tables', d)
    → (d0 ≡ d) × Written d0 now tables tables'
unfolding write
write-Written d0 now tables tables' d e =
    let (receipts, stored, e1) = >>=-eq-ok (store d0 tables.receipts) _ e in
    (cc, record { deliveries = cc; events = cc; receipts = stored ∙ cc })

-- What a successful update has found and written.
pub record Updated (changed : Delivery) (previous : DeliveryState) (revision now : ℕ)
    (tables tables' : Tables) (d : Delivery) : Type 0 where
  pub row : Row
  pub found : find changed.id tables.deliveries ≡ some row
  pub state : row.state ≡ previous
  pub current : row.revision ≡ revision
  pub same : record changed { revision = suc revision } ≡ d
  pub written : Written d now tables tables'

pub update_delivery-Updated :
    (changed : Delivery) (previous : DeliveryState) (revision : ℕ) (run : Option ℕ) (now : ℕ)
    (tables tables' : Tables) (d : Delivery)
    → update_delivery changed previous revision run now tables ≡ ok (tables', d)
    → Updated changed previous revision now tables tables' d
unfolding update_delivery
update_delivery-Updated changed previous revision run now tables tables' d e =
    let (next, counted, e1) = >>=-eq-ok (ok_or (next_revision revision) conflict) _ e in
    let (row, found, e2) = >>=-eq-ok (ok_or (find changed.id tables.deliveries) conflict) _ e1 in
    let (current, e3) = reject_if-eq-ok (not (is_current row previous revision run now)) _ _ e2 in
    let (same, written) =
      write-Written (record changed { revision = next }) now tables tables' d e3 in
    let one = next_revision-eq revision (ok_or-eq-ok (next_revision revision) conflict counted) in
    let (state, at) = is_current-eq row previous revision run now (ground arith) in
    record {
      row = row;
      found = ok_or-eq-ok (find changed.id tables.deliveries) conflict found;
      state = state;
      current = at;
      same = ap (λ n. record changed { revision = n }) (sym one) ∙ same;
      written = subst (λ x. Written x now tables tables') same written;
    }
