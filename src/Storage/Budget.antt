-- ===== src/Storage/Budget.antt =====
-- crates/rip-storage/src/budget.rs: the bytes that snapshots may take, and the reservations that hold
-- them. A reservation's row repeats its owner, bytes and state in columns; the model has them once.
pub mod Calls
pub mod Admission
use rip_server.Common.{
  ℕ, ◌+◌, ◌*◌, ◌%◌, Bool, true, false, not, ◌&&◌, ◌||◌, List, [], ◌∷◌, ◌++◌, Option, none, some,
  ltb, ◌==◌, within, is_empty, if◌then◌else◌, Result, ok, err, ◌>>=◌, ◌>>◌, reject_if, ok_or,
}
use rip_server.Common.Bytes.{bytes_eq}
use rip_server.Common.Division.{div_ceil}
use rip_server.Core.Document.{utf8_len}
use rip_server.Storage.{StorageError, conflict, db, not_found, budget_exhausted, Text}

abbrev pub slot : ℕ
slot = 16777216

abbrev pub default_capacity : ℕ
default_capacity = 1073741824

pub data ReservationState : Type 0 where
  held released : ReservationState

pub record Reservation : Type 0 where
  pub id : ℕ
  pub owner : Text
  pub bytes : ℕ
  pub requested_bytes : ℕ
  pub state : ReservationState
  pub created_at : ℕ
  pub released_at : Option ℕ

-- The one row of `snapshot_budget`, and the rows of `snapshot_reservations`.
pub record Budget : Type 0 where
  pub capacity : Option ℕ
  pub reservations : List Reservation

abbrev pub insert_capacity : Option ℕ → ℕ → ℕ
insert_capacity none capacity = capacity
insert_capacity (some stored) capacity = stored

-- `configure_snapshot_budget`
unfoldable pub configure : ℕ → Budget → Result Budget StorageError
configure capacity b = do
  reject_if (not (within slot (1024 * default_capacity) capacity) || not (capacity % slot == 0))
      conflict
  let stored = insert_capacity b.capacity capacity
  reject_if (not (stored == capacity)) conflict
  ok (record b { capacity = some stored })

-- `SELECT payload … WHERE id=?`
unfoldable pub reservation : ℕ → List Reservation → Option Reservation
reservation id [] = none
reservation id (r ∷ rs) = if r.id == id then some r else reservation id rs

-- The bytes of a reservation that is held.
abbrev pub held_bytes : Reservation → ReservationState → ℕ
held_bytes r held = r.bytes
held_bytes r released = 0

-- `SUM(bytes) … WHERE state='HELD'`
unfoldable pub sum_held : List Reservation → ℕ
sum_held [] = 0
sum_held (r ∷ rs) = held_bytes r r.state + sum_held rs

-- The bytes in whole slots.
abbrev pub in_slots : ℕ → ℕ
in_slots bytes = div_ceil bytes slot * slot

-- A reservation that is stored under the id already is the answer, if it is for the same.
unfoldable pub replay : Reservation → Text → ℕ → Budget → Result (Budget × Reservation) StorageError
replay r owner bytes b = do
  reject_if
      (not (bytes_eq r.owner owner)
        || not (r.bytes == in_slots bytes)
        || not (r.requested_bytes == bytes))
      conflict
  ok (b, r)

abbrev pub new_reservation : ℕ → Text → ℕ → ℕ → Reservation
new_reservation id owner bytes now = record {
  id = id;
  owner = owner;
  bytes = in_slots bytes;
  requested_bytes = bytes;
  state = held;
  created_at = now;
  released_at = none;
}

-- A new reservation, if it fits what is left of the capacity.
unfoldable pub hold : ℕ → Text → ℕ → ℕ → Budget → Result (Budget × Reservation) StorageError
hold id owner bytes now b = do
  capacity ← ok_or b.capacity db
  reject_if (ltb capacity (sum_held b.reservations + in_slots bytes)) budget_exhausted
  let r = new_reservation id owner bytes now
  ok (record b { reservations = b.reservations ++ r ∷ [] }, r)

-- The reservation by what is stored under its id.
unfoldable pub admit :
    Option Reservation → ℕ → Text → ℕ → ℕ → Budget → Result (Budget × Reservation) StorageError
admit (some r) id owner bytes now b = replay r owner bytes b
admit none id owner bytes now b = hold id owner bytes now b

-- `reserve_snapshot`
unfoldable pub reserve : ℕ → Text → ℕ → ℕ → Budget → Result (Budget × Reservation) StorageError
reserve id owner bytes now b = do
  reject_if (not (within 1 default_capacity bytes) || is_empty owner || ltb 256 (utf8_len owner))
      conflict
  admit (reservation id b.reservations) id owner bytes now b

-- `UPDATE … WHERE id=?`
unfoldable pub store_reservation : Reservation → List Reservation → List Reservation
store_reservation new [] = []
store_reservation new (r ∷ rs) = if r.id == new.id then new ∷ rs else r ∷ store_reservation new rs

abbrev pub release_held :
    Reservation → ReservationState → ℕ → Budget → Result (Budget × Reservation) StorageError
release_held r released now b = ok (b, r)
release_held r held now b =
    let r' = record r { state = released; released_at = some now } in
    ok (record b { reservations = store_reservation r' b.reservations }, r')

-- `release_snapshot`
unfoldable pub release : ℕ → Text → ℕ → ℕ → Budget → Result (Budget × Reservation) StorageError
release id owner expected_bytes now b = do
  r ← ok_or (reservation id b.reservations) not_found
  reject_if (not (bytes_eq r.owner owner) || not (r.bytes == expected_bytes)) conflict
  release_held r r.state now b
