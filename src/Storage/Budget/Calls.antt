-- ===== src/Storage/Budget/Calls.antt =====
-- crates/rip-storage/src/budget.rs: the calls on the budget, and what they keep.
use rip_server.Common.{
  ℕ, ◌+◌, ◌*◌, ◌≤◌, ◌≡◌, List, [], ◌∷◌, ◌++◌, Option, none, some, All, Result, ok, err, arith,
}
use rip_server.Common.Division.{}
use rip_server.Common.Bytes.{}
use rip_server.Core.Document.{}
use rip_server.Storage.{StorageError, Text}
use rip_server.Storage.Budget.{
  Budget, Reservation, ReservationState, held, released, held_bytes, sum_held, reservation,
  configure, reserve, release, default_capacity, store_reservation,
}

pub data Call : Type 0 where
  configures : ℕ → Call
  reserves : ℕ → Text → ℕ → ℕ → Call
  releases : ℕ → Text → ℕ → ℕ → Call

abbrev pub budget_of : Result (Budget × Reservation) StorageError → Result Budget StorageError
budget_of (ok (b, r)) = ok b
budget_of (err e) = err e

unfoldable pub perform : Call → Budget → Result Budget StorageError
perform (configures capacity) b = configure capacity b
perform (reserves id owner bytes now) b = budget_of (reserve id owner bytes now b)
perform (releases id owner bytes now) b = budget_of (release id owner bytes now b)

-- A call that fails leaves the budget as it was.
abbrev pub after : Budget → Result Budget StorageError → Budget
after b (ok b') = b'
after b (err e) = b

unfoldable pub run : List Call → Budget → Budget
run [] b = b
run (call ∷ calls) b = run calls (after b (perform call b))

abbrev pub no_budget : Budget
no_budget = record { capacity = none; reservations = [] }

-- The bytes that the clients have asked for and hold.
abbrev pub asked : Reservation → ReservationState → ℕ
asked r held = r.requested_bytes
asked r released = 0

unfoldable pub sum_asked : List Reservation → ℕ
sum_asked [] = 0
sum_asked (r ∷ rs) = asked r r.state + sum_asked rs

abbrev pub room : Option ℕ → ℕ
room none = 0
room (some capacity) = capacity

abbrev pub Covers : Reservation → Type 0
Covers r = r.requested_bytes ≤ r.bytes

pub record IsBudget (b : Budget) : Type 0 where
  pub fits : sum_held b.reservations ≤ room b.capacity
  pub bounded : room b.capacity ≤ 1024 * default_capacity
  pub covered : All Covers b.reservations

asked_le : (r : Reservation) (s : ReservationState) → Covers r → asked r s ≤ held_bytes r s
asked_le r held h = h
asked_le r released h = omega arith

pub sum_asked_le : (rs : List Reservation) → All Covers rs → sum_asked rs ≤ sum_held rs
unfolding sum_asked sum_held
sum_asked_le [] h = omega arith
sum_asked_le (r ∷ rs) h = omega (arith, asked_le r r.state h.0, sum_asked_le rs h.1)

pub sum_held-append :
    (rs : List Reservation) (r : Reservation)
    → sum_held (rs ++ r ∷ []) ≡ sum_held rs + held_bytes r r.state
unfolding sum_held
sum_held-append [] r = omega arith
sum_held-append (q ∷ rs) r = omega (arith, sum_held-append rs r)

pub Covers-append :
    (rs : List Reservation) (r : Reservation) → All Covers rs → Covers r → All Covers (rs ++ r ∷ [])
Covers-append [] r h g = (g, tt)
Covers-append (q ∷ rs) r h g = (h.0, Covers-append rs r h.1 g)

-- Storing a released reservation holds nothing more.
pub sum_held-store :
    (r : Reservation) (rs : List Reservation)
    → r.state ≡ released
    → sum_held (store_reservation r rs) ≤ sum_held rs
unfolding store_reservation sum_held
sum_held-store r [] e = omega arith
sum_held-store r (q ∷ rs) e = ground (arith, sum_held-store r rs e)

pub Covers-store :
    (r : Reservation) (rs : List Reservation)
    → All Covers rs
    → Covers r
    → All Covers (store_reservation r rs)
unfolding store_reservation
Covers-store r [] h g = tt
Covers-store r (q ∷ rs) h g = ground (arith, Covers-store r rs h.1 g)

pub Covers-reservation :
    (id : ℕ) (rs : List Reservation) (r : Reservation)
    → All Covers rs
    → reservation id rs ≡ some r
    → Covers r
unfolding reservation
Covers-reservation id [] r h e = ground arith
Covers-reservation id (q ∷ rs) r h e = ground (arith, Covers-reservation id rs r h.1)
