-- ===== src/Storage/Budget/Admission.antt =====
-- crates/rip-storage/src/budget.rs: sequences of calls never hold more than the capacity.
use rip_server.Common.{
  ℕ, ◌+◌, ◌*◌, ◌%◌, ◌^◌, ◌≤◌, ◌≡◌, refl, subst, not, ◌||◌, List, [], ◌∷◌, ◌++◌, Option, none, some,
  ltb, ◌==◌, ltb→le, inl, inr, Result, ok, err, Result-cases, >>=-eq-ok, reject_if-eq-ok, ok_or,
  within, is_empty, arith,
}
use rip_server.Common.Division.{div_ceil_cover}
use rip_server.Common.Bytes.{bytes_eq}
use rip_server.Core.Document.{utf8_len}
use rip_server.Storage.{StorageError, db, not_found, Text}
use rip_server.Storage.Budget.{
  Budget, Reservation, ReservationState, held, released, sum_held, reservation, configure, reserve,
  admit, hold, replay, release, release_held, insert_capacity, in_slots, slot, default_capacity,
  new_reservation, store_reservation,
}
use rip_server.Storage.Budget.Calls.{
  IsBudget, configures, reserves, releases, Call, budget_of, perform, after, run, no_budget,
  sum_asked, room, Covers, sum_asked_le, sum_held-append, Covers-append, sum_held-store,
  Covers-store, Covers-reservation,
}

insert_capacity-room : (o : Option ℕ) (capacity : ℕ) → room o ≤ insert_capacity o capacity
insert_capacity-room none capacity = omega arith
insert_capacity-room (some stored) capacity = omega arith

configure-IsBudget :
    (capacity : ℕ) (b b' : Budget) → IsBudget b → configure capacity b ≡ ok b' → IsBudget b'
unfolding configure
configure-IsBudget capacity b b' h e =
    let (good, e1) =
      reject_if-eq-ok
        (not (within slot (1024 * default_capacity) capacity) || not (capacity % slot == 0)) _ _
        e in
    let (same, e2) =
      reject_if-eq-ok (not (insert_capacity b.capacity capacity == capacity)) _ _ e1 in
    let next : Budget = record b { capacity = some (insert_capacity b.capacity capacity) } in
    let goal : IsBudget next = record {
      fits = omega (arith, h.fits, insert_capacity-room b.capacity capacity);
      bounded = ground arith;
      covered = h.covered;
    } in
    let same_budget : next ≡ b' = cc in subst IsBudget same_budget goal

hold-IsBudget :
    (id : ℕ) (owner : Text) (bytes now : ℕ) (b b' : Budget) (r : Reservation)
    → IsBudget b
    → hold id owner bytes now b ≡ ok (b', r)
    → IsBudget b'
unfolding hold
hold-IsBudget id owner bytes now b b' r h e =
    let (capacity, known, e1) = >>=-eq-ok (ok_or b.capacity db) _ e in
    let (fits, e2) =
      reject_if-eq-ok (ltb capacity (sum_held b.reservations + in_slots bytes)) _ _ e1 in
    let new = new_reservation id owner bytes now in
    let at : room b.capacity ≡ capacity = ground (arith, known) in
    let next : Budget = record b { reservations = b.reservations ++ new ∷ [] } in
    let goal : IsBudget next = record {
      fits = omega (arith, sum_held-append b.reservations new, at, ltb→le _ _ fits);
      bounded = h.bounded;
      covered =
          Covers-append b.reservations new h.covered (div_ceil_cover bytes slot (omega arith));
    } in
    let same_budget : next ≡ b' = cc in subst IsBudget same_budget goal

admit-IsBudget :
    (o : Option Reservation) (id : ℕ) (owner : Text) (bytes now : ℕ) (b b' : Budget)
    (r : Reservation)
    → IsBudget b
    → admit o id owner bytes now b ≡ ok (b', r)
    → IsBudget b'
unfolding admit replay
admit-IsBudget none id owner bytes now b b' r h e = hold-IsBudget id owner bytes now b b' r h e
admit-IsBudget (some old) id owner bytes now b b' r h e =
    let (same, e1) =
      reject_if-eq-ok
        (not (bytes_eq old.owner owner)
          || not (old.bytes == in_slots bytes)
          || not (old.requested_bytes == bytes))
        _ _ e in
    let kept : b ≡ b' = cc in subst IsBudget kept h

reserve-IsBudget :
    (id : ℕ) (owner : Text) (bytes now : ℕ) (b b' : Budget) (r : Reservation)
    → IsBudget b
    → reserve id owner bytes now b ≡ ok (b', r)
    → IsBudget b'
unfolding reserve
reserve-IsBudget id owner bytes now b b' r h e =
    let (good, e1) =
      reject_if-eq-ok
        (not (within 1 default_capacity bytes) || is_empty owner || ltb 256 (utf8_len owner)) _ _
        e in
    admit-IsBudget (reservation id b.reservations) id owner bytes now b b' r h e1

release_held-IsBudget :
    (r : Reservation) (s : ReservationState) (now : ℕ) (b b' : Budget) (r' : Reservation)
    → IsBudget b
    → Covers r
    → release_held r s now b ≡ ok (b', r')
    → IsBudget b'
release_held-IsBudget r released now b b' r' h covers e =
    let same : b ≡ b' = cc in subst IsBudget same h
release_held-IsBudget r held now b b' r' h covers e =
    let gone = record r { state = released; released_at = some now } in
    let next : Budget = record b { reservations = store_reservation gone b.reservations } in
    let goal : IsBudget next = record {
      fits = omega (arith, h.fits, sum_held-store gone b.reservations refl);
      bounded = h.bounded;
      covered = Covers-store gone b.reservations h.covered covers;
    } in
    let same_budget : next ≡ b' = cc in subst IsBudget same_budget goal

release-IsBudget :
    (id : ℕ) (owner : Text) (bytes now : ℕ) (b b' : Budget) (r : Reservation)
    → IsBudget b
    → release id owner bytes now b ≡ ok (b', r)
    → IsBudget b'
unfolding release
release-IsBudget id owner bytes now b b' r' h e =
    let (r, known, e1) = >>=-eq-ok (ok_or (reservation id b.reservations) not_found) _ e in
    let (same, e2) =
      reject_if-eq-ok (not (bytes_eq r.owner owner) || not (r.bytes == bytes)) _ _ e1 in
    let found : reservation id b.reservations ≡ some r = ground (arith, known) in
    release_held-IsBudget r r.state now b b' r' h
      (Covers-reservation id b.reservations r h.covered found) e2

budget_of-eq :
    (m : Result (Budget × Reservation) StorageError) (b : Budget)
    → budget_of m ≡ ok b
    → (r : Reservation) × (m ≡ ok (b, r))
budget_of-eq (ok (b', r)) b e = (r, cc)
budget_of-eq (err x) b e = ground arith

perform-IsBudget : (call : Call) (b b' : Budget) → IsBudget b → perform call b ≡ ok b' → IsBudget b'
unfolding perform
perform-IsBudget (configures capacity) b b' h e = configure-IsBudget capacity b b' h e
perform-IsBudget (reserves id owner bytes now) b b' h e =
    let (r, e1) = budget_of-eq (reserve id owner bytes now b) b' e in
    reserve-IsBudget id owner bytes now b b' r h e1
perform-IsBudget (releases id owner bytes now) b b' h e =
    let (r, e1) = budget_of-eq (release id owner bytes now b) b' e in
    release-IsBudget id owner bytes now b b' r h e1

run-IsBudget : (calls : List Call) (b : Budget) → IsBudget b → IsBudget (run calls b)
unfolding run
run-IsBudget [] b h = h
run-IsBudget (call ∷ calls) b h =
    run-IsBudget calls (after b (perform call b)) (elim (Result-cases (perform call b)) [
      | inl (b', e) ↦ rw e (perform-IsBudget call b b' h e)
      | inr (x, e) ↦ rw e h
    ])

-- Whatever calls configure the budget, reserve and release, from the empty tables on and in whatever order:
-- what the clients have asked for and hold fits the bytes that are held for them, these fit the capacity,
-- and the capacity is at most 2^40, so that no sum of the code overflows.
pub never_overcommitted :
    (calls : List Call)
    → let b = run calls no_budget in
      (sum_asked b.reservations ≤ sum_held b.reservations)
      × (sum_held b.reservations ≤ room b.capacity)
      × (room b.capacity ≤ 2 ^ 40)
never_overcommitted calls =
    let h =
      run-IsBudget calls no_budget
        (record { fits = unfold sum_held in omega arith; bounded = omega arith; covered = tt }) in
    (sum_asked_le (run calls no_budget).reservations h.covered, h.fits, h.bounded)
