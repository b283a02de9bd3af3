-- ===== src/Storage/Observer/Fence.antt =====
-- crates/rip-storage/src/printer_observer.rs: the lease of an observer fences the other workers off.
use native.Mathlib.Nat.{}
use rip_server.Common.{
  ℕ, ◌+◌, ◌*◌, ◌^◌, ◌≤◌, ◌<◌, ◌≡◌, refl, sym, ap, ◌∙◌, inl, inr, Bool-cases, Bool, true, false, not,
  ◌||◌, List, Option, none, some, within, All, ok, arith,
}
use rip_server.Common.Bytes.{}
use rip_server.Storage.{Text}
use rip_server.Storage.Observer.{
  Schedule, Schedules, ObserverLease, lease_seconds, is_key, set, ensure, take_row, lease_of,
  is_free, is_held, claim, finish, finish_row, finished, delay, next_failures, not_due, valid,
  bad_time,
}
use rip_server.Storage.Observer.Kept.{
  Action, IsLeased, run_all, Foreign, set_own, key_refl, one_le_pow, run_all-kept,
}

-- What a claim that is granted has done.
pub record Granted (id binding : Text) (run at : ℕ) (t : Schedules) (lease : ObserverLease)
    : Type 0 where
  pub leased : IsLeased id binding run (at + lease_seconds) t
  pub id_is : lease.id ≡ id
  pub binding_is : lease.binding ≡ binding
  pub lease_run : lease.run ≡ run

take_row-some :
    (o : Option Schedule) (id binding : Text) (run at : ℕ) (u : Schedules) (failures : ℕ)
    → (take_row o id binding run at u).1 ≡ some failures
    → (row : Schedule) × ((take_row o id binding run at u).0
        ≡ set id binding
            (record row { run_id = some run; lease_until = some (at + lease_seconds) })
            u)
unfolding take_row
take_row-some none id binding run at u failures e = ground (arith, e)
take_row-some (some row) id binding run at u failures e = elim (Bool-cases (is_free at row)) [
  | inr busy ↦ absurd (ground (arith, busy, e))
  | inl free ↦ (row, ground (arith, free))
]

lease_of-some :
    (id binding : Text) (run : ℕ) (o : Option ℕ) (lease : ObserverLease)
    → lease_of id binding run o ≡ ok (some lease)
    → (failures : ℕ) × (o ≡ some failures)
      × (lease ≡ record { id = id; binding = binding; run = run; failures = failures })
unfolding lease_of
lease_of-some id binding run none lease e = ground (arith, e)
lease_of-some id binding run (some failures) lease e = (failures, refl, ground (arith, e))

pub claim-Granted :
    (id binding : Text) (run at : ℕ) (seen t t' : Schedules) (others : Schedules → Schedules)
    (lease : ObserverLease)
    → claim id binding run at seen t others ≡ (t', ok (some lease))
    → Granted id binding run at t' lease
unfolding claim
claim-Granted id binding run at seen t t' others lease e =
    elim (Bool-cases (not (valid id binding) || bad_time at)) [
      | inl bad ↦ absurd (ground (arith, bad, e))
      | inr good ↦ elim (Bool-cases (not_due at (seen id binding))) [
        | inl wait ↦ absurd (ground (arith, good, wait, e))
        | inr due ↦
            let u = others (ensure id binding t) in
            let taken = take_row (u id binding) id binding run at u in
            let first : taken.0 ≡ t' = ground (arith, good, due, e) in
            let second : lease_of id binding run taken.1 ≡ ok (some lease) =
              ground (arith, good, due, e) in
            let (failures, got, shape) = lease_of-some id binding run taken.1 lease second in
            let (row, written) = take_row-some (u id binding) id binding run at u failures got in
            record {
              leased = record {
                row = record row { run_id = some run; lease_until = some (at + lease_seconds) };
                here =
                    ap (λ (x : Schedules). x id binding) (sym first ∙ written)
                    ∙ set_own id binding id binding _ u (key_refl id binding);
                run_is = refl;
                until_is = refl;
              };
              id_is = ap (λ (x : ObserverLease). x.id) shape;
              binding_is = ap (λ (x : ObserverLease). x.binding) shape;
              lease_run = ap (λ (x : ObserverLease). x.run) shape;
            }
      ]
    ]

delay-within :
    (success : Bool) (failures interval max_backoff : ℕ)
    → interval ≤ max_backoff
    → (interval ≤ delay success failures interval max_backoff)
      × (delay success failures interval max_backoff ≤ max_backoff)
unfolding delay
delay-within true failures interval max_backoff h = (omega arith, omega arith)
delay-within false failures interval max_backoff h =
    let grows : interval ≤ interval * 2 ^ failures = grind (arith, one_le_pow failures) in
    (omega (arith, grows, h), omega arith)

-- The holder of a lease can report. A worker is granted the observation of a printer, and other workers run any
-- statements, none of them a report of this very run, all claims before the lease ends; then the worker
-- reports before its lease ends, with an interval and a maximum in range. The report is taken, the
-- printer is free again, and its next observation waits for the interval at least and for the
-- maximum at most.
pub lease_holds :
    (id binding : Text) (run at : ℕ) (seen t t' : Schedules) (others : Schedules → Schedules)
    (lease : ObserverLease) (between : List Action) (success : Bool)
    (interval max_backoff later : ℕ)
    → claim id binding run at seen t others ≡ (t', ok (some lease))
    → All (Foreign run (at + lease_seconds)) between
    → later < at + lease_seconds
    → within 5 3600 interval ≡ true
    → within interval 86400 max_backoff ≡ true
    → bad_time later ≡ false
    → (after : Schedules) × (row : Schedule) × (finish lease success interval max_backoff later
          (run_all between t')
        ≡ ok (after, true))
      × (after id binding ≡ some row)
      × (row.run_id ≡ none)
      × (later + interval ≤ row.next_at)
      × (row.next_at ≤ later + max_backoff)
unfolding finish finish_row is_held
lease_holds id binding run at seen t t' others lease between success interval max_backoff later e
      foreign early usual capped timely =
    let g = claim-Granted id binding run at seen t t' others lease e in
    let kept =
      run_all-kept between id binding run (at + lease_seconds) t' g.leased.row foreign g.leased.here
        g.leased.run_is g.leased.until_is in
    let there : run_all between t' lease.id lease.binding ≡ some g.leased.row =
      ap (λ x. run_all between t' x lease.binding) g.id_is
      ∙ ap (λ x. run_all between t' id x) g.binding_is
      ∙ kept in
    let mine : is_held lease later g.leased.row ≡ true =
      ground (arith, g.leased.run_is, g.leased.until_is, g.lease_run, early) in
    let row = finished g.leased.row lease success interval max_backoff later in
    let own : is_key lease.id lease.binding id binding ≡ true =
      rw (g.id_is, g.binding_is) (key_refl id binding) in
    let waits =
      delay-within success (next_failures success lease.failures) interval max_backoff
        (ground (arith, capped)) in
    (
      set lease.id lease.binding row (run_all between t'),
      row,
      rw (usual, capped, timely, there, is_held, mine) refl,
      set_own lease.id lease.binding id binding row (run_all between t') own,
      refl,
      omega (arith, waits.0),
      omega (arith, waits.1),
    )
