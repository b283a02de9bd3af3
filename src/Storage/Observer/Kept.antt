-- ===== src/Storage/Observer/Kept.antt =====
-- crates/rip-storage/src/printer_observer.rs: the statements of others leave the lease of an observer alone.
use native.Mathlib.Nat.{one-le-pow}
use rip_server.Common.{
  ℕ, ◌^◌, ◌≤◌, ◌<◌, ◌≡◌, ◌≢◌, refl, sym, ap, ◌∙◌, inl, inr, Bool-cases, Option-cases, Bool, true,
  false, List, [], ◌∷◌, Option, none, some, All, arith,
}
use rip_server.Common.Bytes.{bytes_eq, bytes_eq_iff}
use rip_server.Storage.{Text}
use rip_server.Storage.Observer.{
  Schedule, Schedules, ObserverLease, is_key, set, ensure, take_row, is_free, is_held, finish_row,
  first_schedule,
}

-- The statements that other connections run, each at its time.
pub data Action : Type 0 where
  ensures : Text → Text → Action
  takes : Text → Text → ℕ → ℕ → Action
  finishes : ObserverLease → Bool → ℕ → ℕ → ℕ → Action

unfoldable pub step : Action → Schedules → Schedules
step (ensures id binding) t = ensure id binding t
step (takes id binding run at) t = (take_row (t id binding) id binding run at t).0
step (finishes lease success interval max_backoff at) t =
    (finish_row (t lease.id lease.binding) lease success interval max_backoff at t).0

unfoldable pub run_all : List Action → Schedules → Schedules
run_all [] t = t
run_all (a ∷ actions) t = run_all actions (step a t)

-- A statement of another run, before a lease's end where it takes the row.
abbrev pub Foreign : ℕ → ℕ → Action → Type 0
Foreign run until (ensures id binding) = Unit
Foreign run until (takes id binding r at) = at < until
Foreign run until (finishes lease success interval max_backoff at) = lease.run ≢ run

-- The row of a key is leased to a run.
pub record IsLeased (id binding : Text) (run until : ℕ) (t : Schedules) : Type 0 where
  pub row : Schedule
  pub here : t id binding ≡ some row
  pub run_is : row.run_id ≡ some run
  pub until_is : row.lease_until ≡ some until

same_row :
    (i c id binding : Text) (t : Schedules) → is_key i c id binding ≡ true → t i c ≡ t id binding
same_row i c id binding t e =
    let first : bytes_eq i id ≡ true = ground (arith, e) in
    let second : bytes_eq c binding ≡ true = ground (arith, e) in
    ap (λ x. t x c) ((bytes_eq_iff i id).0 first)
    ∙ ap (λ x. t id x) ((bytes_eq_iff c binding).0 second)

set_other :
    (i c id binding : Text) (row : Schedule) (t : Schedules)
    → is_key i c id binding ≡ false
    → set i c row t id binding ≡ t id binding
set_other i c id binding row t e = ground (arith, e)

pub set_own :
    (i c id binding : Text) (row : Schedule) (t : Schedules)
    → is_key i c id binding ≡ true
    → set i c row t id binding ≡ some row
set_own i c id binding row t e = ground (arith, e)

pub key_refl : (id binding : Text) → is_key id binding id binding ≡ true
key_refl id binding = rw ((bytes_eq_iff id id).1 refl, (bytes_eq_iff binding binding).1 refl) refl

pub one_le_pow : (n : ℕ) → 1 ≤ 2 ^ n
one_le_pow n = omega (arith, one-le-pow n 2 (omega arith))

take_row-foreign :
    (o : Option Schedule) (i c id binding : Text) (run until r at : ℕ) (t : Schedules)
    (row : Schedule)
    → t i c ≡ o
    → t id binding ≡ some row
    → row.run_id ≡ some run
    → row.lease_until ≡ some until
    → at < until
    → (take_row o i c r at t).0 id binding ≡ some row
unfolding take_row is_free
take_row-foreign none i c id binding run until r at t row f here run_is until_is early = here
take_row-foreign (some s) i c id binding run until r at t row f here run_is until_is early =
    elim (Bool-cases (is_key i c id binding)) [
      | inr other ↦ elim (Bool-cases (is_free at s)) [
        | inl free ↦ rw (is_free, free) (set_other i c id binding _ t other ∙ here)
        | inr busy ↦ rw (is_free, busy) here
      ]
      | inl own ↦
          let same : some s ≡ some row = sym f ∙ same_row i c id binding t own ∙ here in
          let busy : is_free at s ≡ false = ground (arith, same, run_is, until_is, early) in
          rw (is_free, busy) here
    ]

finish_row-foreign :
    (o : Option Schedule) (lease : ObserverLease) (success : Bool) (interval max_backoff at : ℕ)
    (id binding : Text) (run : ℕ) (t : Schedules) (row : Schedule)
    → t lease.id lease.binding ≡ o
    → t id binding ≡ some row
    → row.run_id ≡ some run
    → lease.run ≢ run
    → (finish_row o lease success interval max_backoff at t).0 id binding ≡ some row
unfolding finish_row is_held
finish_row-foreign none lease success interval max_backoff at id binding run t row f here run_is
      other_run =
    here
finish_row-foreign (some s) lease success interval max_backoff at id binding run t row f here run_is
      other_run =
    elim (Bool-cases (is_held lease at s)) [
      | inr lost ↦ rw (is_held, lost) here
      | inl mine ↦ elim (Bool-cases (is_key lease.id lease.binding id binding)) [
        | inr other ↦
            rw (is_held, mine) (set_other lease.id lease.binding id binding _ t other ∙ here)
        | inl own ↦
            let same : some s ≡ some row =
              sym f ∙ same_row lease.id lease.binding id binding t own ∙ here in
            let not_mine : is_held lease at s ≡ false = ground (arith, same, run_is, other_run) in
            absurd (ground (arith, mine, not_mine))
      ]
    ]

ensure-kept :
    (i c id binding : Text) (t : Schedules) (row : Schedule)
    → t id binding ≡ some row
    → ensure i c t id binding ≡ some row
unfolding ensure
ensure-kept i c id binding t row here = elim (Option-cases (t i c)) [
  | inr (s, f) ↦ rw f here
  | inl missing ↦ elim (Bool-cases (is_key i c id binding)) [
    | inl own ↦ absurd (ground (arith, missing, here, same_row i c id binding t own))
    | inr other ↦ rw missing (set_other i c id binding first_schedule t other ∙ here)
  ]
]

step-kept :
    (a : Action) (id binding : Text) (run until : ℕ) (t : Schedules) (row : Schedule)
    → Foreign run until a
    → t id binding ≡ some row
    → row.run_id ≡ some run
    → row.lease_until ≡ some until
    → step a t id binding ≡ some row
unfolding step
step-kept (ensures i c) id binding run until t row foreign here run_is until_is =
    ensure-kept i c id binding t row here
step-kept (takes i c r at) id binding run until t row foreign here run_is until_is =
    take_row-foreign (t i c) i c id binding run until r at t row refl here run_is until_is foreign
step-kept (finishes lease success interval max_backoff at) id binding run until t row foreign here
      run_is until_is =
    finish_row-foreign (t lease.id lease.binding) lease success interval max_backoff at id binding
      run t row refl here run_is foreign

pub run_all-kept :
    (actions : List Action) (id binding : Text) (run until : ℕ) (t : Schedules) (row : Schedule)
    → All (Foreign run until) actions
    → t id binding ≡ some row
    → row.run_id ≡ some run
    → row.lease_until ≡ some until
    → run_all actions t id binding ≡ some row
unfolding run_all
run_all-kept [] id binding run until t row foreign here run_is until_is = here
run_all-kept (a ∷ actions) id binding run until t row foreign here run_is until_is =
    run_all-kept actions id binding run until (step a t) row foreign.1
      (step-kept a id binding run until t row foreign.0 here run_is until_is) run_is until_is
