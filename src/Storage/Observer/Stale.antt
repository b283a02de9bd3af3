-- ===== src/Storage/Observer/Stale.antt =====
-- crates/rip-storage/src/printer_observer.rs: the report of a run that has lost its lease is refused.
use rip_server.Common.{
  ℕ, ◌+◌, ◌≡◌, ◌≢◌, refl, sym, ap, ◌∙◌, ◌⊎◌, inl, inr, Bool-cases, Option-cases, Bool, false, List,
  [], ◌∷◌, Option, none, some, within, ◌||◌, not, All, ok, err, arith,
}
use rip_server.Storage.{conflict, Text}
use rip_server.Storage.Observer.{
  Schedule, Schedules, ObserverLease, is_key, set, ensure, take_row, is_free, is_held, claim,
  finish, finish_row, first_schedule, finished, bad_time, lease_seconds,
}
use rip_server.Storage.Observer.Fence.{claim-Granted}
use rip_server.Storage.Observer.Kept.{Action, ensures, takes, finishes, step, run_all}

-- A statement that does not claim for a run.
abbrev pub IsNotOf : ℕ → Action → Type 0
IsNotOf run (ensures id binding) = Unit
IsNotOf run (takes id binding r at) = r ≢ run
IsNotOf run (finishes lease success interval max_backoff at) = Unit

-- The row of a key is not leased to a run.
abbrev IsFree : ℕ → Text → Text → Schedules → Type 0
IsFree run id binding t = (row : Schedule) → t id binding ≡ some row → row.run_id ≢ some run

set-IsFree :
    (run : ℕ) (i c id binding : Text) (new : Schedule) (t : Schedules)
    → new.run_id ≢ some run
    → IsFree run id binding t
    → IsFree run id binding (set i c new t)
set-IsFree run i c id binding new t fresh h row f p = elim (Bool-cases (is_key i c id binding)) [
  | inl own ↦
      let same : some new ≡ some row = ground (arith, own, f) in fresh (ground (arith, same, p))
  | inr other ↦ h row (ground (arith, other, f)) p
]

step-IsFree :
    (run : ℕ) (a : Action) (id binding : Text) (t : Schedules)
    → IsNotOf run a
    → IsFree run id binding t
    → IsFree run id binding (step a t)
unfolding step ensure take_row finish_row
step-IsFree run (ensures i c) id binding t other h = elim (Option-cases (t i c)) [
  | inl missing ↦
      rw missing (set-IsFree run i c id binding first_schedule t (λ p. ground (arith, p)) h)
  | inr (row, f) ↦ rw f h
]
step-IsFree run (takes i c r at) id binding t other h = take_row-IsFree (t i c)
  where
    take_row-IsFree : (o : Option Schedule) → IsFree run id binding (take_row o i c r at t).0
    take_row-IsFree none = h
    take_row-IsFree (some row) = elim (Bool-cases (is_free at row)) [
      | inl free ↦
          rw (is_free, free)
            (set-IsFree run i c id binding
              (record row { run_id = some r; lease_until = some (at + lease_seconds) }) t
              (λ p. other (ground (arith, p))) h)
      | inr busy ↦ rw (is_free, busy) h
    ]
step-IsFree run (finishes lease success interval max_backoff at) id binding t other h =
    finish_row-IsFree (t lease.id lease.binding)
  where
    finish_row-IsFree :
        (o : Option Schedule)
        → IsFree run id binding (finish_row o lease success interval max_backoff at t).0
    finish_row-IsFree none = h
    finish_row-IsFree (some row) = elim (Bool-cases (is_held lease at row)) [
      | inl mine ↦
          rw (is_held, mine)
            (set-IsFree run lease.id lease.binding id binding
              (finished row lease success interval max_backoff at) t (λ p. ground (arith, p)) h)
      | inr lost ↦ rw (is_held, lost) h
    ]

run_all-IsFree :
    (run : ℕ) (actions : List Action) (id binding : Text) (t : Schedules)
    → All (IsNotOf run) actions
    → IsFree run id binding t
    → IsFree run id binding (run_all actions t)
unfolding run_all
run_all-IsFree run [] id binding t other h = h
run_all-IsFree run (a ∷ actions) id binding t other h =
    run_all-IsFree run actions id binding (step a t) other.1
      (step-IsFree run a id binding t other.0 h)

-- A report that comes too late changes nothing. After another run has been granted the observation of a
-- printer, and whatever statements run since, of which none claims for the earlier run again, a report of the
-- earlier run on this printer is refused, at any time, and leaves the table as it is.
pub late_refused :
    (id binding : Text) (run at : ℕ) (seen t t' : Schedules) (others : Schedules → Schedules)
    (granted : ObserverLease) (since : List Action) (late : ObserverLease) (success : Bool)
    (interval max_backoff later : ℕ)
    → claim id binding run at seen t others ≡ (t', ok (some granted))
    → late.id ≡ id
    → late.binding ≡ binding
    → run ≢ late.run
    → All (IsNotOf late.run) since
    → (finish late success interval max_backoff later (run_all since t')
        ≡ ok (run_all since t', false))
      ⊎ (finish late success interval max_backoff later (run_all since t') ≡ err conflict)
unfolding finish finish_row is_held
late_refused id binding run at seen t t' others granted since late success interval max_backoff
      later e own_id own_binding other quiet =
    let g = claim-Granted id binding run at seen t t' others granted e in
    let free : IsFree late.run id binding t' =
      λ row f p. other (ground (arith, g.leased.here, g.leased.run_is, f, p)) in
    let kept = run_all-IsFree late.run since id binding t' quiet free in
    elim (Bool-cases
      (not (within 5 3600 interval) || not (within interval 86400 max_backoff) || bad_time later)) [
        | inl bad ↦ inr (rw bad refl)
        | inr good ↦ inl (
            rw good (
              ap ok (
                refused (run_all since t' late.id late.binding) (λ row f. kept row (
                  ap (λ x. run_all since t' x binding) (sym own_id)
                  ∙ ap (λ x. run_all since t' late.id x) (sym own_binding)
                  ∙ f)))))
      ]
  where
    refused :
        (o : Option Schedule)
        → ((row : Schedule) → o ≡ some row → row.run_id ≢ some late.run)
        → finish_row o late success interval max_backoff later (run_all since t')
          ≡ (run_all since t', false)
    refused none h = refl
    refused (some row) h = elim (Bool-cases (is_held late later row)) [
      | inl mine ↦ absurd (h row refl (ground (arith, mine)))
      | inr lost ↦ rw (is_held, lost) refl
    ]
