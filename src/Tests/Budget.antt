-- ===== src/Tests/Budget.antt =====
-- crates/rip-storage/src/budget.rs at concrete inputs.
use rip_server.Common.{◌+◌, ◌^◌, ◌*◌, ◌≤◌, ◌≡◌, refl, List, [], ◌∷◌, err}
use rip_server.Common.Bytes.{codes, bytes_eq}
use rip_server.Common.Division.{div_ceil}
use rip_server.Core.Document.{utf8_len, char_len}
use rip_server.Storage.{budget_exhausted}
use rip_server.Storage.Budget.{
  slot, configure, reserve, admit, hold, replay, reservation, release, sum_held, store_reservation,
}
use rip_server.Storage.Budget.Admission.{never_overcommitted}
use rip_server.Storage.Budget.Calls.{
  configures, reserves, releases, Call, perform, run, no_budget, sum_asked, room,
}

-- Two slots: the first two snapshots take them, and the third is held once the first is released.
abbrev calls : List Call
calls =
    configures (2 * slot)
    ∷ reserves 1 (codes "worker-a") 1 100
    ∷ reserves 2 (codes "worker-b") slot 101
    ∷ reserves 3 (codes "worker-c") 7 102
    ∷ releases 1 (codes "worker-a") slot 103
    ∷ reserves 3 (codes "worker-c") 7 104
    ∷ []

calls_hold :
    let b = run calls no_budget in
    (sum_held b.reservations ≡ 2 * slot) × (sum_asked b.reservations ≡ slot + 7)
unfolding run perform configure reserve admit hold replay reservation release sum_held sum_asked
    store_reservation div_ceil bytes_eq utf8_len char_len
calls_hold = (refl, refl)

third_waits :
    perform (reserves 3 (codes "worker-c") 7 102) (
      run
        (configures (2 * slot)
          ∷ reserves 1 (codes "worker-a") 1 100
          ∷ reserves 2 (codes "worker-b") slot 101
          ∷ [])
        no_budget)
    ≡ err budget_exhausted
unfolding run perform configure reserve admit hold replay reservation release sum_held
    store_reservation div_ceil bytes_eq utf8_len char_len
third_waits = refl

never_overcommitted_example :
    let b = run calls no_budget in
    (sum_asked b.reservations ≤ sum_held b.reservations)
    × (sum_held b.reservations ≤ room b.capacity)
    × (room b.capacity ≤ 2 ^ 40)
never_overcommitted_example = never_overcommitted calls
