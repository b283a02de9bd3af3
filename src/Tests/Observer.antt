-- ===== src/Tests/Observer.antt =====
-- crates/rip-storage/src/printer_observer.rs at concrete inputs.
use rip_server.Common.{◌≤◌, ◌≡◌, refl, ◌⊎◌, true, false, [], ◌∷◌, none, some, ok, err, arith}
use rip_server.Common.Bytes.{codes, bytes_eq}
use rip_server.Storage.{conflict, Text}
use rip_server.Storage.Delivery.Enqueue.{is_printer_byte, is_lower_hex, is_alphanumeric}
use rip_server.Storage.Observer.{
  Schedule, Schedules, ObserverLease, claim, finish, valid, not_due, ensure, take_row, lease_of,
  is_free,
}
use rip_server.Storage.Observer.Fence.{lease_holds}
use rip_server.Storage.Observer.Kept.{takes, run_all}
use rip_server.Storage.Observer.Stale.{late_refused}

abbrev printer : Text
printer = codes "lobby-1"

abbrev binding : Text
binding = codes "00000000000000000000000000000000000000000000000000000000000000af"

abbrev empty : Schedules
empty id b = none

abbrev lease : ObserverLease
lease = record { id = printer; binding = binding; run = 7; failures = 0 }

abbrev claimed : Schedules
claimed = (claim printer binding 7 100 empty empty (λ t. t)).0

first_claim : claim printer binding 7 100 empty empty (λ t. t) ≡ (claimed, ok (some lease))
unfolding claim valid is_printer_byte is_alphanumeric is_lower_hex not_due ensure take_row lease_of
    is_free bytes_eq
first_claim = refl

-- A second worker finds the printer taken.
second_waits : (claim printer binding 8 101 claimed claimed (λ t. t)).1 ≡ ok none
unfolding claim valid is_printer_byte is_alphanumeric is_lower_hex not_due ensure take_row lease_of
    is_free bytes_eq
second_waits = refl

lease_holds_example :
    (after : Schedules) × (row : Schedule) × (finish lease false 5 20 150
        (run_all (takes printer binding 8 120 ∷ []) claimed)
      ≡ ok (after, true))
    × (after printer binding ≡ some row)
    × (row.run_id ≡ none)
    × (155 ≤ row.next_at)
    × (row.next_at ≤ 170)
lease_holds_example =
    lease_holds printer binding 7 100 empty empty claimed (λ t. t) lease
      (takes printer binding 8 120 ∷ []) false 5 20 150 first_claim (omega arith, tt) (omega arith)
      refl refl refl

abbrev later_claim : Schedules
later_claim = (claim printer binding 9 160 claimed claimed (λ t. t)).0

-- The lease of the first run has ended, and a third run takes over.
taken_over :
    claim printer binding 9 160 claimed claimed (λ t. t)
    ≡ (later_claim, ok (some (record lease { run = 9 })))
unfolding claim valid is_printer_byte is_alphanumeric is_lower_hex not_due ensure take_row lease_of
    is_free bytes_eq
taken_over = refl

late_refused_example :
    (finish lease true 5 20 161 (run_all [] later_claim) ≡ ok (run_all [] later_claim, false))
    ⊎ (finish lease true 5 20 161 (run_all [] later_claim) ≡ err conflict)
late_refused_example =
    late_refused printer binding 9 160 claimed claimed later_claim (λ t. t)
      (record lease { run = 9 }) [] lease true 5 20 161 taken_over refl refl (omega arith) tt
