-- ===== src/Tests/Delivery.antt =====
-- crates/rip-storage/src/delivery.rs at concrete inputs.
use rip_server.Common.{◌≡◌, refl, ◌≤◌, ◌⊎◌, List, [], ◌∷◌, none, some, ok, err}
use rip_server.Common.Bytes.{codes, bytes_eq}
use rip_server.Core.Pages.{}
use rip_server.Core.Print.{one_sided, normal, is_simplex, is_normal}
use rip_server.Core.State
use rip_server.Storage.{conflict}
use rip_server.Storage.Rows.{find, replace}
use rip_server.Storage.Delivery.{DeliveryTicket, Delivery, sending, accepted, completed, same_state}
use rip_server.Storage.Delivery.Table.{
  Tables, update_delivery, is_current, is_held, next_revision, write, store, status_of, event,
  insert_receipt, not_positive,
}
use rip_server.Storage.Delivery.Operations.{
  operate, claim, finish, observe, lease_from, commit, is_long, is_not, is_past, is_send_result,
  is_terminal_observation,
}
use rip_server.Storage.Delivery.Device.{
  recover_sends, expired, is_expired, recover_each, recover_one,
}
use rip_server.Storage.Delivery.Enqueue.{
  Catalog, enqueue, bad_ticket, is_document_type, is_printer_byte, is_alphanumeric, is_lower_hex,
  is_media_byte, color_is_ready, is_approved, insert_or_ignore, has_completed_job, same_ticket,
  same_ranges, same_id, new_delivery,
}
use rip_server.Storage.Delivery.Diagram.{decide, claims, finishes, observes}
use rip_server.Storage.Delivery.Update.{sends, receipts_of}
use rip_server.Storage.Delivery.History.{ends, IsHistory}
use rip_server.Storage.Delivery.Runs.{
  Action, calls, enqueues, perform, run, no_deliveries, no_deliveries-IsHistory, run-IsHistory,
  sent_once, receipted_once,
}
use rip_server.Storage.Delivery.Versions.{unlost}
use rip_server.Storage.Delivery.Refinement.{Follows, perform-Follows}

abbrev ticket : DeliveryTicket
ticket = record {
  source_job = 7;
  copies = 1;
  sides = one_sided;
  sheet_back = normal;
  page_ranges = record { ranges = [] };
  color_attempt_id = none;
  printer_id = codes "lobby-1";
  artifact_sha256 = codes "00000000000000000000000000000000000000000000000000000000000000af";
  artifact_bytes = 2048;
  dpi = 600;
  document_type = codes "rgb_8";
  media = codes "iso_a4";
}

abbrev catalog : Catalog
catalog = record {
  jobs = record { id = 7; state = State.completed } ∷ [];
  color_attempts = [];
  approvals = [];
}

abbrev enqueued : List Action
enqueued = enqueues 1 ticket none 100 catalog ∷ []

abbrev in_queue : Tables
in_queue = run enqueued no_deliveries

abbrev claimed : List Action
claimed = calls (claims 0 42 100) 1 100 in_queue ∷ []

abbrev in_flight : Tables
in_flight = run claimed in_queue

-- The sender reports in time, and the device says that it has printed the pages.
abbrev printed : List Action
printed =
    calls (finishes 42 accepted (some 9) none 120) 1 120 in_flight
    ∷ calls (observes 2 completed) 1 130
        (run (calls (finishes 42 accepted (some 9) none 120) 1 120 in_flight ∷ []) in_flight)
    ∷ []

abbrev life : List Action
life = enqueues 1 ticket none 100 catalog ∷ calls (claims 0 42 100) 1 100 in_queue ∷ printed

printed_once :
    let t = run life no_deliveries in (sends 1 t.events ≡ 1) × (receipts_of 1 t.receipts ≡ 1)
unfolding run perform sends receipts_of finish is_long is_not is_past is_send_result not_positive
    observe is_terminal_observation insert_receipt operate find enqueue is_simplex is_normal
    bad_ticket is_document_type is_printer_byte is_alphanumeric is_lower_hex bytes_eq is_media_byte
    color_is_ready is_approved insert_or_ignore has_completed_job same_ticket same_ranges same_id
    claim same_state lease_from commit update_delivery is_current is_held next_revision write store
    status_of replace event
printed_once = (refl, refl)

abbrev claiming : Action
claiming = calls (claims 0 42 100) 1 100 in_queue

abbrev sent : Delivery
sent = record (new_delivery 1 ticket) {
  state = sending;
  revision = 1;
  run_id = some 42;
  lease_until = some 160;
}

claim_sends : perform claiming in_queue ≡ ok (in_flight, sent)
unfolding run perform operate find enqueue is_simplex is_normal bad_ticket is_document_type
    is_printer_byte is_alphanumeric is_lower_hex bytes_eq is_media_byte color_is_ready is_approved
    insert_or_ignore has_completed_job same_ticket same_ranges same_id claim same_state lease_from
    commit update_delivery is_current is_held next_revision write store status_of replace event
claim_sends = refl

-- A sender whose lease has run out can no longer report.
late_report :
    operate (decide (finishes 42 accepted (some 9) none 160)) 1 160 in_flight in_flight
    ≡ err conflict
unfolding run perform finish is_long is_not is_past is_send_result not_positive operate find enqueue
    is_simplex is_normal bad_ticket is_document_type is_printer_byte is_alphanumeric is_lower_hex
    bytes_eq is_media_byte color_is_ready is_approved insert_or_ignore has_completed_job same_ticket
    same_ranges same_id claim same_state lease_from commit update_delivery is_current is_held
    next_revision write store status_of replace event
late_report = refl

-- The send that ran out is uncertain.
lost_send : (recover_sends 160 160 in_flight in_flight).1 ≡ ok (1 ∷ [])
unfolding run perform recover_sends expired is_expired recover_each recover_one operate find enqueue
    is_simplex is_normal bad_ticket is_document_type is_printer_byte is_alphanumeric is_lower_hex
    bytes_eq is_media_byte color_is_ready is_approved insert_or_ignore has_completed_job same_ticket
    same_ranges same_id claim same_state lease_from commit update_delivery is_current is_held
    next_revision write store status_of replace event
lost_send = refl

sent_once_example : sends 1 (run life no_deliveries).events ≤ 1
sent_once_example = sent_once life 1

receipted_once_example :
    receipts_of 1 (run life no_deliveries).receipts
    ≡ ends (find 1 (run life no_deliveries).deliveries)
receipted_once_example = receipted_once life 1

perform-Follows_example : Follows (find 1 in_queue.deliveries) (find 1 in_flight.deliveries)
perform-Follows_example = perform-Follows claiming in_queue in_flight sent claim_sends 1

in_queue-IsHistory : IsHistory in_queue
in_queue-IsHistory = run-IsHistory enqueued no_deliveries no_deliveries-IsHistory

unlost_example :
    (in_flight ≡ run [] in_queue)
    ⊎ (find 1 (run [] in_queue).deliveries ≡ find 1 in_queue.deliveries)
unlost_example =
    unlost (claims 0 42 100) 1 100 in_queue [] in_flight sent in_queue-IsHistory
      (unfold run perform in claim_sends)
