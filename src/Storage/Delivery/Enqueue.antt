-- ===== src/Storage/Delivery/Enqueue.antt =====
-- crates/rip-storage/src/delivery.rs: `enqueue_approved_delivery`, which is `enqueue_contract_delivery`
-- without a physical contract.
use rip_server.Common.{
  ℕ, Bool, true, false, not, ◌&&◌, ◌||◌, List, [], ◌∷◌, ◌++◌, Option, none, some, ltb, ◌==◌, within,
  any, all, is_empty, length, if◌then◌else◌, Result, ok, ◌>>=◌, ◌>>◌, reject_if, ok_or,
}
use rip_server.Common.Bytes.{codes, bytes_eq}
use rip_server.Core.Pages.{PageRange, PageRanges}
use rip_server.Core.Print.{Sides, is_simplex, is_normal, same_sides, same_sheet_back}
use rip_server.Core.State.{JobState}
use rip_server.Core.State
use rip_server.Storage.{StorageError, conflict, Text}
use rip_server.Storage.Rows.{find}
use rip_server.Storage.Delivery.{DeliveryTicket, Delivery, queued}
use rip_server.Storage.Delivery.Table.{Tables, event, row_of}

-- What the insertion reads of a job, of a colour attempt and of an approval.
pub record JobRow : Type 0 where
  pub id : ℕ
  pub state : JobState

pub record ColorAttempt : Type 0 where
  pub id : ℕ
  pub source_job : ℕ
  pub is_completed : Bool

pub record Approval : Type 0 where
  pub id : ℕ
  pub is_revoked : Bool
  pub expires_at : ℕ
  pub request_id : ℕ
  pub job_id : ℕ
  pub printer_id : Text
  pub media : Text
  pub color_attempt_id : Option ℕ
  pub sides : Sides
  pub copies : ℕ
  pub page_ranges : PageRanges

pub record Catalog : Type 0 where
  pub jobs : List JobRow
  pub color_attempts : List ColorAttempt
  pub approvals : List Approval

-- `is_ascii_alphanumeric`, and a lower-case hexadecimal digit
unfoldable pub is_alphanumeric : ℕ → Bool
is_alphanumeric b = within b'a' b'z' b || within b'A' b'Z' b || within b'0' b'9' b

unfoldable pub is_lower_hex : ℕ → Bool
is_lower_hex b = within b'0' b'9' b || within b'a' b'f' b

unfoldable pub is_printer_byte : ℕ → Bool
is_printer_byte b = is_alphanumeric b || b == b'-' || b == b'_'

unfoldable pub is_media_byte : ℕ → Bool
is_media_byte b = is_alphanumeric b || b == b'-' || b == b'_' || b == b'.'

unfoldable pub is_document_type : Text → Bool
is_document_type t =
    bytes_eq t (codes "rgb_8") || bytes_eq t (codes "cmyk_8") || bytes_eq t (codes "black_8")

-- `MAX_DELIVERY_COPIES`
abbrev pub max_delivery_copies : ℕ
max_delivery_copies = 999

-- The guard on the ticket. The three texts pass only if they are ASCII, so that their lengths are in
-- bytes.
unfoldable pub bad_ticket : DeliveryTicket → Bool
unfolding is_document_type
bad_ticket t =
    is_simplex t.sides && not (is_normal t.sheet_back)
    || not (within 1 max_delivery_copies t.copies)
    || is_empty t.printer_id
    || ltb 128 (length t.printer_id)
    || not (all is_printer_byte t.printer_id)
    || not (length t.artifact_sha256 == 64)
    || not (all is_lower_hex t.artifact_sha256)
    || t.artifact_bytes == 0
    || ltb 33554432 t.artifact_bytes
    || not (within 72 2400 t.dpi)
    || not (is_document_type t.document_type)
    || is_empty t.media
    || ltb 128 (length t.media)
    || not (all is_media_byte t.media)

-- The derived equality of tickets.
unfoldable pub same_id : Option ℕ → Option ℕ → Bool
same_id none none = true
same_id (some a) (some b) = a == b
same_id _ _ = false

unfoldable pub same_ranges : List PageRange → List PageRange → Bool
same_ranges [] [] = true
same_ranges (r ∷ rs) (q ∷ qs) = r.first == q.first && r.last == q.last && same_ranges rs qs
same_ranges _ _ = false

unfoldable pub same_ticket : DeliveryTicket → DeliveryTicket → Bool
same_ticket a b =
    a.source_job == b.source_job
    && a.copies == b.copies
    && same_sides a.sides b.sides
    && same_sheet_back a.sheet_back b.sheet_back
    && same_ranges a.page_ranges.ranges b.page_ranges.ranges
    && same_id a.color_attempt_id b.color_attempt_id
    && bytes_eq a.printer_id b.printer_id
    && bytes_eq a.artifact_sha256 b.artifact_sha256
    && a.artifact_bytes == b.artifact_bytes
    && a.dpi == b.dpi
    && bytes_eq a.document_type b.document_type
    && bytes_eq a.media b.media

abbrev is_completed_state : JobState → Bool
is_completed_state State.completed = true
is_completed_state _ = false

unfoldable pub has_completed_job : ℕ → List JobRow → Bool
has_completed_job source jobs = any (λ j. j.id == source && is_completed_state j.state) jobs

-- The colour attempt of the ticket, where it has one, is a completed one of the same source.
unfoldable pub color_is_ready : Option ℕ → ℕ → List ColorAttempt → Bool
color_is_ready none source attempts = true
color_is_ready (some color) source attempts =
    any (λ a. a.id == color && a.source_job == source && a.is_completed) attempts

-- An approval that is neither revoked nor expired, and that was given for this very delivery.
unfoldable pub approves : Approval → ℕ → ℕ → DeliveryTicket → ℕ → Bool
approves a approval id t now =
    a.id == approval
    && not a.is_revoked
    && ltb now a.expires_at
    && a.request_id == id
    && a.job_id == t.source_job
    && bytes_eq a.printer_id t.printer_id
    && bytes_eq a.media t.media
    && same_id a.color_attempt_id t.color_attempt_id
    && same_sides a.sides t.sides
    && a.copies == t.copies
    && same_ranges a.page_ranges.ranges t.page_ranges.ranges

unfoldable pub is_approved : Option ℕ → ℕ → DeliveryTicket → ℕ → List Approval → Bool
is_approved none id t now approvals = true
is_approved (some approval) id t now approvals = any (λ a. approves a approval id t now) approvals

abbrev pub new_delivery : ℕ → DeliveryTicket → Delivery
new_delivery id ticket = record {
  id = id;
  ticket = ticket;
  state = queued;
  revision = 0;
  device_job_id = none;
  run_id = none;
  lease_until = none;
  reason = none;
  device_observation = none;
  device_query = none;
}

-- `INSERT OR IGNORE`, and the event of a row that is new.
unfoldable pub insert_or_ignore : Delivery → ℕ → List JobRow → Tables → Tables
unfolding has_completed_job
insert_or_ignore d now jobs tables = elim (find d.id tables.deliveries) [
  | some row ↦ tables
  | none ↦
      if has_completed_job d.ticket.source_job jobs
      then record tables {
        deliveries = tables.deliveries ++ (d.id, row_of d) ∷ [];
        events = tables.events ++ event d now ∷ [];
      }
      else tables
]

unfoldable pub enqueue :
    ℕ → DeliveryTicket → Option ℕ → ℕ → Catalog → Tables → Result (Tables × Delivery) StorageError
unfolding bad_ticket color_is_ready is_approved insert_or_ignore same_ticket
enqueue id ticket approval now catalog tables = do
  reject_if (bad_ticket ticket) conflict
  reject_if (not (color_is_ready ticket.color_attempt_id ticket.source_job catalog.color_attempts))
      conflict
  reject_if (not (is_approved approval id ticket now catalog.approvals)) conflict
  let tables' = insert_or_ignore (new_delivery id ticket) now catalog.jobs tables
  row ← ok_or (find id tables'.deliveries) conflict
  reject_if (not (same_ticket row.payload.ticket ticket)) conflict
  ok (tables', row.payload)
