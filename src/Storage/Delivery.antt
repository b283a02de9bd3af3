-- ===== src/Storage/Delivery.antt =====
-- crates/rip-storage/src/delivery.rs: a delivery, its ticket, and what a device says of it.
pub mod Table
pub mod Operations
pub mod Device
pub mod Enqueue
pub mod Diagram
pub mod Update
pub mod History
pub mod Runs
pub mod Refinement
pub mod Versions
use rip_server.Common.{ℕ, Bool, true, false, List, Option}
use rip_server.Core.Pages.{PageRanges}
use rip_server.Core.Print.{Sides, SheetBack, DeviceProgress}
use rip_server.Storage.{Text}

pub record DeliveryTicket : Type 0 where
  pub source_job : ℕ
  pub copies : ℕ
  pub sides : Sides
  pub sheet_back : SheetBack
  pub page_ranges : PageRanges
  pub color_attempt_id : Option ℕ
  pub printer_id : Text
  pub artifact_sha256 : Text
  pub artifact_bytes : ℕ
  pub dpi : ℕ
  pub document_type : Text
  pub media : Text

pub data DeliveryState : Type 0 where
  queued sending accepted completed cancelled aborted rejected unknown : DeliveryState

-- `==`
unfoldable pub same_state : DeliveryState → DeliveryState → Bool
same_state queued queued = true
same_state sending sending = true
same_state accepted accepted = true
same_state completed completed = true
same_state cancelled cancelled = true
same_state aborted aborted = true
same_state rejected rejected = true
same_state unknown unknown = true
same_state _ _ = false

-- A device's state and job id are `i32` values, kept as their 32 bits.
pub record DeviceObservation : Type 0 where
  pub profile : Text
  pub state : ℕ
  pub reasons : List Text
  pub observed_at : ℕ
  pub progress : DeviceProgress

pub data DeviceQueryFailure : Type 0 where
  unavailable invalid_response job_not_found registration_unavailable : DeviceQueryFailure

pub record DeviceQuery : Type 0 where
  pub failure : Option DeviceQueryFailure
  pub changed_at : ℕ

pub record Delivery : Type 0 where
  pub id : ℕ
  pub ticket : DeliveryTicket
  pub state : DeliveryState
  pub revision : ℕ
  pub device_job_id : Option ℕ
  pub run_id : Option ℕ
  pub lease_until : Option ℕ
  pub reason : Option Text
  pub device_observation : Option DeviceObservation
  pub device_query : Option DeviceQuery
