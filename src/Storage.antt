-- ===== src/Storage.antt =====
-- crates/rip-storage: the repository of jobs and deliveries. A table of the database is a list of its
-- rows; a transaction is a function that returns the tables as they are after its commit, or an error,
-- which leaves the tables as they were. A text is the list of its code points, an id is a number.
pub mod Rows
pub mod Delivery
pub mod Budget
pub mod Jobs
pub mod Observer
pub mod Color
pub mod Approvals
pub mod Retention
use rip_server.Common.{ℕ, List}

pub data StorageError : Type 0 where
  budget_exhausted db json receipt_key_revoked receipt_key not_found conflict : StorageError

-- Text by code points.
abbrev pub Text : Type 0
Text = List ℕ

-- The status of a receipt for a result.
pub data ReceiptStatus : Type 0 where
  succeeded cancelled_receipt failed : ReceiptStatus
