-- ===== src/Core/Job.antt =====
-- crates/rip-core/src/lib.rs: `Job`. An id is a number, a string the list of its code points.
use rip_server.Common.{ℕ, List, Option}
use rip_server.Core.Document.{Manifest, EngineKind}
use rip_server.Core.State.{JobState}

pub record Job : Type 0 where
  pub id : ℕ
  pub manifest : Manifest
  pub state : JobState
  pub source_sha256 : List ℕ
  pub created_at : ℕ
  pub updated_at : ℕ
  pub revision : ℕ
  pub error_code : Option (List ℕ)
  pub selected_engine : Option EngineKind
  pub worker_run_id : Option ℕ
