-- ===== src/Tests/Retention.antt =====
-- crates/rip-storage/src/retention.rs and src/maintenance.rs at concrete inputs.
use rip_server.Common.{◌≡◌, refl, false, [], ◌∷◌, none, some, ok, err, arith}
use rip_server.Common.Bytes.{codes}
use rip_server.Core.Document.{is_whitespace, utf8_len, char_len}
use rip_server.Core.State
use rip_server.Storage.{conflict}
use rip_server.Storage.Rows.{find}
use rip_server.Storage.Retention.{
  Policy, RetentionTables, claim_retention, deletes, orphaned, guard, without, extend, extend_row,
  extend_to, bad_request, known, new_policy,
}
use rip_server.Storage.Retention.Extension.{claims, run_calls}
use rip_server.Storage.Retention.Held.{held}

abbrev tables : RetentionTables
tables = record {
  jobs = (5, record { state = State.completed; updated_at = 1000 }) ∷ [];
  job_events = [];
  worker_leases = [];
  dependencies = (record { source_job = 5; active = false; activity_at = some 900 }) ∷ [];
  job_artifacts = [];
  holds = [];
  revisions = [];
  tombstones = [];
  audit = [];
}

-- Nobody has asked to keep the files.
purges :
    claim_retention 5 2000 9000 9000 tables
    ≡ ok (record tables { jobs = []; tombstones = (5, none) ∷ [] })
unfolding claim_retention deletes guard find without
purges = refl

-- A color attempt, delivery or pipeline was active after the cutoff.
in_use :
    claim_retention 5 2000 9000 9000 (record tables {
      dependencies = (record { source_job = 5; active = false; activity_at = some 2001 }) ∷ [];
    })
    ≡ err conflict
unfolding claim_retention deletes orphaned guard find
in_use = refl

abbrev policy : Policy
policy = new_policy 1 20000 0 9000 (codes "ops") (codes "audit")

abbrev kept : RetentionTables
kept = record tables {
  holds = (5, record { retain_until = 20000; revision = 1; payload = policy }) ∷ [];
  revisions = (5, 1, policy) ∷ [];
  audit = (5, codes "ops") ∷ [];
}

extended : extend 5 0 20000 (codes "ops") (codes "audit") 9000 tables ≡ ok (kept, policy)
unfolding extend extend_row extend_to bad_request known find is_whitespace utf8_len char_len
extended = refl

-- A hold is not shortened.
shortened : extend 5 1 19999 (codes "ops") (codes "audit") 9000 kept ≡ err conflict
unfolding extend extend_row extend_to bad_request known find is_whitespace utf8_len char_len
shortened = refl

held_example :
    claim_retention 5 2000 19999 19999 (run_calls (claims 5 2000 10000 10000 ∷ []) kept)
    ≡ err conflict
held_example =
    held 5 0 20000 (codes "ops") (codes "audit") 9000 tables kept policy
      (claims 5 2000 10000 10000 ∷ []) 2000 19999 19999 extended (omega arith) (omega arith)
