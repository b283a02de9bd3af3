-- ===== src/Tests/Color.antt =====
-- crates/rip-storage/src/color.rs at concrete inputs.
use rip_server.Common.{
  ◌≡◌, refl, List, [], ◌∷◌, none, some, err, ◌==◌, inl, inr, subst, Bool-cases, arith,
}
use rip_server.Common.Bytes.{codes}
use rip_server.Core.Job.{}
use rip_server.Storage.{conflict}
use rip_server.Storage.Rows.{find, replace}
use rip_server.Storage.Jobs.{}
use rip_server.Storage.Color.{
  running, completed, ColorTicket, Attempt, ColorTables, new_attempt, create, create_at,
  is_eligible, update, finish_cleanup, allowed, bad_pages, request_cleanup, drop_id,
}
use rip_server.Storage.Color.Progress.{
  AllSound, IsSound, Follows, run_calls-AllSound, run_calls-Follows,
}
use rip_server.Storage.Color.Calls.{Call, updates, finishes, step, run_calls}

abbrev two_pages : ColorTicket
two_pages = record { source_artifacts = 2; settings = codes "sRGB" }

abbrev no_tables : ColorTables
no_tables = record { attempts = []; events = []; cleanup = [] }

abbrev one_queued : ColorTables
one_queued = record { attempts = (3, new_attempt 9 two_pages 100) ∷ []; events = []; cleanup = [] }

abbrev converted : List Call
converted =
    updates 3 0 running 0 none none 101
    ∷ updates 3 1 running 1 none none 200
    ∷ updates 3 2 running 2 none none 300
    ∷ updates 3 3 completed 2 none none 400
    ∷ updates 3 4 running 2 none none 500
    ∷ finishes 3
    ∷ []

abbrev last_state : Attempt
last_state = record {
  source_job = 9;
  ticket = two_pages;
  state = completed;
  revision = 4;
  lease_until = none;
  completed_pages = 2;
  created_at = 100;
  updated_at = 400;
  reason = none;
  result = none;
}

converts : find 3 (run_calls converted one_queued).attempts ≡ some last_state
unfolding run_calls step update allowed bad_pages request_cleanup finish_cleanup drop_id find
    replace
converts = refl

-- The lease of 600 seconds has ended.
too_late :
    find 3
      (step
        (updates 3 1 running 1 none none 701)
        (step (updates 3 0 running 0 none none 101) one_queued)).attempts
    ≡ some (record (new_attempt 9 two_pages 100) {
      state = running;
      revision = 1;
      lease_until = some 701;
      updated_at = 101;
    })
unfolding step update allowed bad_pages request_cleanup find replace
too_late = refl

-- Two pages at once are refused, and a job without a row has no attempt.
two_at_once :
    update 3 1 running 2 none none 102 (step (updates 3 0 running 0 none none 101) one_queued)
    ≡ err conflict
unfolding step update allowed bad_pages request_cleanup find replace
two_at_once = refl

no_job : create 4 9 0 two_pages 100 [] one_queued ≡ err conflict
unfolding create create_at is_eligible find
no_job = refl

one_queued-AllSound : AllSound one_queued
unfolding find
one_queued-AllSound j a f = elim (Bool-cases (3 == j)) [
  | inl own ↦
      let is : new_attempt 9 two_pages 100 ≡ a = ground (arith, own, f) in
      subst IsSound is (refl, refl, refl)
  | inr other ↦ ground (arith, other, f)
]

run_calls-AllSound_example : AllSound (run_calls converted one_queued)
run_calls-AllSound_example = run_calls-AllSound converted one_queued one_queued-AllSound

first_found : find 3 one_queued.attempts ≡ some (new_attempt 9 two_pages 100)
unfolding find
first_found = refl

run_calls-Follows_example :
    (new : Attempt) × (find 3 (run_calls converted one_queued).attempts ≡ some new)
    × Follows (new_attempt 9 two_pages 100) new
run_calls-Follows_example =
    run_calls-Follows converted one_queued 3 (new_attempt 9 two_pages 100) first_found
