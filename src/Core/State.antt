-- ===== src/Core/State.antt =====
-- crates/rip-core/src/lib.rs: `JobState`, the life cycle of a print job.
pub mod Diagram
pub mod Trace
use rip_server.Common.{Bool, true, false, not, ◌&&◌, ◌||◌, Result, ok, err, if◌then◌else◌}
use rip_server.Core.Error.{ValidationError, invalid_state_transition}

pub data JobState : Type 0 where
  received validating preflight queued ripping color_processing halftoning : JobState
  spooling printing completed held cancelled failed : JobState

unfoldable pub terminal : JobState → Bool
terminal completed = true
terminal cancelled = true
terminal failed = true
terminal _ = false

-- The pairs that `matches!((self, next), …)` lists.
allowed_pair : JobState → JobState → Bool
allowed_pair received validating = true
allowed_pair validating preflight = true
allowed_pair validating queued = true
allowed_pair validating held = true
allowed_pair preflight queued = true
allowed_pair preflight held = true
allowed_pair queued ripping = true
allowed_pair queued held = true
allowed_pair held queued = true
allowed_pair ripping color_processing = true
allowed_pair ripping spooling = true
allowed_pair color_processing halftoning = true
allowed_pair color_processing spooling = true
allowed_pair halftoning spooling = true
allowed_pair spooling printing = true
allowed_pair spooling completed = true
allowed_pair printing completed = true
allowed_pair _ _ = false

-- `matches!(next, Cancelled | Failed)`
is_abort : JobState → Bool
is_abort cancelled = true
is_abort failed = true
is_abort _ = false

unfoldable pub transition : JobState → JobState → Result (Unit {0}) ValidationError
unfolding terminal allowed_pair is_abort
transition self next =
    if allowed_pair self next || (not (terminal self) && is_abort next)
    then ok tt
    else err invalid_state_transition
