-- ===== src/Core/State/Diagram.antt =====
-- The life cycle as a diagram of stages, and what can be reached in it.
use rip_server.Common.{◌≡◌, refl, ◌↔◌, false, ok, arith}
use rip_server.Core.State.{
  JobState, received, validating, preflight, queued, ripping, color_processing, halftoning,
  spooling, printing, completed, held, cancelled, failed, terminal, transition,
}

-- An edge of the life cycle: intake, the queue with its hold, the rendering pipeline in order, and
-- an abort that leads out of every state that is not terminal.
infix 40 ◌⟶◌ ◌⟶*◌
pub data ◌⟶◌ : JobState → JobState → Type 0 where
  validate : received ⟶ validating
  inspect : validating ⟶ preflight
  enqueue : validating ⟶ queued
  hold_new : validating ⟶ held
  pass : preflight ⟶ queued
  hold_preflight : preflight ⟶ held
  start : queued ⟶ ripping
  hold : queued ⟶ held
  release : held ⟶ queued
  color : ripping ⟶ color_processing
  spool_ripped : ripping ⟶ spooling
  halftone : color_processing ⟶ halftoning
  spool_colored : color_processing ⟶ spooling
  spool_halftoned : halftoning ⟶ spooling
  print : spooling ⟶ printing
  finish_spooled : spooling ⟶ completed
  finish_printed : printing ⟶ completed
  cancel : {s : JobState} → terminal s ≡ false → s ⟶ cancelled
  fail : {s : JobState} → terminal s ≡ false → s ⟶ failed

pub data ◌⟶*◌ : JobState → JobState → Type 0 where
  here : {s : JobState} → s ⟶* s
  then : {s t u : JobState} → s ⟶ t → t ⟶* u → s ⟶* u

pub ruleset edges = (
  validate, inspect, enqueue, hold_new, pass, hold_preflight, start, hold, release, color,
  spool_ripped, halftone, spool_colored, spool_halftoned, print, finish_spooled, finish_printed,
)

-- Every edge is accepted.
pub transition-of_edge : {s t : JobState} → s ⟶ t → transition s t ≡ ok tt
unfolding transition terminal
transition-of_edge validate = refl
transition-of_edge (cancel {s} h) = ground arith
transition-of_edge (fail {s} h) = ground arith
transition-of_edge _ = refl

edge_of-transition : (s t : JobState) → transition s t ≡ ok tt → s ⟶ t
unfolding transition terminal
edge_of-transition s t h = grind (arith, edges, cancel, fail)

-- `transition` accepts a pair of states exactly when the life cycle has an edge between them.
pub transition_iff : (s t : JobState) → (transition s t ≡ ok tt) ↔ (s ⟶ t)
transition_iff s t = (edge_of-transition s t, transition-of_edge)

-- From every state that is not terminal, accepted transitions lead to `completed`.
pub completed_reachable : (s : JobState) → terminal s ≡ false → s ⟶* completed
unfolding terminal
completed_reachable completed h = cc
completed_reachable cancelled h = cc
completed_reachable failed h = cc
completed_reachable received h = then validate (search (here, then, edges))
completed_reachable _ h = search (here, then, edges)
