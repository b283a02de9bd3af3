-- ===== src/Core/State/Trace.antt =====
-- Sequences of requested transitions, each applied by `transition` with `?`.
use mathlib.Core.List.{Memᴰ}
use rip_server.Common.{
  ◌≡◌, sym, ap, ◌⊎◌, inl, inr, true, List, [], ◌∷◌, Result, ok, err, ◌>>=◌, arith, >>=-eq-ok,
}
use rip_server.Core.Error.{ValidationError, invalid_state_transition}
use rip_server.Core.State.{
  JobState, ripping, color_processing, halftoning, spooling, printing, completed, cancelled, failed,
  terminal, transition,
}

-- Request each state of the list in turn; the first refusal ends the sequence.
unfoldable pub replay : JobState → List JobState → Result JobState ValidationError
replay s [] = ok s
replay s (t ∷ ts) = do _ ← transition s t; replay t ts

-- A terminal state refuses every request, so a job that reached it stays there.
pub terminal_absorbs :
    (s t : JobState) (ts : List JobState)
    → terminal s ≡ true
    → replay s (t ∷ ts) ≡ err invalid_state_transition
unfolding replay transition terminal
terminal_absorbs s t ts h = ground arith

-- The states of intake and queue, and those of rendering.
pub data Phase : Type 0 where
  intake rendering delivering finished aborted : Phase

unfoldable pub phase : JobState → Phase
phase ripping = rendering
phase color_processing = rendering
phase halftoning = rendering
phase spooling = delivering
phase printing = delivering
phase completed = finished
phase cancelled = aborted
phase failed = aborted
phase _ = intake

abbrev IsAborted : JobState → Type 0
IsAborted s = phase s ≡ aborted

transition-intake :
    (s t : JobState)
    → phase s ≡ intake
    → transition s t ≡ ok tt
    → (phase t ≡ intake) ⊎ (t ≡ ripping) ⊎ IsAborted t
unfolding phase transition terminal
transition-intake s t b h = ground arith

transition-rendering :
    (s t : JobState)
    → phase s ≡ rendering
    → transition s t ≡ ok tt
    → (phase t ≡ rendering) ⊎ (t ≡ spooling) ⊎ IsAborted t
unfolding phase transition terminal
transition-rendering s t b h = ground arith

terminal_of_aborted : (s : JobState) → IsAborted s → terminal s ≡ true
unfolding phase terminal
terminal_of_aborted s h = ground arith

replay-aborted : (s : JobState) (ts : List JobState) → IsAborted s → replay s ts ≡ ok completed → ⊥
unfolding phase replay transition terminal
replay-aborted s [] h e = ground arith
replay-aborted s (t ∷ ts) h e = ground (arith, terminal_absorbs s t ts (terminal_of_aborted s h))

replay-rendering :
    (s : JobState) (ts : List JobState)
    → phase s ≡ rendering
    → replay s ts ≡ ok completed
    → Memᴰ spooling ts
unfolding phase replay
replay-rendering s [] h e = ground arith
replay-rendering s (t ∷ ts) h e =
    let (_, accepted, later) = >>=-eq-ok (transition s t) (λ _. replay t ts) e in
    elim (transition-rendering s t h accepted) [
      | inl p ↦ Memᴰ.tail (replay-rendering t ts p later)
      | inr (inl q) ↦ Memᴰ.head (sym q)
      | inr (inr q) ↦ absurd (replay-aborted t ts q later)
    ]

replay-intake :
    (s : JobState) (ts : List JobState)
    → phase s ≡ intake
    → replay s ts ≡ ok completed
    → Memᴰ ripping ts × Memᴰ spooling ts
unfolding phase replay
replay-intake s [] h e = ground arith
replay-intake s (t ∷ ts) h e =
    let (_, accepted, later) = >>=-eq-ok (transition s t) (λ _. replay t ts) e in
    elim (transition-intake s t h accepted) [
      | inl p ↦ let (r, p') = replay-intake t ts p later in (Memᴰ.tail r, Memᴰ.tail p')
      | inr (inl q) ↦ (Memᴰ.head (sym q), Memᴰ.tail (replay-rendering t ts (ap phase q) later))
      | inr (inr q) ↦ absurd (replay-aborted t ts q later)
    ]

-- A job that is still in intake or in the queue, and that a sequence of accepted transitions brings
-- to `completed`, passed through `ripping` and through `spooling`.
pub completed_needs_rendering :
    (s : JobState) (ts : List JobState)
    → phase s ≡ intake
    → replay s ts ≡ ok completed
    → Memᴰ ripping ts × Memᴰ spooling ts
completed_needs_rendering s ts = replay-intake s ts
