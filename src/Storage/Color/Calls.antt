-- ===== src/Storage/Color/Calls.antt =====
-- crates/rip-storage/src/color.rs: the calls of a repository, and what one makes of the row of an attempt.
use rip_server.Common.{
  ℕ, ◌≡◌, refl, sym, ap, ◌∙◌, inl, inr, true, false, not, ◌||◌, List, [], ◌∷◌, Option, none, some,
  ◌==◌, Bool-cases, Option-cases, ==_iff, Result, ok, err, arith,
}
use rip_server.Storage.{StorageError, Text}
use rip_server.Storage.Rows.{find, replace, find-replace, find-append}
use rip_server.Storage.Jobs.{JobRow}
use rip_server.Storage.Color.{
  ColorState, ColorTicket, Attempt, ColorTables, new_attempt, create_at, create, allowed, bad_pages,
  updated, update, finish_cleanup, is_eligible, same_ticket,
}

-- One call of the repository.
pub data Call : Type 0 where
  creates :
      (id source revision : ℕ) (ticket : ColorTicket) (now : ℕ) (jobs : List (ℕ × JobRow)) → Call
  updates :
      (id revision : ℕ) (next : ColorState) (pages : ℕ) (result reason : Option Text) (now : ℕ)
      → Call
  finishes : (id : ℕ) → Call

-- A call that fails leaves the tables as they are.
abbrev pub after : ColorTables → Result (ColorTables × Attempt) StorageError → ColorTables
after t (ok (t', a)) = t'
after t (err e) = t

unfoldable pub step : Call → ColorTables → ColorTables
unfolding create update finish_cleanup
step (creates id source revision ticket now jobs) t =
    after t (create id source revision ticket now jobs t)
step (updates id revision next pages result reason now) t =
    after t (update id revision next pages result reason now t)
step (finishes id) t = finish_cleanup id t

unfoldable pub run_calls : List Call → ColorTables → ColorTables
unfolding step
run_calls [] t = t
run_calls (c ∷ cs) t = run_calls cs (step c t)

-- What a call makes of the row of an id.
pub data Effect : Option Attempt → Option Attempt → Type 0 where
  same : {o o' : Option Attempt} → o' ≡ o → Effect o o'
  created :
      {o o' : Option Attempt} (source : ℕ) (ticket : ColorTicket) (now : ℕ)
      → o ≡ none
      → o' ≡ some (new_attempt source ticket now)
      → Effect o o'
  moved :
      {o o' : Option Attempt} (a : Attempt) (next : ColorState) (pages : ℕ)
      (result reason : Option Text) (now : ℕ)
      → o ≡ some a
      → allowed a.state next ≡ true
      → bad_pages a next pages now ≡ false
      → o' ≡ some (updated a next pages result reason now)
      → Effect o o'

create_at-Effect :
    (o : Option Attempt) (id source revision : ℕ) (ticket : ColorTicket) (now : ℕ)
    (jobs : List (ℕ × JobRow)) (t : ColorTables) (j : ℕ)
    → find id t.attempts ≡ o
    → Effect
        (find j t.attempts)
        (find j (after t (create_at o id source revision ticket now jobs t)).attempts)
unfolding create_at
create_at-Effect (some a) id source revision ticket now jobs t j f =
    elim (Bool-cases (same_ticket a.ticket ticket)) [
      | inl own ↦ rw own (same refl)
      | inr other ↦ rw other (same refl)
    ]
create_at-Effect none id source revision ticket now jobs t j f =
    elim (Bool-cases (is_eligible source revision jobs)) [
      | inl fit ↦ rw fit (elim (Bool-cases (id == j)) [
        | inl own ↦
            let here = (==_iff id j).0 own in
            created source ticket now (ap (λ i. find i t.attempts) (sym here) ∙ f)
              (find-append id j (new_attempt source ticket now) t.attempts f ∙ ground (arith, own))
        | inr other ↦
            same (
              find-append id j (new_attempt source ticket now) t.attempts f ∙ ground (arith, other))
      ])
      | inr unfit ↦ rw unfit (same refl)
    ]

update-Effect :
    (id revision : ℕ) (next : ColorState) (pages : ℕ) (result reason : Option Text) (now : ℕ)
    (t : ColorTables) (j : ℕ)
    → Effect
        (find j t.attempts)
        (find j (after t (update id revision next pages result reason now t)).attempts)
unfolding update
update-Effect id revision next pages result reason now t j =
    elim (Option-cases (find id t.attempts)) [
      | inl missing ↦ rw missing (same refl)
      | inr (a, f) ↦
          rw f (elim (Bool-cases (not (a.revision == revision) || not (allowed a.state next))) [
            | inl stale ↦ rw stale (same refl)
            | inr current ↦ rw current (elim (Bool-cases (bad_pages a next pages now)) [
              | inl bad ↦ rw bad (same refl)
              | inr good ↦ rw good (written a f (ground (arith, current)) good)
            ])
          ])
    ]
  where
    written :
        (a : Attempt)
        → find id t.attempts ≡ some a
        → allowed a.state next ≡ true
        → bad_pages a next pages now ≡ false
        → Effect
            (find j t.attempts)
            (find j (replace id (updated a next pages result reason now) t.attempts))
    written a f may good = elim (Bool-cases (id == j)) [
      | inl own ↦
          let here = (==_iff id j).0 own in
          moved a next pages result reason now (ap (λ i. find i t.attempts) (sym here) ∙ f) may good
            (find-replace id j (updated a next pages result reason now) t.attempts f
              ∙ ground (arith, own))
      | inr other ↦ same (
          find-replace id j (updated a next pages result reason now) t.attempts f
          ∙ ground (arith, other))
    ]

pub step-Effect :
    (c : Call) (t : ColorTables) (j : ℕ) → Effect (find j t.attempts) (find j (step c t).attempts)
unfolding step create finish_cleanup
step-Effect (creates id source revision ticket now jobs) t j =
    create_at-Effect (find id t.attempts) id source revision ticket now jobs t j refl
step-Effect (updates id revision next pages result reason now) t j =
    update-Effect id revision next pages result reason now t j
step-Effect (finishes id) t j = same refl
