-- ===== src/Storage/Color/Progress.antt =====
-- crates/rip-storage/src/color.rs: what the calls of a repository make of each attempt.
use rip_server.Common.{
  ℕ, ◌+◌, ◌≤◌, ◌<◌, ◌≡◌, refl, sym, ap, subst, ◌∙◌, ◌⊎◌, inl, inr, true, false, List, [], ◌∷◌,
  Option, none, some, arith,
}
use rip_server.Storage.{Text}
use rip_server.Storage.Rows.{find}
use rip_server.Storage.Jobs.{}
use rip_server.Storage.Color.{
  ColorState, queued, running, completed, failed, cancelled, Attempt, ColorTables, new_attempt,
  allowed, bad_pages, lease_for, updated,
}
use rip_server.Storage.Color.Calls.{
  Call, same, created, moved, step, run_calls, Effect, step-Effect,
}

-- How the pages converted, the revision and the lease fit the state: at most one page is converted for each
-- revision, and an attempt is completed in an update of its own, after the last page.
abbrev pub Fits : ColorState → ℕ → ℕ → ℕ → Option ℕ → Type 0
Fits queued total pages revision lease = (pages ≡ 0) × (revision ≡ 0) × (lease ≡ none)
Fits running total pages revision lease =
    (pages ≤ total) × (pages + 1 ≤ revision) × (end : ℕ) × (lease ≡ some end)
Fits completed total pages revision lease =
    (0 < total) × (pages ≡ total) × (total + 2 ≤ revision) × (lease ≡ none)
Fits failed total pages revision lease = (pages ≤ total) × (pages + 2 ≤ revision) × (lease ≡ none)
Fits cancelled total pages revision lease = (pages ≡ 0) × (revision ≡ 1) × (lease ≡ none)

abbrev pub IsSound : Attempt → Type 0
IsSound a = Fits a.state a.ticket.source_artifacts a.completed_pages a.revision a.lease_until

moved_Fits :
    (state next : ColorState) (total before pages revision now : ℕ) (a : Attempt)
    → Fits state total before revision a.lease_until
    → a.state ≡ state
    → a.ticket.source_artifacts ≡ total
    → a.completed_pages ≡ before
    → allowed state next ≡ true
    → bad_pages a next pages now ≡ false
    → Fits next total pages (revision + 1) (lease_for next now)
unfolding allowed bad_pages
moved_Fits queued running total before pages revision now a h s q b may good =
    (ground (arith, s, q, b, good, h), ground (arith, s, q, b, good, h), now + 600, refl)
moved_Fits queued cancelled total before pages revision now a h s q b may good =
    (ground (arith, s, q, b, good, h), ground (arith, s, q, b, good, h), refl)
moved_Fits queued queued total before pages revision now a h s q b may good = cc
moved_Fits queued completed total before pages revision now a h s q b may good = cc
moved_Fits queued failed total before pages revision now a h s q b may good = cc
moved_Fits running running total before pages revision now a h s q b may good =
    (ground (arith, s, q, b, good, h), ground (arith, s, q, b, good, h), now + 600, refl)
moved_Fits running completed total before pages revision now a h s q b may good = (
  ground (arith, s, q, b, good, h),
  ground (arith, s, q, b, good, h),
  ground (arith, s, q, b, good, h),
  refl,
)
moved_Fits running failed total before pages revision now a h s q b may good =
    (ground (arith, s, q, b, good, h), ground (arith, s, q, b, good, h), refl)
moved_Fits running queued total before pages revision now a h s q b may good = cc
moved_Fits running cancelled total before pages revision now a h s q b may good = cc
moved_Fits completed next total before pages revision now a h s q b may good = cc
moved_Fits failed next total before pages revision now a h s q b may good = cc
moved_Fits cancelled next total before pages revision now a h s q b may good = cc

-- Every attempt of the tables is sound.
abbrev pub AllSound : ColorTables → Type 0
AllSound t = (j : ℕ) (a : Attempt) → find j t.attempts ≡ some a → IsSound a

Effect-IsSound :
    (o o' : Option Attempt)
    → Effect o o'
    → ((a : Attempt) → o ≡ some a → IsSound a)
    → (a : Attempt) → o' ≡ some a
    → IsSound a
Effect-IsSound o o' (same e) h a f = h a (sym e ∙ f)
Effect-IsSound o o' (created source ticket now missing e) h a f =
    let is : new_attempt source ticket now ≡ a = ground (arith, e, f) in
    subst IsSound is (refl, refl, refl)
Effect-IsSound o o' (moved old next pages result reason now found may good e) h a f =
    let is : updated old next pages result reason now ≡ a = ground (arith, e, f) in
    subst IsSound is (
      moved_Fits old.state next old.ticket.source_artifacts old.completed_pages pages old.revision
        now old (h old found) refl refl refl may good)

-- In the tables that any sequence of calls to create and update attempts and to finish their cleanup leaves,
-- every attempt is sound if it was so before: a queued one has no page and revision 0, a running one has a lease
-- and at most as many pages as its source, and fewer than revisions; a completed one has all the pages of its source,
-- of which there is at least one, and two revisions more at least; a failed one has two revisions more than pages
-- at least and a cancelled one no page and revision 1; only a running one has a lease.
pub run_calls-AllSound :
    (calls : List Call) (t : ColorTables) → AllSound t → AllSound (run_calls calls t)
unfolding run_calls
run_calls-AllSound [] t h = h
run_calls-AllSound (c ∷ cs) t h =
    run_calls-AllSound cs (step c t) (λ j. Effect-IsSound _ _ (step-Effect c t j) (h j))

-- What later calls may make of an attempt.
pub record Follows (old new : Attempt) : Type 0 where
  pub source : new.source_job ≡ old.source_job
  pub ticket : new.ticket ≡ old.ticket
  pub pages : old.completed_pages ≤ new.completed_pages
  pub pace : new.completed_pages + old.revision ≤ old.completed_pages + new.revision
  pub written :
      (new ≡ old) ⊎ ((old.revision < new.revision) × ((old.state ≡ queued) ⊎ (old.state ≡ running)))

moved-Follows :
    (state next : ColorState) (pages : ℕ) (result reason : Option Text) (now : ℕ) (a : Attempt)
    → a.state ≡ state
    → allowed state next ≡ true
    → bad_pages a next pages now ≡ false
    → Follows a (updated a next pages result reason now)
unfolding allowed bad_pages
moved-Follows queued running pages result reason now a s may good = record {
  source = refl;
  ticket = refl;
  pages = ground (arith, s, good);
  pace = ground (arith, s, good);
  written = inr (omega arith, inl s);
}
moved-Follows queued cancelled pages result reason now a s may good = record {
  source = refl;
  ticket = refl;
  pages = ground (arith, s, good);
  pace = ground (arith, s, good);
  written = inr (omega arith, inl s);
}
moved-Follows queued queued pages result reason now a s may good = cc
moved-Follows queued completed pages result reason now a s may good = cc
moved-Follows queued failed pages result reason now a s may good = cc
moved-Follows running next pages result reason now a s may good = record {
  source = refl;
  ticket = refl;
  pages = ground (arith, s, good);
  pace = paced next may (ground (arith, s, good));
  written = inr (omega arith, inr s);
}
  where
    paced :
        (n : ColorState)
        → allowed running n ≡ true
        → bad_pages a n pages now ≡ false
        → pages + a.revision ≤ a.completed_pages + (a.revision + 1)
    paced running m good = ground (arith, s, good)
    paced completed m good = ground (arith, s, good)
    paced failed m good = ground (arith, s, good)
    paced queued m good = cc
    paced cancelled m good = cc
moved-Follows completed next pages result reason now a s may good = cc
moved-Follows failed next pages result reason now a s may good = cc
moved-Follows cancelled next pages result reason now a s may good = cc

Follows-refl : (a : Attempt) → Follows a a
Follows-refl a = record {
  source = refl;
  ticket = refl;
  pages = omega arith;
  pace = omega arith;
  written = inl refl;
}

Follows-trans : (a b c : Attempt) → Follows a b → Follows b c → Follows a c
Follows-trans a b c h k = record {
  source = k.source ∙ h.source;
  ticket = k.ticket ∙ h.ticket;
  pages = omega (arith, h.pages, k.pages);
  pace = omega (arith, h.pace, k.pace);
  written = writes h.written k.written;
}
  where
    writes :
        (b ≡ a) ⊎ ((a.revision < b.revision) × ((a.state ≡ queued) ⊎ (a.state ≡ running)))
        → (c ≡ b) ⊎ ((b.revision < c.revision) × ((b.state ≡ queued) ⊎ (b.state ≡ running)))
        → (c ≡ a) ⊎ ((a.revision < c.revision) × ((a.state ≡ queued) ⊎ (a.state ≡ running)))
    writes (inl p) (inl q) = inl (q ∙ p)
    writes (inl p) (inr (q, s)) = inr (
        subst
          (λ (x : Attempt). (x.revision < c.revision) × ((x.state ≡ queued) ⊎ (x.state ≡ running)))
          p (q, s))
    writes (inr (p, s)) (inl q) = inr (omega (arith, p, ap (λ (x : Attempt). x.revision) q), s)
    writes (inr (p, s)) (inr (q, _)) = inr (omega (arith, p, q), s)

Effect-Follows :
    (o o' : Option Attempt) (old : Attempt)
    → Effect o o'
    → o ≡ some old
    → (new : Attempt) × (o' ≡ some new) × Follows old new
Effect-Follows o o' old (same e) f = (old, e ∙ f, Follows-refl old)
Effect-Follows o o' old (created source ticket now missing e) f = ground (arith, missing, f)
Effect-Follows o o' old (moved a next pages result reason now found may good e) f =
    let is : a ≡ old = ground (arith, found, f) in
    (
      updated a next pages result reason now,
      e,
      subst (λ x. Follows x (updated a next pages result reason now)) is
          (moved-Follows a.state next pages result reason now a refl may good),
    )

-- An attempt is never lost, and never goes back: after any sequence of calls it is there with the same source
-- job and ticket, its pages have not become fewer and have grown by at most one for each revision since, and
-- either it is unchanged, or its revision is higher and it was queued or running before. So an attempt that is
-- completed, failed or cancelled stays as it is.
pub run_calls-Follows :
    (calls : List Call) (t : ColorTables) (id : ℕ) (old : Attempt)
    → find id t.attempts ≡ some old
    → (new : Attempt) × (find id (run_calls calls t).attempts ≡ some new) × Follows old new
unfolding run_calls
run_calls-Follows [] t id old f = (old, f, Follows-refl old)
run_calls-Follows (c ∷ cs) t id old f =
    let (mid, there, first) = Effect-Follows _ _ old (step-Effect c t id) f in
    let (new, last, next) = run_calls-Follows cs (step c t) id mid there in
    (new, last, Follows-trans old mid new first next)
