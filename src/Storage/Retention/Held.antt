-- ===== src/Storage/Retention/Held.antt =====
-- crates/rip-storage/src/retention.rs: the files of a job are kept as long as somebody has asked for.
use rip_server.Common.{
  ℕ, ◌≤◌, ◌<◌, ◌≡◌, refl, sym, ap, subst, ◌∙◌, inl, inr, true, false, List, [], ◌∷◌, some, ◌==◌,
  Bool-cases, Result-cases, ==_iff, ok, err, lt→ltb, arith,
}
use rip_server.Storage.{conflict, Text}
use rip_server.Storage.Rows.{find}
use rip_server.Storage.Retention.{
  Policy, RetentionTables, guard, is_held, deletes, orphaned, claim_retention, extend, previous_of,
}
use rip_server.Storage.Retention.Extension.{
  extends, claims, elsewhere, Extended, Call, step, run_calls, IsKept, claim_retention-holds,
  extend-Extended,
}

Extended-IsKept :
    (id until j until' : ℕ) (t t' : RetentionTables)
    → Extended j until' t t'
    → IsKept id until t.holds
    → IsKept id until t'.holds
Extended-IsKept id until j until' t t' x (h, found, enough) = elim (Bool-cases (j == id)) [
  | inl own ↦
      let here : j ≡ id = (==_iff j id).0 own in
      let before : find j t.holds ≡ some h = ap (λ i. find i t.holds) here ∙ found in
      let later : h.retain_until ≤ until' = rw (sym (ap previous_of before)) x.later in
      (x.hold, x.others id ∙ ground (arith, own), omega (arith, x.until_is, later, enough))
  | inr other ↦ (h, x.others id ∙ ground (arith, other, found), enough)
]

step-IsKept :
    (c : Call) (id until : ℕ) (t : RetentionTables)
    → IsKept id until t.holds
    → IsKept id until (step c t).holds
unfolding step
step-IsKept (extends j expected until' actor reason clock) id until t h =
    elim (Result-cases (extend j expected until' actor reason clock t)) [
      | inl ((t', p), done) ↦ rw done (
          Extended-IsKept id until j until' t t'
            (extend-Extended j expected until' actor reason clock t t' p done) h)
      | inr (e, failed) ↦ rw failed h
    ]
step-IsKept (claims j cutoff now later) id until t h =
    subst (IsKept id until) (sym (claim_retention-holds j cutoff now later t)) h
step-IsKept (elsewhere jobs events leases dependencies artifacts tombstones) id until t h = h

run_calls-IsKept :
    (calls : List Call) (id until : ℕ) (t : RetentionTables)
    → IsKept id until t.holds
    → IsKept id until (run_calls calls t).holds
unfolding run_calls
run_calls-IsKept [] id until t h = h
run_calls-IsKept (c ∷ cs) id until t h =
    run_calls-IsKept cs id until (step c t) (step-IsKept c id until t h)

guard-IsKept :
    (id until cutoff clock : ℕ) (t : RetentionTables)
    → IsKept id until t.holds
    → clock < until
    → guard id cutoff clock t ≡ false
unfolding guard
guard-IsKept id until cutoff clock t (h, found, enough) before =
    let held : is_held (find id t.holds) clock ≡ true =
      rw found (lt→ltb clock h.retain_until (omega (arith, before, enough))) in
    ground (arith, held)

claim_retention-IsKept :
    (id until cutoff now later : ℕ) (t : RetentionTables)
    → IsKept id until t.holds
    → now < until
    → later < until
    → claim_retention id cutoff now later t ≡ err conflict
unfolding claim_retention deletes orphaned
claim_retention-IsKept id until cutoff now later t h first second =
    let shut = guard-IsKept id until cutoff now t h first in
    let shut' = guard-IsKept id until cutoff later t h second in
    let kept : deletes id cutoff now t ≡ false = ground (arith, shut) in
    let owned : orphaned id cutoff later t ≡ false = ground (arith, shut') in rw (kept, owned) refl

-- What is asked to be kept is kept. Once the retention of a job's files is extended to a time, and whatever
-- extensions, claims and writes to the other tables follow, a claim to purge the job that reads the clock before
-- that time is a conflict, whatever its cutoff.
pub held :
    (id expected until : ℕ) (actor reason : Text) (clock : ℕ) (t t' : RetentionTables)
    (policy : Policy) (since : List Call) (cutoff now later : ℕ)
    → extend id expected until actor reason clock t ≡ ok (t', policy)
    → now < until
    → later < until
    → claim_retention id cutoff now later (run_calls since t') ≡ err conflict
held id expected until actor reason clock t t' policy since cutoff now later e first second =
    let x = extend-Extended id expected until actor reason clock t t' policy e in
    let found : find id t'.holds ≡ some x.hold =
      x.others id ∙ ground (arith, (==_iff id id).1 refl) in
    let kept : IsKept id until t'.holds = (x.hold, found, omega (arith, x.until_is)) in
    claim_retention-IsKept id until cutoff now later (run_calls since t')
      (run_calls-IsKept since id until t' kept) first second
