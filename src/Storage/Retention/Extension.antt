-- ===== src/Storage/Retention/Extension.antt =====
-- crates/rip-storage/src/retention.rs: the calls on the retention of files, and the hold that an extension leaves.
use rip_server.Common.{
  ℕ, ◌+◌, ◌^◌, ◌≤◌, ◌≡◌, refl, sym, ap, ◌∙◌, inl, inr, not, ◌||◌, List, [], ◌∷◌, Option, none, some,
  ltb, leb, ◌==◌, if◌then◌else◌, Bool-cases, ==_iff, Result, ok, err, reject_if-eq-ok, arith,
}
use rip_server.Storage.{StorageError, Text}
use rip_server.Storage.Rows.{find, find-replace, find-append}
use rip_server.Storage.Retention.{
  KeptJob, LastEvent, Dependency, Policy, Hold, RetentionTables, deletes, orphaned, bury,
  claim_retention, extend, extend_row, extend_to, put_hold, revision_of, previous_of, policy_of,
  new_policy, bad_request, known, has_revision, forget,
}

-- What any connection may do: extend, claim, or write any other table.
pub data Call : Type 0 where
  extends : (id expected until : ℕ) (actor reason : Text) (clock : ℕ) → Call
  claims : (id cutoff now later : ℕ) → Call
  elsewhere :
      List (ℕ × KeptJob)
      → List (ℕ × LastEvent)
      → List ℕ
      → List Dependency
      → List (ℕ × List Text)
      → List (ℕ × Option ℕ)
      → Call

abbrev pub after_claim : RetentionTables → Result RetentionTables StorageError → RetentionTables
after_claim t (ok t') = t'
after_claim t (err e) = t

abbrev pub after_extend :
    RetentionTables → Result (RetentionTables × Policy) StorageError → RetentionTables
after_extend t (ok p) = p.0
after_extend t (err e) = t

unfoldable pub step : Call → RetentionTables → RetentionTables
step (extends id expected until actor reason clock) t =
    after_extend t (extend id expected until actor reason clock t)
step (claims id cutoff now later) t = after_claim t (claim_retention id cutoff now later t)
step (elsewhere jobs events leases dependencies artifacts tombstones) t = record t {
  jobs = jobs;
  job_events = events;
  worker_leases = leases;
  dependencies = dependencies;
  job_artifacts = artifacts;
  tombstones = tombstones;
}

unfoldable pub run_calls : List Call → RetentionTables → RetentionTables
unfolding step
run_calls [] t = t
run_calls (c ∷ cs) t = run_calls cs (step c t)

-- A job's files are held until a time, or a later one.
abbrev pub IsKept : ℕ → ℕ → List (ℕ × Hold) → Type 0
IsKept id until holds = (h : Hold) × (find id holds ≡ some h) × (until ≤ h.retain_until)

bury-holds :
    (id : ℕ) (o : Option (Option ℕ)) (t u : RetentionTables)
    → u.holds ≡ t.holds
    → (after_claim t (bury id o u)).holds ≡ t.holds
bury-holds id none t u e = e
bury-holds id (some finished) t u e = refl

pub claim_retention-holds :
    (id cutoff now later : ℕ) (t : RetentionTables)
    → (after_claim t (claim_retention id cutoff now later t)).holds ≡ t.holds
unfolding claim_retention
claim_retention-holds id cutoff now later t = elim (Bool-cases (deletes id cutoff now t)) [
  | inl deleted ↦ rw deleted (bury-holds id (find id t.tombstones) t _ refl)
  | inr kept ↦ rw kept (elim (Bool-cases (orphaned id cutoff later t)) [
    | inl orphan ↦ rw orphan (bury-holds id (find id t.tombstones) t (forget id t) refl)
    | inr owned ↦ rw owned refl
  ])
]

-- What a successful extension has found, and the hold that it leaves.
pub record Extended (id until : ℕ) (t t' : RetentionTables) : Type 0 where
  pub hold : Hold
  pub later : previous_of (find id t.holds) ≤ until
  pub until_is : hold.retain_until ≡ until
  pub others : (j : ℕ) → find j t'.holds ≡ (if id == j then some hold else find j t.holds)

put_hold-find :
    (id j : ℕ) (h : Hold) (o : Option Hold) (holds : List (ℕ × Hold))
    → find id holds ≡ o
    → find j (put_hold id h o holds) ≡ (if id == j then some h else find j holds)
put_hold-find id j h none holds f = find-append id j h holds f
put_hold-find id j h (some old) holds f = find-replace id j h holds f

extend_to-Extended :
    (id until : ℕ) (actor reason : Text) (clock : ℕ) (o : Option Hold) (t t' : RetentionTables)
    (p : Policy)
    → find id t.holds ≡ o
    → previous_of o ≤ until
    → extend_to id until actor reason clock o t ≡ ok (t', p)
    → Extended id until t t'
unfolding extend_to
extend_to-Extended id until actor reason clock o t t' p f l e =
    let (_, e1) = reject_if-eq-ok (leb (2 ^ 63) (revision_of o + 1)) _ _ e in
    let (_, e2) = reject_if-eq-ok (has_revision id (revision_of o + 1) t.revisions) _ _ e1 in
    let policy = new_policy (revision_of o + 1) until (previous_of o) clock actor reason in
    let h : Hold = record {
      retain_until = until;
      revision = revision_of o + 1;
      payload = policy;
    } in
    let is : t'.holds ≡ put_hold id h o t.holds = ground (arith, e2) in
    record {
      hold = h;
      later = rw f l;
      until_is = refl;
      others = λ j. ap (find j) is ∙ put_hold-find id j h o t.holds f;
    }

same_hold :
    (id until : ℕ) (o : Option Hold) (t t' : RetentionTables) (p : Policy)
    → find id t.holds ≡ o
    → until ≡ previous_of o
    → policy_of o t ≡ ok (t', p)
    → Extended id until t t'
same_hold id until none t t' p f l e = cc
same_hold id until (some h) t t' p f l e =
    let is : t'.holds ≡ t.holds = ground (arith, e) in
    record {
      hold = h;
      later = rw f (omega (arith, l));
      until_is = sym l;
      others = λ j. ap (find j) is ∙ own j;
    }
  where
    own : (j : ℕ) → find j t.holds ≡ (if id == j then some h else find j t.holds)
    own j = elim (Bool-cases (id == j)) [
      | inl here ↦
          let p : id ≡ j = (==_iff id j).0 here in rw here (ap (λ i. find i t.holds) (sym p) ∙ f)
      | inr other ↦ rw other refl
    ]

pub extend-Extended :
    (id expected until : ℕ) (actor reason : Text) (clock : ℕ) (t t' : RetentionTables) (p : Policy)
    → extend id expected until actor reason clock t ≡ ok (t', p)
    → Extended id until t t'
unfolding extend extend_row
extend-Extended id expected until actor reason clock t t' p e =
    let (_, e1) = reject_if-eq-ok (bad_request until clock actor reason) _ _ e in
    let (_, e2) = reject_if-eq-ok (not (known id t)) _ _ e1 in
    let o = find id t.holds in
    let (fits, e3) =
      reject_if-eq-ok (not (expected == revision_of o) || ltb until (previous_of o)) _ _ e2 in
    elim (Bool-cases (until == previous_of o)) [
      | inl same ↦
          same_hold id until o t t' p refl ((==_iff until (previous_of o)).0 same)
            (ground (arith, same, e3))
      | inr other ↦
          extend_to-Extended id until actor reason clock o t t' p refl (ground (arith, fits))
            (ground (arith, other, e3))
    ]
