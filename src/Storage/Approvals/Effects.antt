-- ===== src/Storage/Approvals/Effects.antt =====
-- crates/rip-storage/src/operation_approvals.rs: the calls, and what one makes of an approval.
use rip_server.Common.{
  ℕ, ◌≡◌, refl, sym, ap, ◌∙◌, inl, inr, Bool, true, false, not, ◌&&◌, List, [], ◌∷◌, Option, none,
  some, ◌==◌, Bool-cases, Option-cases, ==_iff, Result, Result-cases, ok, err, ◌>>=◌, arith,
}
use rip_server.Common.Bytes.{codes}
use rip_server.Digest.{Value, Codec, digest}
use rip_server.Storage.{StorageError, Text}
use rip_server.Storage.Rows.{find, replace, find-replace, find-append}
use rip_server.Storage.Approvals.{
  Approval, ApprovalTables, new_approval, approval_issue, issue, insert_approval, consume,
  consume_row, revoke, revoke_row, is_open, is_none, index, is_text, audit, as_str, bad_request,
}

-- One call, by whichever server process.
pub data Call : Type 0 where
  issues : (id : ℕ) (binding : Value) (issuer reason : Text) (now : ℕ) → Call
  consumes : (id : ℕ) (binding : Value) (actor : Text) (now : ℕ) → Call
  revokes : (id : ℕ) (actor : Text) (now : ℕ) → Call

-- A call that fails leaves the tables as they are.
abbrev pub after {ℓ} :
    {A : Type ℓ} → (A → ApprovalTables) → ApprovalTables → Result A StorageError → ApprovalTables
after f t (ok a) = f a
after f t (err e) = t

unfoldable pub step : Codec → Call → ApprovalTables → ApprovalTables
step codec (issues id binding issuer reason now) t =
    after (λ p. p.0) t (issue codec id binding issuer reason now t)
step codec (consumes id binding actor now) t =
    after (λ p. p.0) t (consume codec id binding actor now t)
step codec (revokes id actor now) t = after (λ t'. t') t (revoke id actor now t)

unfoldable pub run_calls : Codec → List Call → ApprovalTables → ApprovalTables
unfolding step
run_calls codec [] t = t
run_calls codec (c ∷ cs) t = run_calls codec cs (step codec c t)

-- The binding that a call to issue has.
abbrev pub IsBindingOf : Call → Value → Type 0
IsBindingOf (issues id binding issuer reason now) v = v ≡ binding
IsBindingOf (consumes id binding actor now) v = ⊥
IsBindingOf (revokes id actor now) v = ⊥

-- What a call makes of the row of an id.
pub data Effect (codec : Codec) (c : Call) : Option Approval → Option Approval → Type 0 where
  same : {o o' : Option Approval} → o' ≡ o → Effect codec c o o'
  issued :
      {o o' : Option Approval} (identity d : Text) (a : Approval)
      → o ≡ none
      → o' ≡ some a
      → IsBindingOf c a.binding
      → as_str (index a.binding (codes "identity")) ≡ some identity
      → bad_request a.issuer identity a.reason ≡ false
      → digest codec a.binding ≡ ok d
      → a.binding_digest ≡ d
      → Effect codec c o o'
  spent :
      {o o' : Option Approval} (a : Approval) (revoked : Bool) (at : Option ℕ)
      → o ≡ some a
      → a.revoked ≡ false
      → a.consumed_at ≡ none
      → o' ≡ some (record a { revoked = revoked; consumed_at = at })
      → Effect codec c o o'

issue-Effect :
    (codec : Codec) (id : ℕ) (binding : Value) (issuer reason : Text) (now : ℕ) (t : ApprovalTables)
    (j : ℕ)
    → Effect codec (issues id binding issuer reason now) (find j t.approvals) (
        find j
          (after
            (λ (p : ApprovalTables × Approval). p.0)
            t
            (issue codec id binding issuer reason now t)).approvals)
unfolding issue
issue-Effect codec id binding issuer reason now t j =
    elim (Option-cases (as_str (index binding (codes "identity")))) [
      | inl nobody ↦ rw nobody (same refl)
      | inr (identity, named) ↦ rw named (elim (Bool-cases (bad_request issuer identity reason)) [
        | inl bad ↦ rw bad (same refl)
        | inr good ↦ rw good (elim (Result-cases (digest codec binding)) [
          | inr (e, failed) ↦ rw failed (same refl)
          | inl (d, hashed) ↦ rw hashed (stored identity d named good hashed)
        ])
      ])
    ]
  where
    stored :
        (identity d : Text)
        → as_str (index binding (codes "identity")) ≡ some identity
        → bad_request issuer identity reason ≡ false
        → digest codec binding ≡ ok d
        → Effect codec (issues id binding issuer reason now) (find j t.approvals) (
            find j
              (after
                (λ (p : ApprovalTables × Approval). p.0)
                t
                (insert_approval id
                    (new_approval binding issuer reason d now)
                    (find id t.approvals)
                    t
                  >>= λ t'. ok (
                    audit issuer approval_issue id now t',
                    new_approval binding issuer reason d now,
                  ))).approvals)
    stored identity d named good hashed = elim (Option-cases (find id t.approvals)) [
      | inr (old, there) ↦ rw there (same refl)
      | inl missing ↦ rw missing (elim (Bool-cases (id == j)) [
        | inl own ↦
            let here = (==_iff id j).0 own in
            issued identity d (new_approval binding issuer reason d now)
              (ap (λ i. find i t.approvals) (sym here) ∙ missing)
              (find-append id j (new_approval binding issuer reason d now) t.approvals missing
                ∙ ground (arith, own))
              refl named good hashed refl
        | inr other ↦ same (
            find-append id j (new_approval binding issuer reason d now) t.approvals missing
            ∙ ground (arith, other))
      ])
    ]

written-Effect :
    (codec : Codec) (c : Call) (id j : ℕ) (a : Approval) (revoked : Bool) (at : Option ℕ)
    (rows : List (ℕ × Approval))
    → find id rows ≡ some a
    → a.revoked ≡ false
    → a.consumed_at ≡ none
    → Effect codec c
        (find j rows)
        (find j (replace id (record a { revoked = revoked; consumed_at = at }) rows))
written-Effect codec c id j a revoked at rows f live unused = elim (Bool-cases (id == j)) [
  | inl own ↦
      let here = (==_iff id j).0 own in
      spent a revoked at (ap (λ i. find i rows) (sym here) ∙ f) live unused (
        find-replace id j (record a { revoked = revoked; consumed_at = at }) rows f
        ∙ ground (arith, own))
  | inr other ↦ same (
      find-replace id j (record a { revoked = revoked; consumed_at = at }) rows f
      ∙ ground (arith, other))
]

is_none-eq : (o : Option ℕ) → is_none o ≡ true → o ≡ none
is_none-eq none e = refl
is_none-eq (some at) e = cc

consume_row-Effect :
    (codec : Codec) (c : Call) (o : Option Approval) (d : Text) (id : ℕ) (actor : Text) (now : ℕ)
    (t : ApprovalTables) (j : ℕ)
    → find id t.approvals ≡ o
    → Effect codec c (find j t.approvals) (find j (consume_row o d id actor now t).0.approvals)
unfolding consume_row is_open
consume_row-Effect codec c none d id actor now t j f = same refl
consume_row-Effect codec c (some a) d id actor now t j f = elim (Bool-cases (is_open d now a)) [
  | inl fits ↦
      rw (is_open, fits)
        (written-Effect codec c id j a a.revoked (some now) t.approvals f (ground (arith, fits))
          (is_none-eq a.consumed_at (ground (arith, fits))))
  | inr unfit ↦ rw (is_open, unfit) (same refl)
]

consume-Effect :
    (codec : Codec) (c : Call) (id : ℕ) (binding : Value) (actor : Text) (now : ℕ)
    (t : ApprovalTables) (j : ℕ)
    → Effect codec c
        (find j t.approvals)
        (find j (after (λ p. p.0) t (consume codec id binding actor now t)).approvals)
unfolding consume
consume-Effect codec c id binding actor now t j =
    elim (Bool-cases (is_text (index binding (codes "identity")) actor)) [
      | inr stranger ↦ rw stranger (same refl)
      | inl named ↦ rw named (elim (Result-cases (digest codec binding)) [
        | inr (e, failed) ↦ rw failed (same refl)
        | inl (d, hashed) ↦
            rw hashed (consume_row-Effect codec c (find id t.approvals) d id actor now t j refl)
      ])
    ]

revoke_row-Effect :
    (codec : Codec) (c : Call) (o : Option Approval) (id : ℕ) (actor : Text) (now : ℕ)
    (t : ApprovalTables) (j : ℕ)
    → find id t.approvals ≡ o
    → Effect codec c
        (find j t.approvals)
        (find j (after (λ t'. t') t (revoke_row o id actor now t)).approvals)
unfolding revoke_row
revoke_row-Effect codec c none id actor now t j f = same refl
revoke_row-Effect codec c (some a) id actor now t j f =
    elim (Bool-cases (is_none a.consumed_at && not a.revoked)) [
      | inl fits ↦ rw fits (
          written-Effect codec c id j a true a.consumed_at t.approvals f (ground (arith, fits))
            (is_none-eq a.consumed_at (ground (arith, fits))))
      | inr unfit ↦ rw unfit (same refl)
    ]

pub step-Effect :
    (codec : Codec) (c : Call) (t : ApprovalTables) (j : ℕ)
    → Effect codec c (find j t.approvals) (find j (step codec c t).approvals)
unfolding step revoke
step-Effect codec (issues id binding issuer reason now) t j =
    issue-Effect codec id binding issuer reason now t j
step-Effect codec (consumes id binding actor now) t j =
    consume-Effect codec (consumes id binding actor now) id binding actor now t j
step-Effect codec (revokes id actor now) t j =
    revoke_row-Effect codec (revokes id actor now) (find id t.approvals) id actor now t j refl
