-- ===== src/Storage/Approvals/Once.antt =====
-- crates/rip-storage/src/operation_approvals.rs: an approval is for one use.
use rip_server.Common.{
  ℕ, ◌≡◌, refl, ap, ◌∙◌, ◌⊎◌, inl, inr, true, false, not, ◌&&◌, List, Option, none, some,
  Bool-cases, Option-cases, Result-cases, ok, err, ==_iff, arith,
}
use rip_server.Common.Bytes.{codes}
use rip_server.Digest.{Value, Codec, digest}
use rip_server.Storage.{conflict, Text}
use rip_server.Storage.Rows.{find, replace, find-replace}
use rip_server.Storage.Approvals.{
  Approval, ApprovalTables, consume, consume_row, revoke, revoke_row, is_open, is_none, index,
  is_text,
}
use rip_server.Storage.Approvals.Spent.{run_calls-IsSpent, IsSpent, consume-Granted}
use rip_server.Storage.Approvals.Effects.{Call, run_calls}

not_open : (d : Text) (now : ℕ) (a : Approval) → IsSpent a → is_open d now a ≡ false
unfolding is_open
not_open d now a (inl p) = ground (arith, p)
not_open d now a (inr p) = elim (Option-cases a.consumed_at) [
  | inl unused ↦ absurd (p unused)
  | inr (at, used) ↦ ground (arith, used)
]

consume-IsSpent :
    (codec : Codec) (id : ℕ) (binding : Value) (actor : Text) (now : ℕ) (t : ApprovalTables)
    (a : Approval)
    → find id t.approvals ≡ some a
    → IsSpent a
    → (consume codec id binding actor now t ≡ ok (t, false))
      ⊎ (consume codec id binding actor now t ≡ err conflict)
unfolding consume consume_row
consume-IsSpent codec id binding actor now t a f h =
    elim (Bool-cases (is_text (index binding (codes "identity")) actor)) [
      | inr stranger ↦ inl (rw stranger refl)
      | inl named ↦ elim (Result-cases (digest codec binding)) [
        | inr (failure, failed) ↦ inr (rw (named, failed) refl)
        | inl (d, hashed) ↦ inl (rw (named, hashed, f, not_open d now a h) refl)
      ]
    ]

revoke-IsSpent :
    (id : ℕ) (actor : Text) (now : ℕ) (t : ApprovalTables) (a : Approval)
    → find id t.approvals ≡ some a
    → IsSpent a
    → revoke id actor now t ≡ err conflict
unfolding revoke revoke_row
revoke-IsSpent id actor now t a f (inl p) = rw f (ground (arith, p))
revoke-IsSpent id actor now t a f (inr p) = elim (Option-cases a.consumed_at) [
  | inl unused ↦ absurd (p unused)
  | inr (at, used) ↦ rw f (ground (arith, used))
]

revoke_row-found :
    (o : Option Approval) (id : ℕ) (actor : Text) (now : ℕ) (t t' : ApprovalTables)
    → find id t.approvals ≡ o
    → revoke_row o id actor now t ≡ ok t'
    → (row : Approval) × (find id t'.approvals ≡ some row) × IsSpent row
unfolding revoke_row
revoke_row-found none id actor now t t' f e = ground arith
revoke_row-found (some a) id actor now t t' f e =
    elim (Bool-cases (is_none a.consumed_at && not a.revoked)) [
      | inr unfit ↦ ground (arith, unfit, e)
      | inl fits ↦
          let is : t'.approvals ≡ replace id (record a { revoked = true }) t.approvals =
            ground (arith, fits, e) in
          (
            record a { revoked = true },
            ap (find id) is
                ∙ find-replace id id (record a { revoked = true }) t.approvals f
                ∙ ground (arith, (==_iff id id).1 refl),
            inl refl,
          )
    ]

closed_row :
    (codec : Codec) (id : ℕ) (binding : Value) (actor : Text) (now : ℕ) (t t' : ApprovalTables)
    → (consume codec id binding actor now t ≡ ok (t', true)) ⊎ (revoke id actor now t ≡ ok t')
    → (row : Approval) × (find id t'.approvals ≡ some row) × IsSpent row
unfolding revoke
closed_row codec id binding actor now t t' (inl e) =
    let g = consume-Granted codec id binding actor now t t' e in
    (record g.row { consumed_at = some now }, g.written, inr (λ p. cc))
closed_row codec id binding actor now t t' (inr e) =
    revoke_row-found (find id t.approvals) id actor now t t' refl e

-- An approval is for one use, and a revoked one for none. Once an approval is consumed or revoked, and whatever
-- calls to issue, consume and revoke approvals run since, no later attempt to consume it is granted, for any
-- operation and any actor: it changes nothing and is answered by false or a conflict; and to revoke it is a
-- conflict.
pub used_once :
    (codec : Codec) (id : ℕ) (binding : Value) (actor : Text) (now : ℕ) (t t' : ApprovalTables)
    (since : List Call) (binding' : Value) (actor' : Text) (later : ℕ)
    → (consume codec id binding actor now t ≡ ok (t', true)) ⊎ (revoke id actor now t ≡ ok t')
    → ((consume codec id binding' actor' later (run_calls codec since t')
          ≡ ok (run_calls codec since t', false))
        ⊎ (consume codec id binding' actor' later (run_calls codec since t') ≡ err conflict))
      × (revoke id actor' later (run_calls codec since t') ≡ err conflict)
used_once codec id binding actor now t t' since binding' actor' later e =
    let (row, found, spent) = closed_row codec id binding actor now t t' e in
    let kept = run_calls-IsSpent codec since t' id row found spent in
    (
      consume-IsSpent codec id binding' actor' later (run_calls codec since t') row kept spent,
      revoke-IsSpent id actor' later (run_calls codec since t') row kept spent,
    )
