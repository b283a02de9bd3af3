-- ===== src/Storage/Approvals/Spent.antt =====
-- crates/rip-storage/src/operation_approvals.rs: what the calls make of an approval, and that one that is consumed or
-- revoked stays so.
use rip_server.Common.{
  ℕ, ◌≡◌, ◌≢◌, refl, sym, ap, ◌∙◌, ◌⊎◌, inl, inr, true, false, List, [], ◌∷◌, Option, none, some,
  Bool-cases, ==_iff, Result-cases, ok, arith,
}
use rip_server.Common.Bytes.{codes}
use rip_server.Digest.{Value, Codec, digest}
use rip_server.Storage.{Text}
use rip_server.Storage.Rows.{find, replace, find-replace}
use rip_server.Storage.Approvals.{
  Approval, ApprovalTables, consume, consume_row, is_open, index, is_text,
}
use rip_server.Storage.Approvals.Effects.{
  Call, Effect, same, issued, spent, step, run_calls, step-Effect,
}

-- An approval that is consumed or revoked.
abbrev pub IsSpent : Approval → Type 0
IsSpent a = (a.revoked ≡ true) ⊎ (a.consumed_at ≢ none)

Effect-IsSpent :
    (codec : Codec) (c : Call) (o o' : Option Approval) (a : Approval)
    → Effect codec c o o'
    → o ≡ some a
    → IsSpent a
    → o' ≡ some a
Effect-IsSpent codec c o o' a (same e) f h = e ∙ f
Effect-IsSpent codec c o o' a (issued identity d new missing e own named good hashed is) f h =
    ground (arith, missing, f)
Effect-IsSpent codec c o o' a (spent b revoked at found live unused e) f h =
    let is : b ≡ a = ground (arith, found, f) in
    refute h (ap (λ (x : Approval). x.revoked) (sym is) ∙ live)
      (ap (λ (x : Approval). x.consumed_at) (sym is) ∙ unused)
  where
    refute : IsSpent a → a.revoked ≡ false → a.consumed_at ≡ none → o' ≡ some a
    refute (inl yes_revoked) no_revoked no_consumed = cc
    refute (inr yes_consumed) no_revoked no_consumed = absurd (yes_consumed no_consumed)

pub run_calls-IsSpent :
    (codec : Codec) (calls : List Call) (t : ApprovalTables) (id : ℕ) (a : Approval)
    → find id t.approvals ≡ some a
    → IsSpent a
    → find id (run_calls codec calls t).approvals ≡ some a
unfolding run_calls
run_calls-IsSpent codec [] t id a f h = f
run_calls-IsSpent codec (c ∷ cs) t id a f h =
    run_calls-IsSpent codec cs (step codec c t) id a
      (Effect-IsSpent codec c _ _ a (step-Effect codec c t id) f h) h

-- What an approval granted has been.
pub record Granted (codec : Codec) (id : ℕ) (binding : Value) (actor : Text) (now : ℕ)
    (t t' : ApprovalTables) : Type 0 where
  pub row : Approval
  pub d : Text
  pub found : find id t.approvals ≡ some row
  pub named : is_text (index binding (codes "identity")) actor ≡ true
  pub hashed : digest codec binding ≡ ok d
  pub open_row : is_open d now row ≡ true
  pub written : find id t'.approvals ≡ some (record row { consumed_at = some now })

consume_row-found :
    (o : Option Approval) (d : Text) (id : ℕ) (actor : Text) (now : ℕ) (t t' : ApprovalTables)
    → find id t.approvals ≡ o
    → consume_row o d id actor now t ≡ (t', true)
    → (row : Approval) × (find id t.approvals ≡ some row)
      × (is_open d now row ≡ true)
      × (find id t'.approvals ≡ some (record row { consumed_at = some now }))
unfolding consume_row
consume_row-found none d id actor now t t' f e = ground arith
consume_row-found (some a) d id actor now t t' f e = elim (Bool-cases (is_open d now a)) [
  | inr unfit ↦ ground (arith, unfit, e)
  | inl fits ↦
      let is : t'.approvals ≡ replace id (record a { consumed_at = some now }) t.approvals =
        ground (arith, fits, e) in
      (
        a,
        f,
        fits,
        ap (find id) is
            ∙ find-replace id id (record a { consumed_at = some now }) t.approvals f
            ∙ ground (arith, (==_iff id id).1 refl),
      )
]

pub consume-Granted :
    (codec : Codec) (id : ℕ) (binding : Value) (actor : Text) (now : ℕ) (t t' : ApprovalTables)
    → consume codec id binding actor now t ≡ ok (t', true)
    → Granted codec id binding actor now t t'
unfolding consume
consume-Granted codec id binding actor now t t' e =
    elim (Bool-cases (is_text (index binding (codes "identity")) actor)) [
      | inr stranger ↦ ground (arith, stranger, e)
      | inl named ↦ elim (Result-cases (digest codec binding)) [
        | inr (failure, failed) ↦ ground (arith, named, failed, e)
        | inl (d, hashed) ↦
            let done : consume_row (find id t.approvals) d id actor now t ≡ (t', true) =
              ground (arith, named, hashed, e) in
            let (row, found, open_row, written) =
              consume_row-found (find id t.approvals) d id actor now t t' refl done in
            record {
              row = row;
              d = d;
              found = found;
              named = named;
              hashed = hashed;
              open_row = open_row;
              written = written;
            }
      ]
    ]
