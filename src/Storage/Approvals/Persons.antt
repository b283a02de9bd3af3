-- ===== src/Storage/Approvals/Persons.antt =====
-- crates/rip-storage/src/operation_approvals.rs: an approval takes two persons.
use rip_server.Common.{
  ℕ, ◌<◌, ◌≡◌, ◌≢◌, refl, sym, ap, subst, ◌∙◌, true, false, List, [], ◌∷◌, Option, none, some, ok,
  arith,
}
use rip_server.Common.Bytes.{codes, bytes_eq, bytes_eq_iff}
use rip_server.Digest.{Value, text, null, boolean, number, array, object, Codec, digest}
use rip_server.Digest.Bounds.{HasDistinctKeys}
use rip_server.Storage.{Text}
use rip_server.Storage.Rows.{find}
use rip_server.Storage.Approvals.{
  Approval, ApprovalTables, consume, is_open, is_none, index, is_text, as_str, bad_request,
}
use rip_server.Storage.Approvals.Spent.{consume-Granted}
use rip_server.Storage.Approvals.Effects.{
  Call, IsBindingOf, Effect, same, issued, spent, step, run_calls, step-Effect,
}

-- The row of an approval as `issue` has made it: its issuer is not the identity that its binding names.
pub record IsIssued (codec : Codec) (a : Approval) : Type 0 where
  pub identity : Text
  pub named : as_str (index a.binding (codes "identity")) ≡ some identity
  pub other : a.issuer ≢ identity
  pub digest_is : digest codec a.binding ≡ ok a.binding_digest
  pub distinct : HasDistinctKeys a.binding

-- The bindings that approvals are issued for are documents of JSON: the names in an object differ.
abbrev pub AreDocuments : List Call → Type 0
AreDocuments [] = Unit
AreDocuments (c ∷ cs) = ((v : Value) → IsBindingOf c v → HasDistinctKeys v) × AreDocuments cs

AllIssued : Codec → ApprovalTables → Type 0
AllIssued codec t = (j : ℕ) (a : Approval) → find j t.approvals ≡ some a → IsIssued codec a

bad_request-other :
    (issuer identity reason : Text) → bad_request issuer identity reason ≡ false → issuer ≢ identity
unfolding bad_request
bad_request-other issuer identity reason e p =
    let eq : bytes_eq issuer identity ≡ true = (bytes_eq_iff issuer identity).1 p in
    ground (arith, eq, e)

Effect-IsIssued :
    (codec : Codec) (c : Call) (o o' : Option Approval)
    → Effect codec c o o'
    → ((v : Value) → IsBindingOf c v → HasDistinctKeys v)
    → ((a : Approval) → o ≡ some a → IsIssued codec a)
    → (a : Approval) → o' ≡ some a
    → IsIssued codec a
Effect-IsIssued codec c o o' (same e) p h a f = h a (sym e ∙ f)
Effect-IsIssued codec c o o' (issued identity d new missing e own named good hashed is) p h a f =
    let is_it : new ≡ a = ground (arith, e, f) in
    subst (IsIssued codec) is_it (record {
      identity = identity;
      named = named;
      other = bad_request-other new.issuer identity new.reason good;
      digest_is = hashed ∙ ap ok (sym is);
      distinct = p new.binding own;
    })
Effect-IsIssued codec c o o' (spent b revoked at found live unused e) p h a f =
    let before = h b found in
    let is_it : (record b { revoked = revoked; consumed_at = at }) ≡ a = ground (arith, e, f) in
    subst (IsIssued codec) is_it (record {
      identity = before.identity;
      named = before.named;
      other = before.other;
      digest_is = before.digest_is;
      distinct = before.distinct;
    })

run_calls-IsIssued :
    (codec : Codec) (calls : List Call) (t : ApprovalTables)
    → AllIssued codec t
    → AreDocuments calls
    → AllIssued codec (run_calls codec calls t)
unfolding run_calls AllIssued
run_calls-IsIssued codec [] t h documents = h
run_calls-IsIssued codec (c ∷ cs) t h documents =
    run_calls-IsIssued codec cs (step codec c t)
      (λ j. Effect-IsIssued codec c _ _ (step-Effect codec c t j) documents.0 (h j)) documents.1

as_str-eq-text : (v : Value) (s : Text) → as_str v ≡ some s → v ≡ text s
as_str-eq-text (text u) s e = ap text (ground (arith, e))
as_str-eq-text null s e = cc
as_str-eq-text (boolean b) s e = cc
as_str-eq-text (number n) s e = cc
as_str-eq-text (array a) s e = cc
as_str-eq-text (object o) s e = cc

is_text-eq-text : (v : Value) (actor : Text) → is_text v actor ≡ true → v ≡ text actor
is_text-eq-text (text u) actor h = ap text ((bytes_eq_iff u actor).0 h)
is_text-eq-text null actor h = cc
is_text-eq-text (boolean b) actor h = cc
is_text-eq-text (number n) actor h = cc
is_text-eq-text (array a) actor h = cc
is_text-eq-text (object o) actor h = cc

-- An operation that is granted has been approved by somebody else. Let the bindings be documents in which the names
-- of an object differ, and let two such documents of one digest that name their identities by texts name the same
-- text, as canonical JSON and SHA-256 have it. If after any calls from an empty table an approval is consumed for an
-- actor, then it was issued by another than the actor, for a binding of the same digest that names the actor; it
-- was neither consumed nor revoked, and had not expired.
pub two_persons :
    (codec : Codec) (calls : List Call) (id : ℕ) (binding : Value) (actor : Text) (now : ℕ)
    (t' : ApprovalTables)
    → ((v w : Value) (d s u : Text)
        → HasDistinctKeys v
        → HasDistinctKeys w
        → digest codec v ≡ ok d
        → digest codec w ≡ ok d
        → index v (codes "identity") ≡ text s
        → index w (codes "identity") ≡ text u
        → s ≡ u)
    → AreDocuments calls
    → HasDistinctKeys binding
    → consume codec id binding actor now
        (run_calls codec calls (record { approvals = []; audit_records = [] }))
      ≡ ok (t', true)
    → (a : Approval) × (find id
          (run_calls codec calls (record { approvals = []; audit_records = [] })).approvals
        ≡ some a)
      × (a.issuer ≢ actor)
      × (digest codec a.binding ≡ digest codec binding)
      × (as_str (index a.binding (codes "identity")) ≡ some actor)
      × (now < a.expires_at)
      × (a.revoked ≡ false)
      × (a.consumed_at ≡ none)
unfolding AllIssued find is_open
two_persons codec calls id binding actor now t' determines documents distinct e =
    let t : ApprovalTables =
      run_calls codec calls (record { approvals = []; audit_records = [] }) in
    let g = consume-Granted codec id binding actor now t t' e in
    let i =
      run_calls-IsIssued codec calls (record { approvals = []; audit_records = [] })
        (λ j a f. ground (arith, f)) documents id g.row g.found in
    let same_digest : g.row.binding_digest ≡ g.d =
      (bytes_eq_iff g.row.binding_digest g.d).0 (ground (arith, g.open_row)) in
    let alike : digest codec g.row.binding ≡ ok g.d = i.digest_is ∙ ap ok same_digest in
    let actor_is : i.identity ≡ actor =
      determines g.row.binding binding g.d i.identity actor i.distinct distinct alike g.hashed
        (as_str-eq-text (index g.row.binding (codes "identity")) i.identity i.named)
        (is_text-eq-text (index binding (codes "identity")) actor g.named) in
    (
      g.row,
      g.found,
      (λ p. i.other (p ∙ sym actor_is)),
      alike ∙ sym g.hashed,
      i.named ∙ ap some actor_is,
      ground (arith, g.open_row),
      ground (arith, g.open_row),
      unused g.row.consumed_at (ground (arith, g.open_row)),
    )
  where
    unused : (o : Option ℕ) → is_none o ≡ true → o ≡ none
    unused none h = refl
    unused (some at) h = cc
