-- ===== src/Storage/Approvals.antt =====
-- crates/rip-storage/src/operation_approvals.rs: approvals of one operation each. A new id is an argument, and
-- `now` is one reading of the clock for those that one call makes.
pub mod Effects
pub mod Spent
pub mod Once
pub mod Persons
use rip_server.Common.{
  ℕ, ◌+◌, Bool, true, false, not, ◌&&◌, ◌||◌, List, [], ◌∷◌, ◌++◌, Option, none, some, ltb, ◌==◌,
  is_empty, all, if◌then◌else◌, Result, ok, err, ◌>>=◌, ◌>>◌, reject_if, ok_or,
}
use rip_server.Common.Bytes.{codes, bytes_eq}
use rip_server.Core.Document.{utf8_len, is_whitespace}
use rip_server.Digest.{Value, text, object, null, Members, done, member, Codec, Error, digest}
use rip_server.Storage.{StorageError, conflict, db, Text}
use rip_server.Storage.Rows.{find, replace}

-- A row of `operation_approvals`: the payload's binding, issuer and reason, and the columns.
pub record Approval : Type 0 where
  pub binding : Value
  pub issuer : Text
  pub reason : Text
  pub binding_digest : Text
  pub expires_at : ℕ
  pub revoked : Bool
  pub consumed_at : Option ℕ

pub data AuditOperation : Type 0 where
  approval_issue approval_consume approval_revoke : AuditOperation

-- A row of `audit_records`, as far as these operations fill it in.
pub record AuditRecord : Type 0 where
  pub identity : Text
  pub operation : AuditOperation
  pub target : ℕ
  pub started_at : ℕ

pub record ApprovalTables : Type 0 where
  pub approvals : List (ℕ × Approval)
  pub audit_records : List AuditRecord

-- `audit`
abbrev pub audit : Text → AuditOperation → ℕ → ℕ → ApprovalTables → ApprovalTables
audit actor operation id now t = record t {
  audit_records =
      t.audit_records
      ++ (record { identity = actor; operation = operation; target = id; started_at = now }) ∷ [];
}

-- `value[key]`, which is null where there is no such property.
unfoldable pub get_member : Text → Members → Value
get_member key done = null
get_member key (member k v o) = if bytes_eq k key then v else get_member key o

unfoldable pub index : Value → Text → Value
unfolding get_member
index (object o) key = get_member key o
index _ key = null

-- `Value::as_str`
abbrev pub as_str : Value → Option Text
as_str (text s) = some s
as_str _ = none

-- A comparison of a value to a text.
abbrev pub is_text : Value → Text → Bool
is_text (text s) actor = bytes_eq s actor
is_text _ actor = false

-- `rip_digest::digest(binding).map_err(|_| StorageError::Conflict)`
abbrev pub conflict_of : Result Text Error → Result Text StorageError
conflict_of (ok d) = ok d
conflict_of (err e) = err conflict

unfoldable pub bad_request : Text → Text → Text → Bool
unfolding utf8_len is_whitespace
bad_request issuer identity reason =
    is_empty issuer
    || is_empty identity
    || bytes_eq issuer identity
    || all is_whitespace reason
    || ltb 1024 (utf8_len reason)

-- `INSERT INTO operation_approvals`, whose ids are its primary key.
abbrev pub insert_approval :
    ℕ → Approval → Option Approval → ApprovalTables → Result ApprovalTables StorageError
insert_approval id a none t = ok (record t { approvals = t.approvals ++ (id, a) ∷ [] })
insert_approval id a (some old) t = err db

abbrev pub new_approval : Value → Text → Text → Text → ℕ → Approval
new_approval binding issuer reason d now = record {
  binding = binding;
  issuer = issuer;
  reason = reason;
  binding_digest = d;
  expires_at = now + 300;
  revoked = false;
  consumed_at = none;
}

-- `issue_operation_approval`
unfoldable pub issue :
    Codec
    → ℕ
    → Value
    → Text
    → Text
    → ℕ
    → ApprovalTables
    → Result (ApprovalTables × Approval) StorageError
unfolding index bad_request digest
issue codec id binding issuer reason now t = do
  identity ← ok_or (as_str (index binding (codes "identity"))) conflict
  reject_if (bad_request issuer identity reason) conflict
  d ← conflict_of (digest codec binding)
  let a = new_approval binding issuer reason d now
  t' ← insert_approval id a (find id t.approvals) t
  ok (audit issuer approval_issue id now t', a)

abbrev pub is_none : Option ℕ → Bool
is_none none = true
is_none (some at) = false

-- The conditions of the `UPDATE` that consumes.
unfoldable pub is_open : Text → ℕ → Approval → Bool
is_open d now a =
    bytes_eq a.binding_digest d && ltb now a.expires_at && not a.revoked && is_none a.consumed_at

unfoldable pub consume_row :
    Option Approval → Text → ℕ → Text → ℕ → ApprovalTables → ApprovalTables × Bool
unfolding is_open
consume_row none d id actor now t = (t, false)
consume_row (some a) d id actor now t =
    if is_open d now a
    then (
      audit actor approval_consume id now
          (record t { approvals = replace id (record a { consumed_at = some now }) t.approvals }),
      true,
    )
    else (t, false)

-- `consume_operation_approval`
unfoldable pub consume :
    Codec → ℕ → Value → Text → ℕ → ApprovalTables → Result (ApprovalTables × Bool) StorageError
unfolding index digest consume_row
consume codec id binding actor now t =
    if not (is_text (index binding (codes "identity")) actor)
    then ok (t, false)
    else (conflict_of (digest codec binding) >>= λ d.
        ok (consume_row (find id t.approvals) d id actor now t))

unfoldable pub revoke_row :
    Option Approval → ℕ → Text → ℕ → ApprovalTables → Result ApprovalTables StorageError
revoke_row none id actor now t = err conflict
revoke_row (some a) id actor now t = do
  reject_if (not (is_none a.consumed_at && not a.revoked)) conflict
  ok (
      audit actor approval_revoke id now
        (record t { approvals = replace id (record a { revoked = true }) t.approvals }))

-- `revoke_operation_approval`
unfoldable pub revoke : ℕ → Text → ℕ → ApprovalTables → Result ApprovalTables StorageError
unfolding revoke_row
revoke id actor now t = revoke_row (find id t.approvals) id actor now t
