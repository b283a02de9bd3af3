-- ===== src/Tests/Approvals.antt =====
-- crates/rip-digest and crates/rip-storage/src/operation_approvals.rs at concrete inputs.
use rip_server.Common.{
  ◌≤◌, ◌<◌, ◌≡◌, ◌≢◌, ◌↔◌, refl, sym, ap, subst, ◌∙◌, ◌⊎◌, inl, true, false, List, [], ◌∷◌, none,
  some, if◌then◌else◌, Result, ok, err, >>=-eq-ok, arith,
}
use rip_server.Common.Bytes.{Bytes, codes, bytes_eq}
use rip_server.Core.Document.{is_whitespace, utf8_len, char_len}
use rip_server.Digest.{
  Error, json, integer, pos_int, float, Value, null, boolean, number, text, array, object, end,
  item, done, member, Codec, canonical, digest, parse, check, strict, strict_of, contains_key,
  insert, out_of_range,
}
use rip_server.Digest.Strict.{parse_iff}
use rip_server.Digest.Bounds.{nested, HasDistinctKeys, HasSafeNumbers}
use rip_server.Storage.{conflict, Text}
use rip_server.Storage.Rows.{find, replace}
use rip_server.Storage.Approvals.{
  Approval, ApprovalTables, new_approval, issue, consume, consume_row, revoke, is_open, index,
  get_member, approval_issue, approval_consume, as_str, bad_request,
}
use rip_server.Storage.Approvals.Effects.{Call, issues, step, run_calls}
use rip_server.Storage.Approvals.Once.{used_once}
use rip_server.Storage.Approvals.Persons.{two_persons}

-- An operation of an agent.
abbrev delete_job : Value
delete_job = object (
    member (codes "identity") (text (codes "agent"))
      (member (codes "revision") (number (pos_int 3)) done))

abbrev twice_named : Value
twice_named = object (member (codes "a") null (member (codes "a") (boolean true) done))

-- Documents by a letter, and the identity as the canonical bytes.
abbrev only_text : Value → Result Bytes Error
only_text (text s) = ok s
only_text _ = err json

abbrev codec : Codec
codec = record {
  read = λ bytes.
      if bytes_eq bytes (codes "d")
      then some delete_job
      else if bytes_eq bytes (codes "t")
      then some twice_named
      else none;
  to_vec = λ v. only_text (index v (codes "identity"));
  sha256 = λ bytes. bytes;
}

takes : parse codec (codes "d") ≡ ok delete_job
unfolding parse strict_of strict canonical check index get_member bytes_eq contains_key insert
    out_of_range
takes = refl

refuses_repeated : parse codec (codes "t") ≡ err json
unfolding parse strict_of strict contains_key insert bytes_eq
refuses_repeated = refl

refuses_large : check (array (item (number (pos_int 9007199254740993)) end)) 0 ≡ err integer
unfolding check out_of_range
refuses_large = refl

refuses_infinity : check (number (float 9218868437227405312)) 0 ≡ err integer
unfolding check out_of_range
refuses_infinity = refl

parse_iff_example : (parse codec (codes "d") ≡ ok delete_job) ↔ (
    (codec.read (codes "d") ≡ some delete_job)
    × HasDistinctKeys delete_job
    × (nested delete_job ≤ 64)
    × HasSafeNumbers delete_job
    × (out : Bytes) × (codec.to_vec delete_job ≡ ok out))
parse_iff_example = parse_iff codec (codes "d") delete_job

abbrev nothing : ApprovalTables
nothing = record { approvals = []; audit_records = [] }

abbrev human : Text
human = codes "human"

abbrev agent : Text
agent = codes "agent"

abbrev reviewed : List Call
reviewed = issues 1 delete_job human (codes "reviewed") 100 ∷ []

abbrev approved : Approval
approved = new_approval delete_job human (codes "reviewed") agent 100

abbrev used : ApprovalTables
used = record {
  approvals = (1, record approved { consumed_at = some 399 }) ∷ [];
  audit_records =
      (record { identity = human; operation = approval_issue; target = 1; started_at = 100 })
      ∷ (record { identity = agent; operation = approval_consume; target = 1; started_at = 399 })
      ∷ [];
}

consumed_in_time :
    consume codec 1 delete_job agent 399 (run_calls codec reviewed nothing) ≡ ok (used, true)
unfolding run_calls step issue consume consume_row is_open bad_request digest canonical check index
    get_member bytes_eq out_of_range is_whitespace utf8_len char_len find replace
consumed_in_time = refl

-- At its expiry an approval is no longer taken.
consumed_too_late :
    consume codec 1 delete_job agent 400 (run_calls codec reviewed nothing)
    ≡ ok (run_calls codec reviewed nothing, false)
unfolding run_calls step issue consume consume_row is_open bad_request digest canonical check index
    get_member bytes_eq out_of_range is_whitespace utf8_len char_len find replace
consumed_too_late = refl

-- Nobody approves what he does himself.
own_approval : issue codec 1 delete_job agent (codes "self") 100 nothing ≡ err conflict
unfolding issue bad_request index get_member bytes_eq is_whitespace utf8_len char_len
own_approval = refl

used_once_example :
    ((consume codec 1 delete_job agent 399 (run_calls codec reviewed used)
        ≡ ok (run_calls codec reviewed used, false))
      ⊎ (consume codec 1 delete_job agent 399 (run_calls codec reviewed used) ≡ err conflict))
    × (revoke 1 agent 399 (run_calls codec reviewed used) ≡ err conflict)
used_once_example =
    used_once codec 1 delete_job agent 399 (run_calls codec reviewed nothing) used reviewed
      delete_job agent 399 (inl consumed_in_time)

digest-only_text :
    (v : Value) (d : Text) → digest codec v ≡ ok d → only_text (index v (codes "identity")) ≡ ok d
unfolding digest canonical
digest-only_text v d e =
    let (bytes, first, last) = >>=-eq-ok (canonical codec v) _ e in
    let (done_it, checked, vec) = >>=-eq-ok (check v 0) _ first in vec ∙ last

codec_determines :
    (v w : Value) (d s u : Text)
    → HasDistinctKeys v
    → HasDistinctKeys w
    → digest codec v ≡ ok d
    → digest codec w ≡ ok d
    → index v (codes "identity") ≡ text s
    → index w (codes "identity") ≡ text u
    → s ≡ u
codec_determines v w d s u distinct_v distinct_w p q v_is w_is =
    let one : ok s ≡ ok d = ap only_text (sym v_is) ∙ digest-only_text v d p in
    let two : ok u ≡ ok d = ap only_text (sym w_is) ∙ digest-only_text w d q in
    ground (arith, one, two)

delete_job-HasDistinctKeys : HasDistinctKeys delete_job
unfolding HasDistinctKeys
delete_job-HasDistinctKeys = ground arith

two_persons_example :
    (a : Approval) × (find 1 (run_calls codec reviewed nothing).approvals ≡ some a)
    × (a.issuer ≢ agent)
    × (digest codec a.binding ≡ digest codec delete_job)
    × (as_str (index a.binding (codes "identity")) ≡ some agent)
    × (399 < a.expires_at)
    × (a.revoked ≡ false)
    × (a.consumed_at ≡ none)
two_persons_example =
    two_persons codec reviewed 1 delete_job agent 399 used codec_determines
      ((λ v is. subst HasDistinctKeys (sym is) delete_job-HasDistinctKeys), tt)
      delete_job-HasDistinctKeys consumed_in_time
