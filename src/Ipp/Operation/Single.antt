-- ===== src/Ipp/Operation/Single.antt =====
-- crates/rip-ipp/src/lib.rs: after `validate_operation`, `Request::one` overlooks no attribute.
use Prim.Native.String.{String}
use rip_server.Common.{
  ℕ, ◌≡◌, refl, sym, inl, inr, Bool, true, false, ◌&&◌, ◌||◌, List, [], ◌∷◌, Option, none, some,
  ◌==◌, length, ok, >>=-eq-ok, reject_if-eq-ok, arith, Bool-cases, subst,
}
use rip_server.Common.Bytes.{codes, bytes_eq_iff}
use rip_server.Ipp.{Attribute, Request}
use rip_server.Ipp.Access.{is_text, matching, only, one}
use rip_server.Ipp.Operation.{
  check_attribute, check_attributes, check_tagged, expected_tag, bad_shape, bad_text, is_repeated,
}
use rip_server.Ipp.Operation.Attributes.{count_same-matching, validate_operation-Passed}
use rip_server.Ipp.Operation.Validate.{validate_operation}

check_tagged-single :
    (attributes : List Attribute) (a : Attribute) (expected : Option ℕ)
    → check_tagged attributes a expected ≡ ok tt
    → is_repeated attributes a ≡ false
unfolding check_tagged
check_tagged-single attributes a none e = cc
check_tagged-single attributes a (some t) e =
    let (_, e1) = reject_if-eq-ok (bad_shape a t) _ _ e in
    let (_, e2) = reject_if-eq-ok (bad_text a t) _ _ e1 in ground arith

-- What is known of the first attribute that `matching` keeps.
record Kept (attributes : List Attribute) (group : ℕ) (name : String) (a : Attribute) : Type 0 where
  in_group : a.group ≡ group
  named : is_text a.name name ≡ true
  single : is_repeated attributes a ≡ false

matching-Kept :
    (attributes : List Attribute) (group : ℕ) (name : String) (xs : List Attribute) {a : Attribute}
    {rest : List Attribute}
    → check_attributes attributes xs ≡ ok tt
    → matching group name xs ≡ a ∷ rest
    → Kept attributes group name a
unfolding matching check_attributes check_attribute
matching-Kept attributes group name [] e m = cc
matching-Kept attributes group name (x ∷ xs) {a} {rest} e m =
    let (_, checked, later) = >>=-eq-ok (check_attribute attributes x) _ e in
    elim (Bool-cases (x.group == group && is_text x.name name)) [
      | inr other ↦ matching-Kept attributes group name xs later (rw other at m)
      | inl kept ↦
          let first : x ≡ a = ground arith in
          subst (Kept attributes group name) first (record {
            in_group = ground arith;
            named = ground arith;
            single = check_tagged-single attributes x (expected_tag x.name) checked;
          })
    ]

-- The names that may be given more than once.
abbrev pub may_repeat : String → Bool
may_repeat name = is_text (codes name) "requested-attributes" || is_text (codes name) "page-ranges"

only-none : (xs : List Attribute) → length xs ≡ 1 → only xs ≡ none → ⊥
unfolding only
only-none [] l e = omega arith
only-none (x ∷ []) l e = cc
only-none (x ∷ y ∷ xs) l e = omega arith

kept_once :
    (attributes : List Attribute) (name : String) (a : Attribute)
    → may_repeat name ≡ false
    → is_text a.name name ≡ true
    → is_repeated attributes a ≡ false
    → length (matching a.group name attributes) ≡ 1
unfolding is_repeated
kept_once attributes name a free named single =
    let same : codes name ≡ a.name =
      sym ((bytes_eq_iff a.name (codes name)).0 (unfold is_text in named)) in
    let free' : (is_text a.name "requested-attributes" || is_text a.name "page-ranges") ≡ false =
      subst (λ n. (is_text n "requested-attributes" || is_text n "page-ranges") ≡ false) same
        free in
    let count = count_same-matching a name attributes named in ground arith

-- In an accepted request, an attribute that is looked up by a group and a name that may not
-- repeat is missing only where the request has no such attribute: `one` overlooks none by finding
-- two.
pub one_complete :
    (r : Request) (group : ℕ) (name : String)
    → validate_operation r ≡ ok tt
    → may_repeat name ≡ false
    → one r group name ≡ none
    → matching group name r.attributes ≡ []
unfolding one
one_complete r group name e free missing = cases (matching group name r.attributes) refl
  where
    p : check_attributes r.attributes r.attributes ≡ ok tt
    p = (validate_operation-Passed r e).attributes

    cases :
        (found : List Attribute)
        → matching group name r.attributes ≡ found
        → matching group name r.attributes ≡ []
    cases [] m = m
    cases (a ∷ rest) m =
        let k = matching-Kept r.attributes group name r.attributes p m in
        let once = kept_once r.attributes name a free k.named k.single in
        absurd (
          only-none (matching group name r.attributes)
            (subst (λ g. length (matching g name r.attributes) ≡ 1) k.in_group once) missing)
