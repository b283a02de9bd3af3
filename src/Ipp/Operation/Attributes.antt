-- ===== src/Ipp/Operation/Attributes.antt =====
-- crates/rip-ipp/src/lib.rs: what `validate_operation` establishes of every attribute.
use Prim.Native.String.{String}
use rip_server.Common.{
  ℕ, ◌≡◌, refl, sym, ap, ◌∙◌, ◌≢◌, ◌⊎◌, true, false, not, ◌&&◌, List, [], ◌∷◌, Option, none, some,
  ◌==◌, any, length, All, ok, >>=-eq-ok, reject_if-eq-ok, arith, subst,
}
use rip_server.Common.Bytes.{Bytes, codes, bytes_eq_iff}
use rip_server.Common.Bytes.Utf8.{is_utf8}
use rip_server.Ipp.{Attribute, Request}
use rip_server.Ipp.Access.{is_text, matching}
use rip_server.Ipp.Operation.{
  check_language, check_target, check_attribute, check_attributes, check_tagged, count_same,
  expected_tag, bad_shape, bad_text, bad_boolean,
}
use rip_server.Ipp.Operation.Validate.{check_operation, validate_operation}

-- The checks that an accepted request passed.
pub record Passed (r : Request) : Type 0 where
  pub target : check_target r ≡ ok tt
  pub groups : any (λ a. not (a.group == 1) && not (a.group == 2)) r.attributes ≡ false
  pub attributes : check_attributes r.attributes r.attributes ≡ ok tt
  pub operation : check_operation r ≡ ok tt

pub validate_operation-Passed : (r : Request) → validate_operation r ≡ ok tt → Passed r
unfolding validate_operation
validate_operation-Passed r e =
    let (_, _, e1) = >>=-eq-ok (check_language r) _ e in
    let (_, target, e2) = >>=-eq-ok (check_target r) _ e1 in
    let (groups, e3) =
      reject_if-eq-ok (any (λ a. not (a.group == 1) && not (a.group == 2)) r.attributes) _ _ e2 in
    let (_, attributes, operation) = >>=-eq-ok (check_attributes r.attributes r.attributes) _ e3 in
    record { target = target; groups = groups; attributes = attributes; operation = operation }

-- A tag of a number, a resolution, a range or a Boolean.
abbrev pub IsBinary : ℕ → Type 0
IsBinary tag = (tag ≡ 0x21) ⊎ (tag ≡ 0x22) ⊎ (tag ≡ 0x23) ⊎ (tag ≡ 0x32) ⊎ (tag ≡ 0x33)

-- The attribute is in one of the two groups, has a known name and the tag of that name, and a value
-- of the size that the tag requires; a text value is nonempty UTF-8 with no zero byte.
pub record IsTyped (a : Attribute) : Type 0 where
  pub grouped : (a.group ≡ 1) ⊎ (a.group ≡ 2)
  pub known : expected_tag a.name ≡ some a.tag
  pub number : (a.tag ≡ 0x21) ⊎ (a.tag ≡ 0x23) → length a.value ≡ 4
  pub resolution : a.tag ≡ 0x32 → length a.value ≡ 9
  pub range : a.tag ≡ 0x33 → length a.value ≡ 8
  pub boolean : a.tag ≡ 0x22 → length a.value ≡ 1
  pub text :
      ¬ IsBinary a.tag
      → (a.value ≢ []) × (any (λ b. b == 0) a.value ≡ false) × (is_utf8 a.value ≡ true)

boolean_length : (value : Bytes) → bad_boolean value ≡ false → length value ≡ 1
unfolding bad_boolean
boolean_length [] h = cc
boolean_length (x ∷ []) h = refl
boolean_length (x ∷ y ∷ zs) h = cc

IsTyped-of :
    (a : Attribute)
    → (a.group ≡ 1) ⊎ (a.group ≡ 2)
    → expected_tag a.name ≡ some a.tag
    → bad_shape a a.tag ≡ false
    → bad_text a a.tag ≡ false
    → IsTyped a
unfolding bad_shape bad_text
IsTyped-of a g known shaped worded = record {
  grouped = g;
  known = known;
  number = λ h. ground arith;
  resolution = λ h. ground arith;
  range = λ h. ground arith;
  boolean = λ h. boolean_length a.value (ground arith);
  text = λ h. (ground arith, ground arith, ground arith);
}

bad_shape-tag : (a : Attribute) (t : ℕ) → bad_shape a t ≡ false → a.tag ≡ t
unfolding bad_shape
bad_shape-tag a t h = ground arith

check_tagged-IsTyped :
    (attributes : List Attribute) (a : Attribute) (expected : Option ℕ)
    → expected_tag a.name ≡ expected
    → (a.group ≡ 1) ⊎ (a.group ≡ 2)
    → check_tagged attributes a expected ≡ ok tt
    → IsTyped a
unfolding check_tagged
check_tagged-IsTyped attributes a none x g e = cc
check_tagged-IsTyped attributes a (some t) x g e =
    let (shaped, e1) = reject_if-eq-ok (bad_shape a t) _ _ e in
    let (worded, e2) = reject_if-eq-ok (bad_text a t) _ _ e1 in
    let tagged = bad_shape-tag a t shaped in
    IsTyped-of a g (x ∙ ap some (sym tagged))
      (subst (λ y. bad_shape a y ≡ false) (sym tagged) shaped)
      (subst (λ y. bad_text a y ≡ false) (sym tagged) worded)

check_attributes-IsTyped :
    (attributes xs : List Attribute)
    → any (λ a. not (a.group == 1) && not (a.group == 2)) xs ≡ false
    → check_attributes attributes xs ≡ ok tt
    → All IsTyped xs
unfolding check_attributes check_attribute
check_attributes-IsTyped attributes [] g e = tt
check_attributes-IsTyped attributes (a ∷ xs) g e =
    let (_, checked, later) = >>=-eq-ok (check_attribute attributes a) _ e in
    (
      check_tagged-IsTyped attributes a (expected_tag a.name) refl (ground arith) checked,
      check_attributes-IsTyped attributes xs (ground arith) later,
    )

-- Every attribute of an accepted request is in group 1 or 2, has a known name with the tag of
-- that name, and has a value of the size that the tag requires or, for a text tag, nonempty UTF-8
-- with no zero byte.
pub accepted-IsTyped : (r : Request) → validate_operation r ≡ ok tt → All IsTyped r.attributes
accepted-IsTyped r e =
    let p = validate_operation-Passed r e in
    check_attributes-IsTyped r.attributes r.attributes p.groups p.attributes

pub count_same-matching :
    (a : Attribute) (name : String) (xs : List Attribute)
    → is_text a.name name ≡ true
    → count_same a xs ≡ length (matching a.group name xs)
unfolding count_same matching is_text
count_same-matching a name [] h = refl
count_same-matching a name (x ∷ xs) h = ground (
  arith,
  count_same-matching a name xs h,
  bytes_eq_iff a.name (codes name),
  bytes_eq_iff x.name (codes name),
  bytes_eq_iff x.name a.name,
)
