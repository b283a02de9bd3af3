-- ===== src/Digest/Strict.antt =====
-- crates/rip-digest: which documents `parse` takes, said without the code.
use rip_server.Common.{
  ℕ, ◌≤◌, ◌≡◌, ◌≢◌, ◌↔◌, refl, sym, ap, subst, ◌∙◌, false, List, Option, none, some, ok, ◌>>=◌,
  >>=-eq-ok, reject_if-eq-ok, arith,
}
use rip_server.Common.Bytes.{Bytes, bytes_eq_iff}
use rip_server.Digest.{
  json, Value, null, boolean, number, text, array, object, Items, end, item, Members, done, member,
  check, contains_key, insert, strict, visit_seq, visit_map, Codec, canonical, parse, strict_of,
}
use rip_server.Digest.Bounds.{
  IsAbsent, nested, HasDistinctKeys, HaveDistinctKeys, MembersDistinct, HasSafeNumbers, check_iff,
}

-- The properties of an object after those of another.
unfoldable append : Members → Members → Members
append done o = o
append (member k v p) o = member k v (append p o)

append-done : (o : Members) → append o done ≡ o
unfolding append
append-done done = refl
append-done (member k v o) = ap (member k v) (append-done o)

append-insert :
    (k : List ℕ) (v : Value) (out o : Members)
    → append (insert k v out) o ≡ append out (member k v o)
unfolding append insert
append-insert k v done o = refl
append-insert k v (member k' v' out) o = ap (member k' v') (append-insert k v out o)

contains_key-IsAbsent : (k : List ℕ) (o : Members) → (contains_key k o ≡ false) ↔ IsAbsent k o
unfolding contains_key
contains_key-IsAbsent k done = ground arith
contains_key-IsAbsent k (member k' v o) =
    ground (arith, bytes_eq_iff k' k, contains_key-IsAbsent k o)

insert-IsAbsent :
    (j k : List ℕ) (v : Value) (out : Members)
    → IsAbsent j (insert k v out) ↔ ((k ≢ j) × IsAbsent j out)
unfolding insert
insert-IsAbsent j k v done = ground arith
insert-IsAbsent j k v (member k' v' out) = ground (arith, insert-IsAbsent j k v out)

-- No key of the first stands in the second.
abbrev AreAbsent : Members → Members → Type 0
AreAbsent done out = Unit
AreAbsent (member k v o) out = IsAbsent k out × AreAbsent o out

insert-AreAbsent :
    (o : Members) (k : List ℕ) (v : Value) (out : Members)
    → AreAbsent o (insert k v out) ↔ (IsAbsent k o × AreAbsent o out)
insert-AreAbsent done k v out = ground arith
insert-AreAbsent (member k' v' o) k v out =
    let here = insert-IsAbsent k' k v out in
    let rest = insert-AreAbsent o k v out in
    (
      λ h. ((λ p. (here.0 h.0).0 (sym p), (rest.0 h.1).0), ((here.0 h.0).1, (rest.0 h.1).1)),
      λ h. (here.1 (λ p. h.0.0 (sym p), h.1.0), rest.1 (h.0.1, h.1.1)),
    )

done-AreAbsent : (o : Members) → AreAbsent o done
done-AreAbsent done = tt
done-AreAbsent (member k v o) = (tt, done-AreAbsent o)

mutual
  unfolding strict visit_seq visit_map HasDistinctKeys HaveDistinctKeys MembersDistinct append

  strict_iff : (v w : Value) → (strict v ≡ ok w) ↔ ((w ≡ v) × HasDistinctKeys v)
  strict_iff null w = ground arith
  strict_iff (boolean b) w = ground arith
  strict_iff (number n) w = ground arith
  strict_iff (text s) w = ground arith
  strict_iff (array a) w = (
    λ e.
        let (out, done_it, rest) = >>=-eq-ok (visit_seq a) (λ x. ok (array x)) e in
        let (same, keys) = (visit_seq_iff a out).0 done_it in (ground (arith, rest, same), keys),
    λ h. rw ((visit_seq_iff a a).1 (refl, h.1)) (ap ok (sym h.0)),
  )
  strict_iff (object o) w = (
    λ e.
        let (out, done_it, rest) = >>=-eq-ok (visit_map o done) (λ x. ok (object x)) e in
        let (same, absent, keys) = (visit_map_iff o done out).0 done_it in
        (ground (arith, rest, same), keys),
    λ h. rw ((visit_map_iff o done o).1 (refl, done-AreAbsent o, h.1)) (ap ok (sym h.0)),
  )

  visit_seq_iff : (a b : Items) → (visit_seq a ≡ ok b) ↔ ((b ≡ a) × HaveDistinctKeys a)
  visit_seq_iff end b = ground arith
  visit_seq_iff (item v a) b = (
    λ e.
        let (w, first, rest) =
          >>=-eq-ok (strict v) (λ x. visit_seq a >>= λ out. ok (item x out)) e in
        let (out, next, last) = >>=-eq-ok (visit_seq a) (λ x. ok (item w x)) rest in
        let (same, keys) = (strict_iff v w).0 first in
        let (same', keys') = (visit_seq_iff a out).0 next in
        (ground (arith, last, same, same'), (keys, keys')),
    λ h.
        rw ((strict_iff v v).1 (refl, h.1.0), (visit_seq_iff a a).1 (refl, h.1.1))
          (ap ok (sym h.0)),
  )

  visit_map_iff :
      (o out r : Members)
      → (visit_map o out ≡ ok r) ↔ ((r ≡ append out o) × AreAbsent o out × MembersDistinct o)
  visit_map_iff done out r = ground (arith, append-done out)
  visit_map_iff (member k v o) out r = (
    λ e.
        let (new, rest) = reject_if-eq-ok (contains_key k out) json _ e in
        let (w, first, next) = >>=-eq-ok (strict v) (λ x. visit_map o (insert k x out)) rest in
        let (same, keys) = (strict_iff v w).0 first in
        let (is, absent, keys') = (visit_map_iff o (insert k w out) r).0 next in
        let both = (insert-AreAbsent o k w out).0 absent in
        (
          is ∙ append-insert k w out o ∙ ap (λ x. append out (member k x o)) same,
          ((contains_key-IsAbsent k out).0 new, both.1),
          (both.0, keys, keys'),
        ),
    λ h.
        rw ((contains_key-IsAbsent k out).1 h.1.0, (strict_iff v v).1 (refl, h.2.1))
          ((visit_map_iff o (insert k v out) r).1 (
            h.0 ∙ sym (append-insert k v out o),
            (insert-AreAbsent o k v out).1 (h.2.0, h.1.1),
            h.2.2,
          )),
  )

-- `parse` takes the documents that are JSON, in which no object has two properties of one name, with at most 64
-- levels of arrays and objects around a value and with numbers below 2 ^ 53 in magnitude only, and which have
-- canonical bytes, and no others; what it returns is the whole document. serde_json's reader and serde_jcs are
-- parameters.
pub parse_iff :
    (codec : Codec) (bytes : Bytes) (v : Value)
    → (parse codec bytes ≡ ok v) ↔ (
        (codec.read bytes ≡ some v)
        × HasDistinctKeys v
        × (nested v ≤ 64)
        × HasSafeNumbers v
        × (out : Bytes) × (codec.to_vec v ≡ ok out))
unfolding parse canonical strict_of
parse_iff codec bytes v = (
  λ e.
      let (w, first, rest) = >>=-eq-ok (strict_of (codec.read bytes)) _ e in
      let (out, second, last) = >>=-eq-ok (canonical codec w) _ rest in
      let (u, checked, vec) = >>=-eq-ok (check w 0) _ second in
      let (there, keys) = read_back (codec.read bytes) w first in
      let is : w ≡ v = ground (arith, last) in
      subst
        (λ x.
          (codec.read bytes ≡ some x)
          × HasDistinctKeys x
          × (nested x ≤ 64)
          × HasSafeNumbers x
          × (out : Bytes) × (codec.to_vec x ≡ ok out))
        is
        (
          there,
          keys,
          omega (arith, ((check_iff w 0).0 checked).0),
          ((check_iff w 0).0 checked).1,
          out,
          vec,
        ),
  λ (there, keys, deep, safe, out, vec).
      rw
        (there, (strict_iff v v).1 (refl, keys), (check_iff v 0).1 (omega (arith, deep), safe), vec)
        refl,
)
  where
    read_back :
        (o : Option Value) (w : Value) → strict_of o ≡ ok w → (o ≡ some w) × HasDistinctKeys w
    read_back none w e = cc
    read_back (some doc) w e =
        let (same, keys) = (strict_iff doc w).0 e in
        (ap some (sym same), subst HasDistinctKeys (sym same) keys)
