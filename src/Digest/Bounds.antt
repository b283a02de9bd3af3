-- ===== src/Digest/Bounds.antt =====
-- crates/rip-digest: what a document must be for `parse` to take it, and the check of depth and numbers.
use rip_server.Common.{ℕ, suc, ◌+◌, ◌%◌, max, ◌≤◌, ◌<◌, ◌≡◌, ◌≢◌, ◌↔◌, false, List, ok, arith}
use rip_server.Common.Bytes.{}
use rip_server.Digest.{
  Number, pos_int, neg_int, float, Value, null, boolean, number, text, array, object, Items, end,
  item, Members, done, member, out_of_range, check, check_items, check_members,
}

-- How deep arrays and objects are nested around a value of the document: an empty one holds none.
unfoldable mutual
  pub nested : Value → ℕ
  nested null = 0
  nested (boolean b) = 0
  nested (number n) = 0
  nested (text s) = 0
  nested (array a) = nested_items a
  nested (object o) = nested_members o

  pub nested_items : Items → ℕ
  nested_items end = 0
  nested_items (item v a) = max (suc (nested v)) (nested_items a)

  pub nested_members : Members → ℕ
  nested_members done = 0
  nested_members (member k v o) = max (suc (nested v)) (nested_members o)

-- The magnitude is below 2 ^ 53, which the bits of a double say by being below those of 2 ^ 53.
abbrev pub IsInteroperable : Number → Type 0
IsInteroperable (pos_int n) = n < 9007199254740992
IsInteroperable (neg_int n) = n < 9007199254740992
IsInteroperable (float bits) = bits % 9223372036854775808 < 4845873199050653696

unfoldable mutual
  pub HasSafeNumbers : Value → Type 0
  HasSafeNumbers null = Unit
  HasSafeNumbers (boolean b) = Unit
  HasSafeNumbers (number n) = IsInteroperable n
  HasSafeNumbers (text s) = Unit
  HasSafeNumbers (array a) = HaveSafeNumbers a
  HasSafeNumbers (object o) = MembersSafe o

  pub HaveSafeNumbers : Items → Type 0
  HaveSafeNumbers end = Unit
  HaveSafeNumbers (item v a) = HasSafeNumbers v × HaveSafeNumbers a

  pub MembersSafe : Members → Type 0
  MembersSafe done = Unit
  MembersSafe (member k v o) = HasSafeNumbers v × MembersSafe o

abbrev pub IsAbsent : List ℕ → Members → Type 0
IsAbsent k done = Unit
IsAbsent k (member k' v o) = (k' ≢ k) × IsAbsent k o

-- No object has two properties of one name.
unfoldable mutual
  pub HasDistinctKeys : Value → Type 0
  HasDistinctKeys null = Unit
  HasDistinctKeys (boolean b) = Unit
  HasDistinctKeys (number n) = Unit
  HasDistinctKeys (text s) = Unit
  HasDistinctKeys (array a) = HaveDistinctKeys a
  HasDistinctKeys (object o) = MembersDistinct o

  pub HaveDistinctKeys : Items → Type 0
  HaveDistinctKeys end = Unit
  HaveDistinctKeys (item v a) = HasDistinctKeys v × HaveDistinctKeys a

  pub MembersDistinct : Members → Type 0
  MembersDistinct done = Unit
  MembersDistinct (member k v o) = IsAbsent k o × HasDistinctKeys v × MembersDistinct o

number_iff : (n : Number) → (out_of_range n ≡ false) ↔ IsInteroperable n
unfolding out_of_range
number_iff (pos_int n) = ground arith
number_iff (neg_int n) = ground arith
number_iff (float bits) = ground arith

mutual
  unfolding check check_items check_members nested nested_items nested_members HasSafeNumbers
      HaveSafeNumbers MembersSafe

  pub check_iff :
      (v : Value) (d : ℕ) → (check v d ≡ ok tt) ↔ ((d + nested v ≤ 64) × HasSafeNumbers v)
  check_iff null d = ground arith
  check_iff (boolean b) d = ground arith
  check_iff (number n) d = ground (arith, number_iff n)
  check_iff (text s) d = ground arith
  check_iff (array a) d = ground (arith, items_iff a d)
  check_iff (object o) d = ground (arith, members_iff o d)

  items_iff :
      (a : Items) (d : ℕ)
      → d ≤ 64
      → (check_items a (suc d) ≡ ok tt) ↔ ((d + nested_items a ≤ 64) × HaveSafeNumbers a)
  items_iff end d h = ground arith
  items_iff (item v a) d h = ground (arith, check_iff v (suc d), items_iff a d h)

  members_iff :
      (o : Members) (d : ℕ)
      → d ≤ 64
      → (check_members o (suc d) ≡ ok tt) ↔ ((d + nested_members o ≤ 64) × MembersSafe o)
  members_iff done d h = ground arith
  members_iff (member k v o) d h = ground (arith, check_iff v (suc d), members_iff o d h)
