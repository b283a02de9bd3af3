-- ===== src/Digest.antt =====
-- crates/rip-digest: JSON with bounds, and its canonical digest. The grammar of JSON (serde_json), the
-- canonical bytes (serde_jcs) and SHA-256 are parameters. An object is the list of its properties in the
-- order of the text, which serde_json keeps by key.
pub mod Bounds
pub mod Strict
use rip_server.Common.{
  ℕ, suc, ◌+◌, ◌%◌, ◌^◌, Bool, true, false, ◌||◌, Option, none, some, ltb, if◌then◌else◌, Result,
  ok, err, ◌>>=◌, ◌>>◌, reject_if, List,
}
use rip_server.Common.Bytes.{Bytes, bytes_eq}

pub data Error : Type 0 where
  json depth integer : Error

-- serde_json's number: an integer by its magnitude, or the bits of a double.
pub data Number : Type 0 where
  pos_int neg_int : ℕ → Number
  float : ℕ → Number

mutual
  -- `serde_json::Value`
  pub data Value : Type 0 where
    null : Value
    boolean : Bool → Value
    number : Number → Value
    text : List ℕ → Value
    array : Items → Value
    object : Members → Value

  pub data Items : Type 0 where
    end : Items
    item : Value → Items → Items

  pub data Members : Type 0 where
    done : Members
    member : List ℕ → Value → Members → Members

-- `v.abs() > 9_007_199_254_740_991.0` after `n.as_f64()`. The double next to an integer above 2 ^ 53 - 1 is
-- above it too. The magnitudes of doubles are ordered as their bits without the sign, in which 2 ^ 53 - 1 is
-- 0x433f_ffff_ffff_ffff, and the bits of the infinities and of what is no number are higher.
unfoldable pub out_of_range : Number → Bool
out_of_range (pos_int n) = ltb 9007199254740991 n
out_of_range (neg_int n) = ltb 9007199254740991 n
out_of_range (float bits) = ltb 4845873199050653695 (bits % 9223372036854775808)

-- `check` within `canonical`
unfoldable mutual
  pub check : Value → ℕ → Result (Unit {0}) Error
  check null d = reject_if (ltb 64 d) depth
  check (boolean b) d = reject_if (ltb 64 d) depth
  check (number n) d = do reject_if (ltb 64 d) depth; reject_if (out_of_range n) integer
  check (text s) d = reject_if (ltb 64 d) depth
  check (array a) d = do reject_if (ltb 64 d) depth; check_items a (suc d)
  check (object o) d = do reject_if (ltb 64 d) depth; check_members o (suc d)

  pub check_items : Items → ℕ → Result (Unit {0}) Error
  check_items end d = ok tt
  check_items (item v a) d = do check v d; check_items a d

  pub check_members : Members → ℕ → Result (Unit {0}) Error
  check_members done d = ok tt
  check_members (member k v o) d = do check v d; check_members o d

-- `out.contains_key(&k)`
unfoldable pub contains_key : List ℕ → Members → Bool
contains_key k done = false
contains_key k (member k' v o) = bytes_eq k' k || contains_key k o

-- `out.insert(k, v)`, for a key that is not there.
unfoldable pub insert : List ℕ → Value → Members → Members
insert k v done = member k v done
insert k v (member k' v' o) = member k' v' (insert k v o)

-- `Strict::deserialize`: `visit_seq` and `visit_map` push what they have read onto `out`.
unfoldable mutual
  pub strict : Value → Result Value Error
  strict null = ok null
  strict (boolean b) = ok (boolean b)
  strict (number n) = ok (number n)
  strict (text s) = ok (text s)
  strict (array a) = do out ← visit_seq a; ok (array out)
  strict (object o) = do out ← visit_map o done; ok (object out)

  pub visit_seq : Items → Result Items Error
  visit_seq end = ok end
  visit_seq (item v a) = do w ← strict v; out ← visit_seq a; ok (item w out)

  pub visit_map : Members → Members → Result Members Error
  visit_map done out = ok out
  visit_map (member k v o) out = do
    reject_if (contains_key k out) json
    w ← strict v
    visit_map o (insert k w out)

-- What the code takes from serde_json, serde_jcs and sha2: the grammar, which gives each property of an object, the
-- canonical bytes, and the digest's text.
pub record Codec : Type 0 where
  pub read : Bytes → Option Value
  pub to_vec : Value → Result Bytes Error
  pub sha256 : Bytes → List ℕ

unfoldable pub canonical : Codec → Value → Result Bytes Error
unfolding check
canonical codec v = do check v 0; codec.to_vec v

unfoldable pub digest : Codec → Value → Result (List ℕ) Error
unfolding canonical
digest codec v = do bytes ← canonical codec v; ok (codec.sha256 bytes)

unfoldable pub strict_of : Option Value → Result Value Error
strict_of none = err json
strict_of (some v) = strict v

-- `parse`
unfoldable pub parse : Codec → Bytes → Result Value Error
unfolding strict_of strict canonical
parse codec bytes = do value ← strict_of (codec.read bytes); _ ← canonical codec value; ok value
