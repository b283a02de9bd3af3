-- ===== src/Ipp/Access.antt =====
-- crates/rip-ipp/src/lib.rs: the typed accessors of `Request`. An `i32` is its bit pattern, a number
-- below 2^32, and `i32_lt` is its signed order.
pub mod Ranges
use Prim.Native.String.{String}
use rip_server.Common.{
  ℕ, ◌+◌, Bool, true, false, not, ◌&&◌, ◌||◌, List, [], ◌∷◌, Option, none, some, ltb, ◌==◌,
  if◌then◌else◌, length, drop, any, is_empty, Result, ok, err, ◌>>=◌, ◌>>◌, reject_if,
}
use rip_server.Common.Bytes.{Bytes, codes, bytes_eq, be32, i32_lt}
use rip_server.Common.Bytes.Utf8.{is_utf8}
use rip_server.Core.Pages.{PageRange}
use rip_server.Core.Pages.Ipp
use rip_server.Core.Pages.Render
use rip_server.Core.Pages.Render.{RenderPages, ipp}
use rip_server.Core.Error.{ValidationError}
use rip_server.Ipp.{Attribute, Request, bad_request}

-- Comparison with an ASCII literal.
unfoldable pub is_text : Bytes → String → Bool
is_text bytes literal = bytes_eq bytes (codes literal)

-- The attributes that the `filter` of `one` keeps.
unfoldable pub matching : ℕ → String → List Attribute → List Attribute
matching group name [] = []
matching group name (a ∷ rest) =
    if a.group == group && is_text a.name name
    then a ∷ matching group name rest
    else matching group name rest

unfoldable pub only : List Attribute → Option Attribute
only (a ∷ []) = some a
only _ = none

unfoldable pub one : Request → ℕ → String → Option Attribute
unfolding matching only
one self group name = only (matching group name self.attributes)

unfoldable pub text_of : ℕ → Option Attribute → Option Bytes
text_of tag none = none
text_of tag (some a) =
    if not (a.tag == tag) then none else if is_utf8 a.value then some a.value else none

unfoldable pub text : Request → ℕ → String → ℕ → Option Bytes
unfolding text_of
text self group name tag = text_of tag (one self group name)

-- `i32::from_be_bytes` of a value of four bytes
unfoldable pub read_i32 : Bytes → Option ℕ
read_i32 (a ∷ b ∷ c ∷ d ∷ []) = some (be32 a b c d)
read_i32 _ = none

unfoldable pub number_of : ℕ → Option Attribute → Option ℕ
unfolding read_i32
number_of tag none = none
number_of tag (some a) = if not (a.tag == tag) then none else read_i32 a.value

unfoldable pub integer : Request → ℕ → String → Option ℕ
unfolding number_of
integer self group name = number_of 0x21 (one self group name)

unfoldable pub enumeration : Request → ℕ → String → Option ℕ
unfolding number_of
enumeration self group name = number_of 0x23 (one self group name)

-- Nine bytes: the two resolutions, and the unit 3 for dots per inch.
unfoldable pub read_resolution : Bytes → Option ℕ
read_resolution (a ∷ b ∷ c ∷ d ∷ e ∷ f ∷ g ∷ h ∷ unit ∷ []) =
    if not (unit == 3)
    then none
    else if be32 a b c d == be32 e f g h
    then some (be32 a b c d)
    else none
read_resolution _ = none

unfoldable pub resolution_of : Option Attribute → Option ℕ
unfolding read_resolution
resolution_of none = none
resolution_of (some a) = if not (a.tag == 0x32) then none else read_resolution a.value

unfoldable pub resolution_dpi : Request → ℕ → String → Option ℕ
unfolding resolution_of
resolution_dpi self group name = resolution_of (one self group name)

-- A `rangeOfInteger` value.
unfoldable pub read_range : Bytes → Result PageRange ℕ
read_range (a ∷ b ∷ c ∷ d ∷ e ∷ f ∷ g ∷ h ∷ []) =
    if i32_lt (be32 a b c d) 1 || i32_lt (be32 e f g h) (be32 a b c d)
    then err bad_request
    else ok (record { first = be32 a b c d; last = be32 e f g h })
read_range _ = err bad_request

-- The loop of `page_ranges`.
unfoldable pub collect_ranges : List Attribute → Result (List PageRange) ℕ
unfolding read_range
collect_ranges [] = ok []
collect_ranges (a ∷ rest) =
    let later = collect_ranges rest in
    if not (is_text a.name "page-ranges") then later else do
      reject_if (not (a.group == 2) || not (a.tag == 0x33)) bad_request
      range ← read_range a.value
      ranges ← later
      ok (range ∷ ranges)

-- `map_err(|_| BAD_REQUEST)`
abbrev pub or_bad_request {ℓ} : {A : Type ℓ} → Result A ValidationError → Result A ℕ
or_bad_request (ok a) = ok a
or_bad_request (err e) = err bad_request

unfoldable pub selection_of : List PageRange → Result RenderPages ℕ
selection_of [] = ok Render.default
selection_of (r ∷ rs) = do pages ← or_bad_request (Ipp.new (r ∷ rs)); ok (ipp pages)

unfoldable pub page_ranges : Request → Result RenderPages ℕ
unfolding collect_ranges selection_of
page_ranges self = do ranges ← collect_ranges self.attributes; selection_of ranges

-- The attribute asks for everything, for the group, or for the name.
unfoldable pub asks_for : Bytes → Bytes → Attribute → Bool
asks_for name group_name a =
    is_text a.value "all" || bytes_eq a.value group_name || bytes_eq a.value name

unfoldable pub wants : Request → Bytes → Bytes → Bool
unfolding asks_for matching
wants self name group_name =
    let requested = matching 1 "requested-attributes" self.attributes in
    is_empty requested || any (asks_for name group_name) requested
