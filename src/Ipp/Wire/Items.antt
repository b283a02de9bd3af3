-- ===== src/Ipp/Wire/Items.antt =====
-- crates/rip-ipp/src/lib.rs: the calls of a writer, the bytes that they make, and the attributes that
-- they stand for.
use rip_server.Common.{ℕ, ◌≤◌, ◌<◌, List, [], ◌∷◌, ◌++◌, Option, none, some, length}
use rip_server.Common.Bytes.{Bytes, to_be16}
use rip_server.Ipp.{Attribute}
use rip_server.Ipp.Wire.{Scan}
use rip_server.Ipp.Wire.Header.{IsGroup}
use rip_server.Ipp.Wire.Pieces.{}
use rip_server.Ipp.Wire.Reading.{IsName}
use rip_server.Ipp.Response
use rip_server.Ipp.Response.{Response, attribute_bytes}

-- A call on a response.
pub data Item : Type 0 where
  attribute : ℕ → Bytes → Bytes → Item
  additional : ℕ → Bytes → Item
  group : ℕ → Item

-- The calls in turn.
unfoldable pub write : List Item → Response → Option Response
write [] r = some r
write (attribute tag name value ∷ items) r = elim (Response.attribute r tag name value) [
  | some r' ↦ write items r'
  | none ↦ none
]
write (additional tag value ∷ items) r = write items (Response.additional r tag value)
write (group tag ∷ items) r = write items (Response.group r tag)

-- The attributes that the calls stand for, in group `g` and behind an attribute named `current`.
unfoldable pub contents : ℕ → Bytes → List Item → List Attribute
contents g current [] = []
contents g current (attribute tag name value ∷ items) =
    record { group = g; tag = tag; name = name; value = value } ∷ contents g name items
contents g current (additional tag value ∷ items) =
    record { group = g; tag = tag; name = current; value = value } ∷ contents g current items
contents g current (group tag ∷ items) = contents tag [] items

-- The calls that the format allows in group `g` behind an attribute named `current`.
abbrev pub IsMessage : ℕ → Bytes → List Item → Type 0
IsMessage g current [] = Unit
IsMessage g current (attribute tag name value ∷ items) =
    IsName name
    × (0 < length name)
    × (length value ≤ 4096)
    × (16 ≤ tag)
    × (tag ≤ 95)
    × IsMessage g name items
IsMessage g current (additional tag value ∷ items) =
    (0 < length current)
    × (length value ≤ 4096)
    × (16 ≤ tag)
    × (tag ≤ 95)
    × IsMessage g current items
IsMessage g current (group tag ∷ items) = IsGroup tag × (g ≤ tag) × IsMessage tag [] items

item_bytes : Item → Bytes
item_bytes (attribute tag name value) =
    tag ∷ (to_be16 (length name) ++ (name ++ (to_be16 (length value) ++ value)))
item_bytes (additional tag value) = tag ∷ (to_be16 0 ++ (to_be16 (length value) ++ value))
item_bytes (group tag) = tag ∷ []

unfoldable pub encode : List Item → Bytes
unfolding item_bytes
encode [] = []
encode (item ∷ items) = item_bytes item ++ encode items

abbrev pub At : ℕ → ℕ → Bytes → List Attribute → Bytes → Scan
At offset g current attributes rest = record {
  cursor = record { offset = offset; rest = rest };
  group = g;
  current = current;
  attributes = attributes;
}
