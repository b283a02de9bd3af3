-- ===== src/Ipp/Wire/Header.antt =====
-- crates/rip-ipp/src/lib.rs: what holds of the header while `parse` reads it.
use rip_server.Common.{
  ℕ, ◌≤◌, ◌<◌, ◌≡◌, ap, ◌≢◌, ◌⊎◌, inl, inr, List, [], ◌∷◌, ◌++◌, length, length-append, ok, err,
  Result-cases, arith,
}
use rip_server.Common.Bytes.{}
use rip_server.Ipp.{Attribute}
use rip_server.Ipp.Wire.{Cursor, Scan, Round, go, stop, scan_attribute, continue_with}
use rip_server.Ipp.Wire.Reading.{
  Reads, Reads-trans, IsName, IsAttribute, Scanned, scan_attribute-Scanned,
}

-- The groups that the parser knows: operation, job and printer attributes.
abbrev pub IsGroup : ℕ → Type 0
IsGroup g = (g ≡ 1) ⊎ (g ≡ 2) ⊎ (g ≡ 4)

-- The attributes are well formed, carry value tags, and their groups do not go back.
abbrev pub InOrder : ℕ → ℕ → List Attribute → Type 0
InOrder lo hi [] = lo ≤ hi
InOrder lo hi (a ∷ rest) =
    IsAttribute a
    × (lo ≤ a.group)
    × IsGroup a.group
    × (16 ≤ a.tag)
    × (a.tag ≤ 95)
    × InOrder a.group hi rest

pub InOrder-raise :
    (lo hi hi' : ℕ) (xs : List Attribute) → hi ≤ hi' → InOrder lo hi xs → InOrder lo hi' xs
InOrder-raise lo hi hi' [] h o = omega arith
InOrder-raise lo hi hi' (a ∷ rest) h (x, l, g, t, u, o) =
    (x, l, g, t, u, InOrder-raise a.group hi hi' rest h o)

InOrder-append :
    (lo hi : ℕ) (xs : List Attribute) (a : Attribute)
    → IsAttribute a
    → a.group ≡ hi
    → IsGroup hi
    → 16 ≤ a.tag
    → a.tag ≤ 95
    → InOrder lo hi xs
    → InOrder lo hi (xs ++ a ∷ [])
InOrder-append lo hi [] a h e g t u o = (h, omega arith, rw e g, t, u, omega arith)
InOrder-append lo hi (x ∷ xs) a h e g t u (p, l, k, v, w, o) =
    (p, l, k, v, w, InOrder-append x.group hi xs a h e g t u o)

-- What the loop keeps, from the cursor `c` where it began.
pub record IsScan (c : Cursor) (s : Scan) : Type 0 where
  pub reads : Reads c s.cursor
  pub current_name : IsName s.current
  pub in_order : InOrder 0 s.group s.attributes
  pub known_group : (s.group ≡ 0) ⊎ IsGroup s.group
  pub count : length s.attributes ≤ 128

-- A round from `s` goes on with a state that keeps the invariant and has read something, or stops
-- behind the end tag within the bound on the offset.
abbrev pub RoundKeeps : Cursor → Scan → Round → Type 0
RoundKeeps c s (go t) = IsScan c t × (length t.cursor.rest < length s.cursor.rest)
RoundKeeps c s (stop (ok t)) = IsScan c t × (t.cursor.offset ≤ 16385)
RoundKeeps c s (stop (err e)) = Unit

Reads-le : {c d : Cursor} → Reads c d → length d.rest ≤ length c.rest
Reads-le {c} {d} r = omega (arith, ap length r.split, length-append r.bytes d.rest)

Scanned-keeps :
    (c : Cursor) (s : Scan) (d : Cursor) (tag : ℕ) (t : Scan)
    → IsScan c s
    → Reads s.cursor d
    → 16 ≤ tag
    → tag ≤ 95
    → IsGroup s.group
    → Scanned s d tag t
    → IsScan c t
Scanned-keeps c s d tag t k r lo hi g n = record {
  reads = Reads-trans k.reads (Reads-trans r n.reads);
  current_name = n.current_name;
  in_order =
      rw (n.grown, n.same_group)
        (InOrder-append 0 s.group s.attributes n.attribute n.is_attribute n.in_group g
          (omega (arith, n.tagged)) (omega (arith, n.tagged)) k.in_order);
  known_group = rw n.same_group k.known_group;
  count = omega (arith, ap length n.grown, length-append s.attributes (n.attribute ∷ []), n.room);
}

pub scan_attribute-keeps :
    (c : Cursor) (s : Scan) (d : Cursor) (tag : ℕ)
    → IsScan c s
    → Reads s.cursor d
    → length d.rest < length s.cursor.rest
    → 16 ≤ tag
    → tag ≤ 95
    → s.group ≢ 0
    → RoundKeeps c s (continue_with (scan_attribute s d tag))
scan_attribute-keeps c s d tag k r less lo hi g = elim (Result-cases (scan_attribute s d tag)) [
  | inr (e, refused) ↦ rw refused tt
  | inl (t, found) ↦
      let n = scan_attribute-Scanned s d tag k.current_name found in
      let known : IsGroup s.group = ground arith in
      rw found (Scanned-keeps c s d tag t k r lo hi known n, omega (arith, Reads-le n.reads))
]
