-- ===== src/Storage/Rows.antt =====
-- A table of the database with one row for each id.
use rip_server.Common.{
  ℕ, ◌<◌, ◌≡◌, refl, ap, ◌∙◌, ◌⊎◌, inl, inr, List, [], ◌∷◌, ◌++◌, Option, none, some, ◌==◌,
  if◌then◌else◌, arith,
}

module _ {ℓ} {Row : Type ℓ} where
  -- `SELECT … WHERE id=?`
  unfoldable pub find : ℕ → List (ℕ × Row) → Option Row
  find id [] = none
  find id ((key, row) ∷ rows) = if key == id then some row else find id rows

  -- `UPDATE … WHERE id=?`
  unfoldable pub replace : ℕ → Row → List (ℕ × Row) → List (ℕ × Row)
  replace id row [] = []
  replace id row ((key, old) ∷ rows) =
      if key == id then (key, row) ∷ rows else (key, old) ∷ replace id row rows

  pub find-replace :
      (id j : ℕ) (row : Row) (rows : List (ℕ × Row)) {old : Row}
      → find id rows ≡ some old
      → find j (replace id row rows) ≡ (if id == j then some row else find j rows)
  unfolding find replace
  find-replace id j row [] e = cc
  find-replace id j row ((key, first) ∷ rows) e = grind (arith, find-replace id j row rows)

  pub find-append :
      (id j : ℕ) (row : Row) (rows : List (ℕ × Row))
      → find id rows ≡ none
      → find j (rows ++ (id, row) ∷ []) ≡ (if id == j then some row else find j rows)
  unfolding find
  find-append id j row [] e = refl
  find-append id j row ((key, first) ∷ rows) e = grind (arith, find-append id j row rows)

-- What may become of a row as others write to its table: it is not removed, and if it is written
-- anew its revision is higher.
module _ {Row : Type 0} (revision : Row → ℕ) where
  abbrev pub Later : Row → Option Row → Type 0
  Later old after = (new : Row) × (after ≡ some new) × ((new ≡ old) ⊎ (revision old < revision new))

  pub Later-refl : (old : Row) → Later old (some old)
  Later-refl old = (old, refl, inl refl)

  Later-next :
      (r s u : Row)
      → (s ≡ r) ⊎ (revision r < revision s)
      → (u ≡ s) ⊎ (revision s < revision u)
      → (u ≡ r) ⊎ (revision r < revision u)
  Later-next r s u (inl p) (inl q) = inl (q ∙ p)
  Later-next r s u (inl p) (inr q) = inr (omega (arith, q, ap revision p))
  Later-next r s u (inr p) (inl q) = inr (omega (arith, p, ap revision q))
  Later-next r s u (inr p) (inr q) = inr (omega (arith, p, q))

  pub Later-trans :
      (r s : Row) (after : Option Row)
      → (s ≡ r) ⊎ (revision r < revision s)
      → Later s after
      → Later r after
  Later-trans r s after first (u, found, next) = (u, found, Later-next r s u first next)
