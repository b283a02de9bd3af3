-- ===== src/Core/Mapping/Delivery.antt =====
-- crates/rip-core/src/pages.rs: `delivery_indices`, which picks rendered artifacts for a request.
use rip_server.Common.{
  ℕ, suc, ◌+◌, ◌≤◌, ◌≡◌, refl, false, List, [], ◌∷◌, some, length, get_elem?, ok, ◌>>=◌, ok_or,
  arith, >>=-eq-ok, subst, All,
}
use rip_server.Common.Ascending.{Between}
use rip_server.Core.Error.{page_not_rendered}
use rip_server.Core.Mapping.{binary_search, find_all, delivery_indices}
use rip_server.Core.Mapping.Search.{binary_search_iff, get_elem?-order, get_elem?-below}
use rip_server.Core.Pages.{PageRanges}
use rip_server.Core.Pages.Canonical.{IsCanonical}
use rip_server.Core.Pages.Indices.{strict_indices-Between}
use rip_server.Core.Pages.Strict

-- For each requested source position in turn, the artifact at the chosen index renders that page.
abbrev pub Picks : List ℕ → List ℕ → List ℕ → Type 0
Picks mapping [] [] = Unit
Picks mapping (i ∷ positions) (d ∷ ds) =
    (get_elem? mapping d ≡ some (i + 1)) × Picks mapping positions ds
Picks mapping _ _ = ⊥

find_all-Picks :
    (lo hi : ℕ) (mapping positions : List ℕ) {ds : List ℕ}
    → Between lo hi mapping
    → find_all mapping positions ≡ ok ds
    → Picks mapping positions ds
unfolding find_all
find_all-Picks lo hi mapping [] {ds} h e =
    let whole : [] ≡ ds = cc in subst (Picks mapping []) whole tt
find_all-Picks lo hi mapping (i ∷ positions) {ds} h e =
    let (k, found, e') = >>=-eq-ok (ok_or (binary_search mapping (i + 1)) page_not_rendered) _ e in
    let (r, later, same) = >>=-eq-ok (find_all mapping positions) _ e' in
    let found' : binary_search mapping (i + 1) ≡ some k = ground arith in
    let whole : k ∷ r ≡ ds = cc in
    subst (Picks mapping (i ∷ positions)) whole (
      (binary_search_iff lo hi mapping (i + 1) k h).0 found',
      find_all-Picks lo hi mapping positions h later,
    )

find_all_total :
    (lo hi : ℕ) (mapping positions : List ℕ)
    → Between lo hi mapping
    → All (λ i. (k : ℕ) × (get_elem? mapping k ≡ some (i + 1))) positions
    → (ds : List ℕ) × (find_all mapping positions ≡ ok ds)
unfolding find_all
find_all_total lo hi mapping [] h a = ([], refl)
find_all_total lo hi mapping (i ∷ positions) h ((k, at), a) =
    let (ds, rest) = find_all_total lo hi mapping positions h a in
    (k ∷ ds, rw ((binary_search_iff lo hi mapping (i + 1) k h).1 at, rest))

-- The chosen indices ascend, so that no artifact is delivered twice.
Picks-Between :
    (lo hi : ℕ) (mapping : List ℕ) (a b base : ℕ) (positions ds : List ℕ)
    → Between lo hi mapping
    → Between a b positions
    → ((d x : ℕ) → get_elem? mapping d ≡ some (x + 1) → a ≤ x → base ≤ d)
    → Picks mapping positions ds
    → Between base (length mapping) ds
Picks-Between lo hi mapping a b base [] [] h p f q = tt
Picks-Between lo hi mapping a b base [] (d ∷ ds) h p f q = absurd q
Picks-Between lo hi mapping a b base (i ∷ positions) [] h p f q = absurd q
Picks-Between lo hi mapping a b base (i ∷ positions) (d ∷ ds) h p f (at, q) = (
  f d i at p.0,
  get_elem?-below mapping d at,
  Picks-Between lo hi mapping (suc i) b (suc d) positions ds h p.2 later q,
)
  where
    later : (d' x : ℕ) → get_elem? mapping d' ≡ some (x + 1) → suc i ≤ x → suc d ≤ d'
    later d' x at' l = get_elem?-order lo hi mapping d d' (i + 1) (x + 1) h at at' (omega arith)

-- A delivery request for some pages (canonical ranges), answered from an ascending mapping: the
-- indices ascend within the mapping, and each in turn picks the artifact that renders the next
-- requested page.
pub delivery_indices-Picks :
    (request : PageRanges) (lo hi maximum total : ℕ) (mapping : List ℕ) {ds : List ℕ}
    → IsCanonical 1 maximum request.ranges
    → Between lo hi mapping
    → Strict.is_all request ≡ false
    → delivery_indices request mapping total ≡ ok ds
    → Between 0 (length mapping) ds
      × ((positions : List ℕ) × (Strict.indices request total ≡ ok positions)
          × Picks mapping positions ds)
unfolding delivery_indices
delivery_indices-Picks request lo hi maximum total mapping {ds} c h part e =
    let e' : (Strict.indices request total >>= find_all mapping) ≡ ok ds = rw part at e in
    let (positions, found, e'') = >>=-eq-ok (Strict.indices request total) (find_all mapping) e' in
    let picks = find_all-Picks lo hi mapping positions h e'' in
    let ascending = strict_indices-Between request maximum total c found in
    (
      Picks-Between lo hi mapping 0 total 0 positions ds h ascending (λ d x at l. omega arith)
          picks,
      (positions, found, picks),
    )

-- A delivery request for some pages is answered from an ascending mapping when the request fits
-- the source and every requested page was rendered.
pub delivery_indices_total :
    (request : PageRanges) (lo hi total : ℕ) (mapping positions : List ℕ)
    → Between lo hi mapping
    → Strict.is_all request ≡ false
    → Strict.indices request total ≡ ok positions
    → All (λ i. (k : ℕ) × (get_elem? mapping k ≡ some (i + 1))) positions
    → (ds : List ℕ) × (delivery_indices request mapping total ≡ ok ds)
unfolding delivery_indices
delivery_indices_total request lo hi total mapping positions h part e all_there =
    let (ds, found) = find_all_total lo hi mapping positions h all_there in (ds, rw (part, e) found)
