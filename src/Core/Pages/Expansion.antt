-- ===== src/Core/Pages/Expansion.antt =====
-- crates/rip-core/src/pages.rs: how one range after the other expands to positions.
use rip_server.Common.{
  ℕ, zero, suc, ◌+◌, ◌-◌, ◌≤◌, min, max, ◌≡◌, refl, true, false, ◌&&◌, List, [], ◌∷◌, ◌++◌, ltb,
  leb, length, length-append, arith, ap,
}
use rip_server.Common.Ascending.{has, has-append, Between, Between-weaken}
use rip_server.Core.Pages.{PageRange, counted, range_indices}
use rip_server.Core.Pages.Canonical.{IsCanonical, IsCanonical-weaken}
use rip_server.Core.Pages.Covers.{covers}
use rip_server.Core.Pages.Strict.{selected_indices, count_pages, last_beyond}
use rip_server.Core.Pages.Ipp.{clipped_indices}

pub has-counted : (i start n : ℕ) → has i (counted start n) ≡ (leb start i && ltb i (start + n))
unfolding counted
has-counted i start zero = ground arith
has-counted i start (suc n) = ground (arith, has-counted i (suc start) n)

pub length-counted : (start n : ℕ) → length (counted start n) ≡ n
unfolding counted
length-counted start zero = refl
length-counted start (suc n) = ap suc (length-counted (suc start) n)

Between-counted :
    (start n mid hi : ℕ) (ys : List ℕ)
    → start + n ≤ mid
    → start + n ≤ max start hi
    → Between mid hi ys
    → Between start hi (counted start n ++ ys)
unfolding counted
Between-counted start zero mid hi ys h k b = Between-weaken mid start hi ys (omega arith) b
Between-counted start (suc n) mid hi ys h k b = (
  omega arith,
  omega arith,
  Between-counted (suc start) n mid hi ys (omega arith) (omega arith) b,
)

pub counted-Between : (start n hi : ℕ) → start + n ≤ hi → Between start hi (counted start n)
unfolding counted
counted-Between start zero hi h = tt
counted-Between start (suc n) hi h =
    (omega arith, omega arith, counted-Between (suc start) n hi (omega arith))

-- A canonical list that does not reach beyond the total is canonical up to the total.
pub IsCanonical-total :
    (lo maximum total : ℕ) (rs : List PageRange)
    → IsCanonical lo maximum rs
    → last_beyond rs total ≡ false
    → IsCanonical lo total rs
unfolding last_beyond
IsCanonical-total lo maximum total [] h e = tt
IsCanonical-total lo maximum total (r ∷ []) h e = ground arith
IsCanonical-total lo maximum total (r ∷ s ∷ rs) h e =
    let rest = IsCanonical-total (r.last + 2) maximum total (s ∷ rs) h.3 e in
    (h.0, h.1, omega arith, rest)

pub selected_indices-Between :
    (lo total : ℕ) (rs : List PageRange)
    → IsCanonical (suc lo) total rs
    → Between lo total (selected_indices rs)
unfolding selected_indices range_indices
selected_indices-Between lo total [] h = tt
selected_indices-Between lo total (r ∷ rs) h =
    Between-weaken (r.first - 1) lo total _ (omega arith) (
      Between-counted (r.first - 1) (r.last + 1 - r.first) (r.last + 1) total (selected_indices rs)
        (omega arith) (omega arith)
        (selected_indices-Between (r.last + 1) total rs
          (IsCanonical-weaken (r.last + 2) (suc (r.last + 1)) total rs (omega arith) h.3)))

-- A canonical selection that passed the bound stands for exactly the covered positions.
pub selected_indices-has :
    (lo total i : ℕ) (rs : List PageRange)
    → IsCanonical (suc lo) total rs
    → has i (selected_indices rs) ≡ covers rs (suc i)
unfolding selected_indices range_indices
selected_indices-has lo total i [] h = refl
selected_indices-has lo total i (r ∷ rs) h =
    let later = IsCanonical-weaken (r.last + 2) (suc (r.last + 1)) total rs (omega arith) h.3 in
    ground (
      arith,
      has-append i (counted (r.first - 1) (r.last + 1 - r.first)) (selected_indices rs),
      has-counted i (r.first - 1) (r.last + 1 - r.first),
      selected_indices-has (r.last + 1) total i rs later,
    )

pub covers-le_total :
    (lo total n : ℕ) (rs : List PageRange)
    → IsCanonical lo total rs
    → covers rs n ≡ true
    → n ≤ total
covers-le_total lo total n [] h c = cc
covers-le_total lo total n (r ∷ rs) h c =
    ground (arith, covers-le_total (r.last + 2) total n rs h.3)

pub length-selected_indices :
    (lo total : ℕ) (rs : List PageRange)
    → IsCanonical (suc lo) total rs
    → length (selected_indices rs) ≡ count_pages rs
unfolding selected_indices range_indices count_pages
length-selected_indices lo total [] h = refl
length-selected_indices lo total (r ∷ rs) h =
    let later = IsCanonical-weaken (r.last + 2) (suc (r.last + 1)) total rs (omega arith) h.3 in
    omega (
      arith,
      length-append (counted (r.first - 1) (r.last + 1 - r.first)) (selected_indices rs),
      length-counted (r.first - 1) (r.last + 1 - r.first),
      length-selected_indices (r.last + 1) total rs later,
    )

pub clipped_indices-has :
    (lo maximum total i : ℕ) (rs : List PageRange)
    → IsCanonical (suc lo) maximum rs
    → has i (clipped_indices rs total) ≡ (covers rs (suc i) && ltb i total)
unfolding clipped_indices range_indices
clipped_indices-has lo maximum total i [] h = refl
clipped_indices-has lo maximum total i (r ∷ rs) h =
    let later = IsCanonical-weaken (r.last + 2) (suc (r.last + 1)) maximum rs (omega arith) h.3 in
    ground (
      arith,
      has-append i (counted (r.first - 1) (min r.last total + 1 - r.first))
          (clipped_indices rs total),
      has-counted i (r.first - 1) (min r.last total + 1 - r.first),
      clipped_indices-has (r.last + 1) maximum total i rs later,
    )

pub clipped_indices-Between :
    (lo maximum total : ℕ) (rs : List PageRange)
    → IsCanonical (suc lo) maximum rs
    → Between lo total (clipped_indices rs total)
unfolding clipped_indices range_indices
clipped_indices-Between lo maximum total [] h = tt
clipped_indices-Between lo maximum total (r ∷ rs) h =
    let later = IsCanonical-weaken (r.last + 2) (suc (r.last + 1)) maximum rs (omega arith) h.3 in
    Between-weaken (r.first - 1) lo total _ (omega arith) (
      Between-counted (r.first - 1) (min r.last total + 1 - r.first) (r.last + 1) total
        (clipped_indices rs total) (omega arith) (omega arith)
        (clipped_indices-Between (r.last + 1) maximum total rs later))

-- Where no range reaches beyond the total, clipping changes nothing.
pub clipped_indices_inside :
    (lo total : ℕ) (rs : List PageRange)
    → IsCanonical lo total rs
    → clipped_indices rs total ≡ selected_indices rs
unfolding clipped_indices selected_indices
clipped_indices_inside lo total [] h = refl
clipped_indices_inside lo total (r ∷ rs) h =
    let same : min r.last total ≡ r.last = omega arith in
    rw (same, clipped_indices_inside (r.last + 2) total rs h.3)
