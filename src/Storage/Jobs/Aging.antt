-- ===== src/Storage/Jobs/Aging.antt =====
-- crates/rip-storage/src/lib.rs: the choice of the next job, and that waiting wins it.
use native.Mathlib.Nat.{div-add-mod', mod-lt}
use mathlib.Core.List.{Memᴰ}
use rip_server.Common.{
  ℕ, ◌+◌, ◌-◌, ◌*◌, ◌/◌, ◌≤◌, ◌≡◌, refl, sym, ap, subst, inl, inr, Bool-cases, true, false, List,
  [], ◌∷◌, min, Option, none, some, arith,
}
use rip_server.Core.Job.{}
use rip_server.Storage.Jobs.{JobRow}
use rip_server.Storage.Jobs.Choice.{
  aged, goes_first, first_queued, next_queued_at, is_queued, better, job_of, rip_priority_max,
  rip_priority_aging_seconds,
}

goes_first_irrefl : (now : ℕ) (a : ℕ × JobRow) → goes_first now a a ≡ false
unfolding goes_first
goes_first_irrefl now (i, a) = ground arith

goes_first_asym :
    (now : ℕ) (a b : ℕ × JobRow) → goes_first now a b ≡ true → goes_first now b a ≡ false
unfolding goes_first
goes_first_asym now (i, a) (j, b) h = ground arith

goes_first_trans :
    (now : ℕ) (a b c : ℕ × JobRow)
    → goes_first now a b ≡ false
    → goes_first now b c ≡ false
    → goes_first now a c ≡ false
unfolding goes_first
goes_first_trans now (i, a) (j, b) (k, c) p q = ground arith

-- A queued row before which no row that was seen goes.
record Best (now : ℕ) (rows : List (ℕ × JobRow)) (a : ℕ × JobRow) : Type 0 where
  best : ℕ × JobRow
  chosen : first_queued now rows ≡ some best
  member : Memᴰ best rows
  waiting : is_queued best.1.job.state ≡ true
  none_before : goes_first now a best ≡ false

-- The better of a queued row and the best of the rest.
better-best :
    (now : ℕ) (r : ℕ × JobRow) (o : Option (ℕ × JobRow)) (rows : List (ℕ × JobRow))
    → is_queued r.1.job.state ≡ true
    → ((b : ℕ × JobRow) → o ≡ some b → Memᴰ b rows × (is_queued b.1.job.state ≡ true))
    → let b = better now r o in Memᴰ b (r ∷ rows) × (is_queued b.1.job.state ≡ true)
better-best now r none rows q h = (Memᴰ.head refl, q)
better-best now r (some best) rows q h = elim (Bool-cases (goes_first now best r)) [
  | inl first ↦ rw first (Memᴰ.tail (h best refl).0, (h best refl).1)
  | inr last ↦ rw last (Memᴰ.head refl, q)
]

first_queued-waiting :
    (now : ℕ) (rows : List (ℕ × JobRow)) (b : ℕ × JobRow)
    → first_queued now rows ≡ some b
    → Memᴰ b rows × (is_queued b.1.job.state ≡ true)
unfolding first_queued
first_queued-waiting now [] b e = ground arith
first_queued-waiting now ((id, row) ∷ rows) b e = elim (Bool-cases (is_queued row.job.state)) [
  | inl q ↦
      let same : better now (id, row) (first_queued now rows) ≡ b = ground (arith, q, e) in
      subst (λ x. Memᴰ x ((id, row) ∷ rows) × (is_queued x.1.job.state ≡ true)) same
        (better-best now (id, row) (first_queued now rows) rows q
          (λ c f. first_queued-waiting now rows c f))
  | inr idle ↦
      let (m, q) = first_queued-waiting now rows b (ground (arith, idle, e)) in (Memᴰ.tail m, q)
]

-- The better of a row and the best of the rest: neither goes before it.
better-first :
    (now : ℕ) (r : ℕ × JobRow) (o : Option (ℕ × JobRow)) → goes_first now r (better now r o) ≡ false
better-first now r none = goes_first_irrefl now r
better-first now r (some best) = elim (Bool-cases (goes_first now best r)) [
  | inl first ↦ rw first (goes_first_asym now best r first)
  | inr last ↦ rw last (goes_first_irrefl now r)
]

better-rest :
    (now : ℕ) (r a best : ℕ × JobRow)
    → goes_first now a best ≡ false
    → goes_first now a (better now r (some best)) ≡ false
better-rest now r a best h = elim (Bool-cases (goes_first now best r)) [
  | inl first ↦ rw first h
  | inr last ↦ rw last (goes_first_trans now a best r h last)
]

first_queued-none_before :
    (now : ℕ) (rows : List (ℕ × JobRow)) (a : ℕ × JobRow)
    → Memᴰ a rows
    → is_queued a.1.job.state ≡ true
    → (b : ℕ × JobRow) × (first_queued now rows ≡ some b) × (goes_first now a b ≡ false)
unfolding first_queued
first_queued-none_before now [] a m q = elim m [ ]
first_queued-none_before now ((id, row) ∷ rows) a (Memᴰ.head same) q =
    let r : ℕ × JobRow = (id, row) in
    let waits : is_queued row.job.state ≡ true =
      subst (λ (x : ℕ × JobRow). is_queued x.1.job.state ≡ true) same q in
    (
      better now r (first_queued now rows),
      ground (arith, waits),
      subst (λ (x : ℕ × JobRow). goes_first now x (better now r (first_queued now rows)) ≡ false)
          (sym same) (better-first now r (first_queued now rows)),
    )
first_queued-none_before now ((id, row) ∷ rows) a (Memᴰ.tail m) q =
    let (best, chosen, after) = first_queued-none_before now rows a m q in
    elim (Bool-cases (is_queued row.job.state)) [
      | inl waits ↦ (
        better now (id, row) (some best),
        rw (chosen, waits) refl,
        better-rest now (id, row) a best after,
      )
      | inr idle ↦ (best, ground (arith, idle, chosen), after)
    ]

div_sixty : (w p : ℕ) → 60 * (100 - p) ≤ w → 100 ≤ p + min (100 * 60) w / 60
div_sixty w p h =
    omega
      (arith, div-add-mod' (min (100 * 60) w) 60, mod-lt (min (100 * 60) w) {m = 60} (omega arith))

aged_max :
    (now : ℕ) (row : JobRow)
    → rip_priority_aging_seconds * (rip_priority_max - row.priority) ≤ now - row.created_at
    → aged now row ≡ rip_priority_max
unfolding aged
aged_max now row h = omega (arith, div_sixty (now - row.created_at) row.priority h)

aged_le : (now : ℕ) (row : JobRow) → aged now row ≤ rip_priority_max
unfolding aged
aged_le now row = omega arith

oldest_of_aged :
    (now : ℕ) (a b : ℕ × JobRow)
    → aged now a.1 ≡ rip_priority_max
    → goes_first now a b ≡ false
    → b.1.created_at ≤ a.1.created_at
unfolding goes_first
oldest_of_aged now (i, a) (j, b) top after = ground (arith, aged_le now b)

-- A queued job gains a point of priority in each minute, and once these have filled
-- what its own priority lacks of 100, there is a next job, it is a queued job of the table, and it
-- is no younger: a job that comes later, whatever its priority, does not go before it.
pub aged_first :
    (now : ℕ) (rows : List (ℕ × JobRow)) (id : ℕ) (row : JobRow)
    → Memᴰ (id, row) rows
    → is_queued row.job.state ≡ true
    → rip_priority_aging_seconds * (rip_priority_max - row.priority) ≤ now - row.created_at
    → (next : ℕ × JobRow) × (next_queued_at now rows ≡ some next.1.job)
      × Memᴰ next rows
      × (is_queued next.1.job.state ≡ true)
      × (next.1.created_at ≤ row.created_at)
unfolding next_queued_at
aged_first now rows id row m q waited =
    let (best, chosen, after) = first_queued-none_before now rows (id, row) m q in
    let (member, waits) = first_queued-waiting now rows best chosen in
    (
      best,
      ap job_of chosen,
      member,
      waits,
      oldest_of_aged now (id, row) best (aged_max now row waited) after,
    )
