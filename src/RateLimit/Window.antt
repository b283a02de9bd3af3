-- ===== src/RateLimit/Window.antt =====
-- services/jrip-mcp/src/rate_limit.rs: how many requests of one identity are admitted.
use Prim.Native.String.{String}
use text.Mathlib.Text.{◌==◌ as str_eq}
use text.Mathlib.TextEquality.{eq_iff}
use rip_server.Common.{
  ℕ, ◌+◌, ◌-◌, ◌*◌, ◌≤◌, ◌≡◌, refl, sym, ap, ◌∙◌, inl, inr, true, false, List, [], ◌∷◌, some,
  if◌then◌else◌, Bool-cases, Result, ok, err, arith,
}
use rip_server.RateLimit.{
  RequestLimits, Bucket, Buckets, minute, capacity, lookup, entry, admit_bucket, admit,
}
use rip_server.RateLimit.Arith.{mul_elapsed}
use rip_server.RateLimit.Isolation.{admit-isolated}

abbrev pub admitted : Result (Unit {0}) ℕ → ℕ
admitted (ok _) = 1
admitted (err _) = 0

-- How many requests of one identity are admitted, where each request has the identity that sends it
-- and its time.
unfoldable pub serve : RequestLimits → String → Buckets → List (String × ℕ) → ℕ
serve limits identity buckets [] = 0
serve limits identity buckets ((who, now) ∷ requests) =
    let (after, answer) = admit limits buckets who now in
    let count = serve limits identity after requests in
    if str_eq who identity then admitted answer + count else count

-- The times do not run backwards, and lie between the two that are given.
abbrev pub Runs : ℕ → List (String × ℕ) → ℕ → Type 0
Runs from [] last = from ≤ last
Runs from ((who, now) ∷ requests) last = (from ≤ now) × Runs now requests last

Runs-le :
    (from : ℕ) (requests : List (String × ℕ)) (last : ℕ) → Runs from requests last → from ≤ last
Runs-le from [] last h = h
Runs-le from ((who, now) ∷ requests) last h = omega (arith, Runs-le now requests last h.1)

-- A later start leaves less of the window.
Runs-later :
    (from later : ℕ) (requests : List (String × ℕ)) (last : ℕ)
    → from ≤ later
    → Runs later requests last
    → Runs from requests last
Runs-later from later [] last le h = omega arith
Runs-later from later ((who, now) ∷ requests) last le h = (omega (arith, h.0), h.1)

-- A request spends no more than the credit and the time that was paid in.
admit_bucket-balance :
    (limits : RequestLimits) (bucket : Bucket) (now : ℕ)
    → bucket.updated ≤ now
    → let (after, answer) = admit_bucket limits bucket now in
      (admitted answer * minute + after.credit + bucket.updated * limits.per_minute
        ≤ bucket.credit + now * limits.per_minute)
      × (after.updated ≡ now)
unfolding admit_bucket
admit_bucket-balance limits bucket now h =
    ground (arith, mul_elapsed limits.per_minute bucket.updated now h)

-- Whatever a bucket held, a request spends out of the capacity.
admit_bucket-capped :
    (limits : RequestLimits) (bucket : Bucket) (now : ℕ)
    → let (after, answer) = admit_bucket limits bucket now in
      (admitted answer * minute + after.credit ≤ capacity limits) × (after.updated ≡ now)
unfolding admit_bucket
admit_bucket-capped limits bucket now = ground arith

-- The step of the count at a request of the identity.
serve-own :
    (limits : RequestLimits) (identity who : String) (buckets : Buckets) (now : ℕ)
    (requests : List (String × ℕ))
    → str_eq who identity ≡ true
    → let own = admit_bucket limits (entry limits now (lookup identity buckets)) now in
      (buckets' : Buckets) × (lookup identity buckets' ≡ some own.0)
      × (serve limits identity buckets ((who, now) ∷ requests)
          ≡ admitted own.1 + serve limits identity buckets' requests)
unfolding serve
serve-own limits identity who buckets now requests e =
    let is : who ≡ identity = (eq_iff who identity).0 e in
    let (answered, written, others) = admit-isolated limits buckets identity now in
    let after = (admit limits buckets who now).0 in
    let same : admit limits buckets who now ≡ admit limits buckets identity now =
      ap (λ w. admit limits buckets w now) is in
    (
      after,
      ap (λ r. lookup identity r.0) same ∙ written,
      rw e (
          ap (λ r. admitted r.1 + serve limits identity after requests) same
          ∙ ap (λ a. admitted a + serve limits identity after requests) answered),
    )

-- The step of the count at a request of another identity.
serve-other :
    (limits : RequestLimits) (identity who : String) (buckets : Buckets) (now : ℕ)
    (requests : List (String × ℕ))
    → str_eq who identity ≡ false
    → (buckets' : Buckets) × (lookup identity buckets' ≡ lookup identity buckets)
      × (serve limits identity buckets ((who, now) ∷ requests)
          ≡ serve limits identity buckets' requests)
unfolding serve
serve-other limits identity who buckets now requests e =
    let (answered, written, others) = admit-isolated limits buckets who now in
    (
      (admit limits buckets who now).0,
      others identity (λ is. ground (arith, e, (eq_iff who identity).1 (sym is))),
      rw e refl,
    )

serve-balance :
    (limits : RequestLimits) (identity : String) (bucket : Bucket) (buckets : Buckets)
    (requests : List (String × ℕ)) (from last : ℕ)
    → lookup identity buckets ≡ some bucket
    → bucket.updated ≤ from
    → Runs from requests last
    → serve limits identity buckets requests * minute + bucket.updated * limits.per_minute
      ≤ bucket.credit + last * limits.per_minute
serve-balance limits identity bucket buckets [] from last found old h =
    unfold serve in omega (arith, mul_elapsed limits.per_minute bucket.updated last (omega arith))
serve-balance limits identity bucket buckets ((who, now) ∷ requests) from last found old h =
    elim (Bool-cases (str_eq who identity)) [
      | inl own ↦
          let (buckets', written, count) = serve-own limits identity who buckets now requests own in
          let at_entry : entry limits now (lookup identity buckets) ≡ bucket =
            unfold entry in ap (entry limits now) found in
          let (spent, at) = admit_bucket-balance limits bucket now (omega (arith, h.0)) in
          let after = (admit_bucket limits bucket now).0 in
          let later =
            serve-balance limits identity after buckets' requests now last
              (written ∙ ap (λ b. some (admit_bucket limits b now).0) at_entry) (omega (arith, at))
              h.1 in
          omega (
            arith,
            count
                ∙ ap
                    (λ b.
                      admitted (admit_bucket limits b now).1
                      + serve limits identity buckets' requests)
                    at_entry,
            ap (λ (t : ℕ). t * limits.per_minute) at,
          )
      | inr other ↦
          let (buckets', kept, count) =
            serve-other limits identity who buckets now requests other in
          omega (
            arith,
            count,
            serve-balance limits identity bucket buckets' requests now last (kept ∙ found)
                (omega (arith, h.0)) h.1,
          )
    ]

-- In any window of time the requests admitted for one identity cost at most the burst and what
-- the rate pays in during the window, whatever their number and their times, whatever the buckets
-- hold and whatever other identities send: for requests that arrive in order from the time `from`
-- to the time `last`.
pub serve-bounded :
    (limits : RequestLimits) (identity : String) (buckets : Buckets) (requests : List (String × ℕ))
    (from last : ℕ)
    → Runs from requests last
    → serve limits identity buckets requests * minute
      ≤ limits.burst * minute + (last - from) * limits.per_minute
serve-bounded limits identity buckets [] from last h = unfold serve in omega arith
serve-bounded limits identity buckets ((who, now) ∷ requests) from last h =
    elim (Bool-cases (str_eq who identity)) [
      | inl own ↦
          let (buckets', written, count) = serve-own limits identity who buckets now requests own in
          let before = entry limits now (lookup identity buckets) in
          let (spent, at) = admit_bucket-capped limits before now in
          let after = (admit_bucket limits before now).0 in
          let later =
            serve-balance limits identity after buckets' requests now last written
              (omega (arith, at)) h.1 in
          omega (
            arith,
            count,
            ap (λ (t : ℕ). t * limits.per_minute) at,
            mul_elapsed limits.per_minute from last (Runs-le from ((who, now) ∷ requests) last h),
            mul_elapsed limits.per_minute now last (Runs-le now requests last h.1),
            mul_elapsed limits.per_minute from now h.0,
          )
      | inr other ↦
          let (buckets', kept, count) =
            serve-other limits identity who buckets now requests other in
          omega (
            arith,
            count,
            serve-bounded limits identity buckets' requests from last
                (Runs-later from now requests last h.0 h.1),
          )
    ]
