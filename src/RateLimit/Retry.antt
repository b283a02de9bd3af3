-- ===== src/RateLimit/Retry.antt =====
-- services/jrip-mcp/src/rate_limit.rs: the waiting time that a refused client is told.
use native.Mathlib.Nat.{mod-eq_of_lt}
use rip_server.Common.{◌↔◌, ℕ, ◌+◌, ◌-◌, ◌*◌, ◌≤◌, ◌<◌, ◌≡◌, ◌≢◌, arith, ok, err}
use rip_server.RateLimit.{
  RequestLimits, Bucket, minute, second, refill, new, retry_after, admit_bucket,
}
use rip_server.RateLimit.Arith.{
  seconds_for, seconds_for_enough, seconds_for_needed, seconds_for_bound,
}

-- The limits that the constructor accepts.
pub record IsLimits (limits : RequestLimits) : Type 0 where
  pub paying : 0 < limits.per_minute
  pub paying_high : limits.per_minute ≤ 60000
  pub holding : 0 < limits.burst
  pub holding_high : limits.burst ≤ 10000

-- Nothing is lost when the waiting time is returned as a `u64`: it is at most a minute.
retry_after_lem :
    (limits : RequestLimits) (bucket : Bucket)
    → IsLimits limits
    → retry_after limits bucket ≡ seconds_for (minute - bucket.credit) limits.per_minute
unfolding retry_after
retry_after_lem limits bucket h =
    mod-eq_of_lt
      (omega (arith, seconds_for_bound (minute - bucket.credit) limits.per_minute h.paying))

-- What a refusal says of the bucket that it leaves behind.
refusal :
    (limits : RequestLimits) (before : Bucket) (now s : ℕ)
    → IsLimits limits
    → (admit_bucket limits before now).1 ≡ err s
    → let after = (admit_bucket limits before now).0 in
      (after.updated ≡ now)
      × (after.credit < minute)
      × (s ≡ seconds_for (minute - after.credit) limits.per_minute)
unfolding admit_bucket
refusal limits before now s h e =
    ground (arith, retry_after_lem limits (refill limits before now) h)

-- A bucket admits once the time paid in makes up the missing credit, and not before.
admit_bucket_paid :
    (limits : RequestLimits) (bucket : Bucket) (later : ℕ)
    → IsLimits limits
    → minute ≤ bucket.credit + (later - bucket.updated) * limits.per_minute
    → (admit_bucket limits bucket later).1 ≡ ok tt
unfolding admit_bucket
admit_bucket_paid limits bucket later h paid = ground arith

admit_bucket_unpaid :
    (limits : RequestLimits) (bucket : Bucket) (later : ℕ)
    → bucket.credit + (later - bucket.updated) * limits.per_minute < minute
    → (admit_bucket limits bucket later).1 ≢ ok tt
unfolding admit_bucket
admit_bucket_unpaid limits bucket later unpaid = ground arith

-- Under limits that `RequestLimits::new` accepts, a refused client that waits for the time that
-- it was told, or longer, with no request in between, is admitted.
pub retry_admits :
    (limits : RequestLimits) (before : Bucket) (now later s : ℕ)
    → IsLimits limits
    → (admit_bucket limits before now).1 ≡ err s
    → now + s * second ≤ later
    → (admit_bucket limits (admit_bucket limits before now).0 later).1 ≡ ok tt
retry_admits limits before now later s h e wait =
    let after = (admit_bucket limits before now).0 in
    let (at, short, told) = refusal limits before now s h e in
    let owed = minute - after.credit in
    admit_bucket_paid limits after later h (
      omega (
        arith,
        seconds_for_enough owed limits.per_minute (later - after.updated) h.paying
            (omega (arith, told, at)),
      ))

-- Under limits that `RequestLimits::new` accepts, the waiting time is no longer than needed: a
-- refused client that comes back at least a second earlier, with no request in between, is
-- refused.
pub retry_early_refused :
    (limits : RequestLimits) (before : Bucket) (now later s : ℕ)
    → IsLimits limits
    → (admit_bucket limits before now).1 ≡ err s
    → now ≤ later
    → later + second ≤ now + s * second
    → (admit_bucket limits (admit_bucket limits before now).0 later).1 ≢ ok tt
retry_early_refused limits before now later s h e order wait =
    let after = (admit_bucket limits before now).0 in
    let (at, short, told) = refusal limits before now s h e in
    let owed = minute - after.credit in
    admit_bucket_unpaid limits after later (
      omega (
        arith,
        seconds_for_needed owed limits.per_minute (later - after.updated) h.paying
            (omega (arith, told, at)),
      ))

-- The constructor accepts exactly the limits in these ranges.
pub new_iff :
    (per_minute burst : ℕ) (limits : RequestLimits)
    → (new per_minute burst ≡ ok limits)
      ↔ (IsLimits limits × (limits ≡ record { per_minute = per_minute; burst = burst }))
unfolding new
new_iff per_minute burst limits = (λ e. ground arith, λ h. ground arith)
