-- ===== src/RateLimit.antt =====
-- services/jrip-mcp/src/rate_limit.rs: the token bucket in front of the MCP service.
-- An `Instant` is a count of nanoseconds; the mutex makes each `admit` one step on the map.
pub mod Arith
pub mod Window
pub mod Retry
pub mod Isolation
use Prim.Native.String.{String}
use text.Mathlib.Text.{◌==◌ as str_eq}
use rip_server.Common.Division.{div_ceil}
use rip_server.Common.{
  ℕ, ◌+◌, ◌-◌, ◌*◌, ◌/◌, ◌%◌, ◌^◌, min, Bool, true, false, not, ◌||◌, List, [], ◌∷◌, Option, none,
  some, leb, ◌==◌, within, if◌then◌else◌, Result, ok, err,
}

-- One request costs a minute of nanoseconds.
abbrev pub minute : ℕ
minute = 60000000000

-- `Duration::from_secs(1).as_nanos()`
abbrev pub second : ℕ
second = 1000000000

pub record RequestLimits : Type 0 where
  pub per_minute : ℕ
  pub burst : ℕ

pub data LimitsError : Type 0 where
  limits_out_of_range : LimitsError

unfoldable pub new : ℕ → ℕ → Result RequestLimits LimitsError
new per_minute burst =
    if not (within 1 60000 per_minute) || not (within 1 10000 burst)
    then err limits_out_of_range
    else ok (record { per_minute = per_minute; burst = burst })

pub record Bucket : Type 0 where
  pub updated : ℕ
  pub credit : ℕ

-- `u128` arithmetic that stops at the largest value
unfoldable pub saturate : ℕ → ℕ
saturate n = min n (2 ^ 128 - 1)

abbrev pub capacity : RequestLimits → ℕ
capacity limits = limits.burst * minute

-- What an identity starts with.
abbrev pub fresh : RequestLimits → ℕ → Bucket
fresh limits now = record { updated = now; credit = capacity limits }

-- The credit after the time since the last request is paid in. `duration_since` stops at zero.
unfoldable pub refill : RequestLimits → Bucket → ℕ → Bucket
unfolding saturate
refill limits bucket now =
    let paid = saturate ((now - bucket.updated) * limits.per_minute) in
    record { updated = now; credit = min (saturate (bucket.credit + paid)) (capacity limits) }

-- The seconds that a refused client is told to wait, as a `u64`.
unfoldable pub retry_after : RequestLimits → Bucket → ℕ
retry_after limits bucket =
    let nanos = div_ceil (minute - bucket.credit) limits.per_minute in
    div_ceil nanos second % 2 ^ 64

-- The request against the refilled bucket.
unfoldable pub spend : RequestLimits → Bucket → Bucket × Result (Unit {0}) ℕ
spend limits bucket =
    if leb minute bucket.credit
    then (record bucket { credit = bucket.credit - minute }, ok tt)
    else (bucket, err (retry_after limits bucket))

unfoldable pub admit_bucket : RequestLimits → Bucket → ℕ → Bucket × Result (Unit {0}) ℕ
unfolding refill spend
admit_bucket limits bucket now = spend limits (refill limits bucket now)

-- The map from identities to buckets, newest write first found.
abbrev pub Buckets : Type 0
Buckets = List (String × Bucket)

unfoldable pub lookup : String → Buckets → Option Bucket
lookup identity [] = none
lookup identity ((key, bucket) ∷ buckets) =
    if str_eq key identity then some bucket else lookup identity buckets

unfoldable pub insert : String → Bucket → Buckets → Buckets
insert identity bucket [] = (identity, bucket) ∷ []
insert identity bucket ((key, old) ∷ buckets) =
    if str_eq key identity
    then (key, bucket) ∷ buckets
    else (key, old) ∷ insert identity bucket buckets

-- `entry(identity).or_insert(fresh)`
unfoldable pub entry : RequestLimits → ℕ → Option Bucket → Bucket
entry limits now none = fresh limits now
entry limits now (some bucket) = bucket

unfoldable pub admit : RequestLimits → Buckets → String → ℕ → Buckets × Result (Unit {0}) ℕ
unfolding entry
admit limits buckets identity now =
    let (bucket, answer) = admit_bucket limits (entry limits now (lookup identity buckets)) now in
    (insert identity bucket buckets, answer)
