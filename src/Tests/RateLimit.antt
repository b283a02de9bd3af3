-- ===== src/Tests/RateLimit.antt =====
-- services/jrip-mcp/src/rate_limit.rs at concrete times.
use Prim.Native.String.{String}
use rip_server.Common.{ℕ, List, ◌+◌, ◌-◌, ◌*◌, ◌≤◌, ◌≡◌, refl, [], ◌∷◌, ok, err, arith}
use rip_server.Common.Division.{div_ceil}
use rip_server.RateLimit.{
  RequestLimits, Bucket, minute, second, retry_after, admit_bucket, admit, entry, lookup, insert,
}
use rip_server.RateLimit.Isolation.{}
use rip_server.RateLimit.Retry.{IsLimits, retry_admits}
use rip_server.RateLimit.Window.{serve, serve-bounded}

-- Two requests a second, and a burst of one.
abbrev limits : RequestLimits
limits = record { per_minute = 120; burst = 1 }

abbrev limits-IsLimits : IsLimits limits
limits-IsLimits = omega arith

-- Two agents' requests: a second one at once is refused, and the other agent has its own bucket.
abbrev requests : List (String × ℕ)
requests =
    ("agent", 0) ∷ ("agent", 0) ∷ ("other", 0) ∷ ("agent", 250000000) ∷ ("agent", 500000000) ∷ []

serve_runs : serve limits "agent" [] requests ≡ 2
unfolding serve admit entry lookup insert admit_bucket
serve_runs = refl

serve-bounded_example :
    serve limits "agent" [] requests * minute ≤ 1 * minute + (500000000 - 0) * 120
serve-bounded_example = serve-bounded limits "agent" [] requests 0 500000000 (omega arith)

abbrev spent : Bucket
spent = record { updated = 0; credit = 0 }

refused_at_once : (admit_bucket limits spent 0).1 ≡ err 1
unfolding admit_bucket retry_after div_ceil
refused_at_once = refl

retry_admits_example : (admit_bucket limits (admit_bucket limits spent 0).0 second).1 ≡ ok tt
retry_admits_example =
    retry_admits limits spent 0 second 1 limits-IsLimits refused_at_once (omega arith)
