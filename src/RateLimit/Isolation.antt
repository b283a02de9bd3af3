-- ===== src/RateLimit/Isolation.antt =====
-- services/jrip-mcp/src/rate_limit.rs: the map of buckets.
use Prim.Native.String.{String}
use text.Mathlib.Text.{◌==◌ as str_eq}
use text.Mathlib.TextEquality.{eq_iff}
use rip_server.Common.{ℕ, ◌≡◌, ◌≢◌, refl, [], ◌∷◌, some, if◌then◌else◌, arith}
use rip_server.RateLimit.{
  RequestLimits, Bucket, Buckets, lookup, insert, entry, admit_bucket, admit,
}

lookup-insert :
    (k j : String) (bucket : Bucket) (m : Buckets)
    → lookup j (insert k bucket m) ≡ (if str_eq k j then some bucket else lookup j m)
unfolding lookup insert
lookup-insert k j bucket [] = refl
lookup-insert k j bucket ((i, old) ∷ m) =
    ground (arith, eq_iff k j, eq_iff i k, eq_iff i j, lookup-insert k j bucket m)

-- A request is answered from its identity's own bucket, a fresh one at the first request, and writes
-- the result back to that bucket; the buckets of other identities stay as they are.
pub admit-isolated :
    (limits : RequestLimits) (buckets : Buckets) (identity : String) (now : ℕ)
    → let (buckets', answer) = admit limits buckets identity now in
      let own = admit_bucket limits (entry limits now (lookup identity buckets)) now in
      (answer ≡ own.1)
      × (lookup identity buckets' ≡ some own.0)
      × ((other : String) → other ≢ identity → lookup other buckets' ≡ lookup other buckets)
unfolding admit
admit-isolated limits buckets identity now =
    let own = admit_bucket limits (entry limits now (lookup identity buckets)) now in
    (
      refl,
      ground (arith, lookup-insert identity identity own.0 buckets, eq_iff identity identity),
      λ other ne. ground (arith, lookup-insert identity other own.0 buckets, eq_iff identity other),
    )
