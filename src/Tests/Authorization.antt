-- ===== src/Tests/Authorization.antt =====
-- services/jrip-server/src/authorization.rs at concrete inputs.
use rip_server.Common.{◌≡◌, ◌↔◌, refl, ◌⊎◌, [], ◌∷◌, ◌++◌, Option, some, ok, err, arith}
use rip_server.Common.Bytes.{Bytes, codes, bytes_eq, starts_with}
use rip_server.Core.Document.{is_whitespace}
use rip_server.Server.Authorization.{
  pos, Credential, App, parse, check_credentials, bad_credential, valid_window, active, equal,
  differences, find_credential, access_of, access_at, bearer, authorize, unauthorized, forbidden,
  invalid_policy,
}
use rip_server.Server.Authorization.Compare.{AreBytes}
use rip_server.Server.Authorization.Policy.{Has, HasScope, Holds}
use rip_server.Server.Authorization.Grant.{authorize_iff}

abbrev reader : Credential
reader = record {
  token = codes "reader-token-0123456789abcd";
  identity = codes "reader";
  scopes = codes "jobs:read" ∷ [];
  validity = some (record { not_before = pos 1000; expires_at = pos 1900 });
}

abbrev app : App
app = record { token = []; credentials = reader ∷ [] }

abbrev header : Option Bytes
header = some (codes "Bearer reader-token-0123456789abcd")

policy_passes : parse (some app.credentials) ≡ ok app.credentials
unfolding parse check_credentials bad_credential valid_window is_whitespace bytes_eq
policy_passes = refl

-- The same token for two credentials.
repeated_token : parse (some (reader ∷ reader ∷ [])) ≡ err invalid_policy
unfolding parse check_credentials bad_credential valid_window is_whitespace bytes_eq
repeated_token = refl

reads : authorize app header (codes "jobs:read") 1899 ≡ ok tt
unfolding authorize access_at find_credential access_of active valid_window bearer starts_with equal
    differences bytes_eq
reads = refl

may_not_submit : authorize app header (codes "jobs:submit") 1899 ≡ err forbidden
unfolding authorize access_at find_credential access_of active valid_window bearer starts_with equal
    differences bytes_eq
may_not_submit = refl

has_expired : authorize app header (codes "jobs:read") 1900 ≡ err unauthorized
unfolding authorize access_at find_credential access_of active valid_window bearer starts_with equal
    differences bytes_eq
has_expired = refl

sent-AreBytes : AreBytes (bearer header)
unfolding bearer starts_with
sent-AreBytes = ground arith

authorize_iff_example : (authorize app header (codes "jobs:read") 1899 ≡ ok tt) ↔ (
    (c : Credential) × Has c app.credentials
    × (header ≡ some (codes "Bearer " ++ c.token))
    × Holds c.validity 1899
    × (HasScope (codes "jobs:read") c.scopes ⊎ HasScope (codes "admin") c.scopes))
authorize_iff_example =
    authorize_iff app (some app.credentials) header (codes "jobs:read") 1899 policy_passes
      sent-AreBytes
