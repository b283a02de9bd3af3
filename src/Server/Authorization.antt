-- ===== src/Server/Authorization.antt =====
-- services/jrip-server/src/authorization.rs: who may do what. A token and a scope are bytes, an identity is the list
-- of its code points. The file's JSON and the text of a header are parameters.
pub mod Compare
pub mod Policy
pub mod Grant
use Prim.Native.Nat.{bit_or, bit_xor}
use rip_server.Common.{
  ℕ, ◌+◌, ◌-◌, Bool, true, false, not, ◌&&◌, ◌||◌, List, [], ◌∷◌, Option, none, some, ltb, leb,
  ◌==◌, within, length, drop, any, all, is_empty, if◌then◌else◌, Result, ok, err, ◌>>=◌, ◌>>◌,
  reject_if, ok_or,
}
use rip_server.Common.Bytes.{Bytes, codes, bytes_eq, starts_with}
use rip_server.Core.Document.{is_whitespace}

-- An `i64`.
pub data ℤ : Type 0 where
  pos negsuc : ℕ → ℤ

pub record CredentialValidity : Type 0 where
  pub not_before : ℤ
  pub expires_at : ℤ

pub record Credential : Type 0 where
  pub token : Bytes
  pub identity : List ℕ
  pub scopes : List Bytes
  pub validity : Option CredentialValidity

-- What the server keeps of its settings: the token of a server without a policy, and the policy.
pub record App : Type 0 where
  pub token : Bytes
  pub credentials : List Credential

-- `checked_sub` and the test of the difference, for a start that is not negative: that of a negative end
-- is negative, or overflows.
abbrev pub short_window : ℤ → ℤ → Bool
short_window (pos n) (pos e) = within 1 900 (e - n)
short_window _ _ = false

unfoldable pub valid_window : CredentialValidity → Bool
valid_window self = short_window self.not_before self.expires_at

abbrev pub started : ℤ → ℕ → Bool
started (pos n) now = leb n now
started (negsuc n) now = true

abbrev pub not_ended : ℤ → ℕ → Bool
not_ended (pos e) now = ltb now e
not_ended (negsuc e) now = false

unfoldable pub active : CredentialValidity → ℕ → Bool
unfolding valid_window
active self now = valid_window self && started self.not_before now && not_ended self.expires_at now

abbrev pub known_scope : Bytes → Bool
known_scope scope =
    bytes_eq scope (codes "budgets:reserve")
    || bytes_eq scope (codes "jobs:read")
    || bytes_eq scope (codes "jobs:submit")
    || bytes_eq scope (codes "jobs:control")
    || bytes_eq scope (codes "artifacts:read")
    || bytes_eq scope (codes "printers:print")
    || bytes_eq scope (codes "settings:write")
    || bytes_eq scope (codes "admin")

abbrev pub bad_validity : Option CredentialValidity → Bool
bad_validity none = false
bad_validity (some v) = not (valid_window v)

-- The condition of `parse` on one credential, after the tokens of those before it.
unfoldable pub bad_credential : List Bytes → Credential → Bool
unfolding valid_window is_whitespace
bad_credential tokens c =
    ltb (length c.token) 24
    || bad_validity c.validity
    || all is_whitespace c.identity
    || any (λ b. not (within 33 126 b)) c.token
    || any (λ t. bytes_eq t c.token) tokens
    || any (λ s. not (known_scope s)) c.scopes

pub data PolicyError : Type 0 where
  bad_json empty_policy invalid_policy : PolicyError

unfoldable pub check_credentials : List Bytes → List Credential → Result (Unit {0}) PolicyError
unfolding bad_credential
check_credentials tokens [] = ok tt
check_credentials tokens (c ∷ cs) = do
  reject_if (bad_credential tokens c) invalid_policy
  check_credentials (c.token ∷ tokens) cs

-- `parse`, on what serde_json has made of the file.
unfoldable pub parse : Option (List Credential) → Result (List Credential) PolicyError
unfolding check_credentials
parse document = do
  credentials ← ok_or document bad_json
  reject_if (is_empty credentials) empty_policy
  check_credentials [] credentials
  ok credentials

-- The fold of `equal` over the two texts, from `n`.
unfoldable pub differences : ℕ → Bytes → Bytes → ℕ
differences n [] b = n
differences n (x ∷ a) [] = n
differences n (x ∷ a) (y ∷ b) = differences (bit_or n (bit_xor x y)) a b

-- `equal`
unfoldable pub equal : Bytes → Bytes → Bool
unfolding differences
equal a b = length a == length b && differences 0 a b == 0

-- An identity, its scopes and when they expire.
pub record Access : Type 0 where
  pub identity : List ℕ
  pub scopes : List Bytes
  pub expires_at : Option ℤ

unfoldable pub find_credential : Bytes → List Credential → Option Credential
unfolding equal
find_credential token [] = none
find_credential token (c ∷ cs) = if equal token c.token then some c else find_credential token cs

abbrev pub is_active : Option CredentialValidity → ℕ → Bool
is_active none now = true
is_active (some v) now = active v now

abbrev pub expiry : Option CredentialValidity → Option ℤ
expiry none = none
expiry (some v) = some v.expires_at

unfoldable pub access_of : Option Credential → ℕ → Option Access
unfolding active
access_of none now = none
access_of (some c) now =
    if is_active c.validity now
    then some (record { identity = c.identity; scopes = c.scopes; expires_at = expiry c.validity })
    else none

abbrev pub legacy : Access
legacy = record { identity = codes "legacy-local"; scopes = codes "admin" ∷ []; expires_at = none }

-- `access_at`
unfoldable pub access_at : App → Bytes → ℕ → Option Access
access_at app token now =
    if is_empty app.credentials
    then (if not (is_empty app.token) && equal token app.token then some legacy else none)
    else access_of (find_credential token app.credentials) now

-- `strip_prefix("Bearer ")` of the header's text, and the empty text where there is none.
unfoldable pub bearer : Option Bytes → Bytes
bearer none = []
bearer (some header) = if starts_with (codes "Bearer ") header then drop 7 header else []

pub data ApiError : Type 0 where
  unauthorized forbidden : ApiError

-- `authorize`
unfoldable pub authorize : App → Option Bytes → Bytes → ℕ → Result (Unit {0}) ApiError
authorize app header scope now = do
  found ← ok_or (access_at app (bearer header) now) unauthorized
  reject_if (not (any (λ s. bytes_eq s scope || bytes_eq s (codes "admin")) found.scopes)) forbidden
  ok tt
