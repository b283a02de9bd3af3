-- ===== src/Server/Authorization/Grant.antt =====
-- services/jrip-server/src/authorization.rs: when a request is let through.
use rip_server.Common.{
  ℕ, ◌≤◌, ◌≡◌, ◌↔◌, refl, sym, ap, subst, ◌∙◌, ◌⊎◌, inl, inr, Bool, true, false, not, ◌||◌, List,
  [], ◌∷◌, ◌++◌, Option, none, some, length, drop, any, is_empty, Bool-cases, ok, >>=-eq-ok,
  reject_if-eq-ok, ok_or, arith,
}
use rip_server.Common.Bytes.{Bytes, codes, bytes_eq, starts_with}
use rip_server.Server.Authorization.{
  Credential, App, check_credentials, parse, Access, find_credential, is_active, expiry, access_of,
  access_at, bearer, authorize, unauthorized,
}
use rip_server.Server.Authorization.Compare.{AreBytes}
use rip_server.Server.Authorization.Policy.{
  Has, HasScope, Holds, is_active_iff, allowed_iff, find_credential-Has, Has-find_credential,
  check_credentials-IsChecked,
}

starts_with-drop : (p h : Bytes) → starts_with p h ≡ true → h ≡ p ++ drop (length p) h
unfolding starts_with
starts_with-drop [] h e = refl
starts_with-drop (x ∷ p) [] e = cc
starts_with-drop (x ∷ p) (y ∷ h) e = ground (arith, e, starts_with-drop p h)

-- A header with a token.
bearer_iff :
    (header : Option Bytes) (t : Bytes)
    → 24 ≤ length t
    → (bearer header ≡ t) ↔ (header ≡ some (codes "Bearer " ++ t))
unfolding bearer starts_with
bearer_iff none t l = (λ e. absurd (ground (arith, ap length e, l)), λ e. cc)
bearer_iff (some h) t l = (
  λ e. elim (Bool-cases (starts_with (codes "Bearer ") h)) [
    | inl yes_bearer ↦
        let whole = starts_with-drop (codes "Bearer ") h yes_bearer in
        let rest : drop 7 h ≡ t = ground (arith, e, yes_bearer) in
        ap some (whole ∙ ap (codes "Bearer " ++◌) rest)
    | inr no_bearer ↦
        let nothing : [] ≡ t = ground (arith, e, no_bearer) in
        absurd (ground (arith, ap length nothing, l))
  ],
  λ e. subst (λ (o : Option Bytes). bearer o ≡ t) (sym e) refl,
)

-- A checked policy is not empty, and each credential of it passes.
parse-checked :
    (document : Option (List Credential)) (cs : List Credential)
    → parse document ≡ ok cs
    → (check_credentials [] cs ≡ ok tt) × (is_empty cs ≡ false)
unfolding parse
parse-checked document cs e =
    let (ds, _, e1) = >>=-eq-ok (ok_or document _) _ e in
    let (filled, e2) = reject_if-eq-ok (is_empty ds) _ _ e1 in
    let (_, checked, e3) = >>=-eq-ok (check_credentials [] ds) _ e2 in
    let is : ds ≡ cs = ground (arith, e3) in
    (
      subst (λ x. check_credentials [] x ≡ ok tt) is checked,
      subst (λ (x : List Credential). is_empty x ≡ false) is filled,
    )

access_of-found :
    (o : Option Credential) (now : ℕ) (found : Access)
    → access_of o now ≡ some found
    → (c : Credential) × (o ≡ some c)
      × (is_active c.validity now ≡ true)
      × (found.scopes ≡ c.scopes)
unfolding access_of
access_of-found none now found e = cc
access_of-found (some c) now found e = elim (Bool-cases (is_active c.validity now)) [
  | inl holds ↦
      let is : (record { identity = c.identity; scopes = c.scopes; expires_at = expiry c.validity })
          ≡ found =
        ground (arith, holds, e) in
      (c, refl, holds, ap (λ (a : Access). a.scopes) (sym is))
  | inr over ↦ ground (arith, over, e)
]

access_of-holds :
    (o : Option Credential) (c : Credential) (now : ℕ)
    → o ≡ some c
    → is_active c.validity now ≡ true
    → access_of o now
      ≡ some (record { identity = c.identity; scopes = c.scopes; expires_at = expiry c.validity })
unfolding access_of
access_of-holds o c now f h =
    subst
      (λ (x : Option Credential).
        access_of x now
        ≡ some
            (record { identity = c.identity; scopes = c.scopes; expires_at = expiry c.validity }))
      (sym f) (rw h refl)

access_at-policy :
    (app : App) (token : Bytes) (now : ℕ)
    → is_empty app.credentials ≡ false
    → access_at app token now ≡ access_of (find_credential token app.credentials) now
unfolding access_at
access_at-policy app token now filled = rw filled refl

some_of : (o : Option Access) (found : Access) → ok_or o unauthorized ≡ ok found → o ≡ some found
some_of none found e = cc
some_of (some a) found e = ground (arith, e)

negated_false : (b : Bool) → not b ≡ false → b ≡ true
negated_false true e = refl
negated_false false e = cc

authorize_of :
    (app : App) (header : Option Bytes) (scope : Bytes) (now : ℕ) (found : Access)
    → access_at app (bearer header) now ≡ some found
    → any (λ s. bytes_eq s scope || bytes_eq s (codes "admin")) found.scopes ≡ true
    → authorize app header scope now ≡ ok tt
unfolding authorize
authorize_of app header scope now found there may = rw (there, may) refl

-- A request is let through exactly if its header is `Bearer ` and the token of a credential of the policy, which
-- holds now, for 900 seconds at most if it has a window, and whose scopes have the scope asked for or `admin`. The
-- policy has passed its check; the token sent is a sequence of bytes.
pub authorize_iff :
    (app : App) (document : Option (List Credential)) (header : Option Bytes) (scope : Bytes)
    (now : ℕ)
    → parse document ≡ ok app.credentials
    → AreBytes (bearer header)
    → (authorize app header scope now ≡ ok tt) ↔ (
        (c : Credential) × Has c app.credentials
        × (header ≡ some (codes "Bearer " ++ c.token))
        × Holds c.validity now
        × (HasScope scope c.scopes ⊎ HasScope (codes "admin") c.scopes))
unfolding authorize
authorize_iff app document header scope now e b =
    let (checked, filled) = parse-checked document app.credentials e in
    (
      λ granted.
          let (found, there, last) =
            >>=-eq-ok (ok_or (access_at app (bearer header) now) unauthorized) _ granted in
          let (passed, _) =
            reject_if-eq-ok
              (not (any (λ s. bytes_eq s scope || bytes_eq s (codes "admin")) found.scopes)) _ _
              last in
          let access : access_of (find_credential (bearer header) app.credentials) now
              ≡ some found =
            sym (access_at-policy app (bearer header) now filled)
            ∙ some_of (access_at app (bearer header) now) found there in
          let (c, which, active_now, scopes) =
            access_of-found (find_credential (bearer header) app.credentials) now found access in
          let (has, token) =
            find_credential-Has [] (bearer header) app.credentials c checked b which in
          let k = check_credentials-IsChecked [] app.credentials c checked has in
          (
            c,
            has,
            (bearer_iff header c.token k.long).0 token,
            (is_active_iff c.validity now).0 active_now,
            (allowed_iff scope c.scopes).0 (
                ap (any (λ s. bytes_eq s scope || bytes_eq s (codes "admin"))) (sym scopes)
                ∙ negated_false
                    (any (λ s. bytes_eq s scope || bytes_eq s (codes "admin")) found.scopes)
                    passed),
          ),
      λ (c, has, sent, holds, may).
          let k = check_credentials-IsChecked [] app.credentials c checked has in
          let token = (bearer_iff header c.token k.long).1 sent in
          let found : find_credential (bearer header) app.credentials ≡ some c =
            ap (λ t. find_credential t app.credentials) token
            ∙ Has-find_credential [] app.credentials c checked has in
          authorize_of app header scope now
            (record { identity = c.identity; scopes = c.scopes; expires_at = expiry c.validity })
            (access_at-policy app (bearer header) now filled
              ∙ access_of-holds (find_credential (bearer header) app.credentials) c now found
                  ((is_active_iff c.validity now).1 holds))
            ((allowed_iff scope c.scopes).1 may),
    )
