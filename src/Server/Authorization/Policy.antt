-- ===== src/Server/Authorization/Policy.antt =====
-- services/jrip-server/src/authorization.rs: whom a checked policy lets do what.
use rip_server.Common.{
  ℕ, ◌+◌, ◌≤◌, ◌<◌, ◌≡◌, ◌↔◌, refl, sym, ap, subst, ◌∙◌, ◌⊎◌, inl, inr, true, false, not, ◌&&◌,
  ◌||◌, List, [], ◌∷◌, Option, none, some, within, length, any, Bool-cases, ok, reject_if-eq-ok,
  arith,
}
use rip_server.Common.Bytes.{Bytes, codes, bytes_eq, bytes_eq_iff}
use rip_server.Server.Authorization.{
  ℤ, pos, negsuc, CredentialValidity, Credential, short_window, valid_window, started, not_ended,
  active, bad_credential, check_credentials, equal, find_credential, is_active,
}
use rip_server.Server.Authorization.Compare.{AreBytes, equal_iff}

abbrev pub Has : Credential → List Credential → Type 0
Has c [] = ⊥
Has c (d ∷ cs) = (c ≡ d) ⊎ Has c cs

abbrev pub HasScope : Bytes → List Bytes → Type 0
HasScope scope [] = ⊥
HasScope scope (s ∷ scopes) = (s ≡ scope) ⊎ HasScope scope scopes

-- A credential without a window always holds; one with a window within the window, of 900 seconds at most.
abbrev pub Holds : Option CredentialValidity → ℕ → Type 0
Holds none now = Unit
Holds (some v) now =
    (start : ℕ) × (end : ℕ) × (v.not_before ≡ pos start)
    × (v.expires_at ≡ pos end)
    × (start ≤ now)
    × (now < end)
    × (end ≤ start + 900)

window_iff :
    (b e : ℤ) (now : ℕ)
    → ((short_window b e && started b now && not_ended e now) ≡ true) ↔ (
        (start : ℕ) × (end : ℕ) × (b ≡ pos start)
        × (e ≡ pos end)
        × (start ≤ now)
        × (now < end)
        × (end ≤ start + 900))
window_iff (pos n) (pos m) now = (
  λ h. (n, m, refl, refl, ground (arith, h), ground (arith, h), ground (arith, h)),
  λ (start, end, p, q, before, after, short). ground (arith, p, q, before, after, short),
)
window_iff (pos n) (negsuc m) now = (λ h. cc, λ (start, end, p, q, _, _, _). ground (arith, q))
window_iff (negsuc n) e now = (λ h. cc, λ (start, end, p, q, _, _, _). ground (arith, p))

pub is_active_iff :
    (v : Option CredentialValidity) (now : ℕ) → (is_active v now ≡ true) ↔ Holds v now
unfolding active valid_window
is_active_iff none now = (λ h. tt, λ h. refl)
is_active_iff (some v) now =
    let w = window_iff v.not_before v.expires_at now in
    (λ h. w.0 (ground (arith, h)), λ h. ground (arith, w.1 h))

pub allowed_iff :
    (scope : Bytes) (scopes : List Bytes)
    → (any (λ s. bytes_eq s scope || bytes_eq s (codes "admin")) scopes ≡ true)
      ↔ (HasScope scope scopes ⊎ HasScope (codes "admin") scopes)
allowed_iff scope [] = (λ h. cc, λ h. elim h [ inl x ↦ absurd x | inr x ↦ absurd x ])
allowed_iff scope (s ∷ scopes) =
    let rest = allowed_iff scope scopes in
    let own = bytes_eq_iff s scope in
    let admin = bytes_eq_iff s (codes "admin") in
    (
      λ h. elim (Bool-cases (bytes_eq s scope)) [
        | inl e ↦ inl (inl (own.0 e))
        | inr n ↦ elim (Bool-cases (bytes_eq s (codes "admin"))) [
          | inl e ↦ inr (inl (admin.0 e))
          | inr m ↦ elim (rest.0 (ground (arith, h, n, m))) [
            | inl x ↦ inl (inr x)
            | inr x ↦ inr (inr x)
          ]
        ]
      ],
      λ h. elim h [
        | inl (inl p) ↦ rw (own.1 p) refl
        | inl (inr x) ↦ let e = rest.1 (inl x) in ground (arith, e)
        | inr (inl p) ↦ let e = admin.1 p in ground (arith, e)
        | inr (inr x) ↦ let e = rest.1 (inr x) in ground (arith, e)
      ],
    )

graphic-AreBytes : (t : Bytes) → any (λ b. not (within 33 126 b)) t ≡ false → AreBytes t
graphic-AreBytes [] h = tt
graphic-AreBytes (b ∷ t) h = (ground (arith, h), graphic-AreBytes t (ground (arith, h)))

-- What the check of a policy has found of one of its credentials.
pub record IsChecked (tokens : List Bytes) (c : Credential) : Type 0 where
  pub long : 24 ≤ length c.token
  pub bytes : AreBytes c.token
  pub fresh : any (λ t. bytes_eq t c.token) tokens ≡ false

bad_credential-IsChecked :
    (tokens : List Bytes) (c : Credential) → bad_credential tokens c ≡ false → IsChecked tokens c
unfolding bad_credential
bad_credential-IsChecked tokens c h = record {
  long = ground (arith, h);
  bytes = graphic-AreBytes c.token (ground (arith, h));
  fresh = ground (arith, h);
}

pub check_credentials-IsChecked :
    (tokens : List Bytes) (cs : List Credential) (c : Credential)
    → check_credentials tokens cs ≡ ok tt
    → Has c cs
    → IsChecked tokens c
unfolding check_credentials
check_credentials-IsChecked tokens [] c e h = absurd h
check_credentials-IsChecked tokens (d ∷ cs) c e (inl p) =
    let (good, _) = reject_if-eq-ok (bad_credential tokens d) _ _ e in
    subst (IsChecked tokens) (sym p) (bad_credential-IsChecked tokens d good)
check_credentials-IsChecked tokens (d ∷ cs) c e (inr h) =
    let (_, rest) = reject_if-eq-ok (bad_credential tokens d) _ _ e in
    let k = check_credentials-IsChecked (d.token ∷ tokens) cs c rest h in
    let newer = k.fresh in record { long = k.long; bytes = k.bytes; fresh = ground (arith, newer) }

pub find_credential-Has :
    (tokens : List Bytes) (token : Bytes) (cs : List Credential) (c : Credential)
    → check_credentials tokens cs ≡ ok tt
    → AreBytes token
    → find_credential token cs ≡ some c
    → Has c cs × (token ≡ c.token)
unfolding find_credential check_credentials
find_credential-Has tokens token [] c e b f = cc
find_credential-Has tokens token (d ∷ cs) c e b f =
    let (good, rest) = reject_if-eq-ok (bad_credential tokens d) _ _ e in
    let k = bad_credential-IsChecked tokens d good in
    elim (Bool-cases (equal token d.token)) [
      | inl own ↦
          let is : d ≡ c = ground (arith, own, f) in
          (
            inl (sym is),
            (equal_iff token d.token b k.bytes).0 own ∙ ap (λ (x : Credential). x.token) is,
          )
      | inr other ↦
          let (h, p) =
            find_credential-Has (d.token ∷ tokens) token cs c rest b (ground (arith, other, f)) in
          (inr h, p)
    ]

pub Has-find_credential :
    (tokens : List Bytes) (cs : List Credential) (c : Credential)
    → check_credentials tokens cs ≡ ok tt
    → Has c cs
    → find_credential c.token cs ≡ some c
unfolding find_credential check_credentials
Has-find_credential tokens [] c e h = absurd h
Has-find_credential tokens (d ∷ cs) c e (inl p) =
    let (good, _) = reject_if-eq-ok (bad_credential tokens d) _ _ e in
    let k = bad_credential-IsChecked tokens d good in
    subst (λ (x : Credential). find_credential x.token (d ∷ cs) ≡ some x) (sym p)
      (rw ((equal_iff d.token d.token k.bytes k.bytes).1 refl) refl)
Has-find_credential tokens (d ∷ cs) c e (inr h) =
    let (good, rest) = reject_if-eq-ok (bad_credential tokens d) _ _ e in
    let k = bad_credential-IsChecked tokens d good in
    let later = check_credentials-IsChecked (d.token ∷ tokens) cs c rest h in
    elim (Bool-cases (equal c.token d.token)) [
      | inl own ↦
          let p = (equal_iff c.token d.token later.bytes k.bytes).0 own in
          let q = (bytes_eq_iff d.token c.token).1 (sym p) in
          let newer = later.fresh in ground (arith, q, newer)
      | inr other ↦ rw other (Has-find_credential (d.token ∷ tokens) cs c rest h)
    ]
