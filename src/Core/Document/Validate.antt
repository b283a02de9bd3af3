-- ===== src/Core/Document/Validate.antt =====
-- `Manifest::validate` accepts exactly the manifests that the server can run.
use mathlib.Core.List.{Memᴰ}
use mathlib.Core.List.Memᴰ.{head, tail}
use rip_server.Common.{
  ℕ, ◌+◌, ◌/◌, ◌%◌, ◌≤◌, ◌≡◌, refl, sym, ap, ◌∙◌, ◌⊎◌, inl, inr, ◌↔◌, true, false, List, [], ◌∷◌,
  ◌++◌, ok, ltb, if◌then◌else◌, all, any, Bool, length, length-append, Bool-cases, arith,
}
use rip_server.Core.Document.{
  pdf, EnginePreference, Manifest, resolve, bad_name, validate, is_whitespace, is_control, utf8_len,
  char_len,
}
use rip_server.Core.Pages.Render

-- The white space of Unicode.
abbrev white_space : List ℕ
white_space =
    0x9 ∷ 0xa ∷ 0xb ∷ 0xc ∷ 0xd ∷ 0x20 ∷ 0x85 ∷ 0xa0 ∷ 0x1680 ∷ 0x2000 ∷ 0x2001 ∷ 0x2002 ∷ 0x2003
    ∷ 0x2004 ∷ 0x2005 ∷ 0x2006 ∷ 0x2007 ∷ 0x2008 ∷ 0x2009 ∷ 0x200a ∷ 0x2028 ∷ 0x2029 ∷ 0x202f
    ∷ 0x205f ∷ 0x3000 ∷ []

-- A number is one of the list.
abbrev IsOneOf : ℕ → List ℕ → Type 0
IsOneOf c [] = ⊥
IsOneOf c (x ∷ xs) = (c ≡ x) ⊎ IsOneOf c xs

-- A code point stands for no control: it is not below the space, nor from the delete sign to 0x9f.
abbrev IsPrinting : ℕ → Type 0
IsPrinting c = ((0x20 ≤ c) × (c ≤ 0x7e)) ⊎ (0xa0 ≤ c)

-- The bytes of a code point in UTF-8.
abbrev encode : ℕ → List ℕ
encode c =
    if ltb c 0x80
    then c ∷ []
    else if ltb c 0x800
    then (0xc0 + c / 0x40) ∷ (0x80 + c % 0x40) ∷ []
    else if ltb c 0x10000
    then (0xe0 + c / 0x1000) ∷ (0x80 + c / 0x40 % 0x40) ∷ (0x80 + c % 0x40) ∷ []
    else (0xf0 + c / 0x40000)
      ∷ (0x80 + c / 0x1000 % 0x40)
      ∷ (0x80 + c / 0x40 % 0x40)
      ∷ (0x80 + c % 0x40)
      ∷ []

abbrev encode_all : List ℕ → List ℕ
encode_all [] = []
encode_all (c ∷ cs) = encode c ++ encode_all cs

-- A name with something to see in it, of at most 255 bytes, and without control characters.
pub record IsName (name : List ℕ) : Type 0 where
  pub visible : ℕ
  pub within_name : Memᴰ visible name
  pub not_blank : ¬ IsOneOf visible white_space
  pub short : length (encode_all name) ≤ 255
  pub printing : (c : ℕ) → Memᴰ c name → IsPrinting c

whitespace-of-IsOneOf :
    (c : ℕ) (xs : List ℕ) → all is_whitespace xs ≡ true → IsOneOf c xs → is_whitespace c ≡ true
whitespace-of-IsOneOf c [] h i = absurd i
whitespace-of-IsOneOf c (x ∷ xs) h (inl e) = ap is_whitespace e ∙ ground (arith, h)
whitespace-of-IsOneOf c (x ∷ xs) h (inr i) = whitespace-of-IsOneOf c xs (ground (arith, h)) i

IsOneOf-of-whitespace : (c : ℕ) → is_whitespace c ≡ true → IsOneOf c white_space
unfolding is_whitespace
IsOneOf-of-whitespace c h = ground (arith, h)

not_whitespace_iff : (c : ℕ) → (is_whitespace c ≡ false) ↔ (¬ IsOneOf c white_space)
not_whitespace_iff c = (
  λ e i. ground (arith, e, whitespace-of-IsOneOf c white_space (unfold is_whitespace in refl) i),
  λ n. elim (Bool-cases (is_whitespace c)) [
    | inl e ↦ absurd (n (IsOneOf-of-whitespace c e))
    | inr e ↦ e
  ],
)

control_iff : (c : ℕ) → (is_control c ≡ false) ↔ IsPrinting c
unfolding is_control
control_iff c = ground arith

length-encode : (c : ℕ) → length (encode c) ≡ char_len c
unfolding char_len
length-encode c = ground arith

length-encode_all : (name : List ℕ) → length (encode_all name) ≡ utf8_len name
unfolding utf8_len
length-encode_all [] = refl
length-encode_all (c ∷ cs) =
    omega (arith, length-append (encode c) (encode_all cs), length-encode c, length-encode_all cs)

-- A list of which not every element passes a test has one that does not.
all-false {ℓ} :
    {A : Type ℓ} (p : A → Bool) (xs : List A)
    → all p xs ≡ false
    → (x : A) × Memᴰ x xs × (p x ≡ false)
all-false p [] h = cc
all-false p (x ∷ xs) h = elim (Bool-cases (p x)) [
  | inl passes ↦
      let (y, m, fails) = all-false p xs (ground (arith, passes, h)) in (y, tail m, fails)
  | inr fails ↦ (x, head refl, fails)
]

all-Mem {ℓ} :
    {A : Type ℓ} (p : A → Bool) (x : A) (xs : List A) → Memᴰ x xs → p x ≡ false → all p xs ≡ false
all-Mem p x [] m h = elim m [ ]
all-Mem p x (y ∷ ys) (head e) h = ground (arith, ap p (sym e) ∙ h)
all-Mem p x (y ∷ ys) (tail m) h = ground (arith, all-Mem p x ys m h)

any-false {ℓ} :
    {A : Type ℓ} (p : A → Bool) (xs : List A) → any p xs ≡ false → (x : A) → Memᴰ x xs → p x ≡ false
any-false p [] h x m = elim m [ ]
any-false p (y ∷ ys) h x (head e) = ap p e ∙ ground (arith, h)
any-false p (y ∷ ys) h x (tail m) = any-false p ys (ground (arith, h)) x m

any-of-false {ℓ} :
    {A : Type ℓ} (p : A → Bool) (xs : List A)
    → ((x : A) → Memᴰ x xs → p x ≡ false)
    → any p xs ≡ false
any-of-false p [] h = refl
any-of-false p (x ∷ xs) h = ground (arith, h x (head refl), any-of-false p xs (λ y m. h y (tail m)))

IsName-of-named : (name : List ℕ) → bad_name name ≡ false → IsName name
unfolding bad_name
IsName-of-named name e =
    let (c, m, seen) = all-false is_whitespace name (ground (arith, e)) in
    record {
      visible = c;
      within_name = m;
      not_blank = (not_whitespace_iff c).0 seen;
      short = ground (arith, length-encode_all name, e);
      printing = λ x i. (control_iff x).0 (any-false is_control name (ground (arith, e)) x i);
    }

named-of-IsName : (name : List ℕ) → IsName name → bad_name name ≡ false
unfolding bad_name
named-of-IsName name h = ground (
  arith,
  all-Mem is_whitespace h.visible name h.within_name ((not_whitespace_iff h.visible).1 h.not_blank),
  length-encode_all name,
  h.short,
  any-of-false is_control name (λ x m. (control_iff x).1 (h.printing x m)),
)

-- The engine can render the format, a selection of pages comes with a PDF, and the other fields are
-- in range.
pub record IsRunnable (m : Manifest) : Type 0 where
  pub engine_fits : (m.engine ≡ EnginePreference.mu_pdf) → m.format ≡ pdf
  pub selects_pdf : Render.is_all m.page_ranges ≡ false → m.format ≡ pdf
  pub named : IsName m.name
  pub dpi_low : 72 ≤ m.dpi
  pub dpi_high : m.dpi ≤ 2400
  pub priority_high : m.priority ≤ 100

IsRunnable-of-validate : (m : Manifest) → validate m ≡ ok tt → IsRunnable m
unfolding validate resolve
IsRunnable-of-validate m e = record {
  engine_fits = ground arith;
  selects_pdf = ground arith;
  named = IsName-of-named m.name (ground arith);
  dpi_low = ground arith;
  dpi_high = ground arith;
  priority_high = ground arith;
}

-- `validate` accepts a manifest exactly when its engine fits its format, only a PDF has a
-- selection of pages, its name has a character that is not white space, takes at most 255 bytes
-- in UTF-8 and has no control character, its dpi is 72 to 2400 and its priority at most 100.
pub validate_iff : (m : Manifest) → (validate m ≡ ok tt) ↔ IsRunnable m
unfolding validate resolve
validate_iff m = (IsRunnable-of-validate m, λ h. ground (arith, named-of-IsName m.name h.named))
