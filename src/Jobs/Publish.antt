-- ===== src/Jobs/Publish.antt =====
-- crates/rip-core/src/print.rs: a job that the server has sealed gets its ticket.
use rip_server.Common.{
  ℕ, ◌≤◌, ◌<◌, ◌≡◌, refl, ◌∙◌, Bool, true, false, not, ◌&&◌, ◌||◌, List, [], ◌∷◌, ◌++◌, some, ltb,
  ◌==◌, any, all, length, length-append, within, ==_iff, Result, ok, ◌>>=◌, ◌>>◌, >>=-eq-ok,
  reject_if, arith,
}
use rip_server.Common.Bytes.{codes, bytes_eq, bytes_eq_iff}
use rip_server.Core.Error.{ValidationError}
use rip_server.Core.Document.{
  DocumentFormat, pdf, postscript, eps, EngineKind, mu_pdf, ghostscript, resolve, validate,
  utf8_len, char_len, is_control,
}
use rip_server.Core.Pages.Label.{label}
use rip_server.Core.Job.{Job}
use rip_server.Core.Ticket.{
  JobTicket, Texts, same_format, same_engine, bad_version, bad_source, bad_reference, bad_evidence,
  bad_setting, bad_output, valid_digest, validate_raster, new_ticket, published, source_of,
  source_uri, valid_https_reference,
}
use rip_server.Core.Ticket.Exact.{build-ok}

-- A text of the hexadecimal digits and hyphens of an id.
abbrev is_plain : ℕ → Bool
is_plain c = within 45 126 c

abbrev pub IsIdText : List ℕ → Type 0
IsIdText text =
    (length text ≡ 36)
    × (all (λ c. within b'0' b'9' c || within b'a' b'f' c || c == b'-') text ≡ true)

plain_size : (text : List ℕ) → all is_plain text ≡ true → utf8_len text ≡ length text
unfolding utf8_len char_len
plain_size [] e = refl
plain_size (c ∷ text) e = ground (arith, e, plain_size text)

plain_quiet : (text : List ℕ) → all is_plain text ≡ true → any is_control text ≡ false
unfolding is_control
plain_quiet [] e = refl
plain_quiet (c ∷ text) e = ground (arith, e, plain_quiet text)

plain_id :
    (text : List ℕ)
    → all (λ c. within b'0' b'9' c || within b'a' b'f' c || c == b'-') text ≡ true
    → all is_plain text ≡ true
plain_id [] e = refl
plain_id (c ∷ text) e = ground (arith, e, plain_id text)

all-append : (p : ℕ → Bool) (a b : List ℕ) → all p (a ++ b) ≡ (all p a && all p b)
all-append p [] b = refl
all-append p (x ∷ a) b = ground (arith, all-append p a b)

plain_uri :
    (texts : Texts) (id : ℕ) → IsIdText (texts.uuid id) → all is_plain (source_uri texts id) ≡ true
plain_uri texts id h =
    all-append is_plain (codes "jrip://jobs/") (texts.uuid id ++ codes "/source")
    ∙ all-append is_plain (texts.uuid id) (codes "/source")
    ∙ rw (plain_id (texts.uuid id) h.1) refl

uri_size : (texts : Texts) (id : ℕ) → IsIdText (texts.uuid id) → length (source_uri texts id) ≡ 55
uri_size texts id h = omega (
  arith,
  length-append (codes "jrip://jobs/") (texts.uuid id ++ codes "/source"),
  length-append (texts.uuid id) (codes "/source"),
  h.0,
)

same_format_refl : (f : DocumentFormat) → same_format f f ≡ true
same_format_refl pdf = refl
same_format_refl postscript = refl
same_format_refl eps = refl

same_engine_refl : (e : EngineKind) → same_engine e e ≡ true
same_engine_refl mu_pdf = refl
same_engine_refl ghostscript = refl

no_fault :
    (large control https published same : Bool)
    → large ≡ false
    → control ≡ false
    → published ≡ true
    → same ≡ true
    → (large || control || not https && not published || not same) ≡ false
no_fault large control https published same a b c d = ground (arith, a, b, c, d)

pass :
    (test : Bool) (e : ValidationError) (m : Result (Unit {0}) ValidationError)
    → test ≡ false
    → m ≡ ok tt
    → (reject_if test e >> m) ≡ ok tt
pass test e m clear rest = rw clear rest

bind-ok :
    {A : Type 0} (step : Result A ValidationError) (next : A → Result (Unit {0}) ValidationError)
    (a : A)
    → step ≡ ok a
    → next a ≡ ok tt
    → (step >>= next) ≡ ok tt
bind-ok step next a found rest = rw found rest

same_text : (t : List ℕ) → bytes_eq t t ≡ true
same_text t = (bytes_eq_iff t t).1 refl

module _ (texts : Texts) (job : Job) (bytes : ℕ) (engine : EngineKind)
    (ids : IsIdText (texts.uuid job.id)) where
  abbrev ticket : JobTicket
  ticket = new_ticket (source_of texts job bytes) job.manifest (some job.id) engine

  version_passes : bad_version ticket ≡ false
  unfolding bad_version new_ticket bytes_eq
  version_passes = refl

  reference_passes : bad_reference texts ticket ≡ false
  unfolding bad_reference new_ticket
  reference_passes =
      let plain = plain_uri texts job.id ids in
      let size = plain_size (source_uri texts job.id) plain ∙ uri_size texts job.id ids in
      no_fault (ltb 2048 (utf8_len (source_uri texts job.id)))
        (any is_control (source_uri texts job.id))
        (valid_https_reference texts (source_uri texts job.id))
        (bytes_eq (source_uri texts job.id) (source_uri texts job.id)) (job.id == job.id)
        (rw size refl) (plain_quiet (source_uri texts job.id) plain)
        (same_text (source_uri texts job.id)) ((==_iff job.id job.id).1 refl)

  setting_passes : bad_setting ticket ≡ false
  unfolding bad_setting new_ticket
  setting_passes =
      rw
        (
          same_text (codes "one-sided"),
          same_text (label job.manifest.page_ranges),
          same_text (codes "none"),
          same_text (codes "standard"),
        )
        refl

  output_passes : bad_output ticket ≡ false
  unfolding bad_output new_ticket bytes_eq
  output_passes = refl

  evidence_passes : bad_evidence ticket ≡ false
  unfolding bad_evidence new_ticket
  evidence_passes = refl

  source_passes :
      valid_digest job.source_sha256 ≡ true
      → 0 < bytes
      → bytes ≤ 33554432
      → bad_source (source_of texts job bytes) ≡ false
  unfolding bad_source
  source_passes hashed some_bytes few_bytes = rw hashed (ground (arith, some_bytes, few_bytes))

  validate_raster-passes :
      validate job.manifest ≡ ok tt
      → resolve job.manifest.engine job.manifest.format ≡ ok engine
      → valid_digest job.source_sha256 ≡ true
      → 0 < bytes
      → bytes ≤ 33554432
      → validate_raster texts ticket ≡ ok tt
  unfolding validate_raster validate new_ticket
  validate_raster-passes valid resolved hashed some_bytes few_bytes =
      bind-ok (validate job.manifest) _ tt valid (
        pass (bad_version ticket) _ _ version_passes (
          pass (not (same_format job.manifest.format job.manifest.format)) _ _
            (rw (same_format_refl job.manifest.format) refl)
            (bind-ok (resolve job.manifest.engine job.manifest.format) _ engine resolved (
              pass (not (same_engine engine engine)) _ _ (rw (same_engine_refl engine) refl) (
                pass (bad_source (source_of texts job bytes)) _ _
                  (source_passes hashed some_bytes few_bytes)
                  (pass (bad_reference texts ticket) _ _ reference_passes (
                    pass (bad_evidence ticket) _ _ evidence_passes (
                      pass (bad_setting ticket) _ _ setting_passes
                        (pass (bad_output ticket) _ _ output_passes refl)))))))))

-- A job whose manifest is valid, whose hash is a digest and whose document is not empty nor too large gets its
-- ticket.
pub published-ok :
    (texts : Texts) (job : Job) (bytes : ℕ)
    → IsIdText (texts.uuid job.id)
    → validate job.manifest ≡ ok tt
    → valid_digest job.source_sha256 ≡ true
    → 0 < bytes
    → bytes ≤ 33554432
    → (engine : EngineKind) × (resolve job.manifest.engine job.manifest.format ≡ ok engine)
      × (published texts job bytes
          ≡ ok (new_ticket (source_of texts job bytes) job.manifest (some job.id) engine))
unfolding published validate
published-ok texts job bytes ids valid hashed some_bytes few_bytes =
    let (engine, resolved, _) =
      >>=-eq-ok (resolve job.manifest.engine job.manifest.format) _ valid in
    (
      engine,
      resolved,
      build-ok texts (source_of texts job bytes) job.manifest (some job.id) engine resolved (
          validate_raster-passes texts job bytes engine ids valid resolved hashed some_bytes
            few_bytes),
    )
