-- ===== src/Jobs/Whole.antt =====
-- crates/rip-jobs: `prepare_staged` against what it should do with the whole document.
use rip_server.Common.{
  ℕ, ◌≤◌, ◌<◌, ◌≡◌, ◌≢◌, refl, ap, ◌∙◌, true, not, List, [], Option, some, ltb, ◌==◌, length, inl,
  inr, All, Bool-cases, Result-cases, ltb→le, Result, ok, err, ◌>>=◌, ◌>>◌, reject_if, arith,
}
use rip_server.Common.Bytes.{Bytes}
use rip_server.Core.Error.{}
use rip_server.Core.Document.{EngineKind, Manifest, validate, resolve, detect}
use rip_server.Core.Document.Detect.{detect-take}
use rip_server.Core.Job.{Job}
use rip_server.Core.Ticket.{JobTicket, Texts, same_format, valid_digest, new_ticket, source_of}
use rip_server.Jobs.{
  SubmitError, document_too_large, missing_document, format_mismatch, source_hash_mismatch,
  Directory, Hasher, refuse, new_job, is_other, accept, seal, renamed, ticket_of,
  rename_and_publish, prepare_staged,
}
use rip_server.Jobs.Prefix.{concat, IsStreaming, read_whole, read_all-concat}
use rip_server.Jobs.Publish.{IsIdText, published-ok}

-- The job of a whole document.
abbrev pub job_of : {S : Type 0} → Hasher S → Bytes → ℕ → Manifest → ℕ → Job
job_of h whole id manifest now = new_job id manifest (h.hex (h.update h.new whole)) now

-- What is to become of a document: the first fault that it has, or its job with the ticket that states its size and
-- its hash.
abbrev pub judged :
    {S : Type 0}
    → Texts
    → Hasher S
    → Bytes
    → ℕ
    → Manifest
    → Option (List ℕ)
    → ℕ
    → Result (Job × JobTicket) SubmitError
judged texts h whole id manifest expected now = do
  refuse (validate manifest)
  reject_if (ltb 33554432 (length whole)) document_too_large
  reject_if (length whole == 0) missing_document
  format ← refuse (detect whole)
  reject_if (not (same_format format manifest.format)) format_mismatch
  reject_if (is_other expected (h.hex (h.update h.new whole))) source_hash_mismatch
  engine ← refuse (resolve manifest.engine manifest.format)
  let job = job_of h whole id manifest now
  ok (job, new_ticket (source_of texts job (length whole)) manifest (some id) engine)

-- A document that is refused stays where it is, and one that is taken is sealed.
abbrev pub settled : Directory → Result (Job × JobTicket) SubmitError → Directory
settled directory (ok taken) = renamed directory
settled directory (err e) = directory

module _ {S : Type 0} (texts : Texts) (h : Hasher S) where
  -- Where the document is taken, the ticket is made.
  taken :
      (directory : Directory) (whole : Bytes) (id : ℕ) (manifest : Manifest) (now : ℕ)
      → ((s : S) → valid_digest (h.hex s) ≡ true)
      → IsIdText (texts.uuid id)
      → validate manifest ≡ ok tt
      → 0 < length whole
      → length whole ≤ 33554432
      → (engine : EngineKind) × (resolve manifest.engine manifest.format ≡ ok engine)
        × (ticket_of texts (job_of h whole id manifest now, length whole)
            ≡ ok (
              job_of h whole id manifest now,
              new_ticket
                  (source_of texts (job_of h whole id manifest now) (length whole))
                  manifest
                  (some id)
                  engine,
            ))
  taken directory whole id manifest now digests ids valid some_bytes few_bytes =
      let job = job_of h whole id manifest now in
      let (engine, resolved, made) =
        published-ok texts job (length whole) ids valid (digests (h.update h.new whole)) some_bytes
          few_bytes in
      (engine, resolved, rw made refl)

  seal-judged :
      (directory : Directory) (whole : Bytes) (id : ℕ) (manifest : Manifest)
      (expected : Option (List ℕ)) (now : ℕ)
      → ((s : S) → valid_digest (h.hex s) ≡ true)
      → IsIdText (texts.uuid id)
      → rename_and_publish texts directory
          (refuse (validate manifest) >> (read_whole h whole >>= accept h id manifest expected now))
        ≡ (
          settled directory (judged texts h whole id manifest expected now),
          judged texts h whole id manifest expected now,
        )
  seal-judged directory whole id manifest expected now digests ids =
      elim (Result-cases (validate manifest)) [
        | inr (e, invalid) ↦ rw invalid refl
        | inl (_, valid) ↦ elim (Bool-cases (ltb 33554432 (length whole))) [
          | inl large ↦ rw (valid, large) refl
          | inr small ↦ elim (Bool-cases (length whole == 0)) [
            | inl nothing ↦ rw (valid, small, nothing) refl
            | inr something ↦ elim (Result-cases (detect whole)) [
              | inr (e, unknown) ↦ rw (valid, small, something, detect-take whole, unknown) refl
              | inl (format, detected) ↦ elim (Bool-cases (same_format format manifest.format)) [
                | inr other ↦ rw (valid, small, something, detect-take whole, detected, other) refl
                | inl own ↦ elim (Bool-cases (is_other expected (h.hex (h.update h.new whole)))) [
                  | inl changed ↦
                      rw (valid, small, something, detect-take whole, detected, own, changed) refl
                  | inr expected_hash ↦
                      let (engine, resolved, made) =
                        taken directory whole id manifest now digests ids valid
                          (ground (arith, something)) (ltb→le 33554432 (length whole) small) in
                      rw
                        (
                          valid,
                          small,
                          something,
                          detect-take whole,
                          detected,
                          own,
                          expected_hash,
                          resolved,
                          made,
                        )
                        refl
                ]
              ]
            ]
          ]
        ]
      ]

-- However the reads of a staged document cut it into pieces, `prepare_staged` judges it as a whole: it is refused with the
-- first of the faults in the manifest, the size, the format or the expected hash, and stays where it is; or it is
-- renamed, and the job carries the hash of the whole document and gets a ticket with its size, whose check
-- never fails. The conditions: the hash of pieces is the hash of the whole, the text of a hash is a digest, the
-- text of the id is 36 hexadecimal digits and hyphens, and no read returns nothing before the end.
pub prepare_staged-judged :
    {S : Type 0} (texts : Texts) (h : Hasher S) (chunks : List Bytes)
    (document : Option (List Bytes)) (id : ℕ) (manifest : Manifest) (expected : Option (List ℕ))
    (now : ℕ)
    → IsStreaming h
    → All (λ c. c ≢ []) chunks
    → ((s : S) → valid_digest (h.hex s) ≡ true)
    → IsIdText (texts.uuid id)
    → prepare_staged texts h
        (record { source_part = some chunks; document = document })
        id
        manifest
        expected
        now
      ≡ (
        settled
            (record { source_part = some chunks; document = document })
            (judged texts h (concat chunks) id manifest expected now),
        judged texts h (concat chunks) id manifest expected now,
      )
unfolding prepare_staged seal
prepare_staged-judged {S} texts h chunks document id manifest expected now streaming full digests
      ids =
    ap
      (λ (r : Result (Bytes × ℕ × S) SubmitError).
        rename_and_publish texts (record { source_part = some chunks; document = document })
          (refuse (validate manifest) >> (r >>= accept h id manifest expected now)))
      (read_all-concat h streaming chunks full)
    ∙ seal-judged texts h (record { source_part = some chunks; document = document })
        (concat chunks) id manifest expected now digests ids
