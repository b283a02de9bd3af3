-- ===== src/Jobs.antt =====
-- crates/rip-jobs: how a staged document becomes a job. A file is what the reads of it return, in this order; SHA-256
-- and the texts of ids are parameters. Of the errors of files only a missing one is modelled.
pub mod Prefix
pub mod Publish
pub mod Whole
use rip_server.Common.{
  ℕ, ◌+◌, ◌-◌, ◌^◌, min, Bool, true, false, not, ◌&&◌, List, [], ◌∷◌, ◌++◌, Option, none, some, ltb,
  leb, ◌==◌, take, length, if◌then◌else◌, Result, ok, err, ◌>>=◌, ◌>>◌, reject_if, ok_or,
}
use rip_server.Common.Bytes.{Bytes, bytes_eq}
use rip_server.Core.Error.{ValidationError}
use rip_server.Core.Document.{Manifest, validate, detect}
use rip_server.Core.State
use rip_server.Core.Job.{Job}
use rip_server.Core.Ticket.{JobTicket, Texts, published, same_format}

-- The codes of `Invalid` are those of rip-core and four more.
pub data SubmitError : Type 0 where
  refused : ValidationError → SubmitError
  document_too_large missing_document format_mismatch source_hash_mismatch io : SubmitError

pub record Directory : Type 0 where
  pub source_part : Option (List Bytes)
  pub document : Option (List Bytes)

-- `sha2::Sha256`, `hex` with the text that `{:x}` prints.
pub record Hasher (S : Type 0) : Type 0 where
  pub new : S
  pub update : S → Bytes → S
  pub hex : S → List ℕ

-- `e.map_err(|e| SubmitError::Invalid(e.0))`
abbrev pub refuse {ℓ} : {A : Type ℓ} → Result A ValidationError → Result A SubmitError
refuse (ok a) = ok a
refuse (err e) = err (refused e)

abbrev pub max_document_bytes : ℕ
max_document_bytes = 33554432

abbrev pub checked_add : ℕ → ℕ → Option ℕ
checked_add a b = if ltb (a + b) (2 ^ 64) then some (a + b) else none

abbrev pub new_job : ℕ → Manifest → List ℕ → ℕ → Job
new_job id manifest sha256 now = record {
  id = id;
  manifest = manifest;
  state = State.queued;
  source_sha256 = sha256;
  created_at = now;
  updated_at = now;
  revision = 0;
  error_code = none;
  selected_engine = none;
  worker_run_id = none;
}

abbrev pub is_other : Option (List ℕ) → List ℕ → Bool
is_other none sha256 = false
is_other (some expected) sha256 = not (bytes_eq expected sha256)

abbrev pub renamed : Directory → Directory
renamed directory = record { source_part = none; document = directory.source_part }

abbrev pub ticket_of : Texts → Job × ℕ → Result (Job × JobTicket) SubmitError
ticket_of texts (job, size) = do ticket ← refuse (published texts job size); ok (job, ticket)

abbrev pub rename_and_publish :
    Texts
    → Directory
    → Result (Job × ℕ) SubmitError
    → Directory × Result (Job × JobTicket) SubmitError
rename_and_publish texts directory (ok sealed) = (renamed directory, ticket_of texts sealed)
rename_and_publish texts directory (err e) = (directory, err e)

module _ {S : Type 0} where
  -- The loop over the reads, with the prefix, the size and the hash so far.
  unfoldable pub read_all :
      Hasher S → List Bytes → Bytes → ℕ → S → Result (Bytes × ℕ × S) SubmitError
  read_all h [] prefix size hash = ok (prefix, size, hash)
  read_all h (chunk ∷ chunks) prefix size hash =
      if length chunk == 0 then ok (prefix, size, hash) else (do
        size' ← ok_or (checked_add size (length chunk)) document_too_large
        reject_if (ltb max_document_bytes size') document_too_large
        let keep = min (100 - length prefix) (length chunk)
        read_all h chunks (prefix ++ take keep chunk) size' (h.update hash chunk))

  -- What the file is tested for once it is read.
  abbrev pub accept :
      Hasher S → ℕ → Manifest → Option (List ℕ) → ℕ → Bytes × ℕ × S → Result (Job × ℕ) SubmitError
  accept h id manifest expected now (prefix, size, hash) = do
    reject_if (size == 0) missing_document
    detected ← refuse (detect prefix)
    reject_if (not (same_format detected manifest.format)) format_mismatch
    let job = new_job id manifest (h.hex hash) now
    reject_if (is_other expected job.source_sha256) source_hash_mismatch
    ok (job, size)

  -- `prepare_staged` until it renames the file.
  unfoldable pub seal :
      Hasher S
      → Option (List Bytes)
      → ℕ
      → Manifest
      → Option (List ℕ)
      → ℕ
      → Result (Job × ℕ) SubmitError
  seal h part id manifest expected now = do
    refuse (validate manifest)
    chunks ← ok_or part io
    found ← read_all h chunks [] 0 h.new
    accept h id manifest expected now found

  -- `prepare_staged`, with the directory that it leaves.
  unfoldable pub prepare_staged :
      Texts
      → Hasher S
      → Directory
      → ℕ
      → Manifest
      → Option (List ℕ)
      → ℕ
      → Directory × Result (Job × JobTicket) SubmitError
  prepare_staged texts h directory id manifest expected now =
      rename_and_publish texts directory (seal h directory.source_part id manifest expected now)
