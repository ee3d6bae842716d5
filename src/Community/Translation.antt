-- ===== src/Community/Translation.antt =====
-- The translation worker, handlers/community/worker.go. A claim and its end are two transactions; the
-- call of the translator stands between them, and other requests may run there. Each transaction is a
-- function from the row that it finds, if any, to an outcome and the row that it leaves: a failing Save
-- is rolled back. `reachable` says that the row is a post, or that its post is active; `saves` that
-- Save succeeds.
pub mod Laws
pub mod Outcomes
pub mod Trace
pub mod Steps
pub mod Safety
pub mod Turns
use musecat_backend_core.Prelude.{
  ℕ, ◌+◌, String, Option, none, some, Bool, true, false, not, ◌&&◌, ◌||◌, leb, ltb, ◌==◌,
  if◌then◌else◌, str_eq, Result, ok, err,
}
use musecat_backend_core.Community.Document.{
  Time, active, deleted, TranslationStatus, pending, processing, ready, failed, Document,
  SourceContent, is_active, is_processing, minute,
}

abbrev pub max_translation_attempts : ℕ
max_translation_attempts = 5

-- translationLease, 10 minutes
abbrev pub translation_lease : ℕ
translation_lease = 600_000_000_000

pub data WorkerError : Type 0 where
  reload_failed save_failed : WorkerError

-- what claimTranslation returns for a claimed row
pub record Claim : Type 0 where
  pub source : SourceContent
  pub source_hash : String
  pub attempt : ℕ

-- retryDelay
unfoldable pub retry_delay : ℕ → ℕ
retry_delay attempt =
    if attempt == 1
    then minute
    else if attempt == 2
    then 300_000_000_000
    else if attempt == 3
    then 900_000_000_000
    else 3_600_000_000_000

-- the switch of translationClaimable; `started` is not after `now` less the lease
claimable_in : TranslationStatus → Time → Time → Bool
claimable_in pending started now = true
claimable_in failed started now = true
claimable_in processing started now = not (started == 0) && leb (started + translation_lease) now
claimable_in ready started now = false

-- the row that a transaction finds
abbrev pub Row : Type 0 → Type 0
Row R = Option (Document R)

module _ {R : Type 0} where
  -- translationClaimable
  unfoldable pub translation_claimable : Document R → Time → Bool
  unfolding claimable_in
  translation_claimable doc now =
      if not (is_active doc.status) || leb max_translation_attempts doc.translation_attempts
      then false
      else if ltb now doc.translate_after
      then false
      else claimable_in doc.translation_status doc.translation_started_at now

module _ {R : Type 0} (content_hash : String → String → String) where
  -- what claimTranslation writes into a row that it claims
  unfoldable pub mark_processing : Document R → Time → Document R
  mark_processing doc now = record doc {
    translation_status = processing;
    translation_attempts = doc.translation_attempts + 1;
    translation_started_at = now;
    translation_error = "";
    original_hash = content_hash doc.title doc.body;
  }

  unfoldable pub claim_of : Document R → Claim
  claim_of doc = record {
    source = record { title = doc.title; body = doc.body };
    source_hash = content_hash doc.title doc.body;
    attempt = doc.translation_attempts + 1;
  }

  -- claimTranslation
  unfoldable pub claim_translation :
      Bool → Bool → Row R → Time → Result WorkerError (Option Claim) × Row R
  unfolding mark_processing claim_of
  claim_translation reachable saves none now = (ok none, none)
  claim_translation reachable saves (some doc) now =
      if not reachable
      then (ok none, some doc)
      else if not (translation_claimable doc now)
      then (ok none, some doc)
      else if saves
      then (ok (some (claim_of doc)), some (mark_processing doc now))
      else (err save_failed, some doc)

  -- what completeTranslation writes: the content changed during the call, or it did not
  unfoldable pub restart : Document R → Document R
  restart doc = record doc {
    translation_status = pending;
    translation_attempts = 0;
    translation_started_at = 0;
    translation_error = "source changed while translating";
  }

  unfoldable pub publish : Document R → R → Time → Document R
  publish doc result now = record doc {
    translations = some result;
    translation_status = ready;
    translation_started_at = 0;
    translated_at = now;
    translation_error = "";
  }

  -- a write that is kept if Save succeeds
  saved_if : Bool → Document R → Document R → Result WorkerError Unit × Row R
  saved_if true old new = (ok tt, some new)
  saved_if false old new = (err save_failed, some old)

  -- completeTranslation
  unfoldable pub complete_translation :
      Bool → Bool → Row R → String → ℕ → R → Time → Result WorkerError Unit × Row R
  unfolding saved_if restart publish
  complete_translation reachable saves none source_hash attempt result now =
      (err reload_failed, none)
  complete_translation reachable saves (some doc) source_hash attempt result now =
      if not reachable
      then (ok tt, some doc)
      else if not (is_active doc.status)
          || not (is_processing doc.translation_status)
          || not (doc.translation_attempts == attempt)
      then (ok tt, some doc)
      else if not (str_eq (content_hash doc.title doc.body) source_hash)
          || not (str_eq doc.original_hash source_hash)
      then saved_if saves doc (restart doc)
      else saved_if saves doc (publish doc result now)

  -- what failTranslation writes; `cause` is the error's text, trimmed and truncated
  unfoldable pub mark_failed : Document R → ℕ → Time → String → Document R
  unfolding retry_delay
  mark_failed doc attempt now cause = record doc {
    translation_status = failed;
    translation_started_at = 0;
    translation_error = cause;
    translate_after =
        (if ltb attempt max_translation_attempts
          then now + retry_delay attempt
          else doc.translate_after);
  }

  -- failTranslation
  unfoldable pub fail_translation :
      Bool → Bool → Row R → String → ℕ → Time → String → Result WorkerError Unit × Row R
  unfolding saved_if mark_failed
  fail_translation reachable saves none source_hash attempt now cause = (err reload_failed, none)
  fail_translation reachable saves (some doc) source_hash attempt now cause =
      if not reachable
      then (ok tt, some doc)
      else if not (is_active doc.status)
          || not (is_processing doc.translation_status)
          || not (doc.translation_attempts == attempt)
          || not (str_eq doc.original_hash source_hash)
      then (ok tt, some doc)
      else saved_if saves doc (mark_failed doc attempt now cause)

  after_call :
      Bool → Bool → Row R → Claim → Time → Result String R → Result WorkerError Unit × Row R
  unfolding complete_translation fail_translation
  after_call reachable saves row c now (err cause) =
      fail_translation reachable saves row c.source_hash c.attempt now cause
  after_call reachable saves row c now (ok result) =
      complete_translation reachable saves row c.source_hash c.attempt result now

  -- the end of a turn: one row is processed, or there is an error
  counted : Result WorkerError Unit × Row R → Result WorkerError ℕ × Row R
  counted (ok u, row) = (ok 1, row)
  counted (err e, row) = (err e, row)

  after_claim :
      Bool
      → Bool
      → (SourceContent → Result String R)
      → Time
      → Result WorkerError (Option Claim) × Row R
      → Result WorkerError ℕ × Row R
  unfolding after_call counted
  after_claim reachable saves translate now (err e, row) = (err e, row)
  after_claim reachable saves translate now (ok none, row) = (ok 0, row)
  after_claim reachable saves translate now (ok (some c), row) =
      counted (after_call reachable saves row c now (translate c.source))

  -- One turn of the loop of runDueCollectionTranslations with no other request in between, and how
  -- many rows it processed. `translate` is the translator, `err` with the text of its error;
  -- `reachable` and `saves` hold of both transactions.
  unfoldable pub run_candidate :
      Bool → Bool → (SourceContent → Result String R) → Row R → Time → Result WorkerError ℕ × Row R
  unfolding after_claim claim_translation
  run_candidate reachable saves translate row now =
      after_claim reachable saves translate now (claim_translation reachable saves row now)
