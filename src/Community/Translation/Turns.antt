-- ===== src/Community/Translation/Turns.antt =====
-- What a claim, a failure and a whole turn of the worker do.
use musecat_backend_core.Prelude.{
  ℕ, ◌+◌, ◌≤◌, ◌<◌, String, none, some, Bool, true, false, eq_refl, Result, ok, ◌≡◌, arith, ◌⊎◌,
}
use musecat_backend_core.Community.Document.{
  Time, Document, SourceContent, failed, is_active, is_processing, ready,
}
use musecat_backend_core.Community.Translation.{
  max_translation_attempts, translation_lease, retry_delay, Claim, translation_claimable,
  mark_processing, claim_translation, mark_failed, fail_translation, run_candidate,
}
use musecat_backend_core.Community.Translation.Outcomes.{claim-eq-some}

module _ {R : Type 0} (content_hash : String → String → String) where
  leased :
      (doc : Document R) (t t' : Time)
      → t' < t + translation_lease
      → translation_claimable (mark_processing content_hash doc t) t' ≡ false
  unfolding translation_claimable mark_processing
  leased doc t t' soon = ground arith

  -- After a worker has claimed a row at a time t, no other run with a clock before the end of t's
  -- lease of 10 minutes claims it, and such a run leaves the row as it is.
  pub claim_excludes :
      (reachable saves : Bool) (doc doc' : Document R) (t : Time) (c : Claim)
      → claim_translation content_hash reachable saves (some doc) t ≡ (ok (some c), some doc')
      → (reachable' saves' : Bool) (t' : Time) → t' < t + translation_lease
      → claim_translation content_hash reachable' saves' (some doc') t' ≡ (ok none, some doc')
  unfolding claim_translation
  claim_excludes reachable saves doc doc' t c h reachable' saves' t' soon =
      let (_, _, marked) = claim-eq-some content_hash reachable saves doc doc' t c h in
      let held = leased doc t t' soon in ground arith

  -- After a worker has recorded the failure of an attempt at a time t, no run claims the row before
  -- t plus the delay for that attempt; after the fifth attempt no run claims it at all.
  pub failure_delays :
      (reachable saves : Bool) (doc doc' : Document R) (source_hash : String) (attempt : ℕ)
      (t : Time) (cause : String)
      → is_processing doc.translation_status ≡ true
      → (fail_translation content_hash reachable saves (some doc) source_hash attempt t cause).1
        ≡ some doc'
      → doc'.translation_status ≡ failed
      → (reachable' saves' : Bool) (t' : Time)
      → (t' < t + retry_delay attempt) ⊎ (max_translation_attempts ≤ attempt)
      → claim_translation content_hash reachable' saves' (some doc') t' ≡ (ok none, some doc')
  unfolding claim_translation fail_translation mark_failed translation_claimable
  failure_delays reachable saves doc doc' source_hash attempt t cause p h f reachable' saves' t'
        early =
      ground arith

  due_active :
      (doc : Document R) (now : Time)
      → translation_claimable doc now ≡ true
      → is_active doc.status ≡ true
  unfolding translation_claimable
  due_active doc now due = ground arith

  -- A turn of the worker on a row that is due, with a reachable post, working saves and a translator
  -- that answers, makes the row ready with that answer and counts one row.
  pub run_candidate_publishes :
      (translate : SourceContent → Result String R) (doc : Document R) (now : Time) (r : R)
      → translation_claimable doc now ≡ true
      → translate (record { title = doc.title; body = doc.body }) ≡ ok r
      → run_candidate content_hash true true translate (some doc) now ≡ (
        ok 1,
        some (record doc {
          translation_status = ready;
          translation_attempts = doc.translation_attempts + 1;
          translation_started_at = 0;
          translated_at = now;
          translation_error = "";
          original_hash = content_hash doc.title doc.body;
          translations = some r;
        }),
      )
  unfolding run_candidate
  run_candidate_publishes translate doc now r due answered =
      let hash = content_hash doc.title doc.body in
      let alive = due_active doc now due in rw (due, answered, alive) (ground (arith, eq_refl hash))
