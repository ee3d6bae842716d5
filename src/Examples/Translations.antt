-- ===== src/Examples/Translations.antt =====
-- The life of one post: created, claimed, and translated.
use musecat_backend_core.Prelude.{
  ◌+◌, ◌<◌, String, none, some, [], ◌∷◌, Bool, true, ◌≡◌, refl, arith, ok, inl,
}
use musecat_backend_core.Prelude.Text.{concat}
use musecat_backend_core.Community.Document.{
  Time, Document, SourceContent, active, failed, ready, pending, processing,
}
use musecat_backend_core.Community.Edits.{
  PostInput, CommentInput, new_post, update_post, update_comment,
}
use musecat_backend_core.Community.Translation.{
  Claim, claim_of, mark_processing, mark_failed, publish, claim_translation, complete_translation,
  fail_translation, run_candidate, translation_claimable, retry_delay,
}
use musecat_backend_core.Community.Translation.Laws.{IsSound}
use musecat_backend_core.Community.Translation.Trace.{
  Flight, claims, completes, Reached, posted, later,
}
use musecat_backend_core.Community.Translation.Safety.{Reached-IsSound, claimed_row_is_closed}
use musecat_backend_core.Community.Translation.Turns.{
  claim_excludes, failure_delays, run_candidate_publishes,
}

-- a hash that keeps the text, and a translator that returns the text's body
abbrev pub hash : String → String → String
hash title body = concat title (concat "/" body)

abbrev pub Translates : SourceContent → String → Type 0
Translates s r = s.body ≡ r

abbrev input : PostInput
input = record { game_series = "iidx"; title = "hello"; body = "annyeong"; flair = ""; photos = [] }

-- created at 100, so editable until 300 seconds later
abbrev draft : Document String
draft = record {
  author = "u1";
  game_series = "iidx";
  title = "hello";
  body = "annyeong";
  flair = "";
  photos = [];
  status = active;
  editable_until = 300_000_000_100;
  edited_at = 0;
  translate_after = 300_000_000_100;
  translation_status = pending;
  translation_attempts = 0;
  translation_started_at = 0;
  translated_at = 0;
  translation_error = "";
  original_hash = hash "hello" "annyeong";
  translations = none;
}

abbrev due : Time
due = 300_000_000_200

abbrev claimed : Document String
claimed = record draft {
  translation_status = processing;
  translation_attempts = 1;
  translation_started_at = due;
}

abbrev claim : Claim
claim = record {
  source = record { title = "hello"; body = "annyeong" };
  source_hash = hash "hello" "annyeong";
  attempt = 1;
}

abbrev flight : Flight
flight = record { claim = claim; now = due }

claims_draft : claim_translation hash true true (some draft) due ≡ (ok (some claim), some claimed)
unfolding claim_translation translation_claimable mark_processing claim_of
claims_draft = refl

start : Reached hash Translates (record { doc = draft; flights = [] })
unfolding new_post
start = posted _ "u1" input 100 refl refl

flying : Reached hash Translates (record { doc = claimed; flights = flight ∷ [] })
flying = later _ _ start (claims true true due claim claims_draft refl)

abbrev shown : Document String
shown = record claimed {
  translation_status = ready;
  translation_started_at = 0;
  translated_at = due;
  translations = some "annyeong";
}

completes_claimed :
    (complete_translation hash true true
      (some claimed)
      (hash "hello" "annyeong")
      1
      "annyeong"
      due).1
    ≡ some shown
unfolding complete_translation publish concat
completes_claimed = refl

landed : Reached hash Translates (record { doc = shown; flights = [] })
landed =
    later _ _ flying (completes true true flight [] [] "annyeong" refl refl refl completes_claimed)

Reached-IsSound_example : IsSound hash Translates shown
Reached-IsSound_example =
    Reached-IsSound hash Translates (record { doc = shown; flights = [] }) landed

claimed_row_is_closed_example :
    ((saves : Bool) (user : String) (input : PostInput)
      → (update_post hash saves user input 300_000_000_201 (some claimed)).1 ≡ some claimed)
    × ((reachable saves : Bool) (user : String) (input : CommentInput)
        → (update_comment hash reachable saves user input 300_000_000_201 (some claimed)).1
          ≡ some claimed)
claimed_row_is_closed_example =
    claimed_row_is_closed hash Translates (record { doc = claimed; flights = flight ∷ [] }) flight
      [] [] flying refl 300_000_000_201 (ground arith)

claim_excludes_example :
    claim_translation hash true true (some claimed) 300_000_000_300 ≡ (ok none, some claimed)
claim_excludes_example =
    claim_excludes hash true true draft claimed due claim claims_draft true true 300_000_000_300
      (ground arith)

abbrev broken : Document String
broken = record claimed {
  translation_status = failed;
  translation_started_at = 0;
  translation_error = "timeout";
  translate_after = 360_000_000_200;
}

fails_claimed :
    (fail_translation hash true true (some claimed) (hash "hello" "annyeong") 1 due "timeout").1
    ≡ some broken
unfolding fail_translation mark_failed retry_delay concat
fails_claimed = refl

early : 360_000_000_199 < due + retry_delay 1
unfolding retry_delay
early = ground arith

failure_delays_example :
    claim_translation hash true true (some broken) 360_000_000_199 ≡ (ok none, some broken)
failure_delays_example =
    failure_delays hash true true claimed broken (hash "hello" "annyeong") 1 due "timeout" refl
      fails_claimed refl true true 360_000_000_199 (inl early)

can_be_claimed : translation_claimable draft due ≡ true
unfolding translation_claimable
can_be_claimed = refl

run_candidate_publishes_example :
    run_candidate hash true true (λ s. ok s.body) (some draft) due ≡ (ok 1, some shown)
run_candidate_publishes_example =
    run_candidate_publishes hash (λ s. ok s.body) draft due "annyeong" can_be_claimed refl
