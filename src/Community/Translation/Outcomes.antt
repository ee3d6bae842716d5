-- ===== src/Community/Translation/Outcomes.antt =====
-- The rows that the transactions of a translated row can leave.
use musecat_backend_core.Prelude.{
  ℕ, ◌<◌, String, some, Bool, true, eq_iff, ok, ◌≡◌, ◌⊎◌, inl, inr, Bool-cases, arith,
}
use musecat_backend_core.Community.Document.{Time, Document}
use musecat_backend_core.Community.Translation.{
  Claim, translation_claimable, mark_processing, claim_of, claim_translation, restart, publish,
  complete_translation, mark_failed, fail_translation,
}
use musecat_backend_core.Community.Edits.{
  PostInput, CommentInput, rewrite_post, update_post, hide_post, delete_post, erase_comment,
  delete_comment, rewrite_comment, update_comment, kept_photos,
}

module _ {R : Type 0} (content_hash : String → String → String) where
  pub claim-cases :
      (reachable saves : Bool) (doc doc' : Document R) (now : Time)
      → (claim_translation content_hash reachable saves (some doc) now).1 ≡ some doc'
      → (doc ≡ doc')
        ⊎ ((translation_claimable doc now ≡ true) × (mark_processing content_hash doc now ≡ doc'))
  unfolding claim_translation
  claim-cases reachable saves doc doc' now h = elim (Bool-cases (translation_claimable doc now)) [
    | inl c ↦ ground arith
    | inr c ↦ ground arith
  ]

  -- a claim that was handed out
  pub claim-eq-some :
      (reachable saves : Bool) (doc doc' : Document R) (now : Time) (c : Claim)
      → claim_translation content_hash reachable saves (some doc) now ≡ (ok (some c), some doc')
      → (translation_claimable doc now ≡ true)
        × (claim_of content_hash doc ≡ c)
        × (mark_processing content_hash doc now ≡ doc')
  unfolding claim_translation
  claim-eq-some reachable saves doc doc' now c h = (ground arith, ground arith, ground arith)

  pub complete-cases :
      (reachable saves : Bool) (doc doc' : Document R) (source_hash : String) (attempt : ℕ) (r : R)
      (now : Time)
      → (complete_translation content_hash reachable saves (some doc) source_hash attempt r now).1
        ≡ some doc'
      → (doc ≡ doc')
        ⊎ ((restart content_hash doc ≡ doc')
            ⊎ ((content_hash doc.title doc.body ≡ source_hash)
                × (publish content_hash doc r now ≡ doc')))
  unfolding complete_translation
  complete-cases reachable saves doc doc' source_hash attempt r now h =
      ground (arith, eq_iff (content_hash doc.title doc.body) source_hash)

  pub fail-cases :
      (reachable saves : Bool) (doc doc' : Document R) (source_hash : String) (attempt : ℕ)
      (now : Time) (cause : String)
      → (fail_translation content_hash reachable saves (some doc) source_hash attempt now cause).1
        ≡ some doc'
      → (doc ≡ doc') ⊎ (mark_failed content_hash doc attempt now cause ≡ doc')
  unfolding fail_translation
  fail-cases reachable saves doc doc' source_hash attempt now cause h = ground arith

  pub update_post-cases :
      (saves : Bool) (user : String) (input : PostInput) (now : Time) (doc doc' : Document R)
      → (update_post content_hash saves user input now (some doc)).1 ≡ some doc'
      → (doc ≡ doc') ⊎ ((now < doc.editable_until) × (rewrite_post content_hash input doc ≡ doc'))
  unfolding update_post
  update_post-cases saves user input now doc doc' h = ground arith

  pub delete_post-cases :
      (saves : Bool) (user : String) (doc doc' : Document R)
      → (delete_post content_hash saves user (some doc)).1 ≡ some doc'
      → (doc ≡ doc') ⊎ (hide_post content_hash doc ≡ doc')
  unfolding delete_post
  delete_post-cases saves user doc doc' h = ground arith

  pub delete_comment-cases :
      (reachable saves : Bool) (user : String) (doc doc' : Document R)
      → (delete_comment content_hash reachable saves user (some doc)).1 ≡ some doc'
      → (doc ≡ doc') ⊎ (erase_comment content_hash doc ≡ doc')
  unfolding delete_comment
  delete_comment-cases reachable saves user doc doc' h = ground arith

  pub update_comment-cases :
      (reachable saves : Bool) (user : String) (input : CommentInput) (now : Time)
      (doc doc' : Document R)
      → (update_comment content_hash reachable saves user input now (some doc)).1 ≡ some doc'
      → (doc ≡ doc')
        ⊎ ((now < doc.editable_until)
            × (rewrite_comment content_hash input (kept_photos doc.photos input.keep_photos) now doc
                ≡ doc'))
  unfolding update_comment
  update_comment-cases reachable saves user input now doc doc' h = ground arith
