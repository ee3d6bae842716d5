-- ===== src/Community/Translation/Laws.antt =====
-- What each transaction of a translated row preserves.
use musecat_backend_core.Prelude.{
  ℕ, ◌≤◌, ◌<◌, String, some, List, true, str_eq, ◌≡◌, refl, subst, inl, inr, Bool-cases, arith,
}
use musecat_backend_core.Community.Document.{Time, Document, SourceContent, is_active}
use musecat_backend_core.Community.Translation.{
  max_translation_attempts, translation_claimable, mark_processing, restart, publish, mark_failed,
}
use musecat_backend_core.Community.Edits.{
  PostInput, CommentInput, rewrite_post, hide_post, erase_comment, rewrite_body, rewrite_comment,
  new_post, new_comment,
}

-- `Translated s r` says that the translator has answered `r` for the content `s`.
module _ {R : Type 0} (content_hash : String → String → String)
    (Translated : SourceContent → R → Type 0) where
  -- `r` is an answer for a content with the hash of `title` and `body`.
  pub record Answers (r : R) (title body : String) : Type 0 where
    pub asked : SourceContent
    pub answered : Translated asked r
    pub same_hash : content_hash asked.title asked.body ≡ content_hash title body

  pub record IsSound (doc : Document R) : Type 0 where
    pub attempts : doc.translation_attempts ≤ max_translation_attempts
    pub hashed : is_active doc.status ≡ true → doc.original_hash ≡ content_hash doc.title doc.body
    pub window : doc.editable_until ≤ doc.translate_after
    pub shown : (r : R) → doc.translations ≡ some r → Answers r doc.title doc.body

  pub new_post-IsSound :
      (user : String) (input : PostInput) (now : Time)
      → IsSound (new_post content_hash user input now)
  unfolding new_post
  new_post-IsSound user input now = record {
    attempts = ground arith;
    hashed = λ h. refl;
    window = ground arith;
    shown = λ r h. absurd (ground arith);
  }

  pub new_comment-IsSound :
      (user : String) (input : CommentInput) (now : Time)
      → IsSound (new_comment content_hash user input now)
  unfolding new_comment
  new_comment-IsSound user input now = record {
    attempts = ground arith;
    hashed = λ h. refl;
    window = ground arith;
    shown = λ r h. absurd (ground arith);
  }

  -- the tests that a claimed row has passed
  pub claimable-due :
      (doc : Document R) (now : Time)
      → translation_claimable doc now ≡ true
      → (is_active doc.status ≡ true)
        × (doc.translation_attempts < max_translation_attempts)
        × (doc.translate_after ≤ now)
  unfolding translation_claimable
  claimable-due doc now h = (ground arith, ground arith, ground arith)

  pub mark_processing-IsSound :
      (doc : Document R) (now : Time)
      → translation_claimable doc now ≡ true
      → IsSound doc
      → IsSound (mark_processing content_hash doc now)
  unfolding mark_processing
  mark_processing-IsSound doc now h s =
      let (_, few, _) = claimable-due doc now h in
      record { attempts = omega arith; hashed = λ h. refl; window = s.window; shown = s.shown }

  pub restart-IsSound : (doc : Document R) → IsSound doc → IsSound (restart content_hash doc)
  unfolding restart
  restart-IsSound doc s = record {
    attempts = ground arith;
    hashed = s.hashed;
    window = s.window;
    shown = s.shown;
  }

  pub publish-IsSound :
      (doc : Document R) (r : R) (now : Time)
      → Answers r doc.title doc.body
      → IsSound doc
      → IsSound (publish content_hash doc r now)
  unfolding publish
  publish-IsSound doc r now a s = record {
    attempts = s.attempts;
    hashed = s.hashed;
    window = s.window;
    shown = λ r' h. subst (λ x. Answers x doc.title doc.body) (ground arith) a;
  }

  pub mark_failed-IsSound :
      (doc : Document R) (attempt : ℕ) (now : Time) (cause : String)
      → doc.editable_until ≤ now
      → IsSound doc
      → IsSound (mark_failed content_hash doc attempt now cause)
  unfolding mark_failed
  mark_failed-IsSound doc attempt now cause late s = record {
    attempts = s.attempts;
    hashed = s.hashed;
    window = ground (arith, s.window);
    shown = s.shown;
  }

  pub rewrite_post-IsSound :
      (input : PostInput) (doc : Document R)
      → IsSound doc
      → IsSound (rewrite_post content_hash input doc)
  unfolding rewrite_post
  rewrite_post-IsSound input doc s = record {
    attempts = ground arith;
    hashed = λ h. refl;
    window = s.window;
    shown = λ r h. absurd (ground arith);
  }

  pub hide_post-IsSound : (doc : Document R) → IsSound doc → IsSound (hide_post content_hash doc)
  unfolding hide_post
  hide_post-IsSound doc s = record {
    attempts = s.attempts;
    hashed = λ h. absurd (ground arith);
    window = s.window;
    shown = λ r h. absurd (ground arith);
  }

  pub erase_comment-IsSound :
      (doc : Document R) → IsSound doc → IsSound (erase_comment content_hash doc)
  unfolding erase_comment
  erase_comment-IsSound doc s = record {
    attempts = s.attempts;
    hashed = λ h. absurd (ground arith);
    window = s.window;
    shown = λ r h. absurd (ground arith);
  }

  -- a comment has no title
  pub rewrite_comment-IsSound :
      (input : CommentInput) (keep : List String) (now : Time) (doc : Document R)
      → doc.title ≡ ""
      → IsSound doc
      → IsSound (rewrite_comment content_hash input keep now doc)
  unfolding rewrite_comment rewrite_body
  rewrite_comment-IsSound input keep now doc untitled s =
      elim (Bool-cases (str_eq doc.body input.body)) [
        | inl e ↦ rw e (record {
          attempts = s.attempts;
          hashed = s.hashed;
          window = s.window;
          shown = s.shown;
        })
        | inr e ↦ rw e (record {
          attempts = ground arith;
          hashed = λ h. rw untitled refl;
          window = s.window;
          shown = λ r h. absurd (ground arith);
        })
      ]

  pub rewrite_comment-editable_until :
      (input : CommentInput) (keep : List String) (now : Time) (doc : Document R)
      → (rewrite_comment content_hash input keep now doc).editable_until ≡ doc.editable_until
  unfolding rewrite_comment rewrite_body
  rewrite_comment-editable_until input keep now doc = ground arith
