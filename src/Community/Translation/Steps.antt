-- ===== src/Community/Translation/Steps.antt =====
-- Every step keeps a world sound.
use musecat_backend_core.Prelude.{
  String, some, List, [], ◌∷◌, ◌++◌, Bool, ok, ◌≡◌, refl, sym, ◌∙◌, subst, inl, inr, arith,
}
use musecat_backend_core.Community.Document.{Time, SourceContent}
use musecat_backend_core.Community.Translation.{
  Claim, mark_processing, claim_of, claim_translation, restart, publish, complete_translation,
  mark_failed, fail_translation,
}
use musecat_backend_core.Community.Edits.{
  CommentInput, rewrite_post, hide_post, erase_comment, rewrite_comment, update_comment, new_post,
  new_comment, kept_photos,
}
use musecat_backend_core.Community.Translation.Laws.{
  new_post-IsSound, new_comment-IsSound, claimable-due, mark_processing-IsSound, restart-IsSound,
  publish-IsSound, mark_failed-IsSound, rewrite_post-IsSound, hide_post-IsSound,
  erase_comment-IsSound, rewrite_comment-IsSound, rewrite_comment-editable_until,
}
use musecat_backend_core.Community.Translation.Outcomes.{
  claim-eq-some, complete-cases, fail-cases, update_post-cases, delete_post-cases,
  delete_comment-cases, update_comment-cases,
}
use musecat_backend_core.Community.Translation.Trace.{
  Flight, World, Step, claims, completes, fails, dies, updates_post, deletes_post, updates_comment,
  deletes_comment, Reached, posted, commented, later, IsWorldSound, pick, onward,
}

module _ {R : Type 0} (content_hash : String → String → String)
    (Translated : SourceContent → R → Type 0) where
  claims-IsWorldSound :
      (w w' : World R) (reachable saves : Bool) (now : Time) (c : Claim)
      → claim_translation content_hash reachable saves (some w.doc) now ≡ (ok (some c), some w'.doc)
      → w'.flights ≡ record { claim = c; now = now } ∷ w.flights
      → IsWorldSound content_hash Translated w
      → IsWorldSound content_hash Translated w'
  unfolding mark_processing claim_of
  claims-IsWorldSound w w' reachable saves now c h e s =
      let (due, same, marked) = claim-eq-some content_hash reachable saves w.doc w'.doc now c h in
      let (_, _, late) = claimable-due content_hash Translated w.doc now due in
      onward content_hash Translated w' (mark_processing content_hash w.doc now)
        w.doc.editable_until _ marked refl e
        (mark_processing-IsSound content_hash Translated w.doc now due s.sound)
        (
          (
            omega (arith, s.sound.window),
            subst (λ (x : Claim). content_hash x.source.title x.source.body ≡ x.source_hash) same
                refl,
          ),
          s.under_way,
        )

  completes-IsWorldSound :
      (w w' : World R) (reachable saves : Bool) (f : Flight) (before after : List Flight) (r : R)
      → w.flights ≡ before ++ f ∷ after
      → w'.flights ≡ before ++ after
      → Translated f.claim.source r
      → (complete_translation content_hash reachable saves
          (some w.doc)
          f.claim.source_hash
          f.claim.attempt
          r
          f.now).1
        ≡ some w'.doc
      → IsWorldSound content_hash Translated w
      → IsWorldSound content_hash Translated w'
  unfolding restart publish
  completes-IsWorldSound w w' reachable saves f before after r e e' answered h s =
      let (flying, rest) = pick content_hash Translated w f before after e s in
      elim (complete-cases content_hash reachable saves w.doc w'.doc f.claim.source_hash
        f.claim.attempt r f.now h) [
          | inl same ↦ onward content_hash Translated w' w.doc _ _ same refl e' s.sound rest
          | inr (inl same) ↦
              onward content_hash Translated w' (restart content_hash w.doc) _ _ same refl e'
                (restart-IsSound content_hash Translated w.doc s.sound) rest
          | inr (inr (hashed, same)) ↦
              onward content_hash Translated w' (publish content_hash w.doc r f.now) _ _ same refl
                e'
                (publish-IsSound content_hash Translated w.doc r f.now
                  (record {
                    asked = f.claim.source;
                    answered = answered;
                    same_hash = flying.1 ∙ sym hashed;
                  })
                  s.sound)
                rest
        ]

  fails-IsWorldSound :
      (w w' : World R) (reachable saves : Bool) (f : Flight) (before after : List Flight)
      (cause : String)
      → w.flights ≡ before ++ f ∷ after
      → w'.flights ≡ before ++ after
      → (fail_translation content_hash reachable saves
          (some w.doc)
          f.claim.source_hash
          f.claim.attempt
          f.now
          cause).1
        ≡ some w'.doc
      → IsWorldSound content_hash Translated w
      → IsWorldSound content_hash Translated w'
  unfolding mark_failed
  fails-IsWorldSound w w' reachable saves f before after cause e e' h s =
      let (flying, rest) = pick content_hash Translated w f before after e s in
      elim (fail-cases content_hash reachable saves w.doc w'.doc f.claim.source_hash f.claim.attempt
        f.now cause h) [
          | inl same ↦ onward content_hash Translated w' w.doc _ _ same refl e' s.sound rest
          | inr same ↦
              onward content_hash Translated w'
                (mark_failed content_hash w.doc f.claim.attempt f.now cause) _ _ same refl e'
                (mark_failed-IsSound content_hash Translated w.doc f.claim.attempt f.now cause
                  flying.0 s.sound)
                rest
        ]

  updates_comment-IsWorldSound :
      (w w' : World R) (reachable saves : Bool) (user : String) (input : CommentInput) (now : Time)
      → w.doc.title ≡ ""
      → (update_comment content_hash reachable saves user input now (some w.doc)).1 ≡ some w'.doc
      → w'.flights ≡ w.flights
      → IsWorldSound content_hash Translated w
      → IsWorldSound content_hash Translated w'
  updates_comment-IsWorldSound w w' reachable saves user input now untitled h e s =
      let keep = kept_photos w.doc.photos input.keep_photos in
      elim (update_comment-cases content_hash reachable saves user input now w.doc w'.doc h) [
        | inl same ↦ onward content_hash Translated w' w.doc _ _ same refl e s.sound s.under_way
        | inr (_, same) ↦
            onward content_hash Translated w' (rewrite_comment content_hash input keep now w.doc) _
              _ same (rewrite_comment-editable_until content_hash Translated input keep now w.doc) e
              (rewrite_comment-IsSound content_hash Translated input keep now w.doc untitled
                s.sound)
              s.under_way
      ]

  Step-IsWorldSound :
      (w w' : World R)
      → Step content_hash Translated w w'
      → IsWorldSound content_hash Translated w
      → IsWorldSound content_hash Translated w'
  unfolding rewrite_post hide_post erase_comment
  Step-IsWorldSound w w' (claims reachable saves now c h e) s =
      claims-IsWorldSound w w' reachable saves now c h e s
  Step-IsWorldSound w w' (completes reachable saves f before after r e e' t h) s =
      completes-IsWorldSound w w' reachable saves f before after r e e' t h s
  Step-IsWorldSound w w' (fails reachable saves f before after cause e e' h) s =
      fails-IsWorldSound w w' reachable saves f before after cause e e' h s
  Step-IsWorldSound w w' (dies f before after e e' same) s =
      onward content_hash Translated w' w.doc _ _ (sym same) refl e' s.sound
        (pick content_hash Translated w f before after e s).1
  Step-IsWorldSound w w' (updates_post saves user input now h e) s =
      elim (update_post-cases content_hash saves user input now w.doc w'.doc h) [
        | inl same ↦ onward content_hash Translated w' w.doc _ _ same refl e s.sound s.under_way
        | inr (_, same) ↦
            onward content_hash Translated w' (rewrite_post content_hash input w.doc) _ _ same refl
              e (rewrite_post-IsSound content_hash Translated input w.doc s.sound) s.under_way
      ]
  Step-IsWorldSound w w' (deletes_post saves user h e) s =
      elim (delete_post-cases content_hash saves user w.doc w'.doc h) [
        | inl same ↦ onward content_hash Translated w' w.doc _ _ same refl e s.sound s.under_way
        | inr same ↦
            onward content_hash Translated w' (hide_post content_hash w.doc) _ _ same refl e
              (hide_post-IsSound content_hash Translated w.doc s.sound) s.under_way
      ]
  Step-IsWorldSound w w' (updates_comment reachable saves user input now untitled h e) s =
      updates_comment-IsWorldSound w w' reachable saves user input now untitled h e s
  Step-IsWorldSound w w' (deletes_comment reachable saves user h e) s =
      elim (delete_comment-cases content_hash reachable saves user w.doc w'.doc h) [
        | inl same ↦ onward content_hash Translated w' w.doc _ _ same refl e s.sound s.under_way
        | inr same ↦
            onward content_hash Translated w' (erase_comment content_hash w.doc) _ _ same refl e
              (erase_comment-IsSound content_hash Translated w.doc s.sound) s.under_way
      ]

  pub Reached-IsWorldSound :
      (w : World R) → Reached content_hash Translated w → IsWorldSound content_hash Translated w
  Reached-IsWorldSound w (posted _ user input now same empty) =
      onward content_hash Translated w (new_post content_hash user input now) _ [] (sym same) refl
        empty (new_post-IsSound content_hash Translated user input now) tt
  Reached-IsWorldSound w (commented _ user input now same empty) =
      onward content_hash Translated w (new_comment content_hash user input now) _ [] (sym same)
        refl empty (new_comment-IsSound content_hash Translated user input now) tt
  Reached-IsWorldSound w (later v _ before s) =
      Step-IsWorldSound v w s (Reached-IsWorldSound v before)
