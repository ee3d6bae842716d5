-- ===== src/Community/Translation/Trace.antt =====
-- The life of one row: its author's edits, the runs of the translation worker, and any interleaving of
-- the two. The clock of each transaction is arbitrary.
use musecat_backend_core.Prelude.{
  ◌≤◌, String, some, List, [], ◌∷◌, ◌++◌, Bool, All, ok, ◌≡◌, sym, ◌∙◌, ap, subst,
}
use musecat_backend_core.Community.Document.{Time, Document, SourceContent}
use musecat_backend_core.Community.Translation.{
  Claim, claim_translation, complete_translation, fail_translation,
}
use musecat_backend_core.Community.Edits.{
  PostInput, CommentInput, update_post, delete_post, delete_comment, update_comment, new_post,
  new_comment,
}
use musecat_backend_core.Community.Translation.Laws.{IsSound}

-- A claim whose call of the translator is under way, and the time of the worker's run.
pub record Flight : Type 0 where
  pub claim : Claim
  pub now : Time

-- a row and the calls under way for it
pub record World (R : Type 0) : Type 0 where
  pub doc : Document R
  pub flights : List Flight

module _ {R : Type 0} (content_hash : String → String → String)
    (Translated : SourceContent → R → Type 0) where
  -- One transaction. A worker ends its call with the answer of the translator, or with a failure, at
  -- the time of its run.
  pub data Step (w w' : World R) : Type 0 where
    claims :
        (reachable saves : Bool) (now : Time) (c : Claim)
        → claim_translation content_hash reachable saves (some w.doc) now
          ≡ (ok (some c), some w'.doc)
        → w'.flights ≡ record { claim = c; now = now } ∷ w.flights
        → Step w w'
    completes :
        (reachable saves : Bool) (f : Flight) (before after : List Flight) (r : R)
        → w.flights ≡ before ++ f ∷ after
        → w'.flights ≡ before ++ after
        → Translated f.claim.source r
        → (complete_translation content_hash reachable saves
            (some w.doc)
            f.claim.source_hash
            f.claim.attempt
            r
            f.now).1
          ≡ some w'.doc
        → Step w w'
    fails :
        (reachable saves : Bool) (f : Flight) (before after : List Flight) (cause : String)
        → w.flights ≡ before ++ f ∷ after
        → w'.flights ≡ before ++ after
        → (fail_translation content_hash reachable saves
            (some w.doc)
            f.claim.source_hash
            f.claim.attempt
            f.now
            cause).1
          ≡ some w'.doc
        → Step w w'
    dies :
        (f : Flight) (before after : List Flight)
        → w.flights ≡ before ++ f ∷ after
        → w'.flights ≡ before ++ after
        → w'.doc ≡ w.doc
        → Step w w'
    updates_post :
        (saves : Bool) (user : String) (input : PostInput) (now : Time)
        → (update_post content_hash saves user input now (some w.doc)).1 ≡ some w'.doc
        → w'.flights ≡ w.flights
        → Step w w'
    deletes_post :
        (saves : Bool) (user : String)
        → (delete_post content_hash saves user (some w.doc)).1 ≡ some w'.doc
        → w'.flights ≡ w.flights
        → Step w w'
    -- a comment has no title
    updates_comment :
        (reachable saves : Bool) (user : String) (input : CommentInput) (now : Time)
        → w.doc.title ≡ ""
        → (update_comment content_hash reachable saves user input now (some w.doc)).1 ≡ some w'.doc
        → w'.flights ≡ w.flights
        → Step w w'
    deletes_comment :
        (reachable saves : Bool) (user : String)
        → (delete_comment content_hash reachable saves user (some w.doc)).1 ≡ some w'.doc
        → w'.flights ≡ w.flights
        → Step w w'

  -- the worlds that begin with the creation of a row
  pub data Reached : World R → Type 0 where
    posted :
        (w : World R) (user : String) (input : PostInput) (now : Time)
        → w.doc ≡ new_post content_hash user input now
        → w.flights ≡ []
        → Reached w
    commented :
        (w : World R) (user : String) (input : CommentInput) (now : Time)
        → w.doc ≡ new_comment content_hash user input now
        → w.flights ≡ []
        → Reached w
    later : (v w : World R) → Reached v → Step v w → Reached w

  -- a call under way, for a row with this end of the edit window
  abbrev pub IsFlight : Time → Flight → Type 0
  IsFlight limit f =
      (limit ≤ f.now)
      × (content_hash f.claim.source.title f.claim.source.body ≡ f.claim.source_hash)

  pub record IsWorldSound (w : World R) : Type 0 where
    pub sound : IsSound content_hash Translated w.doc
    pub under_way : All (IsFlight w.doc.editable_until) w.flights

  All-pick :
      (P : Flight → Type 0) (before after : List Flight) (f : Flight)
      → All P (before ++ f ∷ after)
      → P f × All P (before ++ after)
  All-pick P [] after f h = h
  All-pick P (x ∷ xs) after f h = let (hf, rest) = All-pick P xs after f h.1 in (hf, (h.0, rest))

  pub pick :
      (w : World R) (f : Flight) (before after : List Flight)
      → w.flights ≡ before ++ f ∷ after
      → IsWorldSound w
      → IsFlight w.doc.editable_until f × All (IsFlight w.doc.editable_until) (before ++ after)
  pick w f before after e s =
      All-pick (IsFlight w.doc.editable_until) before after f
        (subst (All (IsFlight w.doc.editable_until)) e s.under_way)

  -- a new row with the same end of its edit window, and the calls left under way
  pub onward :
      (w' : World R) (doc : Document R) (limit : Time) (fs : List Flight)
      → doc ≡ w'.doc
      → doc.editable_until ≡ limit
      → w'.flights ≡ fs
      → IsSound content_hash Translated doc
      → All (IsFlight limit) fs
      → IsWorldSound w'
  onward w' doc limit fs same kept flights s a = record {
    sound = subst (IsSound content_hash Translated) same s;
    under_way =
        subst (λ l. All (IsFlight l) w'.flights) (sym kept ∙ ap (λ d. d.editable_until) same)
          (subst (All (IsFlight limit)) (sym flights) a);
  }
