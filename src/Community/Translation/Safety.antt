-- ===== src/Community/Translation/Safety.antt =====
-- What the edits and the worker guarantee together, for every interleaving of their transactions.
use musecat_backend_core.Prelude.{◌≤◌, String, some, true, List, ◌∷◌, ◌++◌, Bool, ◌≡◌, arith, leb}
use musecat_backend_core.Community.Document.{Time, SourceContent}
use musecat_backend_core.Community.Edits.{PostInput, CommentInput, update_post, update_comment}
use musecat_backend_core.Community.Translation.Laws.{IsSound}
use musecat_backend_core.Community.Translation.Steps.{Reached-IsWorldSound}
use musecat_backend_core.Community.Translation.Trace.{Flight, World, Reached, pick}

module _ {R : Type 0} (content_hash : String → String → String)
    (Translated : SourceContent → R → Type 0) where
  -- In every world that creations, edits, deletions and worker transactions reach in any order, the
  -- row has at most 5 attempts; if it is active, its stored hash is the hash of its text; its edit
  -- window ends no later than its translation is due; and a stored translation is an answer of the
  -- translator for a content with the hash of the row's current text.
  pub Reached-IsSound :
      (w : World R) → Reached content_hash Translated w → IsSound content_hash Translated w.doc
  Reached-IsSound w h = (Reached-IsWorldSound content_hash Translated w h).sound

  closed_when_claimed :
      (w : World R) (f : Flight) (before after : List Flight)
      → Reached content_hash Translated w
      → w.flights ≡ before ++ f ∷ after
      → w.doc.editable_until ≤ f.now
  closed_when_claimed w f before after h e =
      (pick content_hash Translated w f before after e
        (Reached-IsWorldSound content_hash Translated w h)).0.0

  -- Once a worker that runs at some time has claimed the row, and until its call has ended, a request
  -- to update the row whose clock is at or after that time leaves the row as it is.
  pub claimed_row_is_closed :
      (w : World R) (f : Flight) (before after : List Flight)
      → Reached content_hash Translated w
      → w.flights ≡ before ++ f ∷ after
      → (t : Time) → f.now ≤ t
      → (((saves : Bool) (user : String) (input : PostInput)
            → (update_post content_hash saves user input t (some w.doc)).1 ≡ some w.doc)
          × ((reachable saves : Bool) (user : String) (input : CommentInput)
              → (update_comment content_hash reachable saves user input t (some w.doc)).1
                ≡ some w.doc))
  unfolding update_post update_comment
  claimed_row_is_closed w f before after h e t late =
      let closed = closed_when_claimed w f before after h e in
      let over : leb w.doc.editable_until t ≡ true = ground arith in
      (λ saves user input. ground arith, λ reachable saves user input. ground arith)
