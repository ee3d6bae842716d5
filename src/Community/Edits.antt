-- ===== src/Community/Edits.antt =====
-- The writes of authors: CreatePost, UpdatePost and DeletePost of handlers/community/post.go, CreateComment, UpdateComment and
-- eraseComment of handlers/community/social.go. `user` is the authenticated account, `now` is
-- time.Now(); a photo is the name under which the store keeps it. A function returns an outcome and the row that it leaves: a transaction that fails is rolled back.
use musecat_backend_core.Prelude.{
  ℕ, ◌+◌, String, Option, none, some, List, [], ◌∷◌, ◌++◌, Bool, true, false, not, ◌&&◌, ◌||◌, any,
  leb, ltb, ◌==◌, if◌then◌else◌, str_eq, Result, ok, err, length,
}
use musecat_backend_core.Community.Document.{
  Time, active, deleted, pending, ready, Document, is_active, translation_delay, TranslationStatus,
}

pub data EditError : Type 0 where
  not_found forbidden edit_window_closed achievement_photo_required too_many_photos : EditError
  invalid_kept_photos text_or_photo_required save_failed : EditError

-- the fields of postInput that are stored
pub record PostInput : Type 0 where
  pub game_series : String
  pub title : String
  pub body : String
  pub flair : String
  pub photos : List String

-- the fields of commentInput that UpdateComment reads; `none` is a request without keepPhotos
pub record CommentInput : Type 0 where
  pub body : String
  pub photos : List String
  pub keep_photos : Option (List String)

abbrev pub max_post_photos : ℕ
max_post_photos = 8

abbrev pub max_comment_photos : ℕ
max_comment_photos = 3

-- reflect.DeepEqual of two lists of names
unfoldable pub same_names : List String → List String → Bool
same_names [] [] = true
same_names (x ∷ xs) (y ∷ ys) = str_eq x y && same_names xs ys
same_names [] (y ∷ ys) = false
same_names (x ∷ xs) [] = false

-- the loop over the kept photos of UpdateComment: each is one of the comment's, and none repeats
unfoldable pub valid_kept : List String → List String → List String → Bool
valid_kept existing seen [] = true
valid_kept existing seen (name ∷ names) =
    any (str_eq name) existing
    && not (any (str_eq name) seen)
    && valid_kept existing (name ∷ seen) names

unfoldable pub kept_photos : List String → Option (List String) → List String
kept_photos existing none = existing
kept_photos existing (some names) = names

unfoldable pub invalid_kept : List String → Option (List String) → Bool
invalid_kept existing none = false
invalid_kept existing (some names) = not (valid_kept existing [] names)

-- the status that a comment starts with: an empty text needs no translation
unfoldable pub start_status : String → TranslationStatus
start_status body = if str_eq body "" then ready else pending

abbrev pub Outcome : Type 0 → Type 0
Outcome R = Result EditError Unit × Option (Document R)

module _ {R : Type 0} (content_hash : String → String → String) where
  -- the record that CreatePost fills, once its input is valid
  unfoldable pub new_post : String → PostInput → Time → Document R
  new_post user input now = record {
    author = user;
    game_series = input.game_series;
    title = input.title;
    body = input.body;
    flair = input.flair;
    photos = input.photos;
    status = active;
    editable_until = now + translation_delay;
    edited_at = 0;
    translate_after = now + translation_delay;
    translation_status = pending;
    translation_attempts = 0;
    translation_started_at = 0;
    translated_at = 0;
    translation_error = "";
    original_hash = content_hash input.title input.body;
    translations = none;
  }

  -- the record that CreateComment fills; a comment has no title, series or flair
  unfoldable pub new_comment : String → CommentInput → Time → Document R
  unfolding start_status
  new_comment user input now = record {
    author = user;
    game_series = "";
    title = "";
    body = input.body;
    flair = "";
    photos = input.photos;
    status = active;
    editable_until = now + translation_delay;
    edited_at = 0;
    translate_after = now + translation_delay;
    translation_status = start_status input.body;
    translation_attempts = 0;
    translation_started_at = 0;
    translated_at = 0;
    translation_error = "";
    original_hash = content_hash "" input.body;
    translations = none;
  }

  -- what UpdatePost writes
  unfoldable pub rewrite_post : PostInput → Document R → Document R
  rewrite_post input doc = record doc {
    game_series = input.game_series;
    title = input.title;
    body = input.body;
    flair = input.flair;
    photos = doc.photos ++ input.photos;
    translation_status = pending;
    translation_attempts = 0;
    translation_started_at = 0;
    translated_at = 0;
    translation_error = "";
    translations = none;
    original_hash = content_hash input.title input.body;
  }

  unfoldable pub write_if : Bool → Document R → Document R → Outcome R
  write_if true old new = (ok tt, some new)
  write_if false old new = (err save_failed, some old)

  -- the transaction of UpdatePost
  unfoldable pub update_post : Bool → String → PostInput → Time → Option (Document R) → Outcome R
  unfolding write_if rewrite_post
  update_post saves user input now none = (err not_found, none)
  update_post saves user input now (some doc) =
      if not (is_active doc.status)
      then (err not_found, some doc)
      else if not (str_eq doc.author user)
      then (err forbidden, some doc)
      else if leb doc.editable_until now
      then (err edit_window_closed, some doc)
      else if str_eq input.flair "achievement" && (length doc.photos + length input.photos == 0)
      then (err achievement_photo_required, some doc)
      else if ltb max_post_photos (length doc.photos + length input.photos)
      then (err too_many_photos, some doc)
      else write_if saves doc (rewrite_post input doc)

  -- what DeletePost writes into the post
  unfoldable pub hide_post : Document R → Document R
  hide_post doc = record doc {
    status = deleted;
    photos = [];
    translations = none;
    translation_started_at = 0;
    translation_error = "";
  }

  -- the transaction of DeletePost, less its comments, which `erase_comment` takes one by one
  unfoldable pub delete_post : Bool → String → Option (Document R) → Outcome R
  unfolding write_if hide_post
  delete_post saves user none = (err not_found, none)
  delete_post saves user (some doc) =
      if not (str_eq doc.author user)
      then (err forbidden, some doc)
      else if not (is_active doc.status)
      then (ok tt, some doc)
      else write_if saves doc (hide_post doc)

  -- eraseComment
  unfoldable pub erase_comment : Document R → Document R
  erase_comment doc = record doc {
    status = deleted;
    body = "";
    photos = [];
    translations = none;
    translation_started_at = 0;
    translation_error = "";
  }

  -- the transaction of DeleteComment; `reachable` says that the post of the comment is active
  unfoldable pub delete_comment : Bool → Bool → String → Option (Document R) → Outcome R
  unfolding write_if erase_comment
  delete_comment reachable saves user none = (err not_found, none)
  delete_comment reachable saves user (some doc) =
      if not reachable
      then (err not_found, some doc)
      else if not (str_eq doc.author user)
      then (err forbidden, some doc)
      else write_if saves doc (erase_comment doc)

  -- what UpdateComment writes, with the photos that are kept
  unfoldable pub rewrite_body : String → Document R → Document R
  unfolding start_status
  rewrite_body body doc = record doc {
    body = body;
    translation_status = start_status body;
    translation_attempts = 0;
    translation_started_at = 0;
    translations = none;
    translated_at = 0;
    translation_error = "";
    original_hash = content_hash "" body;
  }

  unfoldable pub rewrite_comment : CommentInput → List String → Time → Document R → Document R
  unfolding rewrite_body
  rewrite_comment input keep now doc =
      let edited = record doc { edited_at = now; photos = keep ++ input.photos } in
      if str_eq doc.body input.body then edited else rewrite_body input.body edited

  -- the transaction of UpdateComment
  unfoldable pub update_comment :
      Bool → Bool → String → CommentInput → Time → Option (Document R) → Outcome R
  unfolding write_if rewrite_comment kept_photos invalid_kept same_names
  update_comment reachable saves user input now none = (err not_found, none)
  update_comment reachable saves user input now (some doc) =
      let keep = kept_photos doc.photos input.keep_photos in
      if not (is_active doc.status) || not reachable
      then (err not_found, some doc)
      else if not (str_eq doc.author user)
      then (err forbidden, some doc)
      else if leb doc.editable_until now
      then (err edit_window_closed, some doc)
      else if invalid_kept doc.photos input.keep_photos
      then (err invalid_kept_photos, some doc)
      else if ltb max_comment_photos (length keep + length input.photos)
      then (err too_many_photos, some doc)
      else if str_eq input.body "" && (length keep + length input.photos == 0)
      then (err text_or_photo_required, some doc)
      else if str_eq doc.body input.body && same_names doc.photos keep && (length input.photos == 0)
      then (ok tt, some doc)
      else write_if saves doc (rewrite_comment input keep now doc)
