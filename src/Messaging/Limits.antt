-- ===== src/Messaging/Limits.antt =====
-- The bounds of an input that inputHash accepts.
use musecat_backend_core.Prelude.{
  ◌≤◌, ◌≡◌, ◌⊎◌, String, List, [], ◌∷◌, true, false, ◌&&◌, str_eq, any, All, length,
}
use musecat_backend_core.Messaging.Rows.{Photo}
use musecat_backend_core.Messaging.Input.{
  SendInput, kept_input, photo_limit, mime_types, text_limit, is_empty,
}
use musecat_backend_core.Prelude.Text.{trim_space}
use musecat_backend_core.Prelude.Text.Measure.{rune_count, byte_count}

-- a photo that is kept: an image of a known type of at most 15 MB, as declared and as read
pub record IsFine (f : Photo) : Type 0 where
  pub declared : f.size ≤ photo_limit
  pub read : f.bytes ≤ photo_limit
  pub known : any (str_eq f.mime) mime_types ≡ true

abbrev FinePhotos : List Photo → List String → Type 0
FinePhotos fs hashes = All IsFine fs

-- what an accepted input is
pub record IsAccepted (given : SendInput) (answer : SendInput × String) : Type 0 where
  pub kept : answer.0 ≡ kept_input given
  pub text : rune_count answer.0.text ≤ text_limit given.legacy_original
  pub trimmed : trim_space answer.0.text ≡ answer.0.text
  pub key : byte_count answer.0.client_message_id ≤ 100
  pub named : str_eq answer.0.client_message_id "" ≡ false
  pub photos : length answer.0.photos ≤ 3
  pub fine : All IsFine answer.0.photos
  pub filled : (str_eq answer.0.text "" && is_empty answer.0.photos) ≡ false
  pub mentions : (answer.0.mentions ≡ []) ⊎ (answer.0.mentions ≡ "musecat" ∷ [])
