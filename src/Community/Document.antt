-- ===== src/Community/Document.antt =====
-- A row of community_post or community_comment, with the fields that the translation worker reads and
-- writes. A time is 0 for Go's zero time, and otherwise nanoseconds since 1970-01-01 UTC.
use musecat_backend_core.Prelude.{ℕ, String, Option, List, Bool, true, false}

abbrev pub Time : Type 0
Time = ℕ

pub data Status : Type 0 where
  active deleted : Status

-- translation_status
pub data TranslationStatus : Type 0 where
  pending processing ready failed : TranslationStatus

-- `R` is TranslationResult; `none` is the empty object in the column translations.
pub record Document (R : Type 0) : Type 0 where
  pub author : String
  pub game_series : String
  pub title : String
  pub body : String
  pub flair : String
  pub photos : List String
  pub status : Status
  pub editable_until : Time
  pub edited_at : Time
  pub translate_after : Time
  pub translation_status : TranslationStatus
  pub translation_attempts : ℕ
  pub translation_started_at : Time
  pub translated_at : Time
  pub translation_error : String
  pub original_hash : String
  pub translations : Option R

-- SourceContent
pub record SourceContent : Type 0 where
  pub title : String
  pub body : String

-- the enumerations compared by `==`
abbrev pub is_active : Status → Bool
is_active active = true
is_active deleted = false

abbrev pub is_processing : TranslationStatus → Bool
is_processing processing = true
is_processing _ = false

-- time constants in nanoseconds
abbrev pub minute : ℕ
minute = 60_000_000_000

-- translationDelay of post.go
abbrev pub translation_delay : ℕ
translation_delay = 300_000_000_000
