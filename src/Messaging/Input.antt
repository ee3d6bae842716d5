-- ===== src/Messaging/Input.antt =====
-- What a message may hold: inputHash, validateMentions and rateLimit of service/messaging/write.go.
use musecat_backend_core.Prelude.{
  ℕ, String, Option, none, some, List, [], ◌∷◌, Bool, true, false, not, ◌&&◌, ◌||◌, any, ltb, leb,
  if◌then◌else◌, str_eq, Result, ok, err, ◌>>=◌, length,
}
use musecat_backend_core.Prelude.Text.{trim_space}
use musecat_backend_core.Prelude.Text.Measure.{rune_count, byte_count}
use musecat_backend_core.Messaging.Rows.{
  PartyType, arcade, same_type, Identity, Kind, dm, inquiry, Photo, ChatError, bad_request,
  too_large, too_many, internal,
}

-- BotSelection
pub record BotSelection : Type 0 where
  pub message_id : String
  pub choice_id : String

-- SendInput
pub record SendInput : Type 0 where
  pub bot_choice : Option BotSelection
  pub legacy_original : Bool
  pub text : String
  pub mentions : List String
  pub client_message_id : String
  pub acting_as : Option Identity
  pub photos : List Photo

-- what json.Marshal encodes for the hash
pub data Payload : Type 0 where
  plain : String → List String → Payload
  mentioning : String → List String → List String → Payload
  choosing : Payload → BotSelection → Payload

abbrev pub is_empty : {A : Type 0} → List A → Bool
is_empty [] = true
is_empty (_ ∷ _) = false

abbrev pub photo_limit : ℕ
photo_limit = 15_000_000

abbrev pub mime_types : List String
mime_types = "image/jpeg" ∷ "image/png" ∷ "image/webp" ∷ "image/gif" ∷ []

-- the digest of one photo
unfoldable pub photo_hash : Photo → Result ChatError String
photo_hash f =
    if not f.present
    then err bad_request
    else if ltb photo_limit f.size
    then err too_large
    else if not f.opens
    then err internal
    else if not (any (str_eq f.mime) mime_types)
    then err bad_request
    else if ltb photo_limit f.bytes
    then err too_large
    else ok f.digest

unfoldable pub photo_hashes : List Photo → Result ChatError (List String)
unfolding photo_hash
photo_hashes [] = ok []
photo_hashes (f ∷ fs) = do hash ← photo_hash f; rest ← photo_hashes fs; ok (hash ∷ rest)

-- the mentions that a message keeps: musecat once, if at all
abbrev pub kept_mentions : List String → List String
kept_mentions [] = []
kept_mentions (_ ∷ _) = "musecat" ∷ []

abbrev pub text_limit : Bool → ℕ
text_limit legacy = if legacy then 13000 else 4000

abbrev payload : String → List String → List String → Payload
payload text hashes [] = plain text hashes
payload text hashes (m ∷ ms) = mentioning text hashes (m ∷ ms)

abbrev with_choice : Option BotSelection → Payload → Payload
with_choice none p = p
with_choice (some choice) p = choosing p choice

-- the input as it is kept
abbrev pub kept_input : SendInput → SendInput
kept_input given = record given {
  text = trim_space given.text;
  mentions = kept_mentions given.mentions;
}

-- the test on what a message holds, of the trimmed text
unfoldable pub misses_limits : SendInput → Bool
misses_limits input =
    str_eq input.client_message_id ""
    || ltb 100 (byte_count input.client_message_id)
    || ltb (text_limit input.legacy_original) (rune_count input.text)
    || (str_eq input.text "" && is_empty input.photos)
    || ltb 3 (length input.photos)

-- inputHash: the input as it is kept, and the hash, where `digest` is SHA-256 of the JSON encoding
unfoldable pub input_hash : (Payload → String) → SendInput → Result ChatError (SendInput × String)
unfolding misses_limits photo_hashes
input_hash digest given =
    let input = kept_input given in
    if ltb 16 (length given.mentions)
    then err bad_request
    else if any (λ mention. not (str_eq mention "musecat")) given.mentions
    then err bad_request
    else if misses_limits input
    then err bad_request
    else (photo_hashes input.photos >>= λ (hashes : List String).
        ok
          (input, digest (with_choice input.bot_choice (payload input.text hashes input.mentions))))

-- validateMentions
unfoldable pub validate_mentions : Kind → PartyType → List String → Result ChatError Unit
validate_mentions kind inbox [] = ok tt
validate_mentions dm inbox (_ ∷ _) = err bad_request
validate_mentions inquiry inbox (_ ∷ _) = if same_type inbox arcade then ok tt else err bad_request

-- rateLimit with the number of rows of the last minute
unfoldable pub rate_limit : ℕ → ℕ → Result ChatError Unit
rate_limit limit count = if leb limit count then err too_many else ok tt
