-- ===== src/Messaging/InquiryBot.antt =====
-- The request for an inquiry and its automatic replies: CreateInput of service/messaging/types.go, and
-- inquiryBot and verificationBot of service/messaging/bot.go.
use musecat_backend_core.Prelude.{
  ℕ, String, Option, none, some, [], ◌∷◌, Bool, true, false, not, ◌||◌, if◌then◌else◌, str_eq,
  Result, ok, err, ◌>>=◌,
}
use musecat_backend_core.Messaging.Rows.{
  team, arcade, same_type, Identity, BotConfig, ChatError, bad_request, not_found,
}
use musecat_backend_core.Messaging.Input.{SendInput, Payload}
use musecat_backend_core.Messaging.BotConfig.{validate}

-- the fields of CreateInput for an inquiry
pub record CreateInput : Type 0 where
  pub bot_revision : String
  pub initial_choice : String
  pub inquiry_context : String
  pub inbox : Identity
  pub initial_message : SendInput

-- InquirySettings: how an arcade with an official account takes inquiries
pub data InquiryMode : Type 0 where
  internal_mode external_mode disabled_mode : InquiryMode

-- what the transaction reads of the arcade of the inbox
pub record ArcadeInbox : Type 0 where
  pub public : Bool
  pub created_by : String
  pub manages : Bool
  pub official_account : Bool
  pub mode : InquiryMode
  pub login_required : Bool
  pub bot : Option BotConfig

-- the digests of the code, and the length of the JSON encoding of a configuration
pub record Codes : Type 0 where
  pub digest : Payload → String
  pub context_digest : CreateInput → String → String
  pub revision : BotConfig → String
  pub request_key : String → String → String
  pub encoded_size : BotConfig → ℕ

abbrev pub no_bot : BotConfig
no_bot = record { enabled = false; start = ""; nodes = [] }

abbrev welcome_text : String → Option String
welcome_text context =
    if str_eq context "arcadeOfficial.ko-KR"
    then some
        "안녕하세요, 뮤즈캣 팀입니다.\n오락실 공식 계정 인증을 위해 운영 중인 오락실 이름과 관리자임을 확인할 수 있는 자료를 보내 주세요.\n\n공식 X 또는 유튜브 계정의 소유를 보여 주는 자료나 게임제공업 등록증 등을 사용할 수 있습니다. 사진은 입력창의 추가 버튼으로 첨부할 수 있어요."
    else if str_eq context "arcadeOfficial.en-US"
    then some
        "Hello from the Musecat Team.\nTo verify your official arcade account, please send your arcade's name and evidence that you manage it.\n\nYou can use proof of ownership of its official X or YouTube account, or an arcade operating license. Attach photos using the add button in the message field."
    else if str_eq context "arcadeOfficial.ja-JP"
    then some
        "こんにちは、Musecatチームです。\n公式アカウントの認証のため、運営中の店舗名と管理者であることを確認できる資料をお送りください。\n\n公式XまたはYouTubeアカウントの所有を示す資料や、営業許可証などをご利用いただけます。写真は入力欄の追加ボタンから添付できます。"
    else none

abbrev welcome_bot : Option String → Result ChatError BotConfig
welcome_bot none = err bad_request
welcome_bot (some text) = ok (record {
  enabled = true;
  start = "welcome";
  nodes = record { id = "welcome"; text = text; choices = [] } ∷ [];
})

-- verificationBot
unfoldable pub verification_bot : String → Result ChatError BotConfig
verification_bot context = welcome_bot (welcome_text context)

abbrev enabled_bot : (BotConfig → ℕ) → Option BotConfig → Result ChatError BotConfig
enabled_bot size none = err bad_request
enabled_bot size (some cfg) =
    if not cfg.enabled then err bad_request else (validate size cfg >>= λ (u : Unit). ok cfg)

abbrev arcade_bot : (BotConfig → ℕ) → Option ArcadeInbox → Result ChatError BotConfig
arcade_bot size none = err not_found
arcade_bot size (some a) = enabled_bot size a.bot

-- inquiryBot
unfoldable pub inquiry_bot :
    (BotConfig → ℕ) → CreateInput → Option ArcadeInbox → Result ChatError BotConfig
unfolding validate verification_bot
inquiry_bot size input place =
    if str_eq input.inquiry_context ""
    then ok no_bot
    else if str_eq input.inquiry_context "arcade"
    then (if same_type input.inbox.party arcade then arcade_bot size place else err bad_request)
    else if not (same_type input.inbox.party team) || not (str_eq input.inbox.id "musecat")
    then err bad_request
    else verification_bot input.inquiry_context
