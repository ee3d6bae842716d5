-- ===== src/Examples/Inquiries.antt =====
-- A new inquiry with the automatic replies of its arcade, a direct conversation, and a user who blocks another.
use musecat_backend_core.Prelude.{
  String, none, some, [], ◌∷◌, true, false, ◌≡◌, refl, Result, ok, err, arith,
}
use musecat_backend_core.Prelude.Text.{trim_space}
use musecat_backend_core.Prelude.Text.Measure.{rune_count, byte_count}
use musecat_backend_core.Messaging.Rows.{user, arcade, Participant, BotConfig, Chat, ChatError, dm}
use musecat_backend_core.Messaging.Input.{SendInput, Payload, plain, mentioning, choosing}
use musecat_backend_core.Messaging.Policy.{Reach, can_dm}
use musecat_backend_core.Messaging.Write.{Surroundings}
use musecat_backend_core.Messaging.Sound.{IsSound}
use musecat_backend_core.Messaging.InquiryBot.{CreateInput, ArcadeInbox, Codes, internal_mode}
use musecat_backend_core.Messaging.Create.{Stamps, create_inquiry}
use musecat_backend_core.Messaging.Created.{create_inquiry-IsSound}
use musecat_backend_core.Messaging.Blocks.{BlockRows, block}
use musecat_backend_core.Messaging.Direct.{Opened, create_dm, found_in, new_direct, opened_in}
use musecat_backend_core.Messaging.OneConversation.{create_dm_once}
use musecat_backend_core.Messaging.BlockSet.{IsBlockList, IsUpdated, block_lem, block_stops_dm}

abbrev text_of : Payload → String
text_of (plain text hashes) = text
text_of (mentioning text hashes mentions) = text
text_of (choosing p choice) = text_of p

abbrev carol : Participant
carol = record { id = "carol"; party = user; guest_hash = ""; staff = false; official = false }

abbrev opening_hours : BotConfig
opening_hours = record {
  enabled = true;
  start = "welcome";
  nodes = record { id = "welcome"; text = "Hello"; choices = [] } ∷ [];
}

abbrev place : ArcadeInbox
place = record {
  public = true;
  created_by = "mia";
  manages = false;
  official_account = true;
  mode = internal_mode;
  login_required = true;
  bot = some opening_hours;
}

abbrev question : SendInput
question = record {
  bot_choice = none;
  legacy_original = false;
  text = "Is it open today?";
  mentions = [];
  client_message_id = "k1";
  acting_as = none;
  photos = [];
}

abbrev request : CreateInput
request = record {
  bot_revision = "";
  initial_choice = "";
  inquiry_context = "arcade";
  inbox = record { party = arcade; id = "a1" };
  initial_message = question;
}

abbrev codes : Codes
codes = record {
  digest = text_of;
  context_digest = λ input hash. hash;
  revision = λ cfg. "r";
  request_key = λ name key. "bot:k";
  encoded_size = λ cfg. 80;
}

abbrev surroundings : Surroundings
surroundings = record {
  parties = [];
  peer = record { id = none; reach = record { receives = false; active = false; blocks = [] } };
  recent = record { messages = 0; messages_here = 0; photos = 0 };
  audience = ok ("carol" ∷ "mia" ∷ []);
  wanted = λ id. true;
}

abbrev stamps : Stamps
stamps = record { conversation = "c1"; opening = "m1"; message = "m2"; reply = "m3"; now = 5 }

abbrev conversation_of : Result ChatError Chat → Chat
conversation_of (ok chat) = chat
conversation_of (err why) = record {
  conversation = record {
    id = "";
    kind = dm;
    last_sequence = 9;
    last_message = "";
    last_message_at = 0;
  };
  case = none;
  messages = [];
  reads = [];
  notices = [];
  events = [];
}

abbrev created : Chat
created = conversation_of (create_inquiry codes [] carol request (some place) surroundings 0 stamps)

create_inquiry-IsSound_example : IsSound created
unfolding create_inquiry trim_space rune_count byte_count
create_inquiry-IsSound_example =
    create_inquiry-IsSound codes [] carol request (some place) surroundings 0 stamps created tt refl

created_test : created.conversation.last_sequence ≡ 2
unfolding create_inquiry trim_space rune_count byte_count
created_test = refl

abbrev blocked_before : BlockRows
blocked_before = ("carol", "dan") ∷ []

before-IsBlockList : IsBlockList blocked_before
before-IsBlockList = record { once = (refl, tt); few = λ name. ground arith }

block_lem_example :
    IsBlockList (("carol", "eve") ∷ blocked_before)
    × IsUpdated "carol" "eve" true blocked_before (("carol", "eve") ∷ blocked_before)
unfolding block
block_lem_example =
    block_lem blocked_before (("carol", "eve") ∷ blocked_before) "carol" "eve" false true true
      before-IsBlockList refl

abbrev reach_after : Reach
reach_after = record { receives = true; active = true; blocks = ("carol", "eve") ∷ blocked_before }

block_stops_dm_example :
    (can_dm reach_after "carol" "eve" ≡ false) × (can_dm reach_after "eve" "carol" ≡ false)
unfolding block
block_stops_dm_example =
    block_stops_dm blocked_before (("carol", "eve") ∷ blocked_before) "carol" "eve" true true true
      before-IsBlockList refl

abbrev eve : Participant
eve = record { id = "eve"; party = user; guest_hash = ""; staff = false; official = false }

abbrev open_reach : Reach
open_reach = record { receives = true; active = true; blocks = blocked_before }

abbrev first_direct : Opened
first_direct = opened_in [] (new_direct "eve" "carol" "d1")

create_dm_once_example :
    create_dm first_direct.rows carol "eve" reach_after 0 "d2"
    ≡ ok (found_in first_direct.rows first_direct.conversation)
unfolding create_dm
create_dm_once_example =
    create_dm_once [] eve carol open_reach reach_after 0 0 "d1" "d2" first_direct refl refl refl
