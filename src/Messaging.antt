-- ===== src/Messaging.antt =====
-- Conversations, service/messaging: the rows, what a message may hold and who may write it, automatic
-- replies, the transactions that write a conversation, and the hub of events.
pub mod Rows
pub mod Insert
pub mod Notices
pub mod Input
pub mod Policy
pub mod BotConfig
pub mod Bot
pub mod Write
pub mod Send
pub mod Actions
pub mod Sound
pub mod Reached
pub mod Retry
pub mod Found
pub mod Resend
pub mod Answers
pub mod Replies
pub mod Positions
pub mod Permits
pub mod Limits
pub mod InquiryBot
pub mod Earlier
pub mod Create
pub mod Created
pub mod Direct
pub mod OneConversation
pub mod Blocks
pub mod BlockSet
pub mod Hub
pub mod HubBounds
