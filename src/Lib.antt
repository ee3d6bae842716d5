-- ===== src/Lib.antt =====
-- This library models parts of the Musecat backend: the experience (exp) of accounts, the flags
-- that report broken games, the community's posts, comments and their translation, conversations
-- between users and arcades, the recovery of Aime, and the ledger of supporters. A handler of the
-- repository runs one database transaction; a definition here is that transaction as a function
-- from the rows it finds to a result and the rows it leaves. A transaction that returns an error is
-- rolled back.
--
-- Parts and files:
--
-- - Prelude: numbers, integers over the native numbers, results, lists and text. Prelude/Text has
--   TrimSpace, Cut, Split and Join; Prelude/Text/Unique is uniqueGameEntryIDs of service/xp/xp.go.
-- - Xp (service/xp/xp.go). Xp/Level: LevelFromExp and BuildExpFeedback; math.Round of a quotient is
--   exact rounding to the nearest integer. Xp/Kinds: the texts that name a grant in the log, and
--   gameEntryIDsFromGrantKind. Xp/Store: the tables user, user_level and user_level_log as a record
--   of operations and laws, LevelDb, which every grant takes as a parameter; Xp/Memory is an
--   implementation. Xp/Award: LoadCurrentExp, IsExpEligible, HasLevelLogKind and AwardExpTx.
--   Xp/Windows: AwardArcadeEditExpTx, AwardArcadeGameEditExpTx and AwardArcadePhotoExpTx.
--   Xp/Public: PreviewArcadePublicExp and GrantArcadePublicBackfillTx.
-- - Community (handlers/community). Community/Document is a row of a post or a comment.
--   Community/Edits: CreatePost, UpdatePost and DeletePost of post.go, CreateComment,
--   UpdateComment, DeleteComment and eraseComment of social.go. Community/Translation:
--   claimTranslation, completeTranslation, failTranslation and one turn of
--   runDueCollectionTranslations of worker.go. Community/Translation/Trace is a step relation over
--   a row and the calls of the translator under way, with any interleaving of edits and workers.
-- - Flag (handlers/arcade/internal/flag_resolution.go and handlers/arcade/flag). Flag/Rows are the
--   rows of a flag and of its reactions. Flag/Votes: FindCurrentFlagVotes, the tally and
--   FlagResolutionDelay. Flag/Rounds: ReconcileFlagResolutionTx, the start and the close of a
--   round, RunAutoSolve and RunStaleResolutionSweep. Flag/Rules: what the requests on a flag check
--   and write; Flag/Reactions: UpdateArcadeFlagReaction, CreateArcadeFlag and DeleteArcadeFlag,
--   which grant exp through Xp/Award.
-- - Messaging (service/messaging). Messaging/Rows are the rows of one conversation with the notices
--   of its messages and the events that its transactions queue. Messaging/Insert: the table of
--   messages with its unique indexes, and existingRetry. Messaging/Input: inputHash,
--   validateMentions and rateLimit. Messaging/Policy: requests, Responder, CanDM, actor,
--   inquiryPolicy and access. Messaging/BotConfig and Messaging/Bot: Validate, canRestartBot,
--   botTransition and appendBotReply. Messaging/Write: changeInquiryStatus and saveMessage;
--   Messaging/Notices: notifyMessageTx; Messaging/Send: SendFor; Messaging/Actions: SetReadFor and
--   SetStatusFor; Messaging/InquiryBot: inquiryBot and verificationBot; Messaging/Earlier and
--   Messaging/Create: the branch of CreateFor for inquiries, over the list of all conversations;
--   Messaging/Direct: the branch of CreateFor for direct conversations, which are rows of their own
--   with their parties; Messaging/Blocks: Block, Preference and Receive; Messaging/Hub: Subscribe,
--   Unsubscribe and Publish. The other modules hold proofs, named for what they prove:
--   Messaging/Reached is a relation of the rows that any requests reach, Messaging/Found and
--   Messaging/Resend are about retries, Messaging/Answers and Messaging/Replies about automatic
--   replies, Messaging/BlockSet about blocks, Messaging/Created about creation and
--   Messaging/OneConversation about direct conversations.
-- - Aime (service/usernotification/aime.go and aime_probe.go). Aime/Probe: RecordAimeProbe and the
--   verdict of ProbeAime; Aime/Subscriptions: SetAimeSubscription and DrainAimeRecoveries;
--   Aime/Recovery, Aime/Stages, Aime/Progress and Aime/Notified hold proofs.
-- - Supporter (handlers/arcade/internal/supporter_score.go). Supporter/Ledger:
--   parseSupporterLedgerKind, the exp of check-ins, Qualified and CanRequest; Supporter/Sources:
--   how it reads the kinds of Xp/Kinds.
-- - Examples: the theorems at concrete inputs.
--
-- Conventions: exp is an unbounded integer, since no total comes near the bounds of Go's int; a
-- time is a number of nanoseconds, 0 for the zero time. The date columns of the database keep
-- milliseconds, which the model does not cut off, so what is said of two times holds up to a
-- millisecond. SHA-256, the translator, the database and SQLite's LIKE are parameters. LevelFromExp
-- doubles and bisects on fuel that grows with the exp, enough for both loops to end by themselves;
-- format_int has fuel for 20 digits, enough for any time in nanoseconds that fits 64 bits. Whether
-- Save succeeds is a Boolean parameter of the community and round transactions; the requests of
-- Flag/Reactions are modelled with a flag store that does not fail, and the transactions of
-- Messaging and Aime with one that fails on its unique indexes only. A transaction of a
-- conversation begins with the viewer resolved and the conversation found; what it reads elsewhere,
-- such as the counts of the last minute, the peer, the audience and the recipients of notices, is
-- the record Surroundings of Messaging/Write. Saving a row writes the columns that changed, so a
-- copy of the case that is older than the row does not undo a status. Rows stand in lists in the
-- order of their creation, those of a conversation with the newest first.
--
-- Not modelled: decoding and validation of request bodies, responses, other notifications,
-- analytics, queries that only read, migrations, geocoding, the rows of messaging_party of
-- inquiries, message reports, push deliveries of messages, campaigns, rankings and the other
-- handlers of arcades and users.
pub mod Prelude
pub mod Xp
pub mod Community
pub mod Flag
pub mod Messaging
pub mod Aime
pub mod Supporter
pub mod Examples
