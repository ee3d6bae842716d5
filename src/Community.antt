-- ===== src/Community.antt =====
-- Community posts and comments (handlers/community): the document, its edits, and the translation
-- worker.
pub mod Document
pub mod Edits
pub mod Translation
