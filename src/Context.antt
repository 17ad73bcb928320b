-- ===== src/Context.antt =====
-- What a chat session remembers.
pub mod Conversation
mod Tests
