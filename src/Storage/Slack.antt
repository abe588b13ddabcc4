-- ===== src/Storage/Slack.antt =====
-- backend/internal/storage/slack_store.go
pub mod Rows
pub mod Events
pub mod Threads
pub mod Attachments
pub mod Messages
pub mod Documents
pub mod Calls
pub mod Steady
pub mod Processed
pub mod Exclusive
pub mod Versions
pub mod Ensured
pub mod Stale
