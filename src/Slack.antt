-- ===== src/Slack.antt =====
-- backend/internal/slack
pub mod Domain
pub mod Timestamp
pub mod Event
pub mod Client
pub mod Service
pub mod Context
