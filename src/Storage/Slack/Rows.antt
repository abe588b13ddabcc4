-- ===== src/Storage/Slack/Rows.antt =====
-- backend/internal/storage/migrations/002_slack_text_ingestion.sql and 003_slack_attachments.sql: the rows
-- of the Slack tables. Times are in milliseconds.
use go_dashboard.Prelude.{ℕ, ℤ, String, Bool, Option, List, []}
use go_dashboard.Json.{RawMessage}
use go_dashboard.Slack.Domain.{ThreadSyncStatus, FileStatus}

-- `status` of `slack_events`
pub data ClaimStatus : Type 0 where
  processing processed : ClaimStatus

pub record SlackEventRow : Type 0 where
  pub event_id : String
  pub status : ClaimStatus
  pub received_at : ℕ
  pub claimed_at : ℕ
  pub processed_at : Option ℕ

pub record ThreadRow : Type 0 where
  pub id : String
  pub workspace_id : String
  pub channel_id : String
  pub thread_ts : String
  pub parent_message_id : String
  pub last_message_ts : String
  pub context_version : ℤ
  pub sync_status : ThreadSyncStatus
  pub last_synced_at : Option ℕ
  pub requested_analysis_version : ℤ
  pub latest_workflow_run_id : String
  pub created_at : ℕ
  pub updated_at : ℕ

pub record MessageRow : Type 0 where
  pub id : String
  pub thread_id : String
  pub workspace_id : String
  pub channel_id : String
  pub slack_message_ts : String
  pub thread_ts : String
  pub author_id : String
  pub text : String
  pub content_hash : String
  pub is_parent : Bool
  pub is_deleted : Bool
  pub edited_at : Option ℕ
  pub deleted_at : Option ℕ
  pub slack_created_at : ℕ
  pub created_at : ℕ
  pub updated_at : ℕ

pub record AttachmentRow : Type 0 where
  pub id : String
  pub workspace_id : String
  pub message_id : String
  pub thread_id : String
  pub slack_file_id : String
  pub filename : String
  pub mime_type : String
  pub size_bytes : ℤ
  pub checksum : String
  pub local_path : String
  pub download_status : FileStatus
  pub extraction_status : FileStatus
  pub extractor_name : String
  pub extractor_version : String
  pub is_removed : Bool
  pub created_at : ℕ
  pub updated_at : ℕ

pub record DocumentRow : Type 0 where
  pub id : String
  pub attachment_id : String
  pub content : String
  pub metadata_json : RawMessage
  pub extractor_name : String
  pub extractor_version : String
  pub created_at : ℕ

pub record SlackDb : Type 0 where
  pub events : List SlackEventRow
  pub threads : List ThreadRow
  pub messages : List MessageRow
  pub attachments : List AttachmentRow
  pub documents : List DocumentRow

abbrev pub no_slack : SlackDb
no_slack = record { events = []; threads = []; messages = []; attachments = []; documents = [] }
