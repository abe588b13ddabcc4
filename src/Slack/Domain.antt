-- ===== src/Slack/Domain.antt =====
-- backend/internal/slack/domain.go: threads, messages and their identities. SHA-256 is a parameter:
-- `digest` gives the hexadecimal digest of a text.
use go_dashboard.Prelude.{
  String, Bool, ◌||◌, Option, List, [], ◌∷◌, take, chars, of_chars, is_blank, Error, Result, ℤ,
  format_ℤ,
}
use go_dashboard.Prelude.Results.{refuse_if}
use Prim.Native.String.{◌++◌ as concat}
use go_dashboard.Trigger.{Time}
use go_dashboard.Json.{RawMessage}

pub data ThreadSyncStatus : Type 0 where
  uninitialized syncing synchronized dirty failed : ThreadSyncStatus

pub record ThreadIdentity : Type 0 where
  pub workspace_id : String
  pub channel_id : String
  pub thread_ts : String

unfoldable pub validate_identity : ThreadIdentity → Result (Unit {0})
validate_identity identity =
    refuse_if
      (is_blank identity.workspace_id
        || is_blank identity.channel_id
        || is_blank identity.thread_ts)
      Error.slack_invalid_identity

pub record MessageIdentity : Type 0 where
  pub workspace_id : String
  pub channel_id : String
  pub message_ts : String

-- `strings.Join(parts, "\x00")`
unfoldable pub join_parts : List String → String
join_parts [] = ""
join_parts (p ∷ []) = p
join_parts (p ∷ q ∷ rest) = concat p (concat "\0" (join_parts (q ∷ rest)))

module _ (digest : String → String) where
  -- `hash[:12]` is the first 24 hexadecimal digits.
  unfoldable pub stable_id : String → List String → String
  stable_id prefix parts =
      concat prefix (concat "_" (of_chars (take 24 (chars (digest (join_parts parts))))))

  unfoldable pub thread_local_id : ThreadIdentity → String
  thread_local_id identity =
      stable_id "thread" (identity.workspace_id ∷ identity.channel_id ∷ identity.thread_ts ∷ [])

  unfoldable pub message_local_id : MessageIdentity → String
  message_local_id identity =
      stable_id "message" (identity.workspace_id ∷ identity.channel_id ∷ identity.message_ts ∷ [])

pub record Thread : Type 0 where
  pub id : String
  pub workspace_id : String
  pub channel_id : String
  pub thread_ts : String
  pub parent_message_id : String
  pub last_message_ts : String
  pub context_version : ℤ
  pub sync_status : ThreadSyncStatus
  pub last_synced_at : Option Time
  pub requested_analysis_version : ℤ
  pub latest_workflow_run_id : String
  pub created_at : Time
  pub updated_at : Time

unfoldable pub thread_identity : Thread → ThreadIdentity
thread_identity thread = record {
  workspace_id = thread.workspace_id;
  channel_id = thread.channel_id;
  thread_ts = thread.thread_ts;
}

pub record Message : Type 0 where
  pub id : String
  pub thread_id : String
  pub workspace_id : String
  pub channel_id : String
  pub slack_timestamp : String
  pub thread_timestamp : String
  pub author_id : String
  pub text : String
  pub content_hash : String
  pub is_parent : Bool
  pub is_deleted : Bool
  pub edited_at : Option Time
  pub deleted_at : Option Time
  pub slack_created_at : Time
  pub created_at : Time
  pub updated_at : Time

pub record ContextSnapshot : Type 0 where
  pub thread_id : String
  pub context_version : ℤ
  pub content : String
  pub messages : List Message

pub record AttachmentInput : Type 0 where
  pub slack_file_id : String
  pub filename : String
  pub mime_type : String
  pub size_bytes : ℤ

pub record MessageInput : Type 0 where
  pub workspace_id : String
  pub channel_id : String
  pub slack_timestamp : String
  pub thread_timestamp : String
  pub author_id : String
  pub text : String
  pub is_deleted : Bool
  pub edited_at : Option Time
  pub deleted_at : Option Time
  pub attachments : List AttachmentInput
  pub attachments_known : Bool

pub data FileStatus : Type 0 where
  pending downloading downloaded extracting completed unsupported failed : FileStatus

pub record Attachment : Type 0 where
  pub id : String
  pub message_id : String
  pub thread_id : String
  pub slack_file_id : String
  pub filename : String
  pub mime_type : String
  pub size_bytes : ℤ
  pub checksum : String
  pub download_status : FileStatus
  pub extraction_status : FileStatus
  pub extractor_name : String
  pub extractor_version : String
  pub is_removed : Bool
  pub created_at : Time
  pub updated_at : Time
  pub local_path : String

-- The metadata are a JSON object.
pub record ExtractedDocument : Type 0 where
  pub id : String
  pub attachment_id : String
  pub content : String
  pub metadata : RawMessage
  pub extractor_name : String
  pub extractor_version : String
  pub created_at : Time

unfoldable pub message_identity : MessageInput → MessageIdentity
message_identity input = record {
  workspace_id = input.workspace_id;
  channel_id = input.channel_id;
  message_ts = input.slack_timestamp;
}

module _ (digest : String → String) where
  unfoldable pub attachment_local_id : AttachmentInput → String → String
  attachment_local_id attachment workspace_id =
      stable_id digest "attachment" (workspace_id ∷ attachment.slack_file_id ∷ [])

  -- The whole digest of the text.
  unfoldable pub content_hash : MessageInput → String
  content_hash input = digest input.text

  unfoldable pub request_id : ContextSnapshot → String
  request_id snapshot =
      stable_id digest "request" (snapshot.thread_id ∷ format_ℤ snapshot.context_version ∷ [])
