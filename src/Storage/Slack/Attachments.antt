-- ===== src/Storage/Slack/Attachments.antt =====
-- backend/internal/storage/slack_store.go: the attachments of a message, inside the transaction that
-- writes the message.
use go_dashboard.Prelude.{
  String, Bool, true, false, not, ◌&&◌, ◌||◌, Option, none, some, List, [], ◌∷◌, ◌++◌, map, ◌==◌,
  ltb, eqb, if◌then◌else◌, select, find, any, map_where, eq_ℤ, str_lt, Result, ok,
}
use go_dashboard.Trigger.{Time}
use go_dashboard.Storage.Sql.{Sql, Ctx, pure, ◌>>=◌}
use go_dashboard.Storage.Tables.{unix_milli, from_unix_milli, constraint_failed}
use go_dashboard.Storage.Slack.Rows.{AttachmentRow, SlackDb}
use go_dashboard.Storage.Slack.Events.{on_slack, from_slack}
use go_dashboard.Slack.Domain.{Thread, AttachmentInput, Attachment, FileStatus, attachment_local_id}

unfoldable pub attachments_of : String → SlackDb → List AttachmentRow
attachments_of message_id db =
    select (λ (a : AttachmentRow). a.message_id == message_id) db.attachments

abbrev pub is_file : String → AttachmentRow → Bool
is_file id row = row.slack_file_id == id

abbrev pub is_file_in : String → String → AttachmentRow → Bool
is_file_in workspace_id id row = row.workspace_id == workspace_id && row.slack_file_id == id

-- The name of the file, or its ID where it has none.
unfoldable pub shown_filename : AttachmentInput → String
shown_filename input = if input.filename == "" then input.slack_file_id else input.filename

-- `!found || current.… != …`
abbrev pub file_differs : Option AttachmentRow → AttachmentInput → Bool
file_differs none input = true
file_differs (some row) input =
    not (row.filename == shown_filename input)
    || not (row.mime_type == input.mime_type)
    || not (eq_ℤ row.size_bytes input.size_bytes)
    || row.is_removed

module _ (digest : String → String) (now : Time) (thread : Thread) (message_id : String) where
  abbrev pub new_attachment_row : AttachmentInput → AttachmentRow
  new_attachment_row input = record {
    id = attachment_local_id digest input thread.workspace_id;
    workspace_id = thread.workspace_id;
    message_id = message_id;
    thread_id = thread.id;
    slack_file_id = input.slack_file_id;
    filename = shown_filename input;
    mime_type = input.mime_type;
    size_bytes = input.size_bytes;
    checksum = "";
    local_path = "";
    download_status = FileStatus.pending;
    extraction_status = FileStatus.pending;
    extractor_name = "";
    extractor_version = "";
    is_removed = false;
    created_at = unix_milli now;
    updated_at = unix_milli now;
  }

  abbrev pub set_attachment : AttachmentInput → AttachmentRow → AttachmentRow
  set_attachment input row = record row {
    message_id = message_id;
    thread_id = thread.id;
    filename = shown_filename input;
    mime_type = input.mime_type;
    size_bytes = input.size_bytes;
    is_removed = false;
    updated_at = unix_milli now;
  }

  -- INSERT … ON CONFLICT(workspace_id, slack_file_id) DO UPDATE; the ID is the primary key.
  unfoldable pub upsert_attachment : AttachmentInput → SlackDb → Result (Unit {0} × SlackDb)
  upsert_attachment input db =
      if any (is_file_in thread.workspace_id input.slack_file_id) db.attachments
      then ok (
        tt,
        record db {
          attachments =
              map_where (is_file_in thread.workspace_id input.slack_file_id) (set_attachment input)
                db.attachments;
        },
      )
      else if any
          (λ (a : AttachmentRow). a.id == attachment_local_id digest input thread.workspace_id)
          db.attachments
      then constraint_failed "slack_attachments"
      else ok (tt, record db { attachments = db.attachments ++ new_attachment_row input ∷ [] })

  -- The loop over the files of the message; a file without an ID is passed over.
  unfoldable pub write_attachments :
      Ctx → List AttachmentRow → Bool → List AttachmentInput → Sql Bool
  write_attachments ctx existing changed [] = pure changed
  write_attachments ctx existing changed (input ∷ rest) =
      if input.slack_file_id == ""
      then write_attachments ctx existing changed rest
      else (on_slack ctx (upsert_attachment input) >>= λ _.
          write_attachments ctx existing
            (changed || file_differs (find (is_file input.slack_file_id) existing) input) rest)

  abbrev pub removed_row : AttachmentRow → AttachmentRow
  removed_row row = record row { is_removed = true; updated_at = unix_milli now }

  unfoldable pub mark_removed : String → SlackDb → Result (Unit {0} × SlackDb)
  mark_removed id db = ok (
    tt,
    record db {
      attachments = map_where (is_file_in thread.workspace_id id) removed_row db.attachments;
    },
  )

  unfoldable pub is_seen : List AttachmentInput → String → Bool
  is_seen inputs id =
      any (λ (i : AttachmentInput). not (i.slack_file_id == "") && i.slack_file_id == id) inputs

  -- The loop over the rows that the message had before.
  unfoldable pub remove_attachments :
      Ctx → List AttachmentInput → Bool → List AttachmentRow → Sql Bool
  remove_attachments ctx inputs changed [] = pure changed
  remove_attachments ctx inputs changed (row ∷ rest) =
      if not (is_seen inputs row.slack_file_id) && not row.is_removed
      then (on_slack ctx (mark_removed row.slack_file_id) >>= λ _.
          remove_attachments ctx inputs true rest)
      else remove_attachments ctx inputs changed rest

  unfoldable pub apply_slack_attachments : Ctx → List AttachmentInput → Sql Bool
  apply_slack_attachments ctx inputs = do
    existing ← from_slack ctx (attachments_of message_id)
    written ← write_attachments ctx existing false inputs
    remove_attachments ctx inputs written existing

unfoldable pub attachment_of : AttachmentRow → Attachment
attachment_of row = record {
  id = row.id;
  message_id = row.message_id;
  thread_id = row.thread_id;
  slack_file_id = row.slack_file_id;
  filename = row.filename;
  mime_type = row.mime_type;
  size_bytes = row.size_bytes;
  checksum = row.checksum;
  download_status = row.download_status;
  extraction_status = row.extraction_status;
  extractor_name = row.extractor_name;
  extractor_version = row.extractor_version;
  is_removed = row.is_removed;
  created_at = from_unix_milli row.created_at;
  updated_at = from_unix_milli row.updated_at;
  local_path = row.local_path;
}

-- `ORDER BY created_at, id`
abbrev before : AttachmentRow → AttachmentRow → Bool
before a b = ltb a.created_at b.created_at || (eqb a.created_at b.created_at && str_lt a.id b.id)

unfoldable pub insert_attachment : AttachmentRow → List AttachmentRow → List AttachmentRow
insert_attachment a [] = a ∷ []
insert_attachment a (b ∷ bs) =
    let rest = insert_attachment a bs in if before b a then b ∷ rest else a ∷ b ∷ bs

unfoldable pub ordered_attachments : List AttachmentRow → List AttachmentRow
ordered_attachments [] = []
ordered_attachments (a ∷ rest) = insert_attachment a (ordered_attachments rest)

unfoldable pub list_slack_attachments : Ctx → String → Sql (List Attachment)
list_slack_attachments ctx thread_id = from_slack ctx λ db.
    map attachment_of (
      ordered_attachments (select (λ (a : AttachmentRow). a.thread_id == thread_id) db.attachments))
