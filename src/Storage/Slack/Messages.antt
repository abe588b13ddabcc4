-- ===== src/Storage/Slack/Messages.antt =====
-- backend/internal/storage/slack_store.go: the messages of a thread. The foreign keys of a message and of
-- its attachments are rows that the same transaction has read or written.
use go_dashboard.Prelude.{
  increment, String, Bool, true, false, not, ◌&&◌, ◌||◌, Option, none, some, List, [], ◌∷◌, ◌++◌,
  map, ◌==◌, ltb, eqb, if◌then◌else◌, select, find, any, map_where, str_lt, Error, Result, ok, err,
}
use go_dashboard.Trigger.{Time}
use go_dashboard.Storage.Sql.{Sql, Ctx, pure, fail, lift, commit, transaction, ◌>>=◌, ◌>>◌}
use go_dashboard.Storage.Tables.{
  unix_milli, from_unix_milli, nullable_time, from_nullable_time, constraint_failed,
}
use go_dashboard.Storage.Slack.Rows.{ThreadRow, MessageRow, SlackDb}
use go_dashboard.Storage.Slack.Events.{on_slack, from_slack}
use go_dashboard.Slack.Domain.{
  Thread, Message, MessageIdentity, MessageInput, ThreadSyncStatus, message_identity,
  message_local_id, content_hash,
}
use go_dashboard.Slack.Timestamp.{slack_time}
use go_dashboard.Storage.Slack.Threads.{scan_thread, find_thread, get_slack_thread, update_thread}
use go_dashboard.Storage.Slack.Attachments.{apply_slack_attachments}

abbrev pub is_message : String → String → String → MessageRow → Bool
is_message workspace_id channel_id ts row =
    row.workspace_id == workspace_id && row.channel_id == channel_id && row.slack_message_ts == ts

abbrev pub holds_message : MessageInput → MessageRow → Bool
holds_message input row = is_message input.workspace_id input.channel_id input.slack_timestamp row

unfoldable pub find_message : MessageInput → SlackDb → Option MessageRow
find_message input db = find (holds_message input) db.messages

-- The message belongs to the thread, and has a timestamp.
unfoldable pub belongs : Thread → MessageInput → Bool
belongs thread input =
    input.workspace_id == thread.workspace_id
    && input.channel_id == thread.channel_id
    && input.thread_timestamp == thread.thread_ts
    && not (input.slack_timestamp == "")

abbrev pub bool_eq : Bool → Bool → Bool
bool_eq true b = b
bool_eq false b = not b

abbrev pub synchronized_status : ThreadSyncStatus → Bool
synchronized_status ThreadSyncStatus.synchronized = true
synchronized_status _ = false

abbrev pub time_or : Time → Time → Time
time_or now t = if eqb t 0 then now else t

module _ (digest : String → String) where
  -- `materialChange`, before the attachments.
  abbrev pub message_differs : Option MessageRow → MessageInput → Bool
  message_differs none input = true
  message_differs (some row) input =
      not (row.content_hash == content_hash digest input)
      || not (bool_eq row.is_deleted input.is_deleted)
      || not (row.author_id == input.author_id)

  abbrev pub message_id : MessageInput → String
  message_id input = message_local_id digest (message_identity input)

  abbrev pub new_message_row : Thread → Time → MessageInput → MessageRow
  new_message_row thread now input = record {
    id = message_id input;
    thread_id = thread.id;
    workspace_id = input.workspace_id;
    channel_id = input.channel_id;
    slack_message_ts = input.slack_timestamp;
    thread_ts = input.thread_timestamp;
    author_id = input.author_id;
    text = input.text;
    content_hash = content_hash digest input;
    is_parent = input.slack_timestamp == input.thread_timestamp;
    is_deleted = input.is_deleted;
    edited_at = nullable_time input.edited_at;
    deleted_at = nullable_time input.deleted_at;
    slack_created_at = unix_milli (time_or now (slack_time input.slack_timestamp));
    created_at = unix_milli now;
    updated_at = unix_milli now;
  }

  abbrev pub set_message : Thread → Time → MessageInput → MessageRow → MessageRow
  set_message thread now input row = record row {
    thread_id = thread.id;
    thread_ts = input.thread_timestamp;
    author_id = input.author_id;
    text = input.text;
    content_hash = content_hash digest input;
    is_parent = input.slack_timestamp == input.thread_timestamp;
    is_deleted = input.is_deleted;
    edited_at = nullable_time input.edited_at;
    deleted_at = nullable_time input.deleted_at;
    updated_at = unix_milli now;
  }

  -- INSERT … ON CONFLICT(workspace_id, channel_id, slack_message_ts) DO UPDATE; the ID is the primary key.
  unfoldable pub upsert_message :
      Thread → Time → MessageInput → SlackDb → Result (Unit {0} × SlackDb)
  upsert_message thread now input db =
      if any (holds_message input) db.messages
      then ok (
        tt,
        record db {
          messages = map_where (holds_message input) (set_message thread now input) db.messages;
        },
      )
      else if any (λ (m : MessageRow). m.id == message_id input) db.messages
      then constraint_failed "slack_messages"
      else ok (tt, record db { messages = db.messages ++ new_message_row thread now input ∷ [] })

  unfoldable pub apply_attachments_if_known : Ctx → Time → Thread → MessageInput → Sql Bool
  apply_attachments_if_known ctx now thread input =
      if input.attachments_known
      then apply_slack_attachments digest now thread (message_id input) ctx input.attachments
      else pure false

  -- One round of the loop: whether the message or its attachments have changed.
  unfoldable pub apply_message : Ctx → Time → Thread → MessageInput → Sql Bool
  apply_message ctx now thread input =
      if not (belongs thread input) then fail Error.slack_invalid_identity else do
        existing ← from_slack ctx (find_message input)
        on_slack ctx (upsert_message thread now input)
        attached ← apply_attachments_if_known ctx now thread input
        pure (message_differs existing input || attached)

  abbrev pub later_ts : String → MessageInput → String
  later_ts last input = if str_lt last input.slack_timestamp then input.slack_timestamp else last

  abbrev pub parent_or : Thread → String → MessageInput → String
  parent_or thread parent input =
      if input.slack_timestamp == thread.thread_ts then message_id input else parent

  -- What the loop carries: whether anything has changed, the last timestamp, and the parent's ID.
  unfoldable pub apply_messages :
      Ctx
      → Time
      → Thread
      → List MessageInput
      → Bool
      → String
      → String
      → Sql (Bool × String × String)
  apply_messages ctx now thread [] changed last parent = pure (changed, last, parent)
  apply_messages ctx now thread (input ∷ rest) changed last parent =
      apply_message ctx now thread input >>= λ material.
      apply_messages ctx now thread rest (changed || material) (later_ts last input)
        (parent_or thread parent input)

  abbrev pub target_status : ThreadSyncStatus → Bool → ThreadSyncStatus → ThreadSyncStatus
  target_status status changed old =
      if synchronized_status status
      then ThreadSyncStatus.synchronized
      else if changed
      then ThreadSyncStatus.dirty
      else old

  abbrev pub advanced_row :
      Thread → Time → ThreadSyncStatus → Bool → String → String → ThreadRow → ThreadRow
  advanced_row thread now status changed last parent row = record row {
    parent_message_id = parent;
    last_message_ts = last;
    context_version = if changed then increment thread.context_version else thread.context_version;
    sync_status = target_status status changed thread.sync_status;
    last_synced_at =
        if synchronized_status status
        then some (unix_milli now)
        else nullable_time thread.last_synced_at;
    updated_at = unix_milli now;
  }

  unfoldable pub apply_body :
      Ctx → Time → String → List MessageInput → ThreadSyncStatus → Sql (String × Bool)
  apply_body ctx now thread_id inputs status = do
    row ← from_slack ctx (find_thread thread_id)
    thread ← lift (scan_thread row)
    (changed, last, parent) ←
        apply_messages ctx now thread inputs false thread.last_message_ts thread.parent_message_id
    _ ← on_slack ctx (update_thread thread.id (advanced_row thread now status changed last parent))
    commit ctx
    pure (thread.id, changed)

  -- The Boolean is whether anything has changed. The thread is read again after the commit.
  unfoldable pub apply_slack_messages :
      Ctx → Time → String → List MessageInput → ThreadSyncStatus → Sql (Thread × Bool)
  apply_slack_messages ctx now thread_id inputs status = do
    (id, changed) ← transaction ctx (apply_body ctx now thread_id inputs status)
    updated ← get_slack_thread ctx id
    pure (updated, changed)

-- `scanSlackMessage` of a row.
unfoldable pub message_of : MessageRow → Message
message_of row = record {
  id = row.id;
  thread_id = row.thread_id;
  workspace_id = row.workspace_id;
  channel_id = row.channel_id;
  slack_timestamp = row.slack_message_ts;
  thread_timestamp = row.thread_ts;
  author_id = row.author_id;
  text = row.text;
  content_hash = row.content_hash;
  is_parent = row.is_parent;
  is_deleted = row.is_deleted;
  edited_at = from_nullable_time row.edited_at;
  deleted_at = from_nullable_time row.deleted_at;
  slack_created_at = from_unix_milli row.slack_created_at;
  created_at = from_unix_milli row.created_at;
  updated_at = from_unix_milli row.updated_at;
}

unfoldable pub scan_message : Option MessageRow → Result Message
scan_message none = err Error.slack_not_found
scan_message (some row) = ok (message_of row)

-- `ORDER BY slack_created_at, slack_message_ts`
abbrev message_before : MessageRow → MessageRow → Bool
message_before a b =
    ltb a.slack_created_at b.slack_created_at
    || (eqb a.slack_created_at b.slack_created_at && str_lt a.slack_message_ts b.slack_message_ts)

unfoldable pub insert_message : MessageRow → List MessageRow → List MessageRow
insert_message a [] = a ∷ []
insert_message a (b ∷ bs) =
    let rest = insert_message a bs in if message_before b a then b ∷ rest else a ∷ b ∷ bs

unfoldable pub ordered_messages : List MessageRow → List MessageRow
ordered_messages [] = []
ordered_messages (a ∷ rest) = insert_message a (ordered_messages rest)

unfoldable pub list_slack_messages : Ctx → String → Sql (List Message)
list_slack_messages ctx thread_id = from_slack ctx λ db.
    map message_of
      (ordered_messages (select (λ (m : MessageRow). m.thread_id == thread_id) db.messages))

unfoldable pub get_slack_message_by_identity : Ctx → MessageIdentity → Sql Message
get_slack_message_by_identity ctx identity = do
  row ← from_slack ctx λ db.
      find (is_message identity.workspace_id identity.channel_id identity.message_ts) db.messages
  lift (scan_message row)
