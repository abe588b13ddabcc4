-- ===== src/Storage/Slack/Threads.antt =====
-- backend/internal/storage/slack_store.go: Slack threads.
use go_dashboard.Prelude.{
  ℕ, String, Bool, ◌&&◌, ◌||◌, Option, none, some, List, [], ◌∷◌, ◌++◌, map, ◌==◌, eqb,
  if◌then◌else◌, find, any, count, map_where, take, ℤ, pos, to_ℕ, lt_ℤ, Error, Result, ok, err,
}
use go_dashboard.Trigger.{Time}
use go_dashboard.Storage.Sql.{Sql, Ctx, pure, fail, lift, ◌>>=◌, ◌>>◌}
use go_dashboard.Storage.Tables.{
  unix_milli, from_unix_milli, from_nullable_time, order_by, constraint_failed,
}
use go_dashboard.Storage.Slack.Rows.{ThreadRow, SlackDb}
use go_dashboard.Slack.Domain.{
  Thread, ThreadIdentity, ThreadSyncStatus, validate_identity, thread_local_id,
}
use go_dashboard.Storage.Slack.Events.{on_slack, from_slack}
use go_dashboard.Prelude.{take}
use mathlib.Core.List.{reverse}

-- `scanSlackThread` of a row.
unfoldable pub thread_of : ThreadRow → Thread
thread_of row = record {
  id = row.id;
  workspace_id = row.workspace_id;
  channel_id = row.channel_id;
  thread_ts = row.thread_ts;
  parent_message_id = row.parent_message_id;
  last_message_ts = row.last_message_ts;
  context_version = row.context_version;
  sync_status = row.sync_status;
  last_synced_at = from_nullable_time row.last_synced_at;
  requested_analysis_version = row.requested_analysis_version;
  latest_workflow_run_id = row.latest_workflow_run_id;
  created_at = from_unix_milli row.created_at;
  updated_at = from_unix_milli row.updated_at;
}

unfoldable pub scan_thread : Option ThreadRow → Result Thread
scan_thread none = err Error.slack_not_found
scan_thread (some row) = ok (thread_of row)

abbrev pub is_identity : ThreadIdentity → ThreadRow → Bool
is_identity identity row =
    row.workspace_id == identity.workspace_id
    && row.channel_id == identity.channel_id
    && row.thread_ts == identity.thread_ts

abbrev pub is_thread : String → ThreadRow → Bool
is_thread id row = row.id == id

unfoldable pub find_thread : String → SlackDb → Option ThreadRow
find_thread id db = find (is_thread id) db.threads

unfoldable pub get_slack_thread_by_identity : Ctx → ThreadIdentity → Sql Thread
get_slack_thread_by_identity ctx identity = do
  row ← from_slack ctx (λ db. find (is_identity identity) db.threads)
  lift (scan_thread row)

unfoldable pub get_slack_thread : Ctx → String → Sql Thread
get_slack_thread ctx id = do row ← from_slack ctx (find_thread id); lift (scan_thread row)

unfoldable pub clamp_thread_limit : ℤ → ℕ
clamp_thread_limit limit = if lt_ℤ limit (pos 1) || lt_ℤ (pos 200) limit then 50 else to_ℕ limit

-- ORDER BY updated_at DESC LIMIT ?
unfoldable pub list_slack_threads : Ctx → ℤ → Sql (List Thread)
list_slack_threads ctx limit = from_slack ctx λ db. map thread_of (
    take (clamp_thread_limit limit)
      (reverse (order_by (λ (t : ThreadRow). t.updated_at) db.threads)))

abbrev pub set_thread_status : ThreadSyncStatus → Time → ThreadRow → ThreadRow
set_thread_status status now row = record row { sync_status = status; updated_at = unix_milli now }

-- UPDATE slack_threads SET … WHERE id=?, with the number of rows.
unfoldable pub update_thread : String → (ThreadRow → ThreadRow) → SlackDb → Result (ℕ × SlackDb)
update_thread id f db =
    ok (
      count (is_thread id) db.threads,
      record db { threads = map_where (is_thread id) f db.threads },
    )

unfoldable pub update_slack_thread_status : Ctx → Time → String → ThreadSyncStatus → Sql (Unit {0})
update_slack_thread_status ctx now id status = do
  rows ← on_slack ctx (update_thread id (set_thread_status status now))
  if eqb rows 0 then fail Error.slack_not_found else pure tt

abbrev pub link_run : ℤ → String → Time → ThreadRow → ThreadRow
link_run context_version run_id now row = record row {
  requested_analysis_version = context_version;
  latest_workflow_run_id = run_id;
  updated_at = unix_milli now;
}

unfoldable pub link_slack_workflow_run : Ctx → Time → String → ℤ → String → Sql (Unit {0})
link_slack_workflow_run ctx now thread_id context_version run_id = do
  rows ← on_slack ctx (update_thread thread_id (link_run context_version run_id now))
  if eqb rows 0 then fail Error.slack_not_found else pure tt

module _ (digest : String → String) where
  abbrev pub new_thread_row : ThreadIdentity → ThreadSyncStatus → Time → ThreadRow
  new_thread_row identity status now = record {
    id = thread_local_id digest identity;
    workspace_id = identity.workspace_id;
    channel_id = identity.channel_id;
    thread_ts = identity.thread_ts;
    parent_message_id = "";
    last_message_ts = "";
    context_version = pos 0;
    sync_status = status;
    last_synced_at = none;
    requested_analysis_version = pos 0;
    latest_workflow_run_id = "";
    created_at = unix_milli now;
    updated_at = unix_milli now;
  }

  -- INSERT … ON CONFLICT(workspace_id, channel_id, thread_ts) DO NOTHING; the ID is the primary key.
  unfoldable pub insert_thread :
      ThreadIdentity → ThreadSyncStatus → Time → SlackDb → Result (ℕ × SlackDb)
  insert_thread identity status now db =
      if any (is_identity identity) db.threads
      then ok (0, db)
      else if any (is_thread (thread_local_id digest identity)) db.threads
      then constraint_failed "slack_threads"
      else ok (1, record db { threads = db.threads ++ new_thread_row identity status now ∷ [] })

  -- The Boolean is whether the thread is new.
  unfoldable pub ensure_slack_thread :
      Ctx → Time → ThreadIdentity → ThreadSyncStatus → Sql (Thread × Bool)
  ensure_slack_thread ctx now identity status = do
    lift (validate_identity identity)
    rows ← on_slack ctx (insert_thread identity status now)
    thread ← get_slack_thread_by_identity ctx identity
    pure (thread, eqb rows 1)
