-- ===== src/Storage/Slack/Calls.antt =====
-- backend/internal/storage/slack_store.go: the methods of `Store` that write Slack tables as one type of
-- calls, so that a history of these tables is a list of calls. Each has its own context and time.
use go_dashboard.Prelude.{ℤ, String, List, [], ◌∷◌}
use go_dashboard.Trigger.{Time}
use go_dashboard.Storage.Sql.{Conn, Ctx}
use go_dashboard.Slack.Domain.{ThreadIdentity, ThreadSyncStatus, MessageInput, ExtractedDocument}
use go_dashboard.Storage.Slack.Events.{claim_slack_event, complete_slack_event, release_slack_event}
use go_dashboard.Storage.Slack.Threads.{
  ensure_slack_thread, update_slack_thread_status, link_slack_workflow_run,
}
use go_dashboard.Storage.Slack.Messages.{apply_slack_messages}
use go_dashboard.Storage.Slack.Documents.{create_extracted_document}

pub data SlackCall : Type 0 where
  claims_event completes_event : String → Time → SlackCall
  releases_event : String → SlackCall
  ensures_thread : ThreadIdentity → ThreadSyncStatus → SlackCall
  sets_status : String → ThreadSyncStatus → SlackCall
  applies_messages : String → List MessageInput → ThreadSyncStatus → SlackCall
  links_run : String → ℤ → String → SlackCall
  creates_document : ExtractedDocument → SlackCall

module _ (digest : String → String) where
  -- The connection after a call, whatever the call returned.
  unfoldable pub perform_slack : Ctx → Time → SlackCall → Conn → Conn
  perform_slack ctx now (claims_event id received_at) conn =
      (claim_slack_event ctx now id received_at conn).1
  perform_slack ctx now (completes_event id processed_at) conn =
      (complete_slack_event ctx id processed_at conn).1
  perform_slack ctx now (releases_event id) conn = (release_slack_event ctx id conn).1
  perform_slack ctx now (ensures_thread identity status) conn =
      (ensure_slack_thread digest ctx now identity status conn).1
  perform_slack ctx now (sets_status id status) conn =
      (update_slack_thread_status ctx now id status conn).1
  perform_slack ctx now (applies_messages id inputs status) conn =
      (apply_slack_messages digest ctx now id inputs status conn).1
  perform_slack ctx now (links_run id version run_id) conn =
      (link_slack_workflow_run ctx now id version run_id conn).1
  perform_slack ctx now (creates_document value) conn =
      (create_extracted_document ctx now value conn).1

  unfoldable pub perform_all_slack : List (Ctx × Time × SlackCall) → Conn → Conn
  perform_all_slack [] conn = conn
  perform_all_slack ((ctx, now, call) ∷ calls) conn =
      perform_all_slack calls (perform_slack ctx now call conn)
