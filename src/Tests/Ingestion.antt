-- ===== src/Tests/Ingestion.antt =====
-- The theorems on Slack at concrete inputs.
use go_dashboard.Prelude.{
  select, str_lt, count, map_where, find, is_blank, String, ◌≡◌, refl, subst, ◌≢◌, ◌⊎◌, inl, true,
  false, Option, none, some, List, [], ◌∷◌, arith, any, All, pos, trim_space, Error, ok, err,
}
use go_dashboard.Trigger.{Time, Request}
use go_dashboard.Json.{RawMessage, absent}
use go_dashboard.Workflow.Run.{Run}
use go_dashboard.Workflow.Executor.World as Worlds
use go_dashboard.Workflow.Executor.World.{World, Exec}
use go_dashboard.Storage.Db
use go_dashboard.Storage.Sql as Sqls
use go_dashboard.Storage.Sql.{Conn, Ctx, background}
use go_dashboard.Storage.Slack.Rows.{
  SlackEventRow, ThreadRow, SlackDb, no_slack, processed, processing,
}
use go_dashboard.Storage.Slack.Events as Events
use go_dashboard.Storage.Slack.Events.{claim_slack_event, is_recent}
use go_dashboard.Storage.Slack.Calls.{
  SlackCall, perform_all_slack, claims_event, releases_event, sets_status, links_run,
}
use go_dashboard.Storage.Slack.Processed.{processed_for_good}
use go_dashboard.Storage.Slack.Exclusive.Held.{claim_exclusive}
use go_dashboard.Storage.Slack.Versions.{HasVersion, version_never_decreases}
use go_dashboard.Slack.Domain.{ThreadSyncStatus, MessageInput}
use go_dashboard.Slack.Event as Event
use go_dashboard.Slack.Event.{EventEnvelope, EventFields, MessageEvent, event, nil, normalize_event}
use go_dashboard.Slack.Event.Usable.{IsUsable, normalize_event-IsUsable}
use go_dashboard.Slack.Service as Service
use go_dashboard.Slack.Service.{handle_event, claim}
use go_dashboard.Slack.Service.Delivery.{redelivered}
use go_dashboard.Slack.Service.Settled.{IsReleased, claim_settled}
use go_dashboard.Slack.Client.{RepliesResponse, SlackMessage, fetch_thread}
use go_dashboard.Slack.Client.Pages.{IsFetched, fetch_thread-ends}
use go_dashboard.Slack.Domain.{Thread, ThreadIdentity}
use go_dashboard.Slack.Domain as Domain
use go_dashboard.Storage.Slack.Threads as Threads
use go_dashboard.Storage.Slack.Threads.{
  thread_of, new_thread_row, get_slack_thread_by_identity, ensure_slack_thread,
}
use go_dashboard.Storage.Slack.Ensured.{ensure_again}
use go_dashboard.Storage.Slack.Stale.{stale_claim}
use go_dashboard.Workflow.Status.{RunStatus}
use go_dashboard.Storage.Slack.Rows.{MessageRow}
use go_dashboard.Storage.Slack.Messages as Messages
use go_dashboard.Slack.Service.{analyze}
use go_dashboard.Slack.Context as Context
use go_dashboard.Slack.Service.Analysis.{IsAsked, analyze-asks}

abbrev same : String → String
same s = s

abbrev processed_event : SlackEventRow
processed_event = record {
  event_id = "Ev1";
  status = processed;
  received_at = 1;
  claimed_at = 1;
  processed_at = some 2;
}

abbrev thread_row : ThreadRow
thread_row = record {
  id = "thread_1";
  workspace_id = "T1";
  channel_id = "C1";
  thread_ts = "10.5";
  parent_message_id = "";
  last_message_ts = "";
  context_version = pos 3;
  sync_status = ThreadSyncStatus.synchronized;
  last_synced_at = none;
  requested_analysis_version = pos 2;
  latest_workflow_run_id = "";
  created_at = 1;
  updated_at = 1;
}

abbrev with_slack : SlackDb → Conn
with_slack slack = record { db = record Db.empty { slack = slack }; faults = [] }

abbrev handled_once : Conn
handled_once = with_slack (record no_slack { events = processed_event ∷ [] })

abbrev history : List (Ctx × Time × SlackCall)
history = (background, 8, releases_event "Ev1") ∷ (background, 9, claims_event "Ev1" 1) ∷ []

processed_for_good_example :
    (claim_slack_event background 10 "Ev1" 1 (perform_all_slack same history handled_once)).0
    ≢ ok true
unfolding any
processed_for_good_example =
    processed_for_good same "Ev1" history handled_once background 10 1 ((λ _. refl, tt), refl)

abbrev meanwhile : List (Ctx × Time × SlackCall)
meanwhile =
    (background, 1_500_000, claims_event "Ev1" 1)
    ∷ (background, 1_600_000, claims_event "Ev2" 1)
    ∷ []

claim_exclusive_example :
    (claim_slack_event background 2_000_000 "Ev1" 1 (
      perform_all_slack same meanwhile
        (claim_slack_event background 1_000_000 "Ev1" 1 (with_slack no_slack)).1)).0
    ≢ ok true
unfolding claim_slack_event Events.insert_claim Sqls.statement Sqls.◌>>=◌ any
claim_exclusive_example =
    claim_exclusive same "Ev1" background background 1_000_000 2_000_000 1 1 (with_slack no_slack)
      meanwhile refl ((λ _. omega arith), ((λ _. omega arith), tt)) (omega arith)

abbrev later_history : List (Ctx × Time × SlackCall)
later_history =
    (background, 8, sets_status "thread_1" ThreadSyncStatus.dirty)
    ∷ (background, 9, links_run "thread_1" (pos 3) "run_1")
    ∷ []

version_never_decreases_example :
    HasVersion "thread_1" 3 5
      (perform_all_slack same later_history
        (with_slack (record no_slack { threads = thread_row ∷ [] }))).db.slack
unfolding any
version_never_decreases_example =
    version_never_decreases same "thread_1" 3 later_history
      (with_slack (record no_slack { threads = thread_row ∷ [] }))
      ((λ _. (3, refl, omega arith, omega arith), tt), refl) (omega arith)

abbrev world : SlackDb → World
world slack = record {
  conn = with_slack slack;
  worker_ctx = none;
  task_ctx = none;
  run_ctx = none;
  user_cancelled = false;
  active_id = "";
  started = true;
  wake = false;
  clock = 7_000_000;
  drawn = 0;
  calls = 0;
  script = [];
}

abbrev envelope : EventEnvelope
envelope = record {
  type = "event_callback";
  challenge = "";
  team_id = "T1";
  event_id = "Ev1";
  event_time = pos 0;
  event = absent;
}

abbrev fields : EventFields
fields = record {
  type = "message";
  subtype = "";
  channel = "C1";
  user = "U1";
  text = "hello";
  ts = "10.5";
  thread_ts = "";
  deleted_ts = "";
  edited = none;
  files = [];
}

abbrev decodes : RawMessage → Option MessageEvent
decodes _ = some (event fields nil nil)

abbrev input : MessageInput
input = record {
  workspace_id = "T1";
  channel_id = "C1";
  slack_timestamp = "10.5";
  thread_timestamp = "10.5";
  author_id = "U1";
  text = "hello";
  is_deleted = false;
  edited_at = none;
  deleted_at = none;
  attachments = [];
  attachments_known = true;
}

normalize_event_example : IsUsable "T1" 7 input
unfolding normalize_event Event.normalize_decoded Event.event_message Event.input_of
    Event.edited_time Event.attachment_inputs
normalize_event_example = normalize_event-IsUsable decodes 7 envelope input refl

abbrev fetches : String → String → Exec (List MessageInput)
fetches channel thread = Worlds.fail (Error.slack_api "HTTP 500")

abbrev starts : Request → Exec Run
starts request = Worlds.fail Error.executor_not_running

redelivered_example :
    ((run : Option Run)
      → (handle_event same Worlds.no_ctx fetches starts
          (pos 200)
          (pos 50000)
          decodes
          envelope
          (world (record no_slack { events = processed_event ∷ [] }))).0
        ≢ ok (run, true))
    × ((handle_event same Worlds.no_ctx fetches starts
          (pos 200)
          (pos 50000)
          decodes
          envelope
          (world (record no_slack { events = processed_event ∷ [] }))).1
        ≡ (claim Worlds.no_ctx envelope
            (world (record no_slack { events = processed_event ∷ [] }))).1)
unfolding Worlds.others any
redelivered_example =
    redelivered same Worlds.no_ctx fetches starts (pos 200) (pos 50000) decodes envelope
      (world (record no_slack { events = processed_event ∷ [] })) refl ((λ _. refl, tt), refl)

abbrev undecoded : RawMessage → Option MessageEvent
undecoded _ = none

claim_settled_example :
    IsReleased "Ev1"
      (handle_event same Worlds.no_ctx fetches starts
        (pos 200)
        (pos 50000)
        undecoded
        envelope
        (world no_slack)).1.conn.db.slack
unfolding claim_slack_event Events.insert_claim Sqls.statement Sqls.◌>>=◌ Worlds.others
    Worlds.store_at Worlds.◌>>=◌ Service.handle_claimed Service.received_at normalize_event
    Event.normalize_decoded any
claim_settled_example =
    claim_settled same Worlds.no_ctx fetches starts (pos 200) (pos 50000) undecoded envelope
      (world no_slack) (claim Worlds.no_ctx envelope (world no_slack)).1 refl refl refl

abbrev said : SlackMessage
said = record {
  type = "message";
  subtype = "";
  user = "U1";
  text = "hello";
  ts = "10.5";
  thread_ts = "";
  edited = none;
  files = [];
}

abbrev last_page : RepliesResponse
last_page = record { ok_flag = true; error = ""; messages = said ∷ []; next_cursor = "" }

abbrev one_page : String → Exec RepliesResponse
one_page path = Worlds.pure last_page

fetch_thread_example :
    ((messages : List MessageInput) × ((fetch_thread one_page
          (λ query. "")
          "C1"
          "10.5"
          1
          (world no_slack)).0
        ≡ ok (some messages))
      × All (IsFetched "C1") messages)
    ⊎ ((e : Error) × ((fetch_thread one_page (λ query. "") "C1" "10.5" 1 (world no_slack)).0
          ≡ err e))
unfolding trim_space
fetch_thread_example =
    fetch_thread-ends one_page (λ query. "") "C1" "10.5" (λ cursor. 0) 1 (world no_slack)
      (λ cursor w answer h. inl (
        let equal : last_page ≡ answer = cc in
        subst (λ (p : RepliesResponse). trim_space p.next_cursor ≡ "") equal refl))
      (omega arith)

abbrev live_event : SlackEventRow
live_event = record {
  event_id = "Ev1";
  status = processing;
  received_at = 1;
  claimed_at = 1;
  processed_at = none;
}

stale_claim_example :
    (claim_slack_event background 400_000_000_000 "Ev1" 1
      (with_slack (record no_slack { events = live_event ∷ [] }))).0
    ≡ ok true
unfolding Events.find_event find
stale_claim_example =
    stale_claim "Ev1" 400_000_000_000 1 (with_slack (record no_slack { events = live_event ∷ [] }))
      live_event refl refl (omega arith) refl

abbrev identity : ThreadIdentity
identity = record { workspace_id = "T1"; channel_id = "C1"; thread_ts = "10.5" }

abbrev new_thread : Thread
new_thread = thread_of (new_thread_row same identity ThreadSyncStatus.syncing 1_000_000)

abbrev ensured : Conn
ensured =
    (ensure_slack_thread same background 1_000_000 identity ThreadSyncStatus.syncing
      (with_slack no_slack)).1

ensure_again_example :
    (get_slack_thread_by_identity background identity ensured ≡ (ok new_thread, ensured))
    × (ensure_slack_thread same background 2_000_000 identity ThreadSyncStatus.syncing ensured
        ≡ (ok (new_thread, false), ensured))
unfolding ensure_slack_thread Sqls.◌>>=◌ Domain.validate_identity is_blank Sqls.statement
    Threads.insert_thread any get_slack_thread_by_identity Threads.scan_thread find
ensure_again_example =
    ensure_again same identity background 1_000_000 2_000_000 ThreadSyncStatus.syncing
      ThreadSyncStatus.syncing (with_slack no_slack) ensured new_thread true refl refl

abbrev message_row : MessageRow
message_row = record {
  id = "message_1";
  thread_id = "thread_1";
  workspace_id = "T1";
  channel_id = "C1";
  slack_message_ts = "10.5";
  thread_ts = "10.5";
  author_id = "U1";
  text = "hello";
  content_hash = "hello";
  is_parent = true;
  is_deleted = false;
  edited_at = none;
  deleted_at = none;
  slack_created_at = 1;
  created_at = 1;
  updated_at = 1;
}

abbrev started_run : Run
started_run = record {
  id = "run_1";
  workflow_id = "manual-summary";
  workflow_version = pos 1;
  request = record {
    id = "request_1";
    source = "slack";
    type = "slack_thread";
    content = "hello";
    metadata = [];
    sources = [];
    received_at = 5_000_000;
  };
  status = RunStatus.pending;
  current_step_id = "";
  final_artifact_id = "";
  error_code = "";
  error_message = "";
  started_at = none;
  completed_at = none;
  created_at = 6_000_000;
  steps = [];
  artifacts = [];
}

abbrev runs : Request → Exec Run
runs request = Worlds.pure started_run

abbrev with_thread : World
with_thread = world (record no_slack { threads = thread_row ∷ []; messages = message_row ∷ [] })

abbrev analyzed : World
analyzed = (analyze same Worlds.no_ctx fetches runs (pos 200) (pos 50000) "thread_1" with_thread).1

analyze_example :
    IsAsked same Worlds.no_ctx "thread_1"
      (pos 200)
      (pos 50000)
      runs
      with_thread
      analyzed
      started_run
unfolding analyze Worlds.◌>>=◌ Worlds.store_at Threads.get_slack_thread Sqls.◌>>=◌ Sqls.statement
    Worlds.others Threads.scan_thread Threads.find_thread find Messages.list_slack_messages
    Messages.ordered_messages thread_of Messages.insert_message Messages.message_of
    Context.build_context select Context.is_active is_blank Context.sort_stable
    Context.insert_sorted Context.created_before Context.selected_messages Context.split_parent
    Context.select_parent Context.select_replies Context.truncate_text Context.truncate_runes
    Context.rendered_length Context.text_budget Context.message_prefix trim_space str_lt
    Threads.link_slack_workflow_run Threads.update_thread count map_where
analyze_example =
    analyze-asks same Worlds.no_ctx fetches runs (pos 200) (pos 50000) "thread_1" with_thread
      analyzed started_run refl
