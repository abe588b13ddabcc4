-- ===== src/Tests.antt =====
-- Runs of the model on small data, and each theorem at a concrete input.
mod Ingestion
mod Services
use go_dashboard.Prelude.{
  eq_iff, ℕ, ◌+◌, ◌≤◌, String, ◌≡◌, refl, ap, ◌≢◌, Bool, true, false, none, some, List, [], ◌∷◌,
  arith, ◌==◌, select, find, any, count, map_where, pos, is_blank, cut_prefix, str_lt, Error,
  Result, ok, err,
}
use go_dashboard.Json.{absent}
use go_dashboard.Trigger.{Request, get}
use go_dashboard.Capability
use go_dashboard.Capability.{Output, resolve_registered}
use go_dashboard.Workflow.Status.{RunStatus, StepStatus}
use go_dashboard.Workflow.Definition
use go_dashboard.Workflow.Definition.{Definition, StepDefinition}
use go_dashboard.Workflow.Definition.Spec.{IsWellFormed}
use go_dashboard.Workflow.Definition.Sound.{validate-IsWellFormed}
use go_dashboard.Workflow.Run.{Run, StepRun}
use go_dashboard.Workflow.Registry
use go_dashboard.Workflow.Registry.Lookup.{resolve-register}
use go_dashboard.Workflow.Manual.{manual_summary_definition, validate-manual_summary_definition}
use go_dashboard.Storage.Db
use go_dashboard.Storage.Db.{Db, RunRow, status_of, find_run}
use go_dashboard.Storage.Sql.{Conn, Ctx, background}
use go_dashboard.Storage.Calls.{
  Call, perform_all, updates_run, resets_run, claims_run, recovers_runs,
}
use go_dashboard.Storage.Tables.{new_run_row, new_step_row}
use go_dashboard.Storage.Lifecycle.{cancel_run, reset_run_for_retry}
use go_dashboard.Storage.Cancelled.{IsCancelled}
use go_dashboard.Storage.Cancelled.Histories.{cancelled_for_good}
use go_dashboard.Storage.Transitions.{Follows, cancel_run-Follows, reset_run_for_retry-Follows}
use go_dashboard.Workflow.Executor.World.{World, user_cancels, deadline_passes, time_passes}
use go_dashboard.Workflow.Executor.Execute.{execute, Attempted, settled}
use go_dashboard.Workflow.Executor.Cancelled.{execute-keeps_cancelled}
use go_dashboard.Workflow.Executor.Worker.{serve, serve-calls}
use go_dashboard.Workflow.Executor.Control
use go_dashboard.Workflow.Executor.Control.{start_again}
use go_dashboard.Storage.Runs.{run_for_request}
use go_dashboard.Workflow.Executor.Calls.{attempt_budget, execute-le-budget}
use go_dashboard.Workflow.Executor.Deadline.{IsOverdue, after_call, after_call_overdue}
use go_dashboard.Slack.Domain.{Thread, Message, ThreadSyncStatus, ContextSnapshot}
use go_dashboard.Slack.Context.{build_context}
use go_dashboard.Slack.Context.Budget.{FitsWithin, build_context-FitsWithin}
use go_dashboard.ModelRouter
use go_dashboard.Trigger
use go_dashboard.Orchestration
use go_dashboard.Slack.Context
use go_dashboard.Workflow.Executor.World as Worlds
use go_dashboard.ModelRouter.Routed.{resolve-new}
use go_dashboard.Orchestration.{Service, start, start-selects}
use go_dashboard.Workflow.Executor.Execute as XExecute
use go_dashboard.Workflow.Executor.Input as XInput
use go_dashboard.Storage.Runs as XRuns
use go_dashboard.Storage.Tables as XTables
use go_dashboard.Storage.Sql as XSql

abbrev manual : Definition
manual = manual_summary_definition (pos 0)

abbrev request : Request
request = record {
  id = "request_1";
  source = "dashboard";
  type = "manual_text";
  content = "notes";
  metadata = ("workflow_id", "manual-summary") ∷ [];
  sources = [];
  received_at = 5_000_000;
}

abbrev step : String → String → StepRun
step id step_id = record {
  id = id;
  workflow_run_id = "run_1";
  step_id = step_id;
  capability = "summarize_text";
  model_profile = "general";
  model = "";
  status = StepStatus.pending;
  attempt = 0;
  input = absent;
  output = absent;
  error_code = "";
  error_message = "";
  started_at = none;
  completed_at = none;
  created_at = 6_000_000;
}

abbrev run : RunStatus → Run
run status = record {
  id = "run_1";
  workflow_id = "manual-summary";
  workflow_version = pos 1;
  request = request;
  status = status;
  current_step_id = "";
  final_artifact_id = "";
  error_code = "";
  error_message = "";
  started_at = none;
  completed_at = none;
  created_at = 6_000_000;
  steps = step "step_1" "summarize" ∷ step "step_2" "actions" ∷ step "step_3" "compose" ∷ [];
  artifacts = [];
}

abbrev conn : RunStatus → Conn
conn status = record {
  db = record Db.empty { runs = new_run_row (run status) ∷ [] };
  faults = none ∷ some (Error.failure "disk I/O error") ∷ [];
}

abbrev summarize : Capability.Capability
summarize = record {
  name = "summarize_text";
  metadata = record {
    name = "summarize_text";
    description = "";
    input_schema = absent;
    output_schema = absent;
    default_model_profile = "general";
    llm_backed = true;
  };
  validate_input = λ _. ok tt;
  execute = λ _ _ input. ok (record {
    content = input;
    artifact_type = "summary";
    model = "llama3";
    prompt_version = "v1";
  });
}

abbrev capabilities : Capability.Registry
capabilities = ("summarize_text", summarize) ∷ []

abbrev suffix : ℕ → String
suffix n = "0a"

abbrev world : RunStatus → World
world status = record {
  conn = conn status;
  worker_ctx = none;
  task_ctx = none;
  run_ctx = none;
  user_cancelled = false;
  active_id = "run_1";
  started = true;
  wake = false;
  clock = 7_000_000;
  drawn = 0;
  calls = 0;
  script = (time_passes 3 ∷ []) ∷ (user_cancels "run_1" ∷ []) ∷ [];
}

cancelled : IsCancelled "run_1" (conn RunStatus.cancelled).db
unfolding any new_run_row
cancelled = record { present = refl; says = (λ _. refl, tt) }

execute-keeps_cancelled_example :
    status_of "run_1"
      (execute suffix manual capabilities
        (run RunStatus.running)
        (world RunStatus.cancelled)).1.conn.db
    ≡ some RunStatus.cancelled
execute-keeps_cancelled_example =
    execute-keeps_cancelled "run_1" suffix manual capabilities (run RunStatus.running)
      (world RunStatus.cancelled) cancelled

abbrev history : List (Ctx × ℕ × Call)
history =
    (background, 8, updates_run (run RunStatus.completed))
    ∷ (background, 9, resets_run "run_1")
    ∷ (some Error.canceled, 9, recovers_runs)
    ∷ (background, 10, claims_run)
    ∷ []

cancelled_for_good_example :
    status_of "run_1" (perform_all history (conn RunStatus.cancelled)).db ≡ some RunStatus.cancelled
cancelled_for_good_example = cancelled_for_good "run_1" history (conn RunStatus.cancelled) cancelled

execute-le-budget_example :
    (execute suffix manual capabilities (run RunStatus.running) (world RunStatus.running)).1.calls
    ≤ 0 + attempt_budget manual.steps
execute-le-budget_example =
    execute-le-budget suffix manual capabilities (run RunStatus.running) (world RunStatus.running)

manual-IsWellFormed : IsWellFormed manual
unfolding manual_summary_definition
manual-IsWellFormed =
    validate-IsWellFormed manual (validate-manual_summary_definition (pos 0) (omega arith))

cancel_run_example :
    Follows "run_1" RunStatus.cancelled
      (conn RunStatus.running).db
      (cancel_run background 12 "run_1" (conn RunStatus.running))
cancel_run_example = cancel_run-Follows background 12 "run_1" (conn RunStatus.running)

reset_run_for_retry_example :
    Follows "run_1" RunStatus.pending
      (conn RunStatus.failed).db
      (reset_run_for_retry background 12 "run_1" (conn RunStatus.failed))
reset_run_for_retry_example =
    reset_run_for_retry-Follows background 12 "run_1" (conn RunStatus.failed)

manual_accepted : Definition.validate (manual_summary_definition (pos 90_000_000_000)) ≡ ok tt
manual_accepted = validate-manual_summary_definition (pos 90_000_000_000) (omega arith)

registered : Registry.register manual [] ≡ ok (("manual-summary", (pos 1, manual) ∷ []) ∷ [])
unfolding Registry.register Registry.versions_of Registry.version_of Registry.set_versions
    manual_summary_definition
registered = rw (validate-manual_summary_definition (pos 0) (omega arith)) refl

workflows : Registry.Registry
workflows = ("manual-summary", (pos 1, manual) ∷ []) ∷ []

resolve-register_example : Registry.resolve "manual-summary" (pos 1) workflows ≡ ok manual
unfolding workflows manual_summary_definition
resolve-register_example =
    resolve-register manual [] workflows "manual-summary" (pos 1) registered refl

capability_registered : Capability.register summarize [] ≡ ok capabilities
unfolding Capability.register Capability.lookup
capability_registered = refl

resolve_registered_example :
    ◌≢◌ {A = String} "summarize_text" ""
    × (Capability.resolve "summarize_text" [] ≡ err (Error.unknown_capability "summarize_text"))
    × (Capability.resolve "summarize_text" capabilities ≡ ok summarize)
resolve_registered_example =
    resolve_registered summarize [] capabilities "summarize_text" capability_registered

abbrev client : ModelRouter.Client
client = record {
  status = record { available = true; model = "llama3"; model_available = true };
  generate = λ prompt. ok (record { content = prompt; model = "llama3" });
}

abbrev general : ModelRouter.Profile
general = record { name = "general"; provider = "ollama"; model = "llama3"; client = some client }

abbrev router : ModelRouter.Router
router = record { profiles = general ∷ []; mapping = ("summarize_text", "general") ∷ [] }

new-router : ModelRouter.new (general ∷ []) (("summarize_text", "general") ∷ []) ≡ ok router
unfolding ModelRouter.new ModelRouter.add_profiles ModelRouter.add_mapping ModelRouter.find_profile
    Trigger.put
new-router = refl

general_named : get "summarize_text" router.mapping ≢ ""
unfolding get
general_named e = Bool-absurd (ap (λ s. s == "") e)
  where
    Bool-absurd : false ≡ true → ⊥
    Bool-absurd h = cc

resolve-new_example :
    (p : ModelRouter.Profile) × (ModelRouter.resolve "summarize_text" "" router ≡ ok p)
    × (p.name ≡ "general")
unfolding get any
resolve-new_example =
    resolve-new (general ∷ []) (("summarize_text", "general") ∷ []) router "summarize_text"
      ((refl, tt)) new-router general_named

abbrev service : Service
service = record {
  selector = record { registry = ("manual-summary", (pos 1, manual) ∷ []) ∷ []; rules = [] };
  workflow_id = "manual-summary";
}

abbrev engine : Request → Result Run
engine given = ok (record (run RunStatus.pending) { request = given })

started : (r : Run) × (start service engine request ≡ ok r)
unfolding start Orchestration.select_workflow get Trigger.put Registry.resolve Registry.resolve_in
    Registry.resolve_latest Registry.versions_of Registry.latest_version Registry.version_of
    manual_summary_definition
started = (_, refl)

other : (k : String) → "note" == k ≡ false → "note" ≢ k
other k h same = let is = (eq_iff "note" k).1 same in cc

start-selects_example :
    (given : Request) × (engine given ≡ ok started.0)
    × (get "selected_workflow" given.metadata ≡ "manual-summary")
    × (get "workflow_id" given.metadata ≡ get "workflow_id" request.metadata)
    × (get "note" given.metadata ≡ get "note" request.metadata)
    × (record given { metadata = request.metadata } ≡ request)
    × (d : Definition) × (Registry.resolve "manual-summary" (pos 0) service.selector.registry
        ≡ ok d)
start-selects_example =
    start-selects service engine request started.0 "note" (other "selected_workflow" refl)
      (other "selection_method" refl) (other "selection_reason" refl) started.1

abbrev thread : Thread
thread = record {
  id = "thread_1";
  workspace_id = "T1";
  channel_id = "C1";
  thread_ts = "1.0";
  parent_message_id = "";
  last_message_ts = "2.0";
  context_version = pos 3;
  sync_status = ThreadSyncStatus.synchronized;
  last_synced_at = none;
  requested_analysis_version = pos 0;
  latest_workflow_run_id = "";
  created_at = 1;
  updated_at = 1;
}

abbrev message : String → Bool → ℕ → Message
message ts is_parent at = record {
  id = ts;
  thread_id = "thread_1";
  workspace_id = "T1";
  channel_id = "C1";
  slack_timestamp = ts;
  thread_timestamp = "1.0";
  author_id = "U1";
  text = "a long message";
  content_hash = "";
  is_parent = is_parent;
  is_deleted = false;
  edited_at = none;
  deleted_at = none;
  slack_created_at = at;
  created_at = at;
  updated_at = at;
}

abbrev messages : List Message
messages = message "2.0" false 2 ∷ message "1.0" true 1 ∷ []

built : (s : ContextSnapshot) × (build_context thread messages (pos 2) (pos 100) ≡ ok s)
unfolding build_context select Context.is_active is_blank Context.sort_stable Context.insert_sorted
    Context.created_before str_lt Context.selected_messages Context.split_parent
    Context.select_parent Context.select_replies
built = (_, refl)

build_context_example : FitsWithin 2 100 built.0.messages
build_context_example = build_context-FitsWithin thread messages (pos 2) (pos 100) built.0 built.1

abbrev late : World
late = record (world RunStatus.running) { run_ctx = some Error.deadline_exceeded; script = [] }

overdue : IsOverdue late
overdue = record { run_ended = refl; task_lives = refl; not_cancelled = refl; alone = refl }

abbrev stop : StepRun → Worlds.Exec Attempted
stop s = Worlds.pure (settled s (err Error.deadline_exceeded))

after_call_overdue_example :
    ((after_call suffix
        (run RunStatus.running)
        0
        []
        summarize
        absent
        1
        (step "step_1" "summarize")
        stop
        (err Error.deadline_exceeded)
        late).0
      ≡ err Error.deadline_exceeded)
    × ((after_call suffix
          (run RunStatus.running)
          0
          []
          summarize
          absent
          1
          (step "step_1" "summarize")
          stop
          (err Error.deadline_exceeded)
          late).1.conn.db
        ≡ late.conn.db)
after_call_overdue_example =
    after_call_overdue suffix (run RunStatus.running) 0 [] summarize absent 1
      (step "step_1" "summarize") stop (err Error.deadline_exceeded) late overdue

abbrev quiet : World
quiet = record (world RunStatus.completed) {
  conn = record (conn RunStatus.completed) { faults = [] };
  script = [];
}

request_valid : Trigger.validate request ≡ ok tt
unfolding Trigger.validate is_blank
request_valid = refl

abbrev row : RunRow
row = new_run_row (run RunStatus.completed)

row_requested : run_for_request "request_1" quiet.conn.db ≡ some row
unfolding new_run_row find
row_requested = refl

row_found : find_run row.id quiet.conn.db ≡ some row
unfolding new_run_row find find_run
row_found = refl

start_again_example :
    (r : Run) × ((Control.start background suffix manual request quiet).0 ≡ ok r)
    × (r.id ≡ row.id)
    × (r.status ≡ row.status)
    × ((Control.start background suffix manual request quiet).1 ≡ quiet)
start_again_example =
    start_again suffix manual request quiet row request_valid refl refl row_requested row_found

-- A run of one step is executed, and is completed in the database.
abbrev single : Definition
single = record {
  id = "manual-summary";
  name = "n";
  description = "";
  version = pos 1;
  input_schema = absent;
  steps =
      record {
        id = "summarize";
        capability = "summarize_text";
        input_mapping = ("content", "request.content") ∷ [];
        depends_on = [];
        model_profile = "general";
        timeout = pos 5;
        retry_policy = record { max_attempts = pos 2; backoff = pos 1 };
        requires_approval = false;
      }
      ∷ [];
  output_schema = absent;
  timeout = pos 9;
  retry_policy = record { max_attempts = pos 1; backoff = pos 0 };
  enabled = true;
}

abbrev claimed : Run
claimed = record (run RunStatus.running) { steps = step "step_1" "summarize" ∷ [] }

abbrev ready : World
ready = record quiet {
  conn = record {
    db = record Db.empty {
      runs = new_run_row claimed ∷ [];
      steps = new_step_row (step "step_1" "summarize") ∷ [];
    };
    faults = [];
  };
}

executed :
    status_of "run_1" (execute suffix single capabilities claimed ready).1.conn.db
    ≡ some RunStatus.completed
unfolding XExecute.error_category XExecute.safe_error_message XExecute.new_id XExecute.set_step_at
    XExecute.skip_steps XExecute.drop_steps XExecute.fail_run XExecute.context_check
    XExecute.call_capability XExecute.after_failure XExecute.attempt_once XExecute.attempts
    XExecute.final_artifact XExecute.record_step XExecute.execute_step XExecute.execute_steps
    XExecute.execute Worlds.cancel_control Worlds.happen Worlds.happen_all Worlds.others
    Worlds.store Worlds.attempt Worlds.◌>>=◌ XInput.output_of XInput.decode_output
    XInput.source_value XInput.map_fields XInput.map_input XRuns.upsert_definition
    XRuns.save_definition XRuns.run_fits XRuns.insert_run XRuns.step_fits XRuns.insert_step
    XRuns.insert_steps XRuns.create_run_body XRuns.create_run XRuns.load_steps XRuns.load_artifacts
    XRuns.found_run XRuns.get_run XRuns.details_of XRuns.explain_missing XRuns.refuse_update
    XRuns.update_run XRuns.write_step XRuns.update_step XRuns.artifact_fits XRuns.insert_artifact
    XRuns.insert_live_artifact XRuns.create_artifact XRuns.complete_step_body XRuns.complete_step
    XRuns.load_found XRuns.find_run_by_request_id XRuns.load_all XTables.nullable_time
    XTables.from_nullable_time XTables.nullable_json XTables.raw_json XTables.insert_event
    XTables.update_runs XTables.update_steps XTables.delete_artifacts XTables.insert_by
    XTables.order_by XTables.artifact_row XTables.artifact_of XTables.step_of XTables.run_of
    XTables.new_run_row XTables.new_step_row Db.find_run Db.status_of Db.is_alive XSql.statement
    XSql.◌>>=◌ XSql.transaction any select find count map_where Capability.lookup Capability.resolve
    cut_prefix is_blank
executed = refl

serve-calls_example :
    (serve suffix manual capabilities (run RunStatus.running) (world RunStatus.cancelled)).1.calls
    ≤ 0
serve-calls_example =
    serve-calls suffix manual capabilities (run RunStatus.running) (world RunStatus.cancelled)
      cancelled
