-- ===== src/Storage/Lifecycle.antt =====
-- backend/internal/storage/store.go: claiming, retrying, cancelling, recovering and listing runs.
use go_dashboard.Prelude.{
  take, ℕ, String, Bool, not, ◌&&◌, ◌||◌, Option, none, some, List, [], ◌∷◌, map, ◌==◌, eqb,
  if◌then◌else◌, select, any, ℤ, pos, to_ℕ, lt_ℤ, Error, Result, ok, err,
}
use mathlib.Core.List.{reverse}
use go_dashboard.Workflow.Status.{RunStatus, StepStatus, run_eq, step_eq}
use go_dashboard.Workflow.Run.{Run}
use go_dashboard.Storage.Db.{Db, RunRow, StepRow, ArtifactRow, status_of}
use go_dashboard.Storage.Sql.{
  Sql, Ctx, pure, lift, statement, query, commit, transaction, ◌>>=◌, ◌>>◌,
}
use go_dashboard.Storage.Tables.{
  insert_event, update_runs, update_steps, delete_artifacts, order_by, run_event,
}
use go_dashboard.Storage.Runs.{get_run, load_all}

abbrev pub ids_of : List RunRow → List String
ids_of rows = map (λ (r : RunRow). r.id) rows

unfoldable pub oldest_first : (RunStatus → Bool) → Db → List RunRow
oldest_first p db =
    order_by (λ (r : RunRow). r.created_at) (select (λ (r : RunRow). p r.status) db.runs)

unfoldable pub first_id : List RunRow → Option String
first_id [] = none
first_id (row ∷ rows) = some row.id

abbrev pub is_pending : RunStatus → Bool
is_pending status = run_eq status RunStatus.pending

-- SELECT id … WHERE status='pending' ORDER BY created_at LIMIT 1
unfoldable pub next_pending : Db → Option String
next_pending db = first_id (oldest_first is_pending db)

abbrev pub claim_row : ℕ → RunRow → RunRow
claim_row now row = record row {
  status = RunStatus.running;
  started_at = some now;
  completed_at = none;
}

unfoldable pub claim_found : Ctx → ℕ → Option String → Sql (Option String)
claim_found ctx now none = pure none
claim_found ctx now (some id) = do
  rows ← statement ctx (update_runs (λ row. row.id == id && is_pending row.status) (claim_row now))
  if eqb rows 0 then pure none else do
    statement ctx (insert_event (run_event id RunStatus.running "{}" now))
    commit ctx
    pure (some id)

unfoldable pub claim_body : Ctx → ℕ → Sql (Option String)
claim_body ctx now = do id ← query ctx next_pending; claim_found ctx now id

unfoldable pub load_claimed : Ctx → Option String → Sql (Option Run)
load_claimed ctx none = pure none
load_claimed ctx (some id) = do run ← get_run ctx id; pure (some run)

-- A failing `GetRun` comes after the commit: the run stays claimed.
unfoldable pub claim_next_pending_run : Ctx → ℕ → Sql (Option Run)
claim_next_pending_run ctx now = do
  claimed ← transaction ctx (claim_body ctx now)
  load_claimed ctx claimed

-- The three statements that retrying and recovering share. Artifacts of steps that have not
-- completed go, such steps start over with their count of attempts, and the run is pending.
abbrev pub is_unfinished : String → StepRow → Bool
is_unfinished id row = row.workflow_run_id == id && not (step_eq row.status StepStatus.completed)

unfoldable pub drop_artifacts : String → Db → Result (Unit {0} × Db)
drop_artifacts id db =
    delete_artifacts
      (λ (a : ArtifactRow).
        a.workflow_run_id == id
        && any (λ (s : StepRow). s.id == a.step_run_id && is_unfinished id s) db.steps)
      db

abbrev pub reset_step_row : StepRow → StepRow
reset_step_row row = record row {
  status = StepStatus.pending;
  model = "";
  input_json = none;
  output_json = none;
  error_code = "";
  error_message = "";
  started_at = none;
  completed_at = none;
}

abbrev pub reset_run_row : RunRow → RunRow
reset_run_row row = record row {
  status = RunStatus.pending;
  current_step_id = "";
  final_artifact_id = "";
  error_code = "";
  error_message = "";
  started_at = none;
  completed_at = none;
}

unfoldable pub reset_body : Ctx → String → Sql (Unit {0})
reset_body ctx id = do
  statement ctx (drop_artifacts id)
  _ ← statement ctx (update_steps (is_unfinished id) reset_step_row)
  _ ← statement ctx (update_runs (λ row. row.id == id) reset_run_row)
  pure tt

-- `SELECT status`, with the refusal where no row or another status is found.
unfoldable pub require_status : (RunStatus → Bool) → Error → Option RunStatus → Result (Unit {0})
require_status p e none = err Error.record_not_found
require_status p e (some status) = if p status then ok tt else err e

abbrev pub is_failed : RunStatus → Bool
is_failed status = run_eq status RunStatus.failed

unfoldable pub retry_body : Ctx → ℕ → String → Sql (Unit {0})
retry_body ctx now id = do
  status ← query ctx (status_of id)
  lift (require_status is_failed Error.run_not_retryable status)
  reset_body ctx id
  statement ctx (insert_event (run_event id RunStatus.pending "{\"reason\":\"manual_retry\"}" now))
  commit ctx

unfoldable pub reset_run_for_retry : Ctx → ℕ → String → Sql (Unit {0})
reset_run_for_retry ctx now id = transaction ctx (retry_body ctx now id)

abbrev pub is_cancellable : RunStatus → Bool
is_cancellable status =
    run_eq status RunStatus.pending
    || run_eq status RunStatus.running
    || run_eq status RunStatus.waiting_approval

abbrev pub is_open : String → StepRow → Bool
is_open id row =
    row.workflow_run_id == id
    && (step_eq row.status StepStatus.pending || step_eq row.status StepStatus.running)

abbrev pub cancel_step_row : ℕ → StepRow → StepRow
cancel_step_row now row = record row {
  status = StepStatus.cancelled;
  error_code = "cancelled";
  error_message = "Cancelled by user.";
  completed_at = some now;
}

abbrev pub cancel_run_row : ℕ → RunRow → RunRow
cancel_run_row now row = record row {
  status = RunStatus.cancelled;
  current_step_id = "";
  error_code = "cancelled";
  error_message = "Cancelled by user.";
  completed_at = some now;
}

unfoldable pub cancel_body : Ctx → ℕ → String → Sql (Unit {0})
cancel_body ctx now id = do
  status ← query ctx (status_of id)
  lift (require_status is_cancellable Error.run_not_cancellable status)
  _ ← statement ctx (update_steps (is_open id) (cancel_step_row now))
  _ ← statement ctx (update_runs (λ row. row.id == id) (cancel_run_row now))
  statement ctx
      (insert_event (run_event id RunStatus.cancelled "{\"reason\":\"user_cancelled\"}" now))
  commit ctx

unfoldable pub cancel_run : Ctx → ℕ → String → Sql (Unit {0})
cancel_run ctx now id = transaction ctx (cancel_body ctx now id)

abbrev pub is_recoverable : RunStatus → Bool
is_recoverable status = run_eq status RunStatus.pending || run_eq status RunStatus.running

unfoldable pub recover_run : Ctx → String → Sql (Unit {0})
recover_run ctx id = transaction ctx (reset_body ctx id >> commit ctx)

-- One transaction for each run: a failure leaves the runs before it recovered.
unfoldable pub recover_all : Ctx → List String → Sql (Unit {0})
recover_all ctx [] = pure tt
recover_all ctx (id ∷ ids) = recover_run ctx id >> recover_all ctx ids

unfoldable pub prepare_recovery : Ctx → Sql (List Run)
prepare_recovery ctx = do
  rows ← query ctx (oldest_first is_recoverable)
  recover_all ctx (ids_of rows)
  load_all ctx (ids_of rows)

unfoldable pub clamp_limit : ℤ → ℕ
clamp_limit limit = if lt_ℤ limit (pos 1) || lt_ℤ (pos 100) limit then 25 else to_ℕ limit

-- ORDER BY created_at DESC LIMIT ?
unfoldable pub newest : ℕ → Db → List RunRow
newest n db = take n (reverse (order_by (λ (r : RunRow). r.created_at) db.runs))

unfoldable pub list_runs : Ctx → ℤ → Sql (List Run)
list_runs ctx limit = do rows ← query ctx (newest (clamp_limit limit)); load_all ctx (ids_of rows)
