-- ===== src/Storage/Calls.antt =====
-- backend/internal/storage/store.go: the methods of `Store` on workflow tables as one type of calls,
-- so that a history of the database is a list of calls. Each has its own context and time.
use go_dashboard.Prelude.{ℕ, String, List, [], ◌∷◌, ℤ}
use go_dashboard.Artifact.{Artifact}
use go_dashboard.Workflow.Definition.{Definition}
use go_dashboard.Workflow.Run.{Run, StepRun}
use go_dashboard.Storage.Sql.{Conn, Ctx}
use go_dashboard.Storage.Runs.{
  save_definition, create_run, update_run, update_step, create_artifact, complete_step, get_run,
  find_run_by_request_id,
}
use go_dashboard.Storage.Lifecycle.{
  claim_next_pending_run, reset_run_for_retry, cancel_run, list_runs, prepare_recovery,
}

pub data Call : Type 0 where
  saves_definition : Definition → Call
  creates_run updates_run : Run → Call
  updates_step : StepRun → Call
  creates_artifact : Artifact → Call
  completes_step : StepRun → Artifact → Call
  gets_run finds_run resets_run cancels_run : String → Call
  claims_run recovers_runs : Call
  lists_runs : ℤ → Call

-- The connection after a call, whatever the call returned.
unfoldable pub perform : Ctx → ℕ → Call → Conn → Conn
perform ctx now (saves_definition d) conn = (save_definition ctx now d conn).1
perform ctx now (creates_run run) conn = (create_run ctx run conn).1
perform ctx now (updates_run run) conn = (update_run ctx now run conn).1
perform ctx now (updates_step step) conn = (update_step ctx now step conn).1
perform ctx now (creates_artifact value) conn = (create_artifact ctx value conn).1
perform ctx now (completes_step step value) conn = (complete_step ctx now step value conn).1
perform ctx now (gets_run id) conn = (get_run ctx id conn).1
perform ctx now (finds_run id) conn = (find_run_by_request_id ctx id conn).1
perform ctx now (resets_run id) conn = (reset_run_for_retry ctx now id conn).1
perform ctx now (cancels_run id) conn = (cancel_run ctx now id conn).1
perform ctx now claims_run conn = (claim_next_pending_run ctx now conn).1
perform ctx now recovers_runs conn = (prepare_recovery ctx conn).1
perform ctx now (lists_runs limit) conn = (list_runs ctx limit conn).1

unfoldable pub perform_all : List (Ctx × ℕ × Call) → Conn → Conn
perform_all [] conn = conn
perform_all ((ctx, now, call) ∷ calls) conn = perform_all calls (perform ctx now call conn)
