-- ===== src/Workflow/Executor/Deadline.antt =====
-- What `execute` does once the workflow's own timeout has passed.
use go_dashboard.Prelude.{ℕ, String, ◌≡◌, false, none, some, [], arith, Error, Result, ok, err}
use go_dashboard.Json.{RawMessage}
use go_dashboard.Capability.{Capability, Output}
use go_dashboard.Workflow.Run.{Run, StepRun}
use go_dashboard.Storage.Sql.{Conn, Sql, Ctx, background}
use go_dashboard.Storage.Runs.{update_step, complete_step}
use go_dashboard.Workflow.Executor.Input.{Outputs}
use go_dashboard.Workflow.Executor.World.{World, Exec, store, attempt, others, ◌>>=◌}
use go_dashboard.Workflow.Executor.Execute.{
  new_id, Attempted, context_check, after_failure, judged, Advanced, record_step, after_attempts,
}
use go_dashboard.Storage.Sql

-- The deadline of `runCtx` has passed, nobody has cancelled, and nobody else acts any more.
pub record IsOverdue (w : World) : Type 0 where
  pub run_ended : w.run_ctx ≡ some Error.deadline_exceeded
  pub task_lives : w.task_ctx ≡ none
  pub not_cancelled : w.user_cancelled ≡ false
  pub alone : w.script ≡ []

-- What `execute` does with a step once the capability of an attempt has returned `result`.
abbrev pub after_call :
    (ℕ → String)
    → Run
    → ℕ
    → Outputs
    → Capability
    → RawMessage
    → ℕ
    → StepRun
    → (StepRun → Exec Attempted)
    → Result Output
    → Exec Advanced
after_call suffix run index outputs capability input left step again result =
    judged run.id capability input left step again result
    >>= after_attempts suffix run index outputs

-- What `execute` does with a step from the return of a capability call on, where the deadline of the run's
-- context has passed by then, the worker's context of the run is not done, the user has not cancelled, and
-- nobody else acts any more: whatever the call returned, it gives up with the error of the deadline, and
-- leaves every table as it was.
pub after_call_overdue :
    (suffix : ℕ → String) (run : Run) (index : ℕ) (outputs : Outputs) (capability : Capability)
    (input : RawMessage) (left : ℕ) (step : StepRun) (again : StepRun → Exec Attempted)
    (result : Result Output) (w : World)
    → IsOverdue w
    → ((after_call suffix run index outputs capability input left step again result w).0
        ≡ err Error.deadline_exceeded)
      × ((after_call suffix run index outputs capability input left step again result w).1.conn.db
          ≡ w.conn.db)
unfolding after_failure ◌>>=◌ store others update_step Sql.◌>>=◌ Sql.statement attempt record_step
    complete_step Sql.transaction new_id context_check
after_call_overdue suffix run index outputs capability input left step again (ok output) w o =
    ground arith
after_call_overdue suffix run index outputs capability input left step again (err e) w o =
    ground arith
