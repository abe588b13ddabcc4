-- ===== src/Workflow/Executor/Quiet.antt =====
-- Invariants of the parts of `execute` that call no capability (backend/internal/workflow/executor.go).
use go_dashboard.Prelude.{ℕ, String, List, [], ◌∷◌, Error, Result, ok, err}
use go_dashboard.Trigger.{Time}
use go_dashboard.Artifact.{Artifact}
use go_dashboard.Capability.{Output}
use go_dashboard.Workflow.Run.{Run, StepRun}
use go_dashboard.Storage.Sql.{Ctx}
use go_dashboard.Storage.Runs.{get_run, update_run, update_step, complete_step}
use go_dashboard.Storage.Calls.{gets_run, updates_run, updates_step, completes_step, perform}
use go_dashboard.Storage.Tables.{unix_milli}
use go_dashboard.Workflow.Executor.Input.{Outputs}
use go_dashboard.Workflow.Executor.World.{
  World, Exec, pure, store, ◌>>=◌, no_ctx, task_ctx, run_ctx,
}
use go_dashboard.Workflow.Executor.Holds.{
  Holds, IsStable, Holds-store, Holds-pure, Holds-fail, Holds-gets, Holds-attempt, Holds-if,
  Holds-bind,
}
use go_dashboard.Workflow.Executor.Execute.{
  new_id, reload, skip_steps, fail_run, Attempted, returned, settled, Check, reloads, stops,
  goes_on, checked, Advanced, finished, advanced, unless_cancelled, record_step, conclude,
  after_attempts, finish,
}

module _ {P : World → Type 0} (stable : IsStable P) where
  pub get-Holds : (ctx : World → Ctx) (id : String) → Holds P (store ctx (λ c _. get_run c id))
  unfolding perform
  get-Holds ctx id =
      Holds-store stable ctx _ λ w p. stable.by_store (ctx w) (unix_milli w.clock) (gets_run id) w p

  pub update_run-Holds :
      (ctx : World → Ctx) (run : Run) → Holds P (store ctx (λ c at. update_run c at run))
  unfolding perform
  update_run-Holds ctx run =
      Holds-store stable ctx _
        λ w p. stable.by_store (ctx w) (unix_milli w.clock) (updates_run run) w p

  pub update_step-Holds :
      (ctx : World → Ctx) (step : StepRun) → Holds P (store ctx (λ c at. update_step c at step))
  unfolding perform
  update_step-Holds ctx step =
      Holds-store stable ctx _
        λ w p. stable.by_store (ctx w) (unix_milli w.clock) (updates_step step) w p

  pub complete_step-Holds :
      (ctx : World → Ctx) (step : StepRun) (value : Artifact)
      → Holds P (store ctx (λ c at. complete_step c at step value))
  unfolding perform
  complete_step-Holds ctx step value =
      Holds-store stable ctx _
        λ w p. stable.by_store (ctx w) (unix_milli w.clock) (completes_step step value) w p

  pub reload-Holds : (id : String) → Holds P (reload id)
  reload-Holds id = get-Holds no_ctx id

  pub skip_steps-Holds : (at : Time) (steps : List StepRun) → Holds P (skip_steps at steps)
  unfolding skip_steps
  skip_steps-Holds at [] = Holds-pure tt
  skip_steps-Holds at (step ∷ rest) =
      Holds-bind _ _ (Holds-attempt _ (update_step-Holds no_ctx _)) (λ _. skip_steps-Holds at rest)

  pub fail_run-Holds :
      (run : Run) (index : ℕ) (code : String) (cause : Error)
      → Holds P (fail_run run index code cause)
  unfolding fail_run
  fail_run-Holds run index code cause = Holds-bind _ _ (Holds-gets _) λ at.
      Holds-bind _ _ (skip_steps-Holds at _)
        λ _. Holds-bind _ _ (update_run-Holds no_ctx _) λ _. reload-Holds run.id

  pub checked-Holds :
      {A : Type 0} (early : Run → A) (id : String) (rest : Exec A) (check : Check)
      → Holds P rest
      → Holds P (checked early id rest check)
  checked-Holds early id rest reloads h =
      Holds-bind _ _ (reload-Holds id) (λ run. Holds-pure (early run))
  checked-Holds early id rest (stops e) h = Holds-fail e
  checked-Holds early id rest goes_on h = h

  pub unless_cancelled-Holds :
      {A : Type 0} (early : Run → A) (id : String) (rest : Exec A) (r : Result (Unit {0}))
      → Holds P rest
      → Holds P (unless_cancelled early id rest r)
  unless_cancelled-Holds early id rest (ok _) h = h
  unless_cancelled-Holds early id rest (err Error.run_cancelled) h =
      Holds-bind _ _ (reload-Holds id) (λ run. Holds-pure (early run))
  unless_cancelled-Holds early id rest (err e) h = Holds-fail _

  module _ (suffix : ℕ → String) where
    pub new_id-Holds : (prefix : String) → Holds P (new_id suffix prefix)
    unfolding new_id
    new_id-Holds prefix = record { at = stable.by_draw }

    pub record_step-Holds :
        (run : Run) (index : ℕ) (outputs : Outputs) (step : StepRun) (output : Output)
        → Holds P (record_step suffix run index outputs step output)
    unfolding record_step
    record_step-Holds run index outputs step output = Holds-bind _ _ (Holds-gets _) λ at.
        Holds-bind _ _ (new_id-Holds "artifact") λ id.
          Holds-bind _ _ (Holds-attempt _ (complete_step-Holds run_ctx _ _))
            λ saved. unless_cancelled-Holds finished run.id _ saved (Holds-pure _)

    pub finished-Holds : (m : Exec Run) → Holds P m → Holds P (m >>= λ r. pure (finished r))
    finished-Holds m h = Holds-bind _ _ h (λ r. Holds-pure (finished r))

    pub conclude-Holds :
        (run : Run) (index : ℕ) (outputs : Outputs) (step : StepRun) (r : Result Output)
        → Holds P (conclude suffix run index outputs step r)
    conclude-Holds run index outputs step (err e) = finished-Holds _ (fail_run-Holds _ index _ e)
    conclude-Holds run index outputs step (ok output) = Holds-bind _ _ (Holds-gets _) λ cancelled.
        Holds-if cancelled _ _ (finished-Holds _ (reload-Holds run.id))
          (record_step-Holds run index outputs step output)

    pub after_attempts-Holds :
        (run : Run) (index : ℕ) (outputs : Outputs) (tried : Attempted)
        → Holds P (after_attempts suffix run index outputs tried)
    after_attempts-Holds run index outputs (returned early) = Holds-pure _
    after_attempts-Holds run index outputs (settled step r) =
        Holds-bind _ _ (Holds-gets _)
          λ check. checked-Holds finished run.id _ check (conclude-Holds run index outputs step r)

    pub finish-Holds : (a : Advanced) → Holds P (finish suffix a)
    finish-Holds (finished r) = Holds-pure r
    finish-Holds (advanced run outputs) = Holds-bind _ _ (Holds-gets _) λ at.
        Holds-bind _ _ (Holds-attempt _ (update_run-Holds run_ctx _))
          λ saved. unless_cancelled-Holds (λ r. r) run.id _ saved (get-Holds task_ctx run.id)
