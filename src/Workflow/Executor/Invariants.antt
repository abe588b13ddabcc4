-- ===== src/Workflow/Executor/Invariants.antt =====
-- Invariants of the tables and `execute` (backend/internal/workflow/executor.go), with other goroutines
-- acting between its calls.
use go_dashboard.Prelude.{
  ℕ, zero, suc, String, inl, inr, Option, none, some, List, [], ◌∷◌, ◌==◌, Bool-cases, get_elem?,
  Error, Result, ok, err,
}
use go_dashboard.Json.{RawMessage}
use go_dashboard.Capability.{Capability, Output, Registry, resolve}
use go_dashboard.Workflow.Status.{step_eq, StepStatus}
use go_dashboard.Workflow.Definition.{Definition, StepDefinition}
use go_dashboard.Workflow.Run.{Run, StepRun}
use go_dashboard.Storage.Db.{Db}
use go_dashboard.Storage.Sql.{Conn, Ctx, background}
use go_dashboard.Storage.Lifecycle.{cancel_run}
use go_dashboard.Storage.Calls.{Call, cancels_run, perform}
use go_dashboard.Storage.Tables.{unix_milli}
use go_dashboard.Workflow.Executor.Input.{Outputs}
use go_dashboard.Workflow.Executor.World.{
  World, Event, user_cancels, shuts_down, deadline_passes, time_passes, performs, Exec, pure,
  modify, others, happen, cancel_control, cancel_active, ◌>>◌, run_ctx,
}
use go_dashboard.Workflow.Executor.Holds.{
  Holds, IsStable, others-stable, Holds-others, Holds-pure, Holds-fail, Holds-gets, Holds-if,
  Holds-bind,
}
use go_dashboard.Workflow.Executor.Execute.{
  Attempted, returned, settled, call_capability, after_failure, judge, attempt_once, attempts,
  Advanced, finished, advanced, with_input, with_capability, mapped, execute_step, at_step, proceed,
  execute_steps, execute,
}
use go_dashboard.Workflow.Executor.Quiet.{
  update_run-Holds, update_step-Holds, fail_run-Holds, checked-Holds, finished-Holds,
  after_attempts-Holds, finish-Holds,
}

module _ (P : Db → Type 0)
    (kept : (ctx : Ctx) (at : ℕ) (call : Call) (conn : Conn)
      → P conn.db
      → P (perform ctx at call conn).db) where
  abbrev pub W : World → Type 0
  W w = P w.conn.db

  active_kept :
      (id : String) (r : Result (Unit {0})) (conn : Conn) (w : World)
      → P conn.db
      → W (cancel_active id (r, conn) w).1
  active_kept id (ok _) conn w p = elim (Bool-cases (w.active_id == id)) [
    | inl e ↦ rw e p
    | inr e ↦ rw e p
  ]
  active_kept id (err e) conn w p = p

  by_event : (e : Event) (w : World) → W w → W (happen e w)
  unfolding happen cancel_control perform
  by_event (user_cancels id) w p =
      let (r, conn) = cancel_run background (unix_milli w.clock) id w.conn in
      active_kept id r conn w (kept background (unix_milli w.clock) (cancels_run id) w.conn p)
  by_event shuts_down w p = p
  by_event deadline_passes w p = p
  by_event (time_passes n) w p = p
  by_event (performs call) w p = kept background (unix_milli w.clock) call w.conn p

  pub stable : IsStable W
  stable = record {
    by_event = by_event;
    by_script = λ w rest p. p;
    by_store = λ ctx at call w p. kept ctx at call w.conn p;
    by_draw = λ w p. p;
  }

  module _ (id : String) (capability : Capability) (input : RawMessage) where
    again-Holds :
        (left : ℕ) (failed : StepRun) (e : Error) (again : StepRun → Exec Attempted)
        → ((s : StepRun) → Holds W (again s))
        → Holds W (elim left [
          | zero ↦ pure (settled failed (err e))
          | suc _ ↦ (modify others >> again failed)
        ])
    again-Holds zero failed e again h = Holds-pure _
    again-Holds (suc left) failed e again h = Holds-bind _ _ (Holds-others stable) (λ _. h failed)

    judge-Holds :
        (left : ℕ) (step : StepRun) (again : StepRun → Exec Attempted) (r : Result Output)
        → ((s : StepRun) → Holds W (again s))
        → Holds W (judge id capability input left step again r)
    unfolding after_failure
    judge-Holds left step again (ok output) h = Holds-pure _
    judge-Holds left step again (err e) h =
        Holds-bind _ _ (Holds-gets _) λ at.
          Holds-bind _ _ (update_step-Holds stable run_ctx _) λ _. again-Holds left _ e again h

    call-Holds : (step : StepRun) → Holds W (call_capability capability step input)
    unfolding call_capability
    call-Holds step = record { at = λ w p. others-stable stable w p }

    attempts-Holds : (n : ℕ) (step : StepRun) → Holds W (attempts id capability input n step)
    unfolding attempts attempt_once
    attempts-Holds zero step = Holds-pure _
    attempts-Holds (suc n) step = Holds-bind _ _ (Holds-gets _) λ at.
        Holds-bind _ _ (update_step-Holds stable run_ctx _) λ _.
          Holds-bind _ _ (call-Holds _) λ result. Holds-bind _ _ (Holds-gets _) λ check.
            checked-Holds stable returned id _ check
              (judge-Holds n _ (attempts id capability input n) result (attempts-Holds n))

  module _ (suffix : ℕ → String) where
    with_input-Holds :
        (d : StepDefinition) (capability : Capability) (run : Run) (index : ℕ) (outputs : Outputs)
        (step : StepRun) (input : RawMessage) (r : Result (Unit {0}))
        → Holds W (with_input suffix d capability run index outputs step input r)
    with_input-Holds d capability run index outputs step input (err e) =
        finished-Holds stable suffix _ (fail_run-Holds stable _ index _ e)
    with_input-Holds d capability run index outputs step input (ok _) =
        Holds-bind _ _ (attempts-Holds run.id capability input _ _)
          (after_attempts-Holds stable suffix run index outputs)

    mapped-Holds :
        (registry : Registry) (d : StepDefinition) (run : Run) (index : ℕ) (outputs : Outputs)
        (step : StepRun) (r : Result RawMessage)
        → Holds W (mapped suffix registry d run index outputs step r)
    mapped-Holds registry d run index outputs step (err e) =
        finished-Holds stable suffix _ (fail_run-Holds stable run index _ e)
    mapped-Holds registry d run index outputs step (ok input) =
        by_name (resolve step.capability registry)
      where
        by_name :
            (r : Result Capability)
            → Holds W (with_capability suffix d run index outputs step input r)
        by_name (err e) = Holds-fail _
        by_name (ok capability) =
            with_input-Holds d capability run index outputs step input
              (capability.validate_input input)

    execute_step-Holds :
        (registry : Registry) (d : StepDefinition) (run : Run) (index : ℕ) (outputs : Outputs)
        (step : StepRun)
        → Holds W (execute_step suffix registry d run index outputs step)
    unfolding execute_step
    execute_step-Holds registry d run index outputs step =
        Holds-if (step_eq step.status StepStatus.completed) _ _ (Holds-pure _) (
          Holds-bind _ _ (update_run-Holds stable run_ctx _)
            (λ _. mapped-Holds registry d _ index outputs step _))

    execute_steps-Holds :
        (registry : Registry) (ds : List StepDefinition) (run : Run) (index : ℕ) (outputs : Outputs)
        → Holds W (execute_steps suffix registry ds run index outputs)
    unfolding execute_steps
    execute_steps-Holds registry [] run index outputs = Holds-pure _
    execute_steps-Holds registry (d ∷ ds) run index outputs =
        Holds-bind _ _ (here (get_elem? run.steps index))
          (next (execute_steps suffix registry ds) (execute_steps-Holds registry ds))
      where
        here : (s : Option StepRun) → Holds W (at_step suffix registry d run index outputs s)
        here none = Holds-fail _
        here (some step) = execute_step-Holds registry d run index outputs step

        next :
            (f : Run → ℕ → Outputs → Exec Advanced)
            → ((r : Run) (i : ℕ) (o : Outputs) → Holds W (f r i o))
            → (a : Advanced) → Holds W (proceed suffix (λ r o. f r (suc index) o) a)
        next f h (finished r) = Holds-pure _
        next f h (advanced r o) = h r (suc index) o

    pub execute-Holds :
        (definition : Definition) (registry : Registry) (run : Run) (w : World)
        → W w
        → W (execute suffix definition registry run w).1
    unfolding execute
    execute-Holds definition registry run =
        let begun : Holds W (modify (λ w. record w { run_ctx = w.task_ctx })) = record {
          at = λ w p. p;
        } in
        (Holds-bind _ _ begun λ _.
          Holds-bind _ _ (execute_steps-Holds registry definition.steps run 0 [])
            (finish-Holds stable suffix)).at
