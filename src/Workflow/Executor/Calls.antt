-- ===== src/Workflow/Executor/Calls.antt =====
-- How often `execute` calls capabilities.
use go_dashboard.Prelude.{
  ℕ, zero, suc, ◌+◌, ◌≤◌, String, ◌≡◌, refl, inl, inr, Option, none, some, List, [], ◌∷◌, arith,
  if◌then◌else◌, Bool-cases, get_elem?, to_ℕ, Error, Result, ok, err,
}
use go_dashboard.Json.{RawMessage}
use go_dashboard.Capability.{Capability, Output, Registry, resolve}
use go_dashboard.Workflow.Status.{step_eq, StepStatus}
use go_dashboard.Workflow.Definition.{Definition, StepDefinition}
use go_dashboard.Workflow.Run.{Run, StepRun}
use go_dashboard.Storage.Sql.{Conn, background}
use go_dashboard.Storage.Lifecycle.{cancel_run}
use go_dashboard.Storage.Tables.{unix_milli}
use go_dashboard.Workflow.Executor.Input.{Outputs}
use go_dashboard.Workflow.Executor.World.{
  continue, World, Event, user_cancels, shuts_down, deadline_passes, time_passes, performs, Exec,
  pure, modify, others, happen, cancel_control, cancel_active, ◌>>=◌, ◌>>◌, run_ctx,
}
use go_dashboard.Workflow.Executor.Holds.{
  Holds, IsStable, others-stable, Holds-others, Holds-pure, Holds-fail, Holds-gets, Holds-bind,
}
use go_dashboard.Workflow.Executor.Execute.{
  Attempted, returned, settled, Check, reloads, stops, goes_on, checked, call_capability,
  after_failure, judge, attempt_once, attempts, Advanced, finished, advanced, with_input,
  with_capability, mapped, execute_step, at_step, proceed, execute_steps, execute,
}
use native.Mathlib.Nat.{le_refl}
use go_dashboard.Workflow.Executor.Quiet.{
  reload-Holds, after_attempts-Holds, fail_run-Holds, finished-Holds, update_run-Holds,
  update_step-Holds, finish-Holds,
}

-- Not more than `k` calls so far.
abbrev pub CallsWithin : ℕ → World → Type 0
CallsWithin k w = w.calls ≤ k

cancel_active-calls :
    (id : String) (r : Result (Unit {0})) (conn : Conn) (w : World)
    → (cancel_active id (r, conn) w).1.calls ≡ w.calls
cancel_active-calls id (ok _) conn w = ground arith
cancel_active-calls id (err e) conn w = refl

happen-calls : (e : Event) (w : World) → (happen e w).calls ≡ w.calls
unfolding happen cancel_control
happen-calls (user_cancels id) w =
    let (r, conn) = cancel_run background (unix_milli w.clock) id w.conn in
    cancel_active-calls id r conn w
happen-calls shuts_down w = refl
happen-calls deadline_passes w = refl
happen-calls (time_passes n) w = refl
happen-calls (performs call) w = refl

pub stable : (k : ℕ) → IsStable (CallsWithin k)
stable k = record {
  by_event = λ e w h. rw happen-calls h;
  by_script = λ w rest h. h;
  by_store = λ ctx at call w h. h;
  by_draw = λ w h. h;
}

-- `m` makes at most `n` calls.
record Spends {A : Type 0} (n : ℕ) (m : Exec A) : Type 0 where
  at : (w : World) → (m w).1.calls ≤ w.calls + n

Spends-quiet : {A : Type 0} (n : ℕ) (m : Exec A) → ((k : ℕ) → Holds (CallsWithin k) m) → Spends n m
Spends-quiet n m h = record { at = λ w. omega (arith, (h w.calls).at w (le_refl w.calls)) }

Spends-le : {A : Type 0} (n k : ℕ) (m : Exec A) → n ≤ k → Spends n m → Spends k m
Spends-le n k m le h = record { at = λ w. omega (arith, h.at w) }

continue-calls :
    {A B : Type 0} (n k : ℕ) (f : A → Exec B) (r : Result A) (w w' : World)
    → ((a : A) → Spends k (f a))
    → w'.calls ≤ w.calls + n
    → (continue r f w').1.calls ≤ w.calls + (n + k)
continue-calls n k f (ok a) w w' g h = omega (arith, (g a).at w')
continue-calls n k f (err e) w w' g h = omega arith

Spends-bind :
    {A B : Type 0} (n k : ℕ) (m : Exec A) (f : A → Exec B)
    → Spends n m
    → ((a : A) → Spends k (f a))
    → Spends (n + k) (m >>= f)
unfolding ◌>>=◌
Spends-bind n k m f h g = record {
  at = λ w. let (r, w') = m w in continue-calls n k f r w w' g (h.at w);
}

-- A quiet part before the rest.
Spends-then :
    {A B : Type 0} (k : ℕ) (m : Exec A) (f : A → Exec B)
    → ((j : ℕ) → Holds (CallsWithin j) m)
    → ((a : A) → Spends k (f a))
    → Spends k (m >>= f)
Spends-then k m f h g =
    Spends-le (0 + k) k _ (omega arith) (Spends-bind 0 k m f (Spends-quiet 0 m h) g)

checked-Spends :
    {A : Type 0} (n : ℕ) (early : Run → A) (id : String) (rest : Exec A) (check : Check)
    → Spends n rest
    → Spends n (checked early id rest check)
checked-Spends n early id rest reloads h =
    Spends-quiet n _
      λ k. Holds-bind _ _ (reload-Holds (stable k) id) (λ run. Holds-pure (early run))
checked-Spends n early id rest (stops e) h = Spends-quiet n _ (λ k. Holds-fail e)
checked-Spends n early id rest goes_on h = h

module _ (id : String) (capability : Capability) (input : RawMessage) where
  call-Spends : (step : StepRun) → Spends 1 (call_capability capability step input)
  unfolding call_capability
  call-Spends step = record {
    at = λ w. omega (arith, others-stable (stable w.calls) w (le_refl w.calls));
  }

  again-Spends :
      (left : ℕ) (failed : StepRun) (e : Error) (again : StepRun → Exec Attempted)
      → ((s : StepRun) → Spends left (again s))
      → Spends left (elim left [
        | zero ↦ pure (settled failed (err e))
        | suc _ ↦ (modify others >> again failed)
      ])
  again-Spends zero failed e again h = Spends-quiet 0 _ (λ k. Holds-pure _)
  again-Spends (suc left) failed e again h =
      Spends-then (suc left) _ _ (λ k. Holds-others (stable k)) (λ _. h failed)

  judge-Spends :
      (left : ℕ) (step : StepRun) (again : StepRun → Exec Attempted) (r : Result Output)
      → ((s : StepRun) → Spends left (again s))
      → Spends left (judge id capability input left step again r)
  unfolding after_failure
  judge-Spends left step again (ok output) h = Spends-quiet left _ (λ k. Holds-pure _)
  judge-Spends left step again (err e) h =
      Spends-then left _ _ (λ k. Holds-gets _)
        λ at.
          Spends-then left _ _ (λ k. update_step-Holds (stable k) run_ctx _)
            λ _. again-Spends left _ e again h

  attempts-Spends : (n : ℕ) (step : StepRun) → Spends n (attempts id capability input n step)
  unfolding attempts attempt_once
  attempts-Spends zero step = Spends-quiet 0 _ (λ k. Holds-pure _)
  attempts-Spends (suc n) step =
      Spends-then (suc n) _ _ (λ k. Holds-gets _)
        λ at.
          Spends-then (suc n) _ _ (λ k. update_step-Holds (stable k) run_ctx _)
            λ _. Spends-le (1 + n) (suc n) _ (omega arith) (
              Spends-bind 1 n _ _ (call-Spends _) λ result.
                Spends-then n _ _ (λ k. Holds-gets _)
                  λ check.
                    checked-Spends n returned id _ check (
                      judge-Spends n _ (attempts id capability input n) result (attempts-Spends n)))

-- The attempts that the definition allows, over all steps.
pub attempt_budget : List StepDefinition → ℕ
attempt_budget [] = 0
attempt_budget (d ∷ ds) = to_ℕ d.retry_policy.max_attempts + attempt_budget ds

module _ (suffix : ℕ → String) where
  with_input-Spends :
      (d : StepDefinition) (capability : Capability) (run : Run) (index : ℕ) (outputs : Outputs)
      (step : StepRun) (input : RawMessage) (r : Result (Unit {0}))
      → Spends
          (to_ℕ d.retry_policy.max_attempts)
          (with_input suffix d capability run index outputs step input r)
  with_input-Spends d capability run index outputs step input (err e) =
      Spends-quiet _ _
        λ k. finished-Holds (stable k) suffix _ (fail_run-Holds (stable k) _ index _ e)
  with_input-Spends d capability run index outputs step input (ok _) =
      Spends-le (to_ℕ d.retry_policy.max_attempts + 0) _ _ (omega arith) (
        Spends-bind _ 0 _ _ (attempts-Spends run.id capability input _ _) λ tried.
          Spends-quiet 0 _ (λ k. after_attempts-Holds (stable k) suffix run index outputs tried))

  with_capability-Spends :
      (d : StepDefinition) (run : Run) (index : ℕ) (outputs : Outputs) (step : StepRun)
      (input : RawMessage) (r : Result Capability)
      → Spends
          (to_ℕ d.retry_policy.max_attempts)
          (with_capability suffix d run index outputs step input r)
  with_capability-Spends d run index outputs step input (err e) =
      Spends-quiet _ _ (λ k. Holds-fail _)
  with_capability-Spends d run index outputs step input (ok capability) =
      with_input-Spends d capability run index outputs step input _

  mapped-Spends :
      (registry : Registry) (d : StepDefinition) (run : Run) (index : ℕ) (outputs : Outputs)
      (step : StepRun) (r : Result RawMessage)
      → Spends
          (to_ℕ d.retry_policy.max_attempts)
          (mapped suffix registry d run index outputs step r)
  mapped-Spends registry d run index outputs step (err e) =
      Spends-quiet _ _
        λ k. finished-Holds (stable k) suffix _ (fail_run-Holds (stable k) run index _ e)
  mapped-Spends registry d run index outputs step (ok input) =
      with_capability-Spends d run index outputs step input (resolve step.capability registry)

  -- A step that has completed before makes no call.
  step_budget : StepDefinition → StepRun → ℕ
  step_budget d step =
      if step_eq step.status StepStatus.completed then 0 else to_ℕ d.retry_policy.max_attempts

  execute_step-Spends :
      (registry : Registry) (d : StepDefinition) (run : Run) (index : ℕ) (outputs : Outputs)
      (step : StepRun)
      → Spends (step_budget d step) (execute_step suffix registry d run index outputs step)
  unfolding execute_step step_budget
  execute_step-Spends registry d run index outputs step =
      elim (Bool-cases (step_eq step.status StepStatus.completed)) [
        | inl done ↦ rw done (Spends-quiet 0 _ (λ k. Holds-pure _))
        | inr open_step ↦ rw open_step (
            Spends-then _ _ _ (λ k. update_run-Holds (stable k) run_ctx _)
              (λ _. mapped-Spends registry d _ index outputs step _))
      ]

  at_step-Spends :
      (registry : Registry) (d : StepDefinition) (run : Run) (index : ℕ) (outputs : Outputs)
      (s : Option StepRun)
      → Spends (to_ℕ d.retry_policy.max_attempts) (at_step suffix registry d run index outputs s)
  unfolding step_budget
  at_step-Spends registry d run index outputs none = Spends-quiet _ _ (λ k. Holds-fail _)
  at_step-Spends registry d run index outputs (some step) =
      Spends-le (step_budget d step) _ _ (ground arith)
        (execute_step-Spends registry d run index outputs step)

  execute_steps-Spends :
      (registry : Registry) (ds : List StepDefinition) (run : Run) (index : ℕ) (outputs : Outputs)
      → Spends (attempt_budget ds) (execute_steps suffix registry ds run index outputs)
  unfolding execute_steps attempt_budget
  execute_steps-Spends registry [] run index outputs = Spends-quiet 0 _ (λ k. Holds-pure _)
  execute_steps-Spends registry (d ∷ ds) run index outputs =
      Spends-bind _ _ _ _ (at_step-Spends registry d run index outputs (get_elem? run.steps index))
        (next (execute_steps suffix registry ds) (execute_steps-Spends registry ds))
    where
      next :
          (f : Run → ℕ → Outputs → Exec Advanced)
          → ((r : Run) (i : ℕ) (o : Outputs) → Spends (attempt_budget ds) (f r i o))
          → (a : Advanced)
          → Spends (attempt_budget ds) (proceed suffix (λ r o. f r (suc index) o) a)
      next f h (finished r) = Spends-quiet _ _ (λ k. Holds-pure _)
      next f h (advanced r o) = h r (suc index) o

-- One execution of a run calls capabilities at most as often as the retry policies of the steps
-- allow together, whatever the calls return and whatever else happens.
pub execute-le-budget :
    (suffix : ℕ → String) (definition : Definition) (registry : Registry) (run : Run) (w : World)
    → (execute suffix definition registry run w).1.calls ≤ w.calls + attempt_budget definition.steps
unfolding execute
execute-le-budget suffix definition registry run w =
    let n = attempt_budget definition.steps in
    (Spends-then n _ _ (λ k. record { at = λ v h. h })
        λ _. Spends-le (n + 0) n _ (omega arith) (
          Spends-bind n 0 _ _ (execute_steps-Spends suffix registry definition.steps run 0 [])
            λ last. Spends-quiet 0 _ (λ k. finish-Holds (stable k) suffix last))).at
      w
