-- ===== src/Workflow/Executor/Execute.antt =====
-- backend/internal/workflow/executor.go: `execute` and `failRun`. A loop over the steps of the
-- definition is a recursion on their list, and the loop over the attempts one on the rounds left.
use go_dashboard.Prelude.{
  ℕ, zero, suc, ◌+◌, String, Option, none, some, List, [], ◌∷◌, ◌==◌, if◌then◌else◌, get_elem?,
  to_ℕ, Error, Result, ok, err,
}
use Prim.Native.String.{◌++◌ as concat}
use go_dashboard.Json.{RawMessage, absent}
use go_dashboard.Trigger.{Time}
use go_dashboard.Artifact.{Artifact}
use go_dashboard.Capability.{Capability, Output, Registry, resolve}
use go_dashboard.Workflow.Status.{RunStatus, StepStatus, step_eq}
use go_dashboard.Workflow.Definition.{Definition, StepDefinition}
use go_dashboard.Workflow.Run.{Run, StepRun}
use go_dashboard.Storage.Runs.{get_run, update_run, update_step, complete_step}
use go_dashboard.Workflow.Executor.Input.{Outputs, map_input}
use go_dashboard.Workflow.Executor.World.{
  World, Exec, pure, fail, gets, modify, store, attempt, others, no_ctx, task_ctx, run_ctx, ◌>>=◌,
  ◌>>◌,
}

unfoldable pub error_category : Error → String
error_category Error.deadline_exceeded = "timeout"
error_category Error.canceled = "cancelled"
error_category Error.model_not_found = "model_unavailable"
error_category Error.provider_unavailable = "provider_unavailable"
error_category Error.invalid_response = "invalid_model_response"
error_category _ = "capability_failed"

-- `err.Error()`: the text of the sentinel, without what `fmt.Errorf` adds before or after it.
unfoldable pub safe_error_message : Error → String
safe_error_message Error.deadline_exceeded = "context deadline exceeded"
safe_error_message Error.canceled = "context canceled"
safe_error_message Error.model_not_found = "configured model not found"
safe_error_message Error.provider_unavailable = "LLM provider unavailable"
safe_error_message Error.invalid_response = "invalid LLM response"
safe_error_message (Error.failure text) = text
safe_error_message (Error.unknown_profile name) = "unknown model profile"
safe_error_message (Error.unknown_mapping name) = "capability has no model profile mapping"
safe_error_message Error.record_not_found = "record not found"
safe_error_message (Error.panic text) = text
safe_error_message (Error.invalid_definition flaw) = "invalid workflow definition"
safe_error_message Error.invalid_request = "invalid normalized request"
safe_error_message Error.executor_not_running = "workflow executor is not running"
safe_error_message Error.run_not_retryable = "workflow run is not retryable"
safe_error_message Error.run_not_cancellable = "workflow run is not cancellable"
safe_error_message Error.run_cancelled = "workflow run was cancelled"
safe_error_message Error.selection_required = "workflow selection is required"
safe_error_message (Error.duplicate_definition id) = "duplicate workflow definition"
safe_error_message (Error.unknown_workflow id) = "unknown workflow"
safe_error_message (Error.duplicate_capability name) = "duplicate capability"
safe_error_message (Error.unknown_capability name) = "unknown capability"
safe_error_message (Error.workflow_mismatch id) =
    "selected workflow is not served by the configured executor"
safe_error_message Error.slack_invalid_identity = "invalid Slack identity"
safe_error_message Error.slack_not_found = "Slack record not found"
safe_error_message Error.event_in_progress = "Slack event is already being processed"
safe_error_message Error.unsupported_event = "unsupported Slack event"
safe_error_message Error.empty_context = "Slack thread has no active text context"
safe_error_message Error.empty_content = "content is required"
safe_error_message Error.content_too_long = "content exceeds maximum length"
safe_error_message Error.invalid_summary_type = "unsupported summary type"
safe_error_message Error.invalid_input = "invalid capability input"
safe_error_message (Error.slack_api what) = "Slack API request failed"

-- `NewID`
unfoldable pub new_id : (ℕ → String) → String → Exec String
new_id suffix prefix w =
    (ok (concat (concat prefix "_") (suffix w.drawn)), record w { drawn = w.drawn + 1 })

abbrev pub now : Exec Time
now = gets (λ w. w.clock)

unfoldable pub set_step_at : ℕ → StepRun → List StepRun → List StepRun
set_step_at i step [] = []
set_step_at zero step (s ∷ ss) = step ∷ ss
set_step_at (suc i) step (s ∷ ss) = s ∷ set_step_at i step ss

-- `executor.store.GetRun(context.WithoutCancel(runCtx), run.ID)`
abbrev pub reload : String → Exec Run
reload id = store no_ctx (λ ctx _. get_run ctx id)

-- `failRun`: the loop over the later steps, whose errors are ignored.
unfoldable pub skip_steps : Time → List StepRun → Exec (Unit {0})
skip_steps completed [] = pure tt
skip_steps completed (step ∷ rest) = do
  _ ← attempt (
      store no_ctx λ ctx at.
        update_step ctx at
          (record step { status = StepStatus.skipped; completed_at = some completed }))
  skip_steps completed rest

unfoldable pub drop_steps : ℕ → List StepRun → List StepRun
drop_steps zero steps = steps
drop_steps (suc n) [] = []
drop_steps (suc n) (s ∷ ss) = drop_steps n ss

unfoldable pub fail_run : Run → ℕ → String → Error → Exec Run
fail_run run failed_index code cause = do
  completed ← now
  skip_steps completed (drop_steps (suc failed_index) run.steps)
  store no_ctx λ ctx at. update_run ctx at (record run {
    status = RunStatus.failed;
    completed_at = some completed;
    error_code = code;
    error_message = safe_error_message cause;
  })
  reload run.id

-- What the loop over the attempts of a step leaves: an early return of `execute` with a run, or the
-- step with the result of its last attempt.
pub data Attempted : Type 0 where
  returned : Run → Attempted
  settled : StepRun → Result Output → Attempted

-- How `execute` goes on after a check of its contexts.
pub data Check : Type 0 where
  reloads : Check
  stops : Error → Check
  goes_on : Check

-- `if runCtx.Err() != nil { … }`
unfoldable pub context_check : World → Check
context_check w = elim w.run_ctx [
  | none ↦ goes_on
  | some _ ↦
      if w.user_cancelled
      then reloads
      else (elim w.task_ctx [ some Error.canceled ↦ stops Error.canceled | _ ↦ goes_on ])
]

abbrev pub checked : {A : Type 0} → (Run → A) → String → Exec A → Check → Exec A
checked early id rest reloads = reload id >>= λ run. pure (early run)
checked early id rest (stops e) = fail e
checked early id rest goes_on = rest

abbrev pub started_step : Time → StepRun → StepRun
started_step at step = record step {
  status = StepStatus.running;
  attempt = step.attempt + 1;
  started_at = some at;
  error_code = "";
  error_message = "";
}

abbrev pub failed_step : Time → Error → StepRun → StepRun
failed_step at e step = record step {
  status = StepStatus.failed;
  completed_at = some at;
  error_code = error_category e;
  error_message = safe_error_message e;
}

-- `resolved.Execute(modelrouter.WithProfile(stepCtx, step.ModelProfile), input)`: others act meanwhile.
unfoldable pub call_capability : Capability → StepRun → RawMessage → Exec (Result Output)
call_capability capability step input w =
    let w' = others w in
    (ok (capability.execute w'.calls step.model_profile input), record w' { calls = w'.calls + 1 })

abbrev pub no_output : Output
no_output = record { content = absent; artifact_type = ""; model = ""; prompt_version = "" }

module _ (run_id : String) (capability : Capability) (input : RawMessage) where
  -- After a failed attempt: the step is written, and a next attempt waits for the backoff.
  unfoldable pub after_failure : ℕ → StepRun → Error → (StepRun → Exec Attempted) → Exec Attempted
  after_failure left step e again = do
    failed_at ← now
    let failed = failed_step failed_at e step
    store run_ctx (λ ctx at. update_step ctx at failed)
    elim left [ zero ↦ pure (settled failed (err e)) | suc _ ↦ (do modify others; again failed) ]

  abbrev pub judge : ℕ → StepRun → (StepRun → Exec Attempted) → Result Output → Exec Attempted
  judge left step again (ok output) = pure (settled step (ok output))
  judge left step again (err e) = after_failure left step e again

  -- From the test of the contexts after the call to the end of the round.
  abbrev pub judged : ℕ → StepRun → (StepRun → Exec Attempted) → Result Output → Exec Attempted
  judged left step again result = do
    check ← gets context_check
    checked returned run_id (judge left step again result) check

  -- One round of the loop.
  unfoldable pub attempt_once : ℕ → StepRun → (StepRun → Exec Attempted) → Exec Attempted
  attempt_once left step again = do
    started ← now
    let running = started_step started step
    store run_ctx (λ ctx at. update_step ctx at running)
    result ← call_capability capability running input
    judged left running again result

  unfoldable pub attempts : ℕ → StepRun → Exec Attempted
  attempts zero step = pure (settled step (ok no_output))
  attempts (suc left) step = attempt_once left step (attempts left)

-- What a step leaves: an early return, or the run and the outputs for the next step.
pub data Advanced : Type 0 where
  finished : Run → Advanced
  advanced : Run → Outputs → Advanced

-- The last artifact of the step, where a completed step is passed over.
unfoldable pub final_artifact : String → List Artifact → String → String
final_artifact step_id [] current = current
final_artifact step_id (a ∷ rest) current =
    final_artifact step_id rest (if a.step_run_id == step_id then a.id else current)

abbrev pub completed_step : Time → Output → StepRun → StepRun
completed_step at output step = record step {
  status = StepStatus.completed;
  completed_at = some at;
  output = output.content;
  model = output.model;
}

abbrev pub artifact_for : String → Time → Output → Run → StepRun → Artifact
artifact_for id at output run step = record {
  id = id;
  workflow_run_id = run.id;
  step_run_id = step.id;
  type = output.artifact_type;
  content = output.content;
  model = output.model;
  prompt_version = output.prompt_version;
  created_at = at;
}

-- `if errors.Is(err, ErrRunCancelled) { return executor.store.GetRun(…) }`
abbrev pub unless_cancelled :
    {A : Type 0} → (Run → A) → String → Exec A → Result (Unit {0}) → Exec A
unless_cancelled early id rest (ok _) = rest
unless_cancelled early id rest (err Error.run_cancelled) = reload id >>= λ run. pure (early run)
unless_cancelled early id rest (err e) = fail e

module _ (suffix : ℕ → String) where
  -- `CompleteStep` with a new artifact.
  unfoldable pub record_step : Run → ℕ → Outputs → StepRun → Output → Exec Advanced
  record_step run index outputs step output = do
    completed ← now
    id ← new_id suffix "artifact"
    let done = completed_step completed output step
    saved ← attempt (
        store run_ctx
          λ ctx at. complete_step ctx at done (artifact_for id completed output run done))
    unless_cancelled finished run.id
        (pure (
          advanced (record run { steps = set_step_at index done run.steps; final_artifact_id = id })
            ((done.step_id, output.content) ∷ outputs)))
        saved

  -- From `if executeErr != nil`.
  abbrev pub conclude : Run → ℕ → Outputs → StepRun → Result Output → Exec Advanced
  conclude run index outputs step (err e) =
      fail_run (record run { steps = set_step_at index step run.steps }) index (error_category e) e
      >>= λ failed. pure (finished failed)
  conclude run index outputs step (ok output) = do
    cancelled ← gets (λ w. w.user_cancelled)
    if cancelled
        then (do stopped ← reload run.id; pure (finished stopped))
        else record_step run index outputs step output

  -- After the loop over the attempts.
  abbrev pub after_attempts : Run → ℕ → Outputs → Attempted → Exec Advanced
  after_attempts run index outputs (returned early) = pure (finished early)
  after_attempts run index outputs (settled step result) = do
    check ← gets context_check
    checked finished run.id (conclude run index outputs step result) check

  abbrev pub with_input :
      StepDefinition
      → Capability
      → Run
      → ℕ
      → Outputs
      → StepRun
      → RawMessage
      → Result (Unit {0})
      → Exec Advanced
  with_input definition capability run index outputs step input (err e) =
      fail_run (record run { steps = set_step_at index (record step { input = input }) run.steps })
        index "invalid_capability_input" e
      >>= λ failed. pure (finished failed)
  with_input definition capability run index outputs step input (ok _) = do
    tried ←
        attempts run.id capability input (to_ℕ definition.retry_policy.max_attempts)
          (record step { input = input })
    after_attempts run index outputs tried

  -- `resolved` is nil where the registry does not know the capability, and its call panics.
  abbrev pub with_capability :
      StepDefinition → Run → ℕ → Outputs → StepRun → RawMessage → Result Capability → Exec Advanced
  with_capability definition run index outputs step input (err e) =
      fail (Error.panic "nil capability")
  with_capability definition run index outputs step input (ok capability) =
      with_input definition capability run index outputs step input
        (capability.validate_input input)

  abbrev pub mapped :
      Registry → StepDefinition → Run → ℕ → Outputs → StepRun → Result RawMessage → Exec Advanced
  mapped registry definition run index outputs step (err e) =
      fail_run run index "input_mapping_failed" e >>= λ failed. pure (finished failed)
  mapped registry definition run index outputs step (ok input) =
      with_capability definition run index outputs step input (resolve step.capability registry)

  unfoldable pub execute_step :
      Registry → StepDefinition → Run → ℕ → Outputs → StepRun → Exec Advanced
  execute_step registry definition run index outputs step =
      if step_eq step.status StepStatus.completed
      then pure (
          advanced
            (record run {
              final_artifact_id = final_artifact step.id run.artifacts run.final_artifact_id;
            })
            ((step.step_id, step.output) ∷ outputs))
      else do
        let current = record run { current_step_id = step.step_id }
        store run_ctx (λ ctx at. update_run ctx at current)
        mapped registry definition current index outputs step
            (map_input run.request outputs definition.input_mapping)

  -- `&run.Steps[index]`, which panics out of range.
  abbrev pub at_step :
      Registry → StepDefinition → Run → ℕ → Outputs → Option StepRun → Exec Advanced
  at_step registry definition run index outputs none = fail (Error.panic "index out of range")
  at_step registry definition run index outputs (some step) =
      execute_step registry definition run index outputs step

  abbrev pub proceed : (Run → Outputs → Exec Advanced) → Advanced → Exec Advanced
  proceed next (finished run) = pure (finished run)
  proceed next (advanced run outputs) = next run outputs

  unfoldable pub execute_steps : Registry → List StepDefinition → Run → ℕ → Outputs → Exec Advanced
  execute_steps registry [] run index outputs = pure (advanced run outputs)
  execute_steps registry (definition ∷ rest) run index outputs =
      at_step registry definition run index outputs (get_elem? run.steps index)
      >>= proceed (λ run' outputs'. execute_steps registry rest run' (suc index) outputs')

  -- After the last step.
  abbrev pub finish : Advanced → Exec Run
  finish (finished run) = pure run
  finish (advanced run outputs) = do
    completed ← now
    saved ← attempt (
        store run_ctx λ ctx at. update_run ctx at (record run {
          status = RunStatus.completed;
          completed_at = some completed;
          current_step_id = "";
        }))
    unless_cancelled (λ r. r) run.id (store task_ctx (λ ctx _. get_run ctx run.id)) saved

  -- `runCtx` starts as its parent is.
  unfoldable pub execute : Definition → Registry → Run → Exec Run
  execute definition registry run = do
    modify (λ w. record w { run_ctx = w.task_ctx })
    last ← execute_steps registry definition.steps run 0 []
    finish last
