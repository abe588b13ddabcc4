-- ===== src/Http/Workflows.antt =====
-- backend/internal/httpapi/workflow_handler.go: the handlers of workflow runs. The application
-- (`WorkflowApplication`, an interface), the decoder of a body and the random part of an ID are parameters; a decoder
-- gives the content, and whether the body ends after it.
use go_dashboard.Prelude.{
  ℕ, String, Bool, true, false, Option, none, some, List, [], if◌then◌else◌, ℤ, is_blank,
  trim_space, Error, Result, ok, err,
}
use go_dashboard.Prelude.{atoi_value}
use go_dashboard.Trigger.{Time, Request}
use go_dashboard.Workflow.Run.{Run}
use go_dashboard.Workflow.Executor.World.{Exec, pure, gets, attempt, ◌>>=◌}
use go_dashboard.Workflow.Executor.Execute.{new_id}
use go_dashboard.Http.{Reply, refuses, replies}
use Prim.Native.String.{◌++◌ as concat}

pub record WorkflowApplication : Type 0 where
  pub start : Request → Exec Run
  pub get_run : String → Exec Run
  pub list_runs : ℤ → Exec (List Run)
  pub retry : String → Exec Run
  pub cancel : String → Exec Run

abbrev run_not_found : {A : Type 0} → Reply A
run_not_found = refuses 404 "workflow_run_not_found" "Workflow run not found."

unfoldable pub get_error : {A : Type 0} → Error → Reply A
get_error Error.record_not_found = run_not_found
get_error _ = refuses 500 "workflow_get_failed" "Unable to load the workflow run."

unfoldable pub lifecycle_error : {A : Type 0} → String → Error → Reply A
lifecycle_error operation Error.record_not_found = run_not_found
lifecycle_error operation Error.run_not_retryable =
    refuses 409 "workflow_state_conflict"
      "The workflow run cannot perform that operation in its current state."
lifecycle_error operation Error.run_not_cancellable =
    refuses 409 "workflow_state_conflict"
      "The workflow run cannot perform that operation in its current state."
lifecycle_error operation _ =
    refuses 500 (concat "workflow_" (concat operation "_failed"))
      (concat "Unable to " (concat operation " the workflow run."))

abbrev pub reply_or : {A : Type 0} → ℕ → (Error → Reply A) → Result A → Reply A
reply_or status failed (ok a) = replies status a
reply_or status failed (err e) = failed e

abbrev answer : {A : Type 0} → ℕ → (Error → Reply A) → Exec A → Exec (Reply A)
answer status failed call = attempt call >>= λ result. pure (reply_or status failed result)

module _ (application : WorkflowApplication) where
  unfoldable pub list : String → Exec (Reply (List Run))
  list limit =
      answer 200 (λ _. refuses 500 "workflow_list_failed" "Unable to load workflow runs.")
        (application.list_runs (atoi_value limit))

  unfoldable pub get : String → Exec (Reply Run)
  get id = answer 200 get_error (application.get_run id)

  unfoldable pub retry : String → Exec (Reply Run)
  retry id = answer 202 (lifecycle_error "retry") (application.retry id)

  unfoldable pub cancel : String → Exec (Reply Run)
  cancel id = answer 202 (lifecycle_error "cancel") (application.cancel id)

  module _ (suffix : ℕ → String) (decode : Option String → Option (String × Bool)) where
    abbrev manual_request : String → Time → String → Request
    manual_request content received_at id = record {
      id = id;
      source = "ui";
      type = "manual_text";
      content = trim_space content;
      metadata = [];
      sources = [];
      received_at = received_at;
    }

    abbrev pub start_decoded : Option (String × Bool) → Exec (Reply Run)
    start_decoded none = pure (refuses 400 "invalid_request" "The request body must be valid JSON.")
    start_decoded (some (content, false)) =
        pure (refuses 400 "invalid_request" "The request body must contain one JSON object.")
    start_decoded (some (content, true)) =
        if is_blank content
        then pure (refuses 400 "content_required" "Content is required.")
        else (new_id suffix "request" >>= λ id. gets (λ w. w.clock) >>= λ now.
            answer 202 (λ _. refuses 500 "workflow_start_failed" "Unable to start the workflow.")
              (application.start (manual_request content now id)))

    unfoldable pub start_manual_summary : Option String → Exec (Reply Run)
    start_manual_summary body = start_decoded (decode body)
