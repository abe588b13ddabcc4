-- ===== src/Prelude/Outcome.antt =====
-- The errors of the program, and a value or an error. A sentinel error is a constructor, and what
-- `fmt.Errorf("%w: …")` adds to it is at most the constructor's argument, so `errors.Is` is a match.
-- `panic` is a run-time panic, which the program does not recover from in a worker.
use Prim.Native.Nat.{ℕ}
use Prim.Native.String.{String}

-- Why `Definition.Validate` refuses.
pub data Flaw : Type 0 where
  missing_fields : Flaw
  invalid_step : ℕ → Flaw
  invalid_retry : String → Flaw
  duplicate_step : String → Flaw
  unknown_dependency forward_dependency repeated_dependency : String → String → Flaw

pub data Error : Type 0 where
  invalid_definition : Flaw → Error
  invalid_request executor_not_running run_not_retryable run_not_cancellable run_cancelled : Error
  record_not_found selection_required : Error
  duplicate_definition unknown_workflow duplicate_capability unknown_capability : String → Error
  unknown_profile unknown_mapping workflow_mismatch : String → Error
  model_not_found provider_unavailable invalid_response : Error
  empty_content content_too_long invalid_summary_type invalid_input : Error
  slack_invalid_identity slack_not_found event_in_progress unsupported_event empty_context : Error
  canceled deadline_exceeded : Error
  slack_api panic failure : String → Error

pub data Result {ℓ} (A : Type ℓ) : Type ℓ where
  ok : A → Result A
  err : Error → Result A
