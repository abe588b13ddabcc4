-- ===== src/Workflow/Run.antt =====
-- backend/internal/workflow/domain.go: runs and step runs.
use go_dashboard.Prelude.{ℕ, ℤ, String, List, Option}
use go_dashboard.Json.{RawMessage}
use go_dashboard.Trigger.{Time, Request}
use go_dashboard.Artifact.{Artifact}
use go_dashboard.Workflow.Status.{RunStatus, StepStatus}

pub record StepRun : Type 0 where
  pub id : String
  pub workflow_run_id : String
  pub step_id : String
  pub capability : String
  pub model_profile : String
  pub model : String
  pub status : StepStatus
  pub attempt : ℕ
  pub input : RawMessage
  pub output : RawMessage
  pub error_code : String
  pub error_message : String
  pub started_at : Option Time
  pub completed_at : Option Time
  pub created_at : Time

pub record Run : Type 0 where
  pub id : String
  pub workflow_id : String
  pub workflow_version : ℤ
  pub request : Request
  pub status : RunStatus
  pub current_step_id : String
  pub final_artifact_id : String
  pub error_code : String
  pub error_message : String
  pub started_at : Option Time
  pub completed_at : Option Time
  pub created_at : Time
  pub steps : List StepRun
  pub artifacts : List Artifact
