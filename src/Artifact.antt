-- ===== src/Artifact.antt =====
-- backend/internal/artifact/artifact.go: the result of one step.
use go_dashboard.Prelude.{String}
use go_dashboard.Json.{RawMessage}
use go_dashboard.Trigger.{Time}

pub record Artifact : Type 0 where
  pub id : String
  pub workflow_run_id : String
  pub step_run_id : String
  pub type : String
  pub content : RawMessage
  pub model : String
  pub prompt_version : String
  pub created_at : Time
