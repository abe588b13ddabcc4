-- ===== src/Storage/Db.antt =====
-- The tables of backend/internal/storage/migrations/001_workflows.sql. A table is the list of its
-- rows in the order of `rowid`. Instants are in milliseconds, as `UnixMilli` stores them.
use go_dashboard.Prelude.{
  ℕ, String, Bool, not, ◌&&◌, Option, none, some, List, [], ◌==◌, find, any, ℤ,
}
use go_dashboard.Json.{RawMessage}
use go_dashboard.Trigger.{Request}
use go_dashboard.Workflow.Status.{RunStatus, StepStatus, run_eq}
use go_dashboard.Storage.Slack.Rows.{SlackDb, no_slack}
use go_dashboard.Workflow.Definition.{Definition}

pub record DefinitionRow : Type 0 where
  pub id : String
  pub version : ℤ
  pub name : String
  pub enabled : Bool
  pub definition_json : Definition
  pub created_at : ℕ

pub record RunRow : Type 0 where
  pub id : String
  pub workflow_id : String
  pub workflow_version : ℤ
  pub request_id : String
  pub request_json : Request
  pub status : RunStatus
  pub current_step_id : String
  pub final_artifact_id : String
  pub error_code : String
  pub error_message : String
  pub started_at : Option ℕ
  pub completed_at : Option ℕ
  pub created_at : ℕ

pub record StepRow : Type 0 where
  pub id : String
  pub workflow_run_id : String
  pub step_id : String
  pub capability : String
  pub model_profile : String
  pub model : String
  pub status : StepStatus
  pub attempt : ℕ
  pub input_json : Option RawMessage
  pub output_json : Option RawMessage
  pub error_code : String
  pub error_message : String
  pub started_at : Option ℕ
  pub completed_at : Option ℕ
  pub created_at : ℕ

pub record ArtifactRow : Type 0 where
  pub id : String
  pub workflow_run_id : String
  pub step_run_id : String
  pub type : String
  pub content_json : RawMessage
  pub model : String
  pub prompt_version : String
  pub created_at : ℕ

pub data EventStatus : Type 0 where
  of_run : RunStatus → EventStatus
  of_step : StepStatus → EventStatus

pub record EventRow : Type 0 where
  pub workflow_run_id : String
  pub step_run_id : String
  pub status : EventStatus
  pub details_json : String
  pub created_at : ℕ

pub record Db : Type 0 where
  pub definitions : List DefinitionRow
  pub runs : List RunRow
  pub steps : List StepRow
  pub artifacts : List ArtifactRow
  pub events : List EventRow
  pub slack : SlackDb

abbrev pub empty : Db
empty = record {
  definitions = [];
  runs = [];
  steps = [];
  artifacts = [];
  events = [];
  slack = no_slack;
}

-- The primary key of `workflow_runs`.
abbrev pub has_id : String → RunRow → Bool
has_id id row = row.id == id

unfoldable pub find_run : String → Db → Option RunRow
find_run id db = find (has_id id) db.runs

abbrev pub status_in : Option RunRow → Option RunStatus
status_in none = none
status_in (some row) = some row.status

unfoldable pub status_of : String → Db → Option RunStatus
unfolding find_run
status_of id db = status_in (find_run id db)

-- `EXISTS (SELECT 1 FROM workflow_runs WHERE id=? AND status != 'cancelled')`
unfoldable pub is_alive : String → Db → Bool
is_alive id db = any (λ row. row.id == id && not (run_eq row.status RunStatus.cancelled)) db.runs
