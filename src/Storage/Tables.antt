-- ===== src/Storage/Tables.antt =====
-- backend/internal/storage/store.go: the parts of the statements that several operations share, and
-- the conversions between rows and the values of the program.
pub mod Laws
use go_dashboard.Prelude.{
  ℕ, ◌*◌, ◌/◌, String, Bool, true, false, not, Option, none, some, List, [], ◌∷◌, ◌++◌, ◌==◌, leb,
  if◌then◌else◌, select, any, count, map_where, Error, Result, ok, err,
}
use go_dashboard.Json.{RawMessage, absent, document, malformed}
use go_dashboard.Trigger.{Time}
use go_dashboard.Artifact.{Artifact}
use go_dashboard.Workflow.Status.{RunStatus}
use go_dashboard.Workflow.Run.{Run, StepRun}
use go_dashboard.Storage.Db.{Db, RunRow, StepRow, ArtifactRow, EventRow, of_run, of_step}

-- `time.Time.UnixMilli` and `time.UnixMilli`, from the same origin as `Time`.
abbrev pub unix_milli : Time → ℕ
unix_milli t = t / 1_000_000

abbrev pub from_unix_milli : ℕ → Time
from_unix_milli ms = ms * 1_000_000

unfoldable pub nullable_time : Option Time → Option ℕ
nullable_time none = none
nullable_time (some t) = some (unix_milli t)

unfoldable pub from_nullable_time : Option ℕ → Option Time
from_nullable_time none = none
from_nullable_time (some ms) = some (from_unix_milli ms)

unfoldable pub nullable_json : RawMessage → Option RawMessage
nullable_json absent = none
nullable_json (document j) = some (document j)
nullable_json (malformed s) = if s == "" then none else some (malformed s)

unfoldable pub raw_json : Option RawMessage → RawMessage
raw_json none = absent
raw_json (some r) = r

-- Constraints of the tables; a violated one is an error of the driver.
abbrev pub constraint_failed : {A : Type 0} → String → Result A
constraint_failed what = err (Error.failure what)

abbrev pub insert_if : Bool → String → Db → Result (Unit {0} × Db)
insert_if true what db = ok (tt, db)
insert_if false what db = constraint_failed what

abbrev pub has_run : String → Db → Bool
has_run id db = any (λ (r : RunRow). r.id == id) db.runs

-- `INSERT INTO execution_events`, with its foreign key.
unfoldable pub insert_event : EventRow → Db → Result (Unit {0} × Db)
insert_event event db =
    insert_if (has_run event.workflow_run_id db) "execution_events"
      (record db { events = db.events ++ event ∷ [] })

-- `UPDATE workflow_runs SET … WHERE …`, with the number of rows.
unfoldable pub update_runs : (RunRow → Bool) → (RunRow → RunRow) → Db → Result (ℕ × Db)
update_runs p f db = ok (count p db.runs, record db { runs = map_where p f db.runs })

-- `UPDATE step_runs SET … WHERE …`
unfoldable pub update_steps : (StepRow → Bool) → (StepRow → StepRow) → Db → Result (ℕ × Db)
update_steps p f db = ok (count p db.steps, record db { steps = map_where p f db.steps })

-- `DELETE FROM artifacts WHERE …`
unfoldable pub delete_artifacts : (ArtifactRow → Bool) → Db → Result (Unit {0} × Db)
delete_artifacts p db = ok (tt, record db { artifacts = select (λ a. not (p a)) db.artifacts })

-- `ORDER BY key, rowid`
unfoldable pub insert_by {ℓ} : {A : Type ℓ} → (A → ℕ) → A → List A → List A
insert_by key x [] = x ∷ []
insert_by key x (y ∷ ys) =
    let rest = insert_by key x ys in if leb (key x) (key y) then x ∷ y ∷ ys else y ∷ rest

unfoldable pub order_by {ℓ} : {A : Type ℓ} → (A → ℕ) → List A → List A
order_by key [] = []
order_by key (x ∷ xs) = insert_by key x (order_by key xs)

-- `artifact` of a row, and the row that an INSERT writes.
unfoldable pub artifact_row : Artifact → ArtifactRow
artifact_row value = record {
  id = value.id;
  workflow_run_id = value.workflow_run_id;
  step_run_id = value.step_run_id;
  type = value.type;
  content_json = value.content;
  model = value.model;
  prompt_version = value.prompt_version;
  created_at = unix_milli value.created_at;
}

unfoldable pub artifact_of : ArtifactRow → Artifact
artifact_of row = record {
  id = row.id;
  workflow_run_id = row.workflow_run_id;
  step_run_id = row.step_run_id;
  type = row.type;
  content = row.content_json;
  model = row.model;
  prompt_version = row.prompt_version;
  created_at = from_unix_milli row.created_at;
}

unfoldable pub step_of : StepRow → StepRun
step_of row = record {
  id = row.id;
  workflow_run_id = row.workflow_run_id;
  step_id = row.step_id;
  capability = row.capability;
  model_profile = row.model_profile;
  model = row.model;
  status = row.status;
  attempt = row.attempt;
  input = raw_json row.input_json;
  output = raw_json row.output_json;
  error_code = row.error_code;
  error_message = row.error_message;
  started_at = from_nullable_time row.started_at;
  completed_at = from_nullable_time row.completed_at;
  created_at = from_unix_milli row.created_at;
}

-- The columns of `workflow_runs`, with no steps or artifacts yet.
unfoldable pub run_of : RunRow → Run
run_of row = record {
  id = row.id;
  workflow_id = row.workflow_id;
  workflow_version = row.workflow_version;
  request = row.request_json;
  status = row.status;
  current_step_id = row.current_step_id;
  final_artifact_id = row.final_artifact_id;
  error_code = row.error_code;
  error_message = row.error_message;
  started_at = from_nullable_time row.started_at;
  completed_at = from_nullable_time row.completed_at;
  created_at = from_unix_milli row.created_at;
  steps = [];
  artifacts = [];
}

-- The row of a new run: the other columns have their defaults.
unfoldable pub new_run_row : Run → RunRow
new_run_row run = record {
  id = run.id;
  workflow_id = run.workflow_id;
  workflow_version = run.workflow_version;
  request_id = run.request.id;
  request_json = run.request;
  status = run.status;
  current_step_id = "";
  final_artifact_id = "";
  error_code = "";
  error_message = "";
  started_at = none;
  completed_at = none;
  created_at = unix_milli run.created_at;
}

unfoldable pub new_step_row : StepRun → StepRow
new_step_row step = record {
  id = step.id;
  workflow_run_id = step.workflow_run_id;
  step_id = step.step_id;
  capability = step.capability;
  model_profile = step.model_profile;
  model = "";
  status = step.status;
  attempt = step.attempt;
  input_json = none;
  output_json = none;
  error_code = "";
  error_message = "";
  started_at = none;
  completed_at = none;
  created_at = unix_milli step.created_at;
}

abbrev pub run_event : String → RunStatus → String → ℕ → EventRow
run_event id status details at = record {
  workflow_run_id = id;
  step_run_id = "";
  status = of_run status;
  details_json = details;
  created_at = at;
}

abbrev pub step_event : StepRun → ℕ → EventRow
step_event step at = record {
  workflow_run_id = step.workflow_run_id;
  step_run_id = step.id;
  status = of_step step.status;
  details_json = "{}";
  created_at = at;
}
