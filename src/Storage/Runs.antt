-- ===== src/Storage/Runs.antt =====
-- backend/internal/storage/store.go: the operations of `Store` on definitions, runs, steps and
-- artifacts. `now` is what `time.Now()` gives, in milliseconds.
use go_dashboard.Prelude.{
  ℕ, String, Bool, not, ◌&&◌, ◌||◌, Option, none, some, List, [], ◌∷◌, ◌++◌, map, ◌==◌, eqb,
  if◌then◌else◌, select, find, any, eq_ℤ, Error, Result, ok, err,
}
use Prim.Native.String.{◌++◌ as concat}
use go_dashboard.Artifact.{Artifact}
use go_dashboard.Workflow.Definition.{Definition}
use go_dashboard.Workflow.Status.{RunStatus, run_eq}
use go_dashboard.Workflow.Run.{Run, StepRun}
use go_dashboard.Storage.Db.{Db, RunRow, StepRow, ArtifactRow, DefinitionRow, find_run, is_alive}
use go_dashboard.Storage.Sql.{
  Sql, Ctx, pure, fail, lift, statement, query, commit, transaction, ◌>>=◌, ◌>>◌,
}
use go_dashboard.Storage.Tables.{
  unix_milli, nullable_time, nullable_json, insert_if, has_run, insert_event, update_runs,
  update_steps, order_by, artifact_row, artifact_of, step_of, run_of, new_run_row, new_step_row,
  run_event, step_event,
}

-- INSERT … ON CONFLICT(id, version) DO UPDATE
unfoldable pub upsert_definition : Definition → ℕ → List DefinitionRow → List DefinitionRow
upsert_definition d now [] =
    record {
      id = d.id;
      version = d.version;
      name = d.name;
      enabled = d.enabled;
      definition_json = d;
      created_at = now;
    }
    ∷ []
upsert_definition d now (row ∷ rows) =
    if row.id == d.id && eq_ℤ row.version d.version
    then record row { name = d.name; enabled = d.enabled; definition_json = d } ∷ rows
    else row ∷ upsert_definition d now rows

unfoldable pub save_definition : Ctx → ℕ → Definition → Sql (Unit {0})
save_definition ctx now definition =
    statement ctx
      λ db. ok (tt, record db { definitions = upsert_definition definition now db.definitions })

-- The primary key, the UNIQUE request and the foreign key of `workflow_runs`.
unfoldable pub run_fits : Run → Db → Bool
run_fits run db =
    not (has_run run.id db)
    && not (any (λ (r : RunRow). r.request_id == run.request.id) db.runs)
    && any (λ (d : DefinitionRow). d.id == run.workflow_id && eq_ℤ d.version run.workflow_version)
        db.definitions

unfoldable pub insert_run : Run → Db → Result (Unit {0} × Db)
insert_run run db =
    insert_if (run_fits run db) "workflow_runs"
      (record db { runs = db.runs ++ new_run_row run ∷ [] })

-- The primary key, the UNIQUE pair and the foreign key of `step_runs`.
unfoldable pub step_fits : StepRun → Db → Bool
step_fits step db =
    not (any (λ (s : StepRow). s.id == step.id) db.steps)
    && not (
        any
          (λ (s : StepRow). s.workflow_run_id == step.workflow_run_id && s.step_id == step.step_id)
          db.steps)
    && has_run step.workflow_run_id db

unfoldable pub insert_step : StepRun → Db → Result (Unit {0} × Db)
insert_step step db =
    insert_if (step_fits step db) "step_runs"
      (record db { steps = db.steps ++ new_step_row step ∷ [] })

unfoldable pub insert_steps : Ctx → List StepRun → Sql (Unit {0})
insert_steps ctx [] = pure tt
insert_steps ctx (step ∷ steps) = statement ctx (insert_step step) >> insert_steps ctx steps

unfoldable pub create_run_body : Ctx → Run → Sql (Unit {0})
create_run_body ctx run = do
  statement ctx (insert_run run)
  insert_steps ctx run.steps
  statement ctx (insert_event (run_event run.id run.status "{}" (unix_milli run.created_at)))
  commit ctx

unfoldable pub create_run : Ctx → Run → Sql (Unit {0})
create_run ctx run = transaction ctx (create_run_body ctx run)

unfoldable pub load_steps : String → Db → List StepRun
load_steps id db = map step_of (
    order_by (λ (s : StepRow). s.created_at)
      (select (λ (s : StepRow). s.workflow_run_id == id) db.steps))

unfoldable pub load_artifacts : String → Db → List Artifact
load_artifacts id db = map artifact_of (
    order_by (λ (a : ArtifactRow). a.created_at)
      (select (λ (a : ArtifactRow). a.workflow_run_id == id) db.artifacts))

unfoldable pub found_run : Option RunRow → Result Run
found_run none = err Error.record_not_found
found_run (some row) = ok (run_of row)

unfoldable pub get_run : Ctx → String → Sql Run
get_run ctx id = do
  row ← query ctx (find_run id)
  run ← lift (found_run row)
  steps ← query ctx (load_steps run.id)
  artifacts ← query ctx (load_artifacts run.id)
  pure (record run { steps = steps; artifacts = artifacts })

-- The new columns of UPDATE workflow_runs.
abbrev pub set_run : Run → RunRow → RunRow
set_run run row = record row {
  status = run.status;
  current_step_id = run.current_step_id;
  final_artifact_id = run.final_artifact_id;
  error_code = run.error_code;
  error_message = run.error_message;
  started_at = nullable_time run.started_at;
  completed_at = nullable_time run.completed_at;
}

abbrev pub may_update : Run → RunRow → Bool
may_update run row =
    row.id == run.id
    && (run_eq run.status RunStatus.cancelled || not (run_eq row.status RunStatus.cancelled))

unfoldable pub details_of : Run → String
details_of run = concat (concat "{\"current_step_id\":\"" run.current_step_id) "\"}"

-- No row: the run was cancelled, or there is none.
unfoldable pub explain_missing : Result Run → Result (Unit {0})
explain_missing (ok existing) =
    if run_eq existing.status RunStatus.cancelled
    then err Error.run_cancelled
    else err Error.record_not_found
explain_missing (err e) = err Error.record_not_found

unfoldable pub refuse_update : Ctx → String → Sql (Unit {0})
refuse_update ctx id conn = let (r, conn') = get_run ctx id conn in (explain_missing r, conn')

unfoldable pub update_run : Ctx → ℕ → Run → Sql (Unit {0})
update_run ctx now run = do
  rows ← statement ctx (update_runs (may_update run) (set_run run))
  if eqb rows 0
      then refuse_update ctx run.id
      else statement ctx (insert_event (run_event run.id run.status (details_of run) now))

-- The new columns of UPDATE step_runs.
abbrev pub set_step : StepRun → StepRow → StepRow
set_step step row = record row {
  model = step.model;
  status = step.status;
  attempt = step.attempt;
  input_json = nullable_json step.input;
  output_json = nullable_json step.output;
  error_code = step.error_code;
  error_message = step.error_message;
  started_at = nullable_time step.started_at;
  completed_at = nullable_time step.completed_at;
}

-- `WHERE id=? AND EXISTS (…)`: the run of the row is not cancelled.
unfoldable pub write_step : StepRun → Db → Result (ℕ × Db)
write_step step db =
    update_steps (λ row. row.id == step.id && is_alive row.workflow_run_id db) (set_step step) db

unfoldable pub update_step : Ctx → ℕ → StepRun → Sql (Unit {0})
update_step ctx now step = do
  rows ← statement ctx (write_step step)
  if eqb rows 0
      then fail Error.run_cancelled
      else statement ctx (insert_event (step_event step now))

-- The primary key and the foreign keys of `artifacts`.
unfoldable pub artifact_fits : Artifact → Db → Bool
artifact_fits value db =
    not (any (λ (a : ArtifactRow). a.id == value.id) db.artifacts)
    && has_run value.workflow_run_id db
    && any (λ (s : StepRow). s.id == value.step_run_id) db.steps

unfoldable pub insert_artifact : Artifact → Db → Result (Unit {0} × Db)
insert_artifact value db =
    insert_if (artifact_fits value db) "artifacts"
      (record db { artifacts = db.artifacts ++ artifact_row value ∷ [] })

-- INSERT … SELECT … WHERE EXISTS (…): the run is not cancelled.
unfoldable pub insert_live_artifact : Artifact → Db → Result (ℕ × Db)
insert_live_artifact value db =
    if is_alive value.workflow_run_id db
    then elim (insert_artifact value db) [ ok (_, db') ↦ ok (1, db') | err e ↦ err e ]
    else ok (0, db)

unfoldable pub create_artifact : Ctx → Artifact → Sql (Unit {0})
create_artifact ctx value = do
  rows ← statement ctx (insert_live_artifact value)
  if eqb rows 0 then fail Error.run_cancelled else pure tt

unfoldable pub complete_step_body : Ctx → ℕ → StepRun → Artifact → Sql (Unit {0})
complete_step_body ctx now step value = do
  rows ← statement ctx (write_step step)
  if eqb rows 0 then fail Error.run_cancelled else pure tt
  statement ctx (insert_artifact value)
  statement ctx (insert_event (step_event step now))
  commit ctx

unfoldable pub complete_step : Ctx → ℕ → StepRun → Artifact → Sql (Unit {0})
complete_step ctx now step value = transaction ctx (complete_step_body ctx now step value)

abbrev pub run_for_request : String → Db → Option RunRow
run_for_request id db = find (λ (r : RunRow). r.request_id == id) db.runs

unfoldable pub load_found : Ctx → Option RunRow → Sql (Option Run)
load_found ctx none = pure none
load_found ctx (some row) = do run ← get_run ctx row.id; pure (some run)

-- The Boolean result is whether there is a run; an error of `GetRun` is passed on.
unfoldable pub find_run_by_request_id : Ctx → String → Sql (Option Run)
find_run_by_request_id ctx request_id = do
  row ← query ctx (run_for_request request_id)
  load_found ctx row

unfoldable pub load_all : Ctx → List String → Sql (List Run)
load_all ctx [] = pure []
load_all ctx (id ∷ ids) = do run ← get_run ctx id; runs ← load_all ctx ids; pure (run ∷ runs)
