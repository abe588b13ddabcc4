-- ===== src/Workflow/Executor/Control.antt =====
-- backend/internal/workflow/executor.go: `NewExecutor`, `Initialize`, `Start`, `Retry`, `Cancel` and the
-- readers, as steps of the world. `now` and the random part of an ID are those of the world.
use go_dashboard.Prelude.{
  ℕ, String, ◌≡◌, refl, ap, Bool, true, false, Option, none, some, List, [], ◌∷◌, ℤ, Error, Result,
  ok, err,
}
use go_dashboard.Trigger
use go_dashboard.Trigger.{Request, Time}
use go_dashboard.Json.{absent}
use go_dashboard.Capability
use go_dashboard.Workflow.Status.{RunStatus, StepStatus}
use go_dashboard.Workflow.Definition
use go_dashboard.Workflow.Definition.{Definition, StepDefinition}
use go_dashboard.Workflow.Run.{Run, StepRun}
use go_dashboard.Storage.Db.{Db, RunRow, find_run}
use go_dashboard.Storage.Sql
use go_dashboard.Storage.Sql.{Conn, Ctx, background, query}
use go_dashboard.Storage.Tables.{run_of, unix_milli}
use go_dashboard.Storage.Runs.{
  save_definition, create_run, get_run, find_run_by_request_id, load_found, run_for_request,
  found_run, load_steps, load_artifacts,
}
use go_dashboard.Storage.Lifecycle.{reset_run_for_retry, list_runs}
use go_dashboard.Workflow.Executor.World.{
  World, Exec, pure, fail, lift, gets, modify, store, others, ◌>>=◌, ◌>>◌, cancel_control,
}
use go_dashboard.Workflow.Executor.Execute.{new_id, now}

-- Every step names a capability of the registry.
unfoldable pub check_capabilities : Capability.Registry → List StepDefinition → Result (Unit {0})
check_capabilities registry [] = ok tt
check_capabilities registry (step ∷ rest) = elim (Capability.resolve step.capability registry) [
  | err e ↦ err e
  | ok c ↦ check_capabilities registry rest
]

abbrev and_then : {A B : Type 0} → Result A → Result B → Result B
and_then (ok a) r = r
and_then (err e) r = err e

-- `NewExecutor`: what it keeps, if it accepts it.
unfoldable pub new_executor :
    Definition → Capability.Registry → Result (Definition × Capability.Registry)
new_executor definition registry =
    and_then (Definition.validate definition)
      (and_then (check_capabilities registry definition.steps) (ok (definition, registry)))

module _ (ctx : Ctx) where
  abbrev given : World → Ctx
  given w = ctx

  unfoldable pub initialize : Definition → Exec (Unit {0})
  initialize definition = store given (λ c at. save_definition c at definition)

  abbrev pub signal : Exec (Unit {0})
  signal = modify (λ w. record w { wake = true })

  abbrev pub new_step : String → StepDefinition → Time → String → StepRun
  new_step run_id definition created_at id = record {
    id = id;
    workflow_run_id = run_id;
    step_id = definition.id;
    capability = definition.capability;
    model_profile = definition.model_profile;
    model = "";
    status = StepStatus.pending;
    attempt = 0;
    input = absent;
    output = absent;
    error_code = "";
    error_message = "";
    started_at = none;
    completed_at = none;
    created_at = created_at;
  }

  abbrev pub new_run : Definition → Request → Time → String → List StepRun → Run
  new_run definition request created_at id steps = record {
    id = id;
    workflow_id = definition.id;
    workflow_version = definition.version;
    request = request;
    status = RunStatus.pending;
    current_step_id = "";
    final_artifact_id = "";
    error_code = "";
    error_message = "";
    started_at = none;
    completed_at = none;
    created_at = created_at;
    steps = steps;
    artifacts = [];
  }

  abbrev refuse_unless : Bool → Exec (Unit {0})
  refuse_unless true = pure tt
  refuse_unless false = fail Error.executor_not_running

  module _ (suffix : ℕ → String) where
    unfoldable pub new_steps : String → Time → List StepDefinition → Exec (List StepRun)
    new_steps run_id created_at [] = pure []
    new_steps run_id created_at (definition ∷ rest) = do
      id ← new_id suffix "step"
      steps ← new_steps run_id created_at rest
      pure (new_step run_id definition created_at id ∷ steps)

    unfoldable pub create : Definition → Request → Exec Run
    create definition request = do
      created_at ← now
      id ← new_id suffix "run"
      steps ← new_steps id created_at definition.steps
      let run = new_run definition request created_at id steps
      store given (λ c at. create_run c run)
      signal
      pure run

    abbrev pub existing_or_new : Definition → Request → Option Run → Exec Run
    existing_or_new definition request (some run) = pure run
    existing_or_new definition request none = do
      started ← gets (λ w. w.started)
      refuse_unless started
      create definition request

    unfoldable pub start : Definition → Request → Exec Run
    start definition request = do
      lift (Trigger.validate request)
      existing ← store given (λ c at. find_run_by_request_id c request.id)
      existing_or_new definition request existing

  unfoldable pub read_run : String → Exec Run
  read_run id = store given (λ c at. get_run c id)

  unfoldable pub read_runs : ℤ → Exec (List Run)
  read_runs limit = store given (λ c at. list_runs c limit)

  unfoldable pub retry : String → Exec Run
  retry id = do
    started ← gets (λ w. w.started)
    refuse_unless started
    store given (λ c at. reset_run_for_retry c at id)
    signal
    read_run id

  unfoldable pub cancel : String → Exec Run
  cancel id = do cancel_control ctx id; read_run id

-- A query that nothing disturbs.
query-calm :
    {A : Type 0} (f : Db → A) (conn : Conn)
    → conn.faults ≡ []
    → query background f conn ≡ (ok (f conn.db), conn)
unfolding Sql.statement
query-calm f conn calm = rw calm refl

loaded : RunRow → Db → Run
loaded row db = record (run_of row) {
  steps = load_steps row.id db;
  artifacts = load_artifacts row.id db;
}

get_run-loaded :
    (id : String) (row : RunRow) (conn : Conn)
    → conn.faults ≡ []
    → find_run id conn.db ≡ some row
    → get_run background id conn ≡ (ok (loaded row conn.db), conn)
unfolding get_run found_run Sql.◌>>=◌ loaded run_of
get_run-loaded id row conn calm found =
    rw
      (
        query-calm (find_run id) conn calm,
        found,
        query-calm (load_steps row.id) conn calm,
        query-calm (load_artifacts row.id) conn calm,
      )
      refl

find_run_by_request_id-loaded :
    (request_id : String) (row : RunRow) (conn : Conn)
    → conn.faults ≡ []
    → run_for_request request_id conn.db ≡ some row
    → find_run row.id conn.db ≡ some row
    → find_run_by_request_id background request_id conn ≡ (ok (some (loaded row conn.db)), conn)
unfolding find_run_by_request_id load_found Sql.◌>>=◌
find_run_by_request_id-loaded request_id row conn calm first found =
    rw
      (
        query-calm (run_for_request request_id) conn calm,
        first,
        get_run-loaded row.id row conn calm found,
      )
      refl

still_store :
    {A : Type 0} (f : Ctx → ℕ → Sql.Sql A) (w : World) (r : Result A)
    → w.script ≡ []
    → f background (unix_milli w.clock) w.conn ≡ (r, w.conn)
    → store (given background) f w ≡ (r, w)
unfolding store others
still_store f w r quiet e = rw (quiet, e) refl

-- For a valid request, under a context that does not end, while no statement fails and nobody else acts: if
-- the first run stored with the identifier of the request is the run stored under its own identifier, `Start`
-- returns that run, with its status, whatever the workflow is and whether or not the worker runs, and the
-- world, with the database and the wake signal, stays as it was.
pub start_again :
    (suffix : ℕ → String) (definition : Definition) (request : Request) (w : World) (row : RunRow)
    → Trigger.validate request ≡ ok tt
    → w.script ≡ []
    → w.conn.faults ≡ []
    → run_for_request request.id w.conn.db ≡ some row
    → find_run row.id w.conn.db ≡ some row
    → (run : Run) × ((start background suffix definition request w).0 ≡ ok run)
      × (run.id ≡ row.id)
      × (run.status ≡ row.status)
      × ((start background suffix definition request w).1 ≡ w)
unfolding start ◌>>=◌ loaded run_of
start_again suffix definition request w row valid quiet calm first found =
    (loaded row w.conn.db, ap (λ x. x.0) whole, refl, refl, ap (λ x. x.1) whole)
  where
    whole : start background suffix definition request w ≡ (ok (loaded row w.conn.db), w)
    whole =
        rw
          (
            valid,
            still_store (λ c at. find_run_by_request_id c request.id) w _ quiet
                (find_run_by_request_id-loaded request.id row w.conn calm first found),
          )
          refl
