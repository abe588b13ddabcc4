-- ===== src/Storage/Cancelled/Histories.antt =====
-- Cancelled runs and the calls of `Store`, one after the other (backend/internal/storage/store.go).
use go_dashboard.Prelude.{
  ℕ, String, ◌≡◌, refl, subst, inl, inr, false, Option, none, some, List, [], ◌∷◌, arith, ◌==◌,
  eq_iff, eqb, Bool-cases, All, ℤ, Error, Result, ok, err,
}
use go_dashboard.Artifact.{Artifact}
use go_dashboard.Workflow.Status.{RunStatus}
use go_dashboard.Workflow.Run.{Run, StepRun}
use go_dashboard.Workflow.Definition.{Definition}
use go_dashboard.Prelude.Results.{Result-cases}
use go_dashboard.Storage.Db.{Db, is_alive, EventRow, RunRow, status_of}
use go_dashboard.Storage.Sql.{Conn, Ctx, statement, query}
use go_dashboard.Storage.Sql.Triple.{After, Triple-statement, Triple-bind}
use go_dashboard.Storage.Sql.Keeps.{
  Keeps, KeepsTables, keeps_rules, Keeps-statement, Keeps-bind, Keeps-db, Keeps-if, Keeps-query,
  Keeps-pure, Keeps-commit, Keeps-transaction,
}
use go_dashboard.Storage.Tables.{insert_event, delete_artifacts}
use go_dashboard.Storage.Tables.Laws.{All-select_test, All-order_by}
use go_dashboard.Storage.Runs
use go_dashboard.Storage.Lifecycle
use go_dashboard.Storage.Calls.{
  Call, saves_definition, creates_run, updates_run, updates_step, creates_artifact, completes_step,
  gets_run, finds_run, resets_run, cancels_run, claims_run, recovers_runs, lists_runs, perform,
  perform_all,
}
use go_dashboard.Storage.Cancelled.{
  IsCancelled, SaysCancelled, IsCancelled-status_of, same_runs, insert_event-Keeps,
  update_steps-Keeps, insert_run-Keeps, insert_step-Keeps, insert_artifact-Keeps, write_step-Keeps,
  set_run-Keeps, claim_row-Keeps, other_run-Keeps, guarded-Keeps,
}

module _ (id : String) (ctx : Ctx) where
  event-Keeps : (event : EventRow) → Keeps (IsCancelled id) (statement ctx (insert_event event))
  event-Keeps event = Keeps-statement ctx _ (insert_event-Keeps id event)

  insert_steps-Keeps : (steps : List StepRun) → Keeps (IsCancelled id) (Runs.insert_steps ctx steps)
  unfolding Runs.insert_steps
  insert_steps-Keeps [] = Keeps-pure tt
  insert_steps-Keeps (s ∷ ss) =
      Keeps-bind _ _ (Keeps-statement ctx _ (insert_step-Keeps id s)) (λ _. insert_steps-Keeps ss)

  create_run-Keeps : (run : Run) → Keeps (IsCancelled id) (Runs.create_run ctx run)
  unfolding Runs.create_run Runs.create_run_body
  create_run-Keeps run = Keeps-transaction ctx _ (
      Keeps-bind _ _ (Keeps-statement ctx _ (insert_run-Keeps id run)) λ _.
        Keeps-bind _ _ (insert_steps-Keeps run.steps)
          λ _. search (keeps_rules, insert_event-Keeps id))

  get_run-Keeps : (k : String) → Keeps (IsCancelled id) (Runs.get_run ctx k)
  unfolding Runs.get_run
  get_run-Keeps k = search keeps_rules depth 12

  save_definition-Keeps :
      (now : ℕ) (d : Definition) → Keeps (IsCancelled id) (Runs.save_definition ctx now d)
  unfolding Runs.save_definition
  save_definition-Keeps now d =
      Keeps-statement ctx _ λ db c u db' e. same_runs id db db' (ground arith) c

  refuse_update-Keeps : (k : String) → Keeps (IsCancelled id) (Runs.refuse_update ctx k)
  unfolding Runs.refuse_update
  refuse_update-Keeps k = record {
    triple = record {
      at = λ conn c.
          explained (Runs.explain_missing (Runs.get_run ctx k conn).0) _
            (Keeps-db _ (get_run-Keeps k) conn c);
    };
  }
    where
      explained :
          (r : Result (Unit {0})) (conn : Conn)
          → IsCancelled id conn.db
          → After (λ _. IsCancelled id) (λ _. IsCancelled id) (r, conn)
      explained (ok a) conn c = c
      explained (err e) conn c = c

  update_run-Keeps : (now : ℕ) (run : Run) → Keeps (IsCancelled id) (Runs.update_run ctx now run)
  unfolding Runs.update_run
  update_run-Keeps now run = Keeps-bind _ _ (Keeps-statement ctx _ (set_run-Keeps id run)) λ rows.
      Keeps-if (eqb rows 0) _ _ (refuse_update-Keeps run.id)
        (Keeps-statement ctx _ (insert_event-Keeps id _))

  update_step-Keeps :
      (now : ℕ) (step : StepRun) → Keeps (IsCancelled id) (Runs.update_step ctx now step)
  unfolding Runs.update_step
  update_step-Keeps now step =
      search (keeps_rules, write_step-Keeps id step, insert_event-Keeps id) depth 12

  live_artifact-Keeps :
      (value : Artifact) → KeepsTables (IsCancelled id) (Runs.insert_live_artifact value)
  unfolding Runs.insert_live_artifact
  live_artifact-Keeps value db c n db' e = elim (Result-cases (Runs.insert_artifact value db)) [
    | inl ((u, new), ok_new) ↦
        let k = insert_artifact-Keeps id value db c u new ok_new in
        elim (Bool-cases (is_alive value.workflow_run_id db)) [
          | inl alive ↦ subst (IsCancelled id) (ground arith) k
          | inr dead ↦ subst (IsCancelled id) (ground arith) c
        ]
    | inr (x, failed) ↦ subst (IsCancelled id) (ground arith) c
  ]

  create_artifact-Keeps :
      (value : Artifact) → Keeps (IsCancelled id) (Runs.create_artifact ctx value)
  unfolding Runs.create_artifact
  create_artifact-Keeps value = search (keeps_rules, live_artifact-Keeps value) depth 12

  complete_step-Keeps :
      (now : ℕ) (step : StepRun) (value : Artifact)
      → Keeps (IsCancelled id) (Runs.complete_step ctx now step value)
  unfolding Runs.complete_step Runs.complete_step_body
  complete_step-Keeps now step value =
      search
        (
          keeps_rules,
          write_step-Keeps id step,
          insert_artifact-Keeps id value,
          insert_event-Keeps id,
        )
        depth 12

  load_found-Keeps : (row : Option RunRow) → Keeps (IsCancelled id) (Runs.load_found ctx row)
  unfolding Runs.load_found
  load_found-Keeps none = search keeps_rules
  load_found-Keeps (some row) = search (keeps_rules, get_run-Keeps row.id)

  find_run-Keeps : (k : String) → Keeps (IsCancelled id) (Runs.find_run_by_request_id ctx k)
  unfolding Runs.find_run_by_request_id
  find_run-Keeps k = search (keeps_rules, load_found-Keeps)

  load_all-Keeps : (ids : List String) → Keeps (IsCancelled id) (Runs.load_all ctx ids)
  unfolding Runs.load_all
  load_all-Keeps [] = search keeps_rules
  load_all-Keeps (k ∷ ks) = search (keeps_rules, get_run-Keeps k, load_all-Keeps ks) depth 8

  claim_found-Keeps :
      (now : ℕ) (k : Option String) → Keeps (IsCancelled id) (Lifecycle.claim_found ctx now k)
  unfolding Lifecycle.claim_found
  claim_found-Keeps now none = search keeps_rules
  claim_found-Keeps now (some k) =
      search (keeps_rules, claim_row-Keeps id now k, insert_event-Keeps id) depth 12

  load_claimed-Keeps : (k : Option String) → Keeps (IsCancelled id) (Lifecycle.load_claimed ctx k)
  unfolding Lifecycle.load_claimed
  load_claimed-Keeps none = search keeps_rules
  load_claimed-Keeps (some k) = search (keeps_rules, get_run-Keeps k)

  claim-Keeps : (now : ℕ) → Keeps (IsCancelled id) (Lifecycle.claim_next_pending_run ctx now)
  unfolding Lifecycle.claim_next_pending_run Lifecycle.claim_body
  claim-Keeps now = search (keeps_rules, claim_found-Keeps now, load_claimed-Keeps) depth 8

  drop_artifacts-Keeps : (k : String) → KeepsTables (IsCancelled id) (Lifecycle.drop_artifacts k)
  unfolding Lifecycle.drop_artifacts delete_artifacts
  drop_artifacts-Keeps k db c u db' e = same_runs id db db' (ground arith) c

  reset_body-Keeps :
      (k : String) → (k == id) ≡ false → Keeps (IsCancelled id) (Lifecycle.reset_body ctx k)
  unfolding Lifecycle.reset_body
  reset_body-Keeps k other =
      search
        (
          keeps_rules,
          drop_artifacts-Keeps k,
          update_steps-Keeps id,
          other_run-Keeps id k Lifecycle.reset_run_row (λ r. refl) other,
        )
        depth 12

  retry-Keeps :
      (now : ℕ) (k : String) → Keeps (IsCancelled id) (Lifecycle.reset_run_for_retry ctx now k)
  unfolding Lifecycle.reset_run_for_retry Lifecycle.retry_body
  retry-Keeps now k = Keeps-transaction ctx _ (
      guarded-Keeps id ctx k Lifecycle.is_failed Error.run_not_retryable _ refl λ other.
        Keeps-bind _ _ (reset_body-Keeps k other) λ _. search (keeps_rules, insert_event-Keeps id))

  cancel-Keeps : (now : ℕ) (k : String) → Keeps (IsCancelled id) (Lifecycle.cancel_run ctx now k)
  unfolding Lifecycle.cancel_run Lifecycle.cancel_body
  cancel-Keeps now k = Keeps-transaction ctx _ (
      guarded-Keeps id ctx k Lifecycle.is_cancellable Error.run_not_cancellable _ refl λ other.
        search
          (
            keeps_rules,
            update_steps-Keeps id,
            insert_event-Keeps id,
            other_run-Keeps id k (Lifecycle.cancel_run_row now) (λ r. refl) other,
          )
          depth 12)

  abbrev AreOther : List String → Type 0
  AreOther ids = All (λ k. (k == id) ≡ false) ids

  recover_all-Keeps :
      (ids : List String) → AreOther ids → Keeps (IsCancelled id) (Lifecycle.recover_all ctx ids)
  unfolding Lifecycle.recover_all Lifecycle.recover_run
  recover_all-Keeps [] h = search keeps_rules
  recover_all-Keeps (k ∷ ks) h =
      Keeps-bind _ _
        (Keeps-transaction ctx _ (Keeps-bind _ _ (reset_body-Keeps k h.0) (λ _. Keeps-commit ctx)))
        (λ _. recover_all-Keeps ks h.1)

  ids_other :
      (rows : List RunRow) → All (λ r. (r.id == id) ≡ false) rows → AreOther (Lifecycle.ids_of rows)
  ids_other [] h = tt
  ids_other (r ∷ rs) h = (h.0, ids_other rs h.1)

  -- The runs that may be recovered are other runs.
  recoverable_other :
      (db : Db)
      → IsCancelled id db
      → AreOther (Lifecycle.ids_of (Lifecycle.oldest_first Lifecycle.is_recoverable db))
  unfolding Lifecycle.oldest_first
  recoverable_other db c = ids_other _ (
      All-order_by _ (λ (r : RunRow). r.created_at) _
        (All-select_test _ (SaysCancelled id) (λ r. Lifecycle.is_recoverable r.status)
          (λ r says e. ground (arith, says, eq_iff r.id id)) db.runs c.says))

  recovery-Keeps : Keeps (IsCancelled id) (Lifecycle.prepare_recovery ctx)
  unfolding Lifecycle.prepare_recovery
  recovery-Keeps = record {
    triple =
        Triple-bind (λ rows db. IsCancelled id db × AreOther (Lifecycle.ids_of rows))
          (query ctx (Lifecycle.oldest_first Lifecycle.is_recoverable)) _
          (Triple-statement ctx _ (λ db c. (c, recoverable_other db c)) (λ _ db c. c))
          λ rows. record {
            at = λ conn h.
                (Keeps-bind _ _ (recover_all-Keeps (Lifecycle.ids_of rows) h.1)
                    (λ _. load_all-Keeps (Lifecycle.ids_of rows))).triple.at
                  conn h.0;
          };
  }

  list_runs-Keeps : (limit : ℤ) → Keeps (IsCancelled id) (Lifecycle.list_runs ctx limit)
  unfolding Lifecycle.list_runs
  list_runs-Keeps limit = Keeps-bind _ _ (Keeps-query ctx _) (λ rows. load_all-Keeps _)

pub perform-IsCancelled :
    (id : String) (ctx : Ctx) (now : ℕ) (call : Call) (conn : Conn)
    → IsCancelled id conn.db
    → IsCancelled id (perform ctx now call conn).db
unfolding perform
perform-IsCancelled id ctx now (saves_definition d) conn =
    Keeps-db _ (save_definition-Keeps id ctx now d) conn
perform-IsCancelled id ctx now (creates_run run) conn =
    Keeps-db _ (create_run-Keeps id ctx run) conn
perform-IsCancelled id ctx now (updates_run run) conn =
    Keeps-db _ (update_run-Keeps id ctx now run) conn
perform-IsCancelled id ctx now (updates_step step) conn =
    Keeps-db _ (update_step-Keeps id ctx now step) conn
perform-IsCancelled id ctx now (creates_artifact value) conn =
    Keeps-db _ (create_artifact-Keeps id ctx value) conn
perform-IsCancelled id ctx now (completes_step step value) conn =
    Keeps-db _ (complete_step-Keeps id ctx now step value) conn
perform-IsCancelled id ctx now (gets_run k) conn = Keeps-db _ (get_run-Keeps id ctx k) conn
perform-IsCancelled id ctx now (finds_run k) conn = Keeps-db _ (find_run-Keeps id ctx k) conn
perform-IsCancelled id ctx now (resets_run k) conn = Keeps-db _ (retry-Keeps id ctx now k) conn
perform-IsCancelled id ctx now (cancels_run k) conn = Keeps-db _ (cancel-Keeps id ctx now k) conn
perform-IsCancelled id ctx now claims_run conn = Keeps-db _ (claim-Keeps id ctx now) conn
perform-IsCancelled id ctx now recovers_runs conn = Keeps-db _ (recovery-Keeps id ctx) conn
perform-IsCancelled id ctx now (lists_runs limit) conn =
    Keeps-db _ (list_runs-Keeps id ctx limit) conn

histories :
    (id : String) (calls : List (Ctx × ℕ × Call)) (conn : Conn)
    → IsCancelled id conn.db
    → IsCancelled id (perform_all calls conn).db
unfolding perform_all
histories id [] conn c = c
histories id ((ctx, now, call) ∷ calls) conn c =
    histories id calls (perform ctx now call conn) (perform-IsCancelled id ctx now call conn c)

-- A run whose row says `cancelled` keeps that status through every history of calls of the store,
-- with any contexts, times and failing statements.
pub cancelled_for_good :
    (id : String) (calls : List (Ctx × ℕ × Call)) (conn : Conn)
    → IsCancelled id conn.db
    → status_of id (perform_all calls conn).db ≡ some RunStatus.cancelled
cancelled_for_good id calls conn c =
    IsCancelled-status_of id (perform_all calls conn).db (histories id calls conn c)
