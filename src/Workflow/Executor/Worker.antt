-- ===== src/Workflow/Executor/Worker.antt =====
-- backend/internal/workflow/executor.go: one round of the inner loop of `worker`. Its outer loop waits
-- for the wake signal and does rounds until one ends without a run.
use go_dashboard.Prelude.{
  ℕ, ◌≤◌, String, ◌≡◌, refl, ap, false, Option, none, some, arith, if◌then◌else◌, Error, Result, ok,
  err,
}
use go_dashboard.Capability.{Registry}
use go_dashboard.Workflow.Status.{RunStatus, run_eq}
use go_dashboard.Workflow.Definition.{Definition}
use go_dashboard.Workflow.Run.{Run}
use go_dashboard.Storage.Db.{Db, RunRow, find_run, status_of, status_in}
use go_dashboard.Storage.Sql.{Conn, Ctx, lift}
use go_dashboard.Storage.Sql.Triple.{After, Triple, Triple-bind, Triple-statement}
use go_dashboard.Storage.Tables.{run_of}
use go_dashboard.Storage.Runs.{get_run, found_run}
use go_dashboard.Storage.Lifecycle.{claim_next_pending_run}
use go_dashboard.Storage.Cancelled.{IsCancelled, IsCancelled-status_of}
use go_dashboard.Storage.Cancelled.Histories.{perform-IsCancelled}
use go_dashboard.Workflow.Executor.World.{
  World, Exec, pure, fail, modify, store, attempt, others, worker_ctx, task_ctx, ◌>>=◌, ◌>>◌,
}
use go_dashboard.Workflow.Executor.Execute.{execute}
use go_dashboard.Workflow.Executor.Holds.{others-stable}
use go_dashboard.Workflow.Executor.Invariants
use go_dashboard.Workflow.Executor.Calls
use native.Mathlib.Nat.{le_refl}

-- What a round leaves to the loop around it: the worker's context has ended, no run is pending, the
-- claim failed, or a run was executed with this result.
pub data Round : Type 0 where
  ended idle : Round
  unclaimed : Error → Round
  served : Result Run → Round

-- A new control for the run, whose context comes from the worker's.
abbrev pub publish : String → World → World
publish id w = record w {
  user_cancelled = false;
  active_id = id;
  task_ctx = w.worker_ctx;
  run_ctx = w.worker_ctx;
}

-- `executor.active = nil`
abbrev pub release : World → World
release w = record w { active_id = "" }

module _ (suffix : ℕ → String) (definition : Definition) (registry : Registry) where
  -- Only a run that is still running is executed.
  abbrev pub run_latest : Result Run → Exec Run
  run_latest (err e) = fail e
  run_latest (ok run) =
      if run_eq run.status RunStatus.running
      then execute suffix definition registry run
      else pure run

  -- From the claim of a run to the release of its control.
  unfoldable pub serve : Run → Exec (Result Run)
  serve run = do
    modify (publish run.id)
    latest ← attempt (store task_ctx (λ ctx _. get_run ctx run.id))
    result ← attempt (run_latest latest)
    modify release
    pure result

  abbrev pub serve_claimed : Result (Option Run) → Exec Round
  serve_claimed (err e) = pure (unclaimed e)
  serve_claimed (ok none) = pure idle
  serve_claimed (ok (some run)) = serve run >>= λ result. pure (served result)

  abbrev pub begin_round : Ctx → Exec Round
  begin_round (some e) = pure ended
  begin_round none = do
    claimed ← attempt (store worker_ctx (λ ctx at. claim_next_pending_run ctx at))
    serve_claimed claimed

  unfoldable pub work_round : Exec Round
  work_round w = begin_round w.worker_ctx w

-- What is read of a run has the status of its row.
get_run-Triple :
    (id : String) (ctx : Ctx)
    → Triple
        (IsCancelled id)
        (get_run ctx id)
        (λ run _. run.status ≡ RunStatus.cancelled)
        (λ _ _. Unit {0})
unfolding get_run found_run run_of status_of
get_run-Triple id ctx =
    Triple-bind (λ row _. status_in row ≡ some RunStatus.cancelled) _ _
      (Triple-statement ctx _ (λ db c. found db c) (λ e db c. tt))
      λ row.
        Triple-bind (λ run _. run.status ≡ RunStatus.cancelled) _ _ (read row)
          λ run.
            Triple-bind (λ _ _. run.status ≡ RunStatus.cancelled) _ _
              (Triple-statement ctx _ (λ db h. h) (λ e db h. tt))
              λ steps.
                Triple-bind (λ _ _. run.status ≡ RunStatus.cancelled) _ _
                  (Triple-statement ctx _ (λ db h. h) (λ e db h. tt))
                  λ artifacts. record { at = λ conn h. h }
  where
    found : (db : Db) → IsCancelled id db → status_in (find_run id db) ≡ some RunStatus.cancelled
    found db c = IsCancelled-status_of id db c

    status_or : Option RunStatus → RunStatus
    status_or none = RunStatus.cancelled
    status_or (some s) = s

    read :
        (row : Option RunRow)
        → Triple
            (λ _. status_in row ≡ some RunStatus.cancelled)
            (lift (found_run row))
            (λ run _. run.status ≡ RunStatus.cancelled)
            (λ _ _. Unit {0})
    read none = record { at = λ conn h. tt }
    read (some row) = record { at = λ conn h. ap status_or h }

latest-calls :
    (suffix : ℕ → String) (definition : Definition) (registry : Registry) (r : Result Run)
    (conn : Conn) (w : World)
    → After (λ run _. run.status ≡ RunStatus.cancelled) (λ _ _. Unit {0}) (r, conn)
    → (run_latest suffix definition registry r w).1.calls ≡ w.calls
latest-calls suffix definition registry (err e) conn w h = refl
latest-calls suffix definition registry (ok run) conn w h = rw h refl

-- A run that a user has cancelled by the time that the worker has claimed it is not executed: whatever
-- others do and whatever fails, the worker calls no capability for it.
pub serve-calls :
    (suffix : ℕ → String) (definition : Definition) (registry : Registry) (run : Run) (w : World)
    → IsCancelled run.id w.conn.db
    → (serve suffix definition registry run w).1.calls ≤ w.calls
unfolding serve ◌>>=◌ attempt store
serve-calls suffix definition registry run w c =
    let v = others (publish run.id w) in
    let cancelled =
      others-stable (Invariants.stable (IsCancelled run.id) (perform-IsCancelled run.id))
        (publish run.id w) c in
    let few = others-stable (Calls.stable w.calls) (publish run.id w) (le_refl w.calls) in
    let (r, conn) = get_run v.task_ctx run.id v.conn in
    omega (
      arith,
      few,
      latest-calls suffix definition registry r conn (record v { conn = conn })
          ((get_run-Triple run.id v.task_ctx).at v.conn cancelled),
    )
