-- ===== src/Storage/Cancelled.antt =====
-- Cancelled runs and the statements of backend/internal/storage/store.go, with their guards
-- `status != 'cancelled'` and their tests of the status.
pub mod Histories
use go_dashboard.Prelude.{
  ℕ, zero, suc, ◌+◌, ◌-◌, ◌*◌, ◌/◌, ◌≤◌, ◌<◌, String, ◌≡◌, refl, sym, ap, ◌∙◌, subst, ◌≢◌, ◌↔◌, ◌⊎◌,
  inl, inr, Bool, true, false, not, ◌&&◌, ◌||◌, Option, none, some, List, [], ◌∷◌, ◌++◌, map, arith,
  ◌==◌, eq_iff, eq_refl, ltb, leb, eqb, if◌then◌else◌, Bool-cases, Option-cases, length, get_elem?,
  select, find, any, count, map_where, length-append, All, All-append, ℤ, pos, negsuc, is_pos,
  is_neg, to_ℕ, eq_ℤ, lt_ℤ, is_blank, trim_space, cut_prefix, str_lt, Error, Flaw, Result, ok, err,
  ltb→lt, lt→ltb, leb→le,
}
use go_dashboard.Workflow.Status.{RunStatus, StepStatus, run_eq, run_eq-eq}
use go_dashboard.Workflow.Run.{Run, StepRun}
use go_dashboard.Storage.Db.{Db, EventRow, RunRow, StepRow, find_run, status_of, status_in}
use go_dashboard.Storage.Sql.{
  Conn, Sql, Ctx, pure, fail, lift, statement, ◌>>=◌, ◌>>◌, transaction, query, commit,
}
use go_dashboard.Storage.Sql.Triple.{
  After, Triple, Triple-statement, Triple-bind, Triple-transaction, Triple-weaken, Triple-fail,
  Triple-pure,
}
use go_dashboard.Storage.Sql.Keeps.{
  Keeps, Keeps-query, Keeps-lift, Keeps-pure, Keeps-commit, Keeps-transaction, KeepsTables,
  keeps_rules, Keeps-statement, Keeps-bind, Keeps-db, Keeps-if, Keeps-fail,
}
use go_dashboard.Storage.Tables.{
  new_run_row, new_step_row, artifact_row, insert_if, has_run, insert_event, update_runs,
  update_steps, delete_artifacts,
}
use go_dashboard.Storage.Tables.Laws.{
  any-append, any-map_where, All-map_where, All-select_test, All-order_by, All-select,
}
use go_dashboard.Storage.Runs
use go_dashboard.Storage.Lifecycle
use go_dashboard.Artifact.{Artifact}

abbrev pub SaysCancelled : String → RunRow → Type 0
SaysCancelled id row = row.id ≡ id → row.status ≡ RunStatus.cancelled

-- The run is there, and its row says `cancelled`.
pub record IsCancelled (id : String) (db : Db) : Type 0 where
  pub present : has_run id db ≡ true
  pub says : All (SaysCancelled id) db.runs

module _ (id : String) where
  rows_status :
      (rows : List RunRow)
      → any (λ r. r.id == id) rows ≡ true
      → All (SaysCancelled id) rows
      → status_in (find (λ r. r.id == id) rows) ≡ some RunStatus.cancelled
  unfolding any find
  rows_status [] h a = cc
  rows_status (r ∷ rs) h a = elim (Bool-cases (r.id == id)) [
    | inl e ↦ rw e (ap some (a.0 ((eq_iff r.id id).0 e)))
    | inr e ↦ rw e (rows_status rs (ground arith) a.1)
  ]

  pub IsCancelled-status_of :
      (db : Db) → IsCancelled id db → status_of id db ≡ some RunStatus.cancelled
  unfolding status_of find_run
  IsCancelled-status_of db c = rows_status db.runs c.present c.says

  -- Tables other than `workflow_runs` do not matter.
  pub same_runs : (db db' : Db) → db'.runs ≡ db.runs → IsCancelled id db → IsCancelled id db'
  same_runs db db' e c = record {
    present = subst (λ rows. any (λ (r : RunRow). r.id == id) rows ≡ true) (sym e) c.present;
    says = subst (All (SaysCancelled id)) (sym e) c.says;
  }

  -- An UPDATE of the runs keeps a cancelled run if it keeps each row's ID, and the status of rows
  -- that say `cancelled`.
  pub update_runs-Keeps :
      (p : RunRow → Bool) (f : RunRow → RunRow)
      → ((r : RunRow) → (f r).id ≡ r.id)
      → ((r : RunRow) → p r ≡ true → SaysCancelled id r → SaysCancelled id (f r))
      → KeepsTables (IsCancelled id) (update_runs p f)
  unfolding update_runs
  update_runs-Keeps p f same keep db c n db' e =
      same_runs (record db { runs = map_where p f db.runs }) db' (ground arith)
        (record {
          present =
              any-map_where (λ r. r.id == id) p f (λ r _. ap (λ k. k == id) (same r)) db.runs
              ∙ c.present;
          says = All-map_where (SaysCancelled id) p f keep db.runs c.says;
        })

  insert_if-Keeps :
      (fits : Bool) (what : String) (db new : Db)
      → (fits ≡ true → IsCancelled id new)
      → (u : Unit {0}) (db' : Db) → insert_if fits what new ≡ ok (u, db')
      → IsCancelled id db'
  insert_if-Keeps true what db new h u db' e = subst (IsCancelled id) (ground arith) (h refl)
  insert_if-Keeps false what db new h u db' e = cc

  pub insert_event-Keeps : (event : EventRow) → KeepsTables (IsCancelled id) (insert_event event)
  unfolding insert_event
  insert_event-Keeps event db c =
      insert_if-Keeps _ "execution_events" db (record db { events = db.events ++ event ∷ [] })
        (λ _. same_runs db (record db { events = db.events ++ event ∷ [] }) refl c)

  pub update_steps-Keeps :
      (p : StepRow → Bool) (f : StepRow → StepRow) → KeepsTables (IsCancelled id) (update_steps p f)
  unfolding update_steps
  update_steps-Keeps p f db c n db' e = same_runs db db' (ground arith) c

  pub insert_run-Keeps : (run : Run) → KeepsTables (IsCancelled id) (Runs.insert_run run)
  unfolding Runs.insert_run new_run_row
  insert_run-Keeps run db c =
      insert_if-Keeps _ "workflow_runs" db (record db { runs = db.runs ++ new_run_row run ∷ [] })
        λ fits. record {
          present = any-append (λ r. r.id == id) db.runs _ ∙ ground (arith, c.present);
          says = All-append (SaysCancelled id) db.runs _ c.says (λ e. absurd (taken fits e), tt);
        }
    where
      taken : Runs.run_fits run db ≡ true → run.id ≡ id → ⊥
      taken fits e =
          let there : has_run run.id db ≡ true =
            subst (λ k. has_run k db ≡ true) (sym e) c.present in
          unfold Runs.run_fits in ground arith

  pub insert_step-Keeps : (step : StepRun) → KeepsTables (IsCancelled id) (Runs.insert_step step)
  unfolding Runs.insert_step
  insert_step-Keeps step db c =
      insert_if-Keeps _ "step_runs" db (record db { steps = db.steps ++ new_step_row step ∷ [] })
        (λ _. same_runs db _ refl c)

  pub insert_artifact-Keeps :
      (value : Artifact) → KeepsTables (IsCancelled id) (Runs.insert_artifact value)
  unfolding Runs.insert_artifact
  insert_artifact-Keeps value db c =
      insert_if-Keeps _ "artifacts" db
        (record db { artifacts = db.artifacts ++ artifact_row value ∷ [] })
        (λ _. same_runs db _ refl c)

  pub write_step-Keeps : (step : StepRun) → KeepsTables (IsCancelled id) (Runs.write_step step)
  unfolding Runs.write_step
  write_step-Keeps step db = update_steps-Keeps _ (Runs.set_step step) db

  -- UPDATE workflow_runs of `UpdateRun`: its guard spares cancelled rows.
  pub set_run-Keeps :
      (run : Run)
      → KeepsTables (IsCancelled id) (update_runs (Runs.may_update run) (Runs.set_run run))
  set_run-Keeps run =
      update_runs-Keeps (Runs.may_update run) (Runs.set_run run) (λ r. refl)
        λ r h says e. run_eq-eq run.status RunStatus.cancelled (ground (arith, says e))

  pub claim_row-Keeps :
      (now : ℕ) (k : String)
      → KeepsTables (IsCancelled id) (
          update_runs
            (λ row. row.id == k && Lifecycle.is_pending row.status)
            (Lifecycle.claim_row now))
  claim_row-Keeps now k =
      update_runs-Keeps _ (Lifecycle.claim_row now) (λ r. refl) λ r h says e. ground (arith, says e)

  -- An unguarded UPDATE of another run.
  pub other_run-Keeps :
      (k : String) (f : RunRow → RunRow)
      → ((r : RunRow) → (f r).id ≡ r.id)
      → (k == id) ≡ false
      → KeepsTables (IsCancelled id) (update_runs (λ row. row.id == k) f)
  other_run-Keeps k f same ne =
      update_runs-Keeps _ f same λ r h says e. ground (arith, eq_iff r.id k, same r, eq_iff k id)

  refused :
      (p : RunStatus → Bool) (e : Error) (body : Sql (Unit {0}))
      → p RunStatus.cancelled ≡ false
      → (s : Option RunStatus) (conn : Conn)
      → IsCancelled id conn.db × (s ≡ some RunStatus.cancelled)
      → After
          (λ _. IsCancelled id)
          (λ _. IsCancelled id)
          ((lift (Lifecycle.require_status p e s) >> body) conn)
  unfolding ◌>>=◌ Lifecycle.require_status
  refused p e body spared s conn (c, h) = rw (h, Lifecycle.require_status, spared) c

  -- The tests of the status that stand before `body` let no cancelled run through.
  pub guarded-Keeps :
      (ctx : Ctx) (k : String) (p : RunStatus → Bool) (e : Error) (body : Sql Unit)
      → p RunStatus.cancelled ≡ false
      → ((k == id) ≡ false → Keeps (IsCancelled id) body)
      → Keeps
          (IsCancelled id)
          (query ctx (status_of k) >>= λ s. lift (Lifecycle.require_status p e s) >> body)
  guarded-Keeps ctx k p e body spared keep = elim (Bool-cases (k == id)) [
    | inl same ↦
        let same_status : (db : Db)
            → IsCancelled id db
            → status_of k db ≡ some RunStatus.cancelled =
          λ db c.
            subst (λ j. status_of j db ≡ some RunStatus.cancelled) (sym ((eq_iff k id).0 same))
              (IsCancelled-status_of db c) in
        record {
          triple =
              Triple-bind (λ s db. IsCancelled id db × (s ≡ some RunStatus.cancelled))
                (query ctx (status_of k)) _
                (Triple-statement ctx _ (λ db c. (c, same_status db c)) (λ _ db c. c))
                (λ s. record { at = refused p e body spared s });
        }
    | inr other ↦ Keeps-bind _ _ (Keeps-query ctx (status_of k)) λ s.
        Keeps-bind (lift (Lifecycle.require_status p e s)) (λ _. body) (Keeps-lift _)
          (λ _. keep other)
  ]
