-- ===== src/Workflow/Executor/World.antt =====
-- What the executor (backend/internal/workflow/executor.go) works in: the database, its contexts and
-- its flags. Before each call that it makes, other goroutines may act: `script` says how, one list
-- of events for each call. Times are read from `clock`.
use go_dashboard.Prelude.{
  ℕ, ◌+◌, String, Bool, true, none, some, List, [], ◌∷◌, ◌==◌, if◌then◌else◌, Error, Result, ok,
  err,
}
use go_dashboard.Trigger.{Time}
use go_dashboard.Storage.Sql.{Conn, Sql, Ctx, background}
use go_dashboard.Storage.Tables.{unix_milli}
use go_dashboard.Storage.Lifecycle.{cancel_run}
use go_dashboard.Storage.Calls.{Call, perform}

-- `user_cancels` is `Executor.Cancel` called by a handler; `performs` is any other call of the store.
pub data Event : Type 0 where
  user_cancels : String → Event
  shuts_down deadline_passes : Event
  time_passes : ℕ → Event
  performs : Call → Event

pub record World : Type 0 where
  pub conn : Conn
  -- `ctx.Err()` of the worker.
  pub worker_ctx : Ctx
  -- `ctx.Err()` of the `runCtx` that the worker makes, and of `runCtx` in `execute`, which has a deadline too.
  pub task_ctx : Ctx
  pub run_ctx : Ctx
  -- `control.userCancelled` and `active.runID`
  pub user_cancelled : Bool
  pub active_id : String
  pub started : Bool
  -- Whether the channel `wake` holds its one token.
  pub wake : Bool
  pub clock : Time
  -- How many random IDs have been drawn, and how many capability calls made.
  pub drawn : ℕ
  pub calls : ℕ
  pub script : List (List Event)

-- The first cause that ends a context is the one that its `Err` keeps.
abbrev pub ends_with : Error → Ctx → Ctx
ends_with e none = some e
ends_with e (some first) = some first

abbrev pub cancel_contexts : World → World
cancel_contexts w = record w {
  task_ctx = ends_with Error.canceled w.task_ctx;
  run_ctx = ends_with Error.canceled w.run_ctx;
}

-- `Executor.Cancel` up to its `GetRun`: the database first, then the active run's control.
abbrev pub cancel_active : String → Result (Unit {0}) × Conn → World → Result (Unit {0}) × World
cancel_active id (err e, conn) w = (err e, record w { conn = conn })
cancel_active id (ok _, conn) w =
    let w' = record w { conn = conn } in
    (ok tt, if w.active_id == id then cancel_contexts (record w' { user_cancelled = true }) else w')

unfoldable pub cancel_control : Ctx → String → World → Result (Unit {0}) × World
cancel_control ctx id w = cancel_active id (cancel_run ctx (unix_milli w.clock) id w.conn) w

unfoldable pub happen : Event → World → World
happen (user_cancels id) w = (cancel_control background id w).1
happen shuts_down w =
    cancel_contexts (record w { worker_ctx = ends_with Error.canceled w.worker_ctx })
happen deadline_passes w = record w { run_ctx = ends_with Error.deadline_exceeded w.run_ctx }
happen (time_passes n) w = record w { clock = w.clock + n }
happen (performs call) w = record w { conn = perform background (unix_milli w.clock) call w.conn }

unfoldable pub happen_all : List Event → World → World
happen_all [] w = w
happen_all (e ∷ es) w = happen_all es (happen e w)

abbrev pub interleave : List (List Event) → World → World
interleave [] w = w
interleave (es ∷ rest) w = happen_all es (record w { script = rest })

-- The others act, as the script says.
unfoldable pub others : World → World
others w = interleave w.script w

abbrev pub Exec {ℓ} : Type ℓ → Type ℓ
Exec A = World → Result A × World

module _ {A : Type 0} where
  abbrev pub pure : A → Exec A
  pure a w = (ok a, w)

  abbrev pub fail : Error → Exec A
  fail e w = (err e, w)

  abbrev pub lift : Result A → Exec A
  lift r w = (r, w)

  abbrev pub gets : (World → A) → Exec A
  gets f w = (ok (f w), w)

  abbrev pub stored : World → Result A × Conn → Result A × World
  stored w (r, conn) = (r, record w { conn = conn })

  -- A call of the store at a context and the present time.
  unfoldable pub store : (World → Ctx) → (Ctx → ℕ → Sql A) → Exec A
  store ctx op w = let w' = others w in stored w' (op (ctx w') (unix_milli w'.clock) w'.conn)

  -- A call of a store operation that reads the time to the nanosecond.
  unfoldable pub store_at : (World → Ctx) → (Ctx → Time → Sql A) → Exec A
  store_at ctx op w = let w' = others w in stored w' (op (ctx w') w'.clock w'.conn)

  -- The result and the error of a call, for code that tests the error itself.
  unfoldable pub attempt : Exec A → Exec (Result A)
  attempt m w = let (r, w') = m w in (ok r, w')

abbrev pub no_ctx : World → Ctx
no_ctx w = background

abbrev pub task_ctx : World → Ctx
task_ctx w = w.task_ctx

abbrev pub worker_ctx : World → Ctx
worker_ctx w = w.worker_ctx

abbrev pub run_ctx : World → Ctx
run_ctx w = w.run_ctx

abbrev pub modify : (World → World) → Exec (Unit {0})
modify f w = (ok tt, f w)

module _ {A B : Type 0} where
  abbrev pub continue : Result A → (A → Exec B) → Exec B
  continue (ok a) f = f a
  continue (err e) f = fail e

  infixl 5 ◌>>=◌ ◌>>◌
  unfoldable pub ◌>>=◌ : Exec A → (A → Exec B) → Exec B
  ◌>>=◌ m f w = let (r, w') = m w in continue r f w'

  abbrev pub ◌>>◌ : Exec A → Exec B → Exec B
  m >> k = m >>= λ _. k
