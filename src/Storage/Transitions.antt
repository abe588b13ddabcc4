-- ===== src/Storage/Transitions.antt =====
-- What cancelling and retrying a run do (backend/internal/storage/store.go, `CancelRun` and
-- `ResetRunForRetry`), seen from the status of the run, for every script of failing statements.
use go_dashboard.Prelude.{
  ℕ, String, ◌≡◌, refl, sym, ap, ◌∙◌, subst, inl, inr, Bool, true, false, Option, none, some, List,
  [], ◌∷◌, arith, ◌==◌, if◌then◌else◌, Bool-cases, find, map_where, Error, Result, ok, err,
}
use go_dashboard.Workflow.Status.{RunStatus, run_can_transition_to}
use go_dashboard.Storage.Db.{Db, EventRow, RunRow, StepRow, find_run, status_of, status_in}
use go_dashboard.Storage.Sql.{Conn, Sql, Ctx, lift, statement, transaction, query, commit}
use go_dashboard.Storage.Sql.Triple
use go_dashboard.Storage.Sql.Triple.{
  After, Triple, Triple-statement, Triple-bind, Triple-transaction, Triple-weaken, Triple-fail,
  Triple-pure,
}
use go_dashboard.Storage.Tables.{
  insert_if, insert_event, update_runs, update_steps, delete_artifacts,
}
use go_dashboard.Storage.Lifecycle.{
  cancel_run, cancel_body, reset_run_for_retry, retry_body, reset_body, require_status,
  is_cancellable, is_failed, cancel_run_row, reset_run_row, drop_artifacts,
}

module _ (id : String) (before : Option RunStatus) (next : RunStatus) (p : RunStatus → Bool) where
  -- The row of the run still has the status from before.
  abbrev Unmoved : Db → Type 0
  Unmoved db = status_of id db ≡ before

  -- There was a status that the operation admits, and the tables satisfy `P`.
  abbrev Admitted : (Db → Type 0) → Db → Type 0
  Admitted P db = (s : RunStatus) × (before ≡ some s) × (p s ≡ true) × P db

  abbrev Moved : Db → Type 0
  Moved db = status_of id db ≡ some next

  rows-set :
      (f : RunRow → RunRow)
      → ((r : RunRow) → (f r).id ≡ r.id)
      → ((r : RunRow) → (f r).status ≡ next)
      → (rows : List RunRow) (s : RunStatus) → status_in (find (λ r. r.id == id) rows) ≡ some s
      → status_in (find (λ r. r.id == id) (map_where (λ r. r.id == id) f rows)) ≡ some next
  unfolding find map_where
  rows-set f same sets [] s h = cc
  rows-set f same sets (r ∷ rs) s h = elim (Bool-cases (r.id == id)) [
    | inl e ↦ rw (e, same r, e) (ap some (sets r))
    | inr e ↦ rw (e, e) (rows-set f same sets rs s (rest e h))
  ]
    where
      rest :
          r.id == id ≡ false
          → status_in (if r.id == id then some r else find (λ q. q.id == id) rs) ≡ some s
          → status_in (find (λ q. q.id == id) rs) ≡ some s
      rest e k =
          subst (λ b. status_in (if b then some r else find (λ q. q.id == id) rs) ≡ some s) e k

  required-Triple :
      (e : Error) (status : Option RunStatus)
      → Triple
          (λ db. (status ≡ before) × Unmoved db)
          (lift (require_status p e status))
          (λ _. Admitted Unmoved)
          (λ _ _. Unit {0})
  unfolding require_status
  required-Triple e none = record { at = λ conn h. tt }
  required-Triple e (some s) = record { at = λ conn h. here conn h (p s) refl }
    where
      here :
          (conn : Conn)
          → (some s ≡ before) × Unmoved conn.db
          → (b : Bool) → p s ≡ b
          → After (λ _. Admitted Unmoved) (λ _ _. Unit {0}) (if b then ok tt else err e, conn)
      here conn h true k = (s, sym h.0, k, h.1)
      here conn h false k = tt

  -- A statement after the test that leaves the runs alone.
  calm-Triple :
      {A : Type 0} (P : Db → Type 0) (ctx : Ctx) (f : Db → Result (A × Db))
      → ((db : Db) (a : A) (db' : Db) → f db ≡ ok (a, db') → P db → P db')
      → Triple (Admitted P) (statement ctx f) (λ _. Admitted P) (λ _ _. Unit {0})
  calm-Triple {A} P ctx f h = Triple-statement ctx f (λ db a. here db a (f db) refl) (λ e db a. tt)
    where
      here :
          (db : Db)
          → Admitted P db
          → (r : Result (A × Db)) → f db ≡ r
          → Triple.Settled (λ _. Admitted P) (λ _ _. Unit {0}) db r
      here db (s, e, k, q) (ok (a, db')) j = (s, e, k, h db a db' j q)
      here db a (err x) j = tt

  moves-Triple :
      (ctx : Ctx) (f : RunRow → RunRow)
      → ((r : RunRow) → (f r).id ≡ r.id)
      → ((r : RunRow) → (f r).status ≡ next)
      → Triple
          (Admitted Unmoved)
          (statement ctx (update_runs (λ r. r.id == id) f))
          (λ _. Admitted Moved)
          (λ _ _. Unit {0})
  unfolding update_runs status_of find_run
  moves-Triple ctx f same sets =
      Triple-statement ctx _ (λ db a. (a.0, a.1, a.2, rows-set f same sets db.runs a.0 (a.3 ∙ a.1)))
        (λ e db a. tt)

  inserted-runs :
      (b : Bool) (what : String) (db db' db'' : Db) (a : Unit {0})
      → insert_if b what db' ≡ ok (a, db'')
      → db'.runs ≡ db.runs
      → db''.runs ≡ db.runs
  inserted-runs true what db db' db'' a h k =
      ap (λ (r : Result (Unit {0} × Db)). elim r [ ok x ↦ x.1.runs | err e ↦ db'.runs ]) (sym h) ∙ k
  inserted-runs false what db db' db'' a h k = cc

  event-Triple :
      (ctx : Ctx) (event : EventRow)
      → Triple
          (Admitted Moved)
          (statement ctx (insert_event event))
          (λ _. Admitted Moved)
          (λ _ _. Unit {0})
  unfolding insert_event status_of find_run
  event-Triple ctx event = calm-Triple Moved ctx (insert_event event) λ db a db' e m.
      subst (λ rows. status_in (find (λ r. r.id == id) rows) ≡ some next)
        (sym (inserted-runs _ _ db _ db' a e refl)) m

  query-Triple :
      (ctx : Ctx)
      → Triple Unmoved
          (query ctx (status_of id))
          (λ status db. (status ≡ before) × Unmoved db)
          (λ _ _. Unit {0})
  query-Triple ctx = Triple-statement ctx _ (λ db h. (h, h)) (λ e db h. tt)

  -- The rest of the body after the tests: what it does to the other tables, the update, the event.
  commit-Triple :
      (ctx : Ctx) → Triple (Admitted Moved) (commit ctx) (λ _. Admitted Moved) (λ _ _. Unit {0})
  commit-Triple ctx = calm-Triple Moved ctx _ λ db a db' e m.
      subst Moved (ap (λ (r : Result (Unit {0} × Db)). elim r [ ok x ↦ x.1 | err e ↦ db ]) e) m

  steps-Triple :
      (ctx : Ctx) (q : StepRow → Bool) (f : StepRow → StepRow)
      → Triple
          (Admitted Unmoved)
          (statement ctx (update_steps q f))
          (λ _. Admitted Unmoved)
          (λ _ _. Unit {0})
  unfolding update_steps status_of find_run
  steps-Triple ctx q f = Triple-statement ctx _ (λ db a. a) (λ e db a. tt)

  drop-Triple :
      (ctx : Ctx)
      → Triple
          (Admitted Unmoved)
          (statement ctx (drop_artifacts id))
          (λ _. Admitted Unmoved)
          (λ _ _. Unit {0})
  unfolding drop_artifacts delete_artifacts status_of find_run
  drop-Triple ctx = Triple-statement ctx _ (λ db a. a) (λ e db a. tt)

-- What became of the run `id` on the way to the status `next`. A success found the run in a status
-- that may change to `next`, and left it in `next`. A failure left every table as it was.
abbrev pub Follows : String → RunStatus → Db → Result (Unit {0}) × Conn → Type 0
Follows id next db (ok _, conn) =
    (s : RunStatus) × (status_of id db ≡ some s)
    × (run_can_transition_to s next ≡ true)
    × (status_of id conn.db ≡ some next)
Follows id next db (err e, conn) = conn.db ≡ db

module _ (id : String) (db : Db) (next : RunStatus) (p : RunStatus → Bool) where
  followed :
      ((s : RunStatus) → p s ≡ true → run_can_transition_to s next ≡ true)
      → (ctx : Ctx) (body : Sql (Unit {0}))
      → Triple
          (Unmoved id (status_of id db) next p)
          body
          (λ _. Admitted id (status_of id db) next p (Moved id (status_of id db) next p))
          (λ _ _. Unit {0})
      → (conn : Conn) → conn.db ≡ db
      → Follows id next db (transaction ctx body conn)
  followed allowed ctx body t conn e =
      let (r, conn') = transaction ctx body conn in here r conn' (whole.at conn e)
    where
      whole :
          Triple
            (λ d. d ≡ db)
            (transaction ctx body)
            (λ _. Admitted id (status_of id db) next p (Moved id (status_of id db) next p))
            (λ _ d. d ≡ db)
      whole =
          Triple-transaction ctx body
            (Triple-weaken body t (λ d h. ap (status_of id) h) (λ a d h. h) (λ e d h. tt))
            (λ e d h. h)

      here :
          (r : Result (Unit {0})) (conn' : Conn)
          → After
              (λ _. Admitted id (status_of id db) next p (Moved id (status_of id db) next p))
              (λ _ d. d ≡ db)
              (r, conn')
          → Follows id next db (r, conn')
      here (ok _) conn' h = (h.0, h.1, allowed h.0 h.2, h.3)
      here (err x) conn' h = h

cancel_allowed :
    (s : RunStatus) → is_cancellable s ≡ true → run_can_transition_to s RunStatus.cancelled ≡ true
unfolding run_can_transition_to
cancel_allowed s h = ground arith

retry_allowed :
    (s : RunStatus) → is_failed s ≡ true → run_can_transition_to s RunStatus.pending ≡ true
unfolding run_can_transition_to
retry_allowed s h = ground arith

-- `CancelRun` of any run, with any failing statements: where it succeeds, the run was in a status that
-- may change to `cancelled`, and is cancelled; where it fails, no table has changed.
pub cancel_run-Follows :
    (ctx : Ctx) (now : ℕ) (id : String) (conn : Conn)
    → Follows id RunStatus.cancelled conn.db (cancel_run ctx now id conn)
unfolding cancel_run cancel_body
cancel_run-Follows ctx now id conn =
    followed id conn.db RunStatus.cancelled is_cancellable cancel_allowed ctx
      (cancel_body ctx now id)
      (Triple-bind _ _ _ (query-Triple id _ RunStatus.cancelled is_cancellable ctx) λ status.
        Triple-bind _ _ _ (required-Triple id _ RunStatus.cancelled is_cancellable _ status) λ _.
          Triple-bind _ _ _ (steps-Triple id _ RunStatus.cancelled is_cancellable ctx _ _) λ _.
            Triple-bind _ _ _
              (moves-Triple id _ RunStatus.cancelled is_cancellable ctx (cancel_run_row now)
                (λ r. refl) (λ r. refl))
              λ _.
                Triple-bind _ _ _ (event-Triple id _ RunStatus.cancelled is_cancellable ctx _)
                  λ _. commit-Triple id _ RunStatus.cancelled is_cancellable ctx)
      conn refl

-- `ResetRunForRetry` of any run, with any failing statements: where it succeeds, the run was in a
-- status that may change to `pending`, and is pending; where it fails, no table has changed.
pub reset_run_for_retry-Follows :
    (ctx : Ctx) (now : ℕ) (id : String) (conn : Conn)
    → Follows id RunStatus.pending conn.db (reset_run_for_retry ctx now id conn)
unfolding reset_run_for_retry retry_body reset_body
reset_run_for_retry-Follows ctx now id conn =
    followed id conn.db RunStatus.pending is_failed retry_allowed ctx (retry_body ctx now id)
      (Triple-bind _ _ _ (query-Triple id _ RunStatus.pending is_failed ctx) λ status.
        Triple-bind _ _ _ (required-Triple id _ RunStatus.pending is_failed _ status) λ _.
          Triple-bind _ _ _
            (Triple-bind _ _ _ (drop-Triple id _ RunStatus.pending is_failed ctx) λ _.
              Triple-bind _ _ _ (steps-Triple id _ RunStatus.pending is_failed ctx _ _) λ _.
                Triple-bind _ _ _
                  (moves-Triple id _ RunStatus.pending is_failed ctx reset_run_row (λ r. refl)
                    (λ r. refl))
                  λ _. Triple-pure tt (λ db h. h))
            λ _.
              Triple-bind _ _ _ (event-Triple id _ RunStatus.pending is_failed ctx _)
                λ _. commit-Triple id _ RunStatus.pending is_failed ctx)
      conn refl
