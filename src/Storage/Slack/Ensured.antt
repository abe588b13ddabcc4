-- ===== src/Storage/Slack/Ensured.antt =====
-- Threads that are ensured, and found again (backend/internal/storage/slack_store.go).
use go_dashboard.Prelude.{
  String, ◌≡◌, refl, ap, subst, Bool, false, Option, none, some, [], find, Result, ok, err,
}
use go_dashboard.Trigger.{Time}
use go_dashboard.Storage.Sql.{Conn, Sql, Ctx, background, lift, statement, continue, ◌>>=◌}
use go_dashboard.Storage.Sql.Triple.{After, Triple, Triple-statement, Triple-bind, Triple-any}
use go_dashboard.Storage.Tables.Laws.{any-find}
use go_dashboard.Slack.Domain.{Thread, ThreadIdentity, ThreadSyncStatus, validate_identity}
use go_dashboard.Storage.Slack.Rows.{ThreadRow, SlackDb}
use go_dashboard.Storage.Slack.Threads.{
  thread_of, scan_thread, is_identity, insert_thread, get_slack_thread_by_identity,
  ensure_slack_thread,
}

-- The first row with the identity is the thread's.
abbrev pub IsFoundAs : ThreadIdentity → Thread → SlackDb → Type 0
IsFoundAs identity thread db =
    (row : ThreadRow) × (find (is_identity identity) db.threads ≡ some row)
    × (thread_of row ≡ thread)

module _ (digest : String → String) (identity : ThreadIdentity) where
  get-Triple :
      (ctx : Ctx)
      → Triple
          (λ _. Unit {0})
          (get_slack_thread_by_identity ctx identity)
          (λ thread db. IsFoundAs identity thread db.slack)
          (λ _ _. Unit {0})
  unfolding get_slack_thread_by_identity scan_thread
  get-Triple ctx =
      Triple-bind (λ row db. find (is_identity identity) db.slack.threads ≡ row) _ _
        (Triple-statement ctx _ (λ db _. refl) (λ e db _. tt)) scanned
    where
      scanned :
          (row : Option ThreadRow)
          → Triple
              (λ db. find (is_identity identity) db.slack.threads ≡ row)
              (lift (scan_thread row))
              (λ thread db. IsFoundAs identity thread db.slack)
              (λ _ _. Unit {0})
      scanned none = record { at = λ conn h. tt }
      scanned (some row) = record { at = λ conn h. (row, h, refl) }

  ensure-Triple :
      (ctx : Ctx) (now : Time) (status : ThreadSyncStatus)
      → Triple
          (λ _. Unit {0})
          (ensure_slack_thread digest ctx now identity status)
          (λ (out : Thread × Bool) db. IsFoundAs identity out.0 db.slack)
          (λ _ _. Unit {0})
  unfolding ensure_slack_thread
  ensure-Triple ctx now status =
      Triple-bind (λ _ _. Unit {0}) _ _ (Triple-any _ _)
        λ _.
          Triple-bind (λ _ _. Unit {0}) _ _ (Triple-any _ _)
            λ rows.
              Triple-bind (λ thread db. IsFoundAs identity thread db.slack) _ _ (get-Triple ctx)
                λ thread. record { at = λ conn h. h }

  valid :
      (ctx : Ctx) (now : Time) (status : ThreadSyncStatus) (conn conn' : Conn) (out : Thread × Bool)
      → ensure_slack_thread digest ctx now identity status conn ≡ (ok out, conn')
      → validate_identity identity ≡ ok tt
  unfolding ensure_slack_thread ◌>>=◌
  valid ctx now status conn conn' out h = here (validate_identity identity) _ h
    where
      here :
          (r : Result (Unit {0})) (f : Unit {0} → Sql (Thread × Bool))
          → continue r f conn ≡ (ok out, conn')
          → r ≡ ok tt
      here (ok u) f k = refl
      here (err e) f k =
          let failed : err e ≡ ok out = ap (λ (p : Result (Thread × Bool) × Conn). p.0) k in
          absurd cc

  get_calm :
      (conn : Conn) (thread : Thread)
      → conn.faults ≡ []
      → IsFoundAs identity thread conn.db.slack
      → get_slack_thread_by_identity background identity conn ≡ (ok thread, conn)
  unfolding get_slack_thread_by_identity scan_thread ◌>>=◌ statement
  get_calm conn thread calm (row, found, same) = rw (calm, found, same) refl

  ensure_calm :
      (now : Time) (status : ThreadSyncStatus) (conn : Conn) (thread : Thread)
      → conn.faults ≡ []
      → validate_identity identity ≡ ok tt
      → IsFoundAs identity thread conn.db.slack
      → ensure_slack_thread digest background now identity status conn ≡ (ok (thread, false), conn)
  unfolding ensure_slack_thread insert_thread get_slack_thread_by_identity scan_thread ◌>>=◌
      statement
  ensure_calm now status conn thread calm well (row, found, same) =
      rw (well, calm, any-find (is_identity identity) conn.db.slack.threads row found, found, same)
        refl

-- A thread that is ensured is there: where nothing disturbs the statements that follow, it is read by its
-- identity as it was returned, and ensuring it again, at any time and with any status, returns the same thread,
-- which is not new, and writes nothing.
pub ensure_again :
    (digest : String → String) (identity : ThreadIdentity) (ctx : Ctx) (now later : Time)
    (status status' : ThreadSyncStatus) (conn conn' : Conn) (thread : Thread) (is_new : Bool)
    → ensure_slack_thread digest ctx now identity status conn ≡ (ok (thread, is_new), conn')
    → conn'.faults ≡ []
    → (get_slack_thread_by_identity background identity conn' ≡ (ok thread, conn'))
      × (ensure_slack_thread digest background later identity status' conn'
          ≡ (ok (thread, false), conn'))
ensure_again digest identity ctx now later status status' conn conn' thread is_new h calm =
    let found : IsFoundAs identity thread conn'.db.slack =
      subst
        (After (λ (out : Thread × Bool) db. IsFoundAs identity out.0 db.slack) (λ _ _. Unit {0})) h
        ((ensure-Triple digest identity ctx now status).at conn tt) in
    (
      get_calm digest identity conn' thread calm found,
      ensure_calm digest identity later status' conn' thread calm
          (valid digest identity ctx now status conn conn' (thread, is_new) h) found,
    )
