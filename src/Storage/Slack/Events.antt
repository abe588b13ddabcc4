-- ===== src/Storage/Slack/Events.antt =====
-- backend/internal/storage/slack_store.go: claiming, completing and releasing Slack events. A call has
-- one time for all its calls of `time.Now`.
use go_dashboard.Prelude.{
  ℕ, ◌-◌, String, Bool, true, false, not, ◌&&◌, Option, none, some, [], ◌∷◌, ◌++◌, ◌==◌, leb, eqb,
  if◌then◌else◌, select, find, any, count, map_where, Error, Result, ok, err,
}
use go_dashboard.Trigger.{Time}
use go_dashboard.Storage.Db.{Db}
use go_dashboard.Storage.Sql.{Sql, Ctx, pure, fail, statement, query, ◌>>=◌}
use go_dashboard.Storage.Tables.{unix_milli, from_unix_milli}
use go_dashboard.Storage.Slack.Rows.{ClaimStatus, processing, processed, SlackEventRow, SlackDb}

-- Statements and queries on the Slack tables.
abbrev pub lifted : {A : Type 0} → Db → Result (A × SlackDb) → Result (A × Db)
lifted db (ok (a, slack)) = ok (a, record db { slack = slack })
lifted db (err e) = err e

abbrev pub on_slack : {A : Type 0} → Ctx → (SlackDb → Result (A × SlackDb)) → Sql A
on_slack ctx f = statement ctx (λ db. lifted db (f db.slack))

abbrev pub from_slack : {A : Type 0} → Ctx → (SlackDb → A) → Sql A
from_slack ctx f = query ctx (λ db. f db.slack)

abbrev pub is_event : String → SlackEventRow → Bool
is_event id row = row.event_id == id

unfoldable pub find_event : String → SlackDb → Option SlackEventRow
find_event id db = find (is_event id) db.events

abbrev pub is_processing : ClaimStatus → Bool
is_processing processing = true
is_processing processed = false

abbrev pub claimed_row : String → Time → Time → SlackEventRow
claimed_row id received_at now = record {
  event_id = id;
  status = processing;
  received_at = unix_milli received_at;
  claimed_at = unix_milli now;
  processed_at = none;
}

-- INSERT … ON CONFLICT(event_id) DO NOTHING, with the number of rows.
unfoldable pub insert_claim : String → Time → Time → SlackDb → Result (ℕ × SlackDb)
insert_claim id received_at now db =
    if any (is_event id) db.events
    then ok (0, db)
    else ok (1, record db { events = db.events ++ claimed_row id received_at now ∷ [] })

abbrev pub is_stale_claim : String → ℕ → SlackEventRow → Bool
is_stale_claim id claimed_at row =
    row.event_id == id && is_processing row.status && eqb row.claimed_at claimed_at

abbrev pub reclaimed_row : Time → Time → SlackEventRow → SlackEventRow
reclaimed_row received_at now row = record row {
  received_at = unix_milli received_at;
  claimed_at = unix_milli now;
}

-- UPDATE … WHERE event_id=? AND status='processing' AND claimed_at=?
unfoldable pub reclaim : String → Time → Time → ℕ → SlackDb → Result (ℕ × SlackDb)
reclaim id received_at now claimed_at db = ok (
  count (is_stale_claim id claimed_at) db.events,
  record db {
    events = map_where (is_stale_claim id claimed_at) (reclaimed_row received_at now) db.events;
  },
)

-- `5*time.Minute` in nanoseconds.
abbrev pub claim_period : ℕ
claim_period = 300_000_000_000

abbrev pub is_recent : Time → ℕ → Bool
is_recent now claimed_at = leb (now - from_unix_milli claimed_at) claim_period

unfoldable pub claim_again : Ctx → Time → String → Time → SlackEventRow → Sql Bool
claim_again ctx now id received_at row =
    if not (is_processing row.status)
    then pure false
    else if is_recent now row.claimed_at
    then fail Error.event_in_progress
    else do
      rows ← on_slack ctx (reclaim id received_at now row.claimed_at)
      if eqb rows 0 then fail Error.event_in_progress else pure true

abbrev pub claim_existing : Ctx → Time → String → Time → Option SlackEventRow → Sql Bool
claim_existing ctx now id received_at none = fail (Error.failure "sql: no rows in result set")
claim_existing ctx now id received_at (some row) = claim_again ctx now id received_at row

unfoldable pub claim_slack_event : Ctx → Time → String → Time → Sql Bool
claim_slack_event ctx now id received_at = do
  rows ← on_slack ctx (insert_claim id received_at now)
  if eqb rows 1
      then pure true
      else do row ← from_slack ctx (find_event id); claim_existing ctx now id received_at row

abbrev pub processed_row : Time → SlackEventRow → SlackEventRow
processed_row processed_at row = record row {
  status = processed;
  processed_at = some (unix_milli processed_at);
}

-- UPDATE … WHERE event_id=?
unfoldable pub set_processed : String → Time → SlackDb → Result (Unit {0} × SlackDb)
set_processed id processed_at db =
    ok (tt, record db { events = map_where (is_event id) (processed_row processed_at) db.events })

unfoldable pub complete_slack_event : Ctx → String → Time → Sql (Unit {0})
complete_slack_event ctx id processed_at = on_slack ctx (set_processed id processed_at)

-- DELETE … WHERE event_id=? AND status='processing'
unfoldable pub delete_claim : String → SlackDb → Result (Unit {0} × SlackDb)
delete_claim id db = ok (
  tt,
  record db {
    events =
        select (λ (row : SlackEventRow). not (row.event_id == id && is_processing row.status))
          db.events;
  },
)

unfoldable pub release_slack_event : Ctx → String → Sql (Unit {0})
release_slack_event ctx id = on_slack ctx (delete_claim id)
