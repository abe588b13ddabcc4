-- ===== src/Storage/Slack/Stale.antt =====
-- Claims of Slack events that have gone stale (backend/internal/storage/slack_store.go, `ClaimSlackEvent`).
use go_dashboard.Prelude.{
  ◌+◌, ◌<◌, arith, suc, String, ◌≡◌, refl, Bool, true, false, some, List, [], ◌∷◌, arith, eqb,
  if◌then◌else◌, find, count, ok,
}
use go_dashboard.Trigger.{Time}
use go_dashboard.Storage.Sql.{Conn, background, statement, ◌>>=◌}
use go_dashboard.Storage.Tables.Laws.{any-find}
use go_dashboard.Storage.Slack.Rows.{SlackEventRow}
use go_dashboard.Storage.Slack.Events.{
  is_event, find_event, is_processing, insert_claim, reclaim, is_stale_claim, is_recent,
  claim_again, claim_slack_event,
}
use go_dashboard.Storage.Tables.{from_unix_milli}
use go_dashboard.Storage.Slack.Exclusive.{found-id, eqb_refl}

count-find :
    {A : Type 0} (q p : A → Bool) (xs : List A) (x : A)
    → find q xs ≡ some x
    → p x ≡ true
    → eqb (count p xs) 0 ≡ false
unfolding find count
count-find q p [] x h e = absurd cc
count-find q p (y ∷ ys) x h e = here (count-find q p ys x) (q y) (p y) refl h
  where
    here :
        (find q ys ≡ some x → p x ≡ true → eqb (count p ys) 0 ≡ false)
        → (b c : Bool) → p y ≡ c
        → (if b then some y else find q ys) ≡ some x
        → eqb (if c then suc (count p ys) else count p ys) 0 ≡ false
    here rest b true k h' = ground arith
    here rest true false k h' = let same : y ≡ x = cc in absurd cc
    here rest false false k h' = rest h' e

module _ (id : String) (now r : Time) (conn : Conn) (row : SlackEventRow)
    (found : find_event id conn.db.slack ≡ some row) (live : is_processing row.status ≡ true) where
  taken_over :
      is_recent now row.claimed_at ≡ false
      → conn.faults ≡ []
      → (claim_slack_event background now id r conn).0 ≡ ok true
  unfolding claim_slack_event insert_claim claim_again reclaim find_event statement ◌>>=◌
  taken_over stale calm =
      let same = found-id id now r conn.db.slack.events row found in
      rw
        (
          calm,
          any-find (is_event id) conn.db.slack.events row found,
          found,
          live,
          stale,
          count-find (is_event id) (is_stale_claim id row.claimed_at) conn.db.slack.events row found
              (rw (same, live, eqb_refl row.claimed_at) refl),
        )
        refl

-- An event is not lost with the worker that claimed it: a claim that is still being processed after more than
-- five minutes is taken over by the next one, which succeeds where nothing disturbs its statements.
pub stale_claim :
    (id : String) (now r : Time) (conn : Conn) (row : SlackEventRow)
    → find_event id conn.db.slack ≡ some row
    → is_processing row.status ≡ true
    → from_unix_milli row.claimed_at + 300_000_000_000 < now
    → conn.faults ≡ []
    → (claim_slack_event background now id r conn).0 ≡ ok true
stale_claim id now r conn row found live stale calm =
    taken_over id now r conn row found live (ground arith) calm
