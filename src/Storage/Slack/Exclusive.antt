-- ===== src/Storage/Slack/Exclusive.antt =====
-- Two claims of one Slack event (backend/internal/storage/slack_store.go, `ClaimSlackEvent`).
pub mod Held
use go_dashboard.Prelude.{
  ◌+◌, ◌≤◌, ℕ, String, ◌≡◌, refl, sym, ap, ◌∙◌, ◌≢◌, Bool, true, false, not, Option, none, some,
  List, [], ◌∷◌, ◌++◌, arith, ◌==◌, eq_refl, eqb, if◌then◌else◌, find, any, map_where, Error,
  Result, ok, err,
}
use go_dashboard.Trigger.{Time}
use go_dashboard.Storage.Db.{Db}
use go_dashboard.Storage.Sql.{Conn, Ctx, pure, fail, ◌>>=◌}
use go_dashboard.Storage.Sql.Triple.{
  After, Triple, Triple-statement, Triple-bind, Triple-pure, Triple-fail, Triple-weaken, Triple-any,
}
use go_dashboard.Storage.Sql.Triple
use go_dashboard.Storage.Tables.{unix_milli}
use go_dashboard.Storage.Tables.Laws.{find-map_where, find-append, any-find}
use go_dashboard.Storage.Slack.Rows.{SlackEventRow, SlackDb}
use go_dashboard.Storage.Slack.Events.{
  lifted, on_slack, from_slack, is_event, find_event, insert_claim, claimed_row, reclaim,
  is_stale_claim, reclaimed_row, is_processing, is_recent, claim_again, claim_existing,
  claim_slack_event,
}

-- The row of the event was claimed at this time.
abbrev pub IsClaimedAt : String → Time → SlackDb → Type 0
IsClaimedAt id now db =
    (row : SlackEventRow) × (find_event id db ≡ some row) × (row.claimed_at ≡ unix_milli now)

abbrev claim_time : Option SlackEventRow → ℕ
claim_time none = 0
claim_time (some row) = row.claimed_at

pub eqb_refl : (n : ℕ) → eqb n n ≡ true
eqb_refl n = ground arith

module _ (id : String) (now r : Time) where
  claimed-inserted :
      (db : SlackDb)
      → any (is_event id) db.events ≡ false
      → IsClaimedAt id now (record db { events = db.events ++ claimed_row id r now ∷ [] })
  unfolding find_event find
  claimed-inserted db fresh = (
    claimed_row id r now,
    rw (find-append (is_event id) db.events (claimed_row id r now ∷ []) fresh, eq_refl id) refl,
    refl,
  )

  insert-Triple :
      (ctx : Ctx)
      → Triple
          (λ _. Unit {0})
          (on_slack ctx (insert_claim id r now))
          (λ rows db. rows ≡ 1 → IsClaimedAt id now db.slack)
          (λ _ _. Unit {0})
  unfolding insert_claim
  insert-Triple ctx =
      Triple-statement ctx _ (λ db _. here db (any (is_event id) db.slack.events) refl)
        (λ e db _. tt)
    where
      here :
          (db : Db) (b : Bool)
          → any (is_event id) db.slack.events ≡ b
          → Triple.Settled {A = ℕ}
              (λ rows d. rows ≡ 1 → IsClaimedAt id now d.slack)
              (λ _ _. Unit {0})
              db
              (lifted db (
                if b
                then ok (0, db.slack)
                else ok (
                  1,
                  record (db.slack) { events = db.slack.events ++ claimed_row id r now ∷ [] },
                )))
      here db true e = λ h. absurd (ground (arith, h))
      here db false e = λ _. claimed-inserted db.slack e

  -- A claim that is taken over is claimed anew.
  reclaimed :
      (row : SlackEventRow) (db : SlackDb)
      → find_event id db ≡ some row
      → is_processing row.status ≡ true
      → (row.event_id == id) ≡ true
      → IsClaimedAt id now (record db {
        events = map_where (is_stale_claim id row.claimed_at) (reclaimed_row r now) db.events;
      })
  unfolding find_event
  reclaimed row db found live same = (
    reclaimed_row r now row,
    find-map_where (is_event id) (is_stale_claim id row.claimed_at) (reclaimed_row r now)
          (λ _. refl) db.events row found
        ∙ ap some (rw (same, live, eqb_refl row.claimed_at) refl),
    refl,
  )

  again-Triple :
      (ctx : Ctx) (row : SlackEventRow)
      → (row.event_id == id) ≡ true
      → Triple
          (λ db. find_event id db.slack ≡ some row)
          (claim_again ctx now id r row)
          (λ b db. b ≡ true → IsClaimedAt id now db.slack)
          (λ _ _. Unit {0})
  unfolding claim_again reclaim
  again-Triple ctx row same = split (is_processing row.status) (is_recent now row.claimed_at) refl
    where
      last :
          (b : Bool)
          → Triple
              (λ db. IsClaimedAt id now db.slack)
              (if b then fail Error.event_in_progress else pure true)
              (λ b db. b ≡ true → IsClaimedAt id now db.slack)
              (λ _ _. Unit {0})
      last true = record { at = λ conn h. tt }
      last false = record { at = λ conn h. λ _. h }

      split :
          (live recent : Bool)
          → is_processing row.status ≡ live
          → Triple
              (λ db. find_event id db.slack ≡ some row)
              (if not live
                then pure false
                else if recent
                then fail Error.event_in_progress
                else (on_slack ctx (reclaim id r now row.claimed_at) >>= λ rows.
                    if eqb rows 0 then fail Error.event_in_progress else pure true))
              (λ b db. b ≡ true → IsClaimedAt id now db.slack)
              (λ _ _. Unit {0})
      split false recent e = record { at = λ conn h. λ k. cc }
      split true true e = record { at = λ conn h. tt }
      split true false e =
          Triple-bind (λ _ db. IsClaimedAt id now db.slack) _ _
            (Triple-statement ctx _ (λ db h. reclaimed row db.slack h e same) (λ e db h. tt))
            λ rows. last (eqb rows 0)

  pub found-id :
      (rows : List SlackEventRow) (row : SlackEventRow)
      → find (is_event id) rows ≡ some row
      → (row.event_id == id) ≡ true
  unfolding find
  found-id [] row h = cc
  found-id (e ∷ rows) row h = ground (arith, found-id rows row)

  existing-Triple :
      (ctx : Ctx) (row : Option SlackEventRow)
      → Triple
          (λ db. find_event id db.slack ≡ row)
          (claim_existing ctx now id r row)
          (λ b db. b ≡ true → IsClaimedAt id now db.slack)
          (λ _ _. Unit {0})
  unfolding find_event
  existing-Triple ctx none = record { at = λ conn h. tt }
  existing-Triple ctx (some row) = record {
    at = λ conn h. (again-Triple ctx row (found-id conn.db.slack.events row h)).at conn h;
  }

  -- A claim that succeeds leaves the event claimed at its own time.
  pub claimed-Triple :
      (ctx : Ctx)
      → Triple
          (λ _. Unit {0})
          (claim_slack_event ctx now id r)
          (λ b db. b ≡ true → IsClaimedAt id now db.slack)
          (λ _ _. Unit {0})
  unfolding claim_slack_event
  claimed-Triple ctx =
      Triple-bind (λ rows db. rows ≡ 1 → IsClaimedAt id now db.slack) _ _ (insert-Triple ctx)
        λ rows. next rows (eqb rows 1) refl
    where
      next :
          (rows : ℕ) (b : Bool)
          → eqb rows 1 ≡ b
          → Triple
              (λ db. rows ≡ 1 → IsClaimedAt id now db.slack)
              (if b
                then pure true
                else (from_slack ctx (find_event id) >>= claim_existing ctx now id r))
              (λ b db. b ≡ true → IsClaimedAt id now db.slack)
              (λ _ _. Unit {0})
      next rows true e = record { at = λ conn h. λ _. h (ground arith) }
      next rows false e =
          Triple-bind (λ row db. find_event id db.slack ≡ row) _ _
            (Triple-statement ctx _ (λ db h. refl) (λ e db h. tt)) (existing-Triple ctx)

-- While a claim is recent, another one does not succeed, and leaves it.
module _ (id : String) (now later r : Time) (soon : is_recent later (unix_milli now) ≡ true) where
  held-Triple :
      (ctx : Ctx) (row : Option SlackEventRow)
      → Triple
          (λ db.
            ((e : SlackEventRow) → row ≡ some e → e.claimed_at ≡ unix_milli now)
            × IsClaimedAt id now db.slack)
          (claim_existing ctx later id r row)
          (λ b db. (b ≡ false) × IsClaimedAt id now db.slack)
          (λ _ db. IsClaimedAt id now db.slack)
  unfolding claim_again
  held-Triple ctx none = record { at = λ conn h. h.1 }
  held-Triple ctx (some row) = record {
    at = λ conn h. here conn (is_processing row.status) (rw (h.0 row refl) soon) h.1;
  }
    where
      here :
          (conn : Conn) (live : Bool)
          → is_recent later row.claimed_at ≡ true
          → IsClaimedAt id now conn.db.slack
          → After
              (λ b db. (b ≡ false) × IsClaimedAt id now db.slack)
              (λ _ db. IsClaimedAt id now db.slack)
              ((if not live
                  then pure false
                  else if is_recent later row.claimed_at
                  then fail Error.event_in_progress
                  else (on_slack ctx (reclaim id r later row.claimed_at) >>= λ rows.
                      if eqb rows 0 then fail Error.event_in_progress else pure true))
                conn)
      here conn false e h = (refl, h)
      here conn true e h = rw e h

  look-Triple :
      (ctx : Ctx) (rows : ℕ) (b : Bool)
      → eqb rows 1 ≡ b
      → Triple
          (λ db. (rows ≡ 0) × IsClaimedAt id now db.slack)
          (if b
            then pure true
            else (from_slack ctx (find_event id) >>= claim_existing ctx later id r))
          (λ b db. (b ≡ false) × IsClaimedAt id now db.slack)
          (λ _ db. IsClaimedAt id now db.slack)
  look-Triple ctx rows true e = record { at = λ conn h. absurd (ground (arith, h.0)) }
  look-Triple ctx rows false e =
      Triple-bind
        (λ row db.
          ((e : SlackEventRow) → row ≡ some e → e.claimed_at ≡ unix_milli now)
          × IsClaimedAt id now db.slack)
        _ _ (Triple-statement ctx _ (λ db h. ((λ e same. here db e h same), h.1)) (λ e db h. h.1))
        (held-Triple ctx)
    where
      here :
          (db : Db) (e : SlackEventRow)
          → (rows ≡ 0) × IsClaimedAt id now db.slack
          → find_event id db.slack ≡ some e
          → e.claimed_at ≡ unix_milli now
      here db e h same = ap claim_time (sym same ∙ h.1.1) ∙ h.1.2

  pub refused-Triple :
      (ctx : Ctx)
      → Triple
          (λ db. IsClaimedAt id now db.slack)
          (claim_slack_event ctx later id r)
          (λ b db. (b ≡ false) × IsClaimedAt id now db.slack)
          (λ _ db. IsClaimedAt id now db.slack)
  unfolding claim_slack_event insert_claim find_event
  refused-Triple ctx =
      Triple-bind (λ rows db. (rows ≡ 0) × IsClaimedAt id now db.slack) _ _
        (Triple-statement ctx _
          (λ db h. rw (any-find (is_event id) db.slack.events h.0 h.1) (refl, h)) (λ e db h. h))
        (λ rows. look-Triple ctx rows (eqb rows 1) refl)

pub after_claim :
    (id : String) (now : Time) (result : Result Bool) (conn : Conn)
    → After (λ b db. b ≡ true → IsClaimedAt id now db.slack) (λ _ _. Unit {0}) (result, conn)
    → result ≡ ok true
    → IsClaimedAt id now conn.db.slack
after_claim id now (ok true) conn h e = h refl
after_claim id now (ok false) conn h e = absurd cc
after_claim id now (err x) conn h e = absurd cc

pub is_recent-soon :
    (now later : Time)
    → later + 1_000_000 ≤ now + 300_000_000_000
    → is_recent later (unix_milli now) ≡ true
is_recent-soon now later h = ground arith
