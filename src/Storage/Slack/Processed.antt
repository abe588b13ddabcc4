-- ===== src/Storage/Slack/Processed.antt =====
-- Slack events that have been processed (backend/internal/storage/slack_store.go).
use go_dashboard.Prelude.{
  ℕ, String, ◌≡◌, refl, ◌∙◌, ◌≢◌, Bool, true, false, not, ◌&&◌, Option, none, some, List, [], ◌∷◌,
  ◌++◌, arith, ◌==◌, eq_iff, eqb, if◌then◌else◌, select, find, any, All, All-append, Result, ok,
  err,
}
use go_dashboard.Trigger.{Time}
use go_dashboard.Storage.Sql.{Conn, Ctx, pure, ◌>>=◌}
use go_dashboard.Storage.Sql.Triple.{After, Triple, Triple-statement, Triple-bind}
use go_dashboard.Storage.Tables.Laws.{any-append, any-map_where, All-map_where, All-select}
use go_dashboard.Storage.Slack.Rows.{SlackEventRow, SlackDb}
use go_dashboard.Storage.Slack.Events.{
  from_slack, is_event, find_event, insert_claim, claimed_row, reclaim, is_stale_claim,
  reclaimed_row, is_processing, claim_again, claim_existing, claim_slack_event, set_processed,
  processed_row, delete_claim,
}
use go_dashboard.Storage.Slack.Threads.{update_thread}
use go_dashboard.Storage.Slack.Attachments.{mark_removed}
use go_dashboard.Storage.Slack.Calls.{SlackCall, perform_all_slack}
use go_dashboard.Storage.Slack.Steady.Histories.{histories, any_calls}
use go_dashboard.Storage.Slack.Steady.{
  claim-Keeps, AnyCall, Leaves, IsSteady, insert_thread-Leaves, upsert_message-Leaves,
  upsert_attachment-Leaves, insert_document-Leaves,
}

abbrev pub SaysProcessed : String → SlackEventRow → Type 0
SaysProcessed id row = row.event_id ≡ id → is_processing row.status ≡ false

-- The event is there, and its row says `processed`.
abbrev pub IsProcessed : String → SlackDb → Type 0
IsProcessed id db = All (SaysProcessed id) db.events × (any (is_event id) db.events ≡ true)

module _ (id : String) where
  -- A DELETE of claims that are being processed leaves the event.
  any-released :
      (k : String) (rows : List SlackEventRow)
      → All (SaysProcessed id) rows
      → any (is_event id) rows ≡ true
      → any
          (is_event id)
          (select (λ (r : SlackEventRow). not (r.event_id == k && is_processing r.status)) rows)
        ≡ true
  unfolding any select
  any-released k [] a h = h
  any-released k (r ∷ rows) a h = ground (arith, eq_iff r.event_id id, a.0, any-released k rows a.1)

  claim-IsProcessed :
      (k : String) (r now : Time) (db : SlackDb)
      → IsProcessed id db
      → Leaves (IsProcessed id) (insert_claim k r now db)
  unfolding insert_claim
  claim-IsProcessed k r now db q = here (any (is_event k) db.events) refl
    where
      here :
          (b : Bool)
          → any (is_event k) db.events ≡ b
          → Leaves {A = ℕ} (IsProcessed id) (
              if b
              then ok (0, db)
              else ok (1, record db { events = db.events ++ claimed_row k r now ∷ [] }))
      here true e = q
      here false e = (
        All-append (SaysProcessed id) db.events _ q.0 (λ same. cc, tt),
        rw (any-append (is_event id) db.events (claimed_row k r now ∷ []), q.1) refl,
      )

  completion-IsProcessed :
      (k : String) (at : Time) (db : SlackDb)
      → IsProcessed id db
      → Leaves (IsProcessed id) (set_processed k at db)
  unfolding set_processed
  completion-IsProcessed k at db q = (
    All-map_where (SaysProcessed id) (is_event k) (processed_row at) (λ r _ _ _. refl) db.events
        q.0,
    any-map_where (is_event id) (is_event k) (processed_row at) (λ r _. refl) db.events ∙ q.1,
  )

  reclaim-IsProcessed :
      (k : String) (r now : Time) (at : ℕ) (db : SlackDb)
      → IsProcessed id db
      → Leaves (IsProcessed id) (reclaim k r now at db)
  unfolding reclaim
  reclaim-IsProcessed k r now at db q = (
    All-map_where (SaysProcessed id) (is_stale_claim k at) (reclaimed_row r now) (λ r _ h. h)
        db.events q.0,
    any-map_where (is_event id) (is_stale_claim k at) (reclaimed_row r now) (λ r _. refl) db.events
        ∙ q.1,
  )

  pub steady :
      (digest : String → String)
      → IsSteady digest AnyCall (IsProcessed id) (IsProcessed id) (λ _. Unit {0})
  unfolding delete_claim update_thread mark_removed
  steady digest = record {
    weaker = λ db q. q;
    by_claim =
        λ ctx now k r c. claim-Keeps k (claim-IsProcessed k) (reclaim-IsProcessed k) ctx now r;
    by_completion = completion-IsProcessed;
    by_release = λ now k db c q.
        (All-select (SaysProcessed id) _ db.events q.0, any-released k db.events q.0 q.1);
    by_thread =
        λ identity s now db q. insert_thread-Leaves (IsProcessed id) db digest identity s now q q;
    by_status = λ k s now db q. q;
    by_link = λ k version run_id now db q. q;
    by_reading = λ k row db q e. tt;
    by_advance = λ thread now s changed last parent db r q. q;
    by_message = λ thread now input db q.
        upsert_message-Leaves (IsProcessed id) db digest thread now input (λ _. q);
    by_attachment = λ now thread message input db q.
        upsert_attachment-Leaves (IsProcessed id) db digest now thread message input (λ _. q);
    by_removal = λ now thread message k db q. q;
    by_document = λ value now db q. insert_document-Leaves (IsProcessed id) db value now (λ _. q);
  }

  found-processed :
      (rows : List SlackEventRow) (row : SlackEventRow)
      → All (SaysProcessed id) rows
      → find (is_event id) rows ≡ some row
      → is_processing row.status ≡ false
  unfolding find
  found-processed [] row a h = cc
  found-processed (r ∷ rows) row a h =
      ground (arith, eq_iff r.event_id id, a.0, found-processed rows row a.1)

  module _ (ctx : Ctx) (now : Time) (r : Time) where
    -- What a claim does with a row that says `processed`.
    existing-Triple :
        (row : Option SlackEventRow)
        → Triple
            (λ _. (e : SlackEventRow) → row ≡ some e → is_processing e.status ≡ false)
            (claim_existing ctx now id r row)
            (λ b _. b ≡ false)
            (λ _ _. Unit {0})
    unfolding claim_again
    existing-Triple none = record { at = λ conn h. tt }
    existing-Triple (some row) = record { at = λ conn h. rw (h row refl) refl }

    look-Triple :
        (rows : ℕ) (b : Bool)
        → eqb rows 1 ≡ b
        → Triple
            (λ db. (rows ≡ 0) × IsProcessed id db.slack)
            (if b
              then pure true
              else (from_slack ctx (find_event id) >>= claim_existing ctx now id r))
            (λ b _. b ≡ false)
            (λ _ _. Unit {0})
    unfolding find_event
    look-Triple rows true e = record { at = λ conn h. absurd (ground (arith, h.0)) }
    look-Triple rows false e =
        Triple-bind (λ row _. (e : SlackEventRow) → row ≡ some e → is_processing e.status ≡ false) _
          _
          (Triple-statement ctx _ (λ db h. λ e same. found-processed db.slack.events e h.1.0 same)
            (λ e db h. tt))
          existing-Triple

    -- A claim of a processed event finds it, and does not succeed.
    pub claim-Triple :
        Triple
          (λ db. IsProcessed id db.slack)
          (claim_slack_event ctx now id r)
          (λ b _. b ≡ false)
          (λ _ _. Unit {0})
    unfolding claim_slack_event insert_claim
    claim-Triple =
        Triple-bind (λ rows db. (rows ≡ 0) × IsProcessed id db.slack) _ _
          (Triple-statement ctx _ (λ db q. rw q.1 (refl, q)) (λ e db q. tt))
          (λ rows. look-Triple rows (eqb rows 1) refl)

    pub not_claimed :
        (result : Result Bool) (conn : Conn)
        → After (λ b _. b ≡ false) (λ _ _. Unit {0}) (result, conn)
        → result ≢ ok true
    not_claimed (ok true) conn h = λ _. cc
    not_claimed (ok false) conn h = λ e. cc
    not_claimed (err x) conn h = λ e. cc

-- An event that is marked as processed is never claimed again: after any history of calls that write
-- the Slack tables, at any time, no claim of it succeeds.
pub processed_for_good :
    (digest : String → String) (id : String) (calls : List (Ctx × Time × SlackCall)) (conn : Conn)
    (ctx : Ctx) (now received_at : Time)
    → IsProcessed id conn.db.slack
    → (claim_slack_event ctx now id received_at (perform_all_slack digest calls conn)).0 ≢ ok true
processed_for_good digest id calls conn ctx now received_at q =
    let later = perform_all_slack digest calls conn in
    let (result, conn') = claim_slack_event ctx now id received_at later in
    not_claimed id ctx now received_at result conn' (
      (claim-Triple id ctx now received_at).at later
        (histories (steady id digest) calls conn (any_calls calls) q))
