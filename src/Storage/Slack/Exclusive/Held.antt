-- ===== src/Storage/Slack/Exclusive/Held.antt =====
-- A claim of a Slack event through a history of calls (backend/internal/storage/slack_store.go).
use go_dashboard.Prelude.{
  ◌+◌, ◌≤◌, ℕ, String, ◌≡◌, refl, sym, ◌∙◌, ◌≢◌, Bool, true, false, not, ◌&&◌, some, List, [], ◌∷◌,
  ◌++◌, arith, ◌==◌, eq_iff, Bool-cases, inl, inr, subst, if◌then◌else◌, find, any, map_where,
  select, Result, ok, err,
}
use go_dashboard.Trigger.{Time}
use go_dashboard.Storage.Sql.{Conn, Ctx}
use go_dashboard.Storage.Sql.Triple.{After, Triple-weaken}
use go_dashboard.Storage.Sql.Keeps.{Keeps}
use go_dashboard.Storage.Tables.Laws.{find-map_where}
use go_dashboard.Storage.Slack.Rows.{SlackEventRow, SlackDb}
use go_dashboard.Storage.Slack.Events.{
  is_event, find_event, insert_claim, claimed_row, reclaim, is_stale_claim, reclaimed_row,
  is_processing, claim_slack_event, set_processed, processed_row, delete_claim,
}
use go_dashboard.Storage.Slack.Threads.{update_thread}
use go_dashboard.Storage.Slack.Attachments.{mark_removed}
use go_dashboard.Storage.Slack.Calls.{SlackCall, claims_event, releases_event, perform_all_slack}
use go_dashboard.Storage.Slack.Steady.Histories.{AllCalls, histories}
use go_dashboard.Storage.Slack.Steady.{
  CallPredicate, claim-Keeps, Leaves, IsSteady, insert_thread-Leaves, upsert_message-Leaves,
  upsert_attachment-Leaves, insert_document-Leaves,
}
use go_dashboard.Storage.Slack.Exclusive.{
  IsClaimedAt, found-id, claimed-Triple, refused-Triple, after_claim, is_recent-soon,
}

-- Within five minutes of a claim, less a millisecond for the rounding of its time.
abbrev pub IsSoon : Time → Time → Type 0
IsSoon now later = later + 1_000_000 ≤ now + 300_000_000_000

-- A call that does not release the event, and does not claim it after that time.
abbrev pub Spares : String → Time → CallPredicate
Spares id now later (claims_event k r) = k ≡ id → IsSoon now later
Spares id now later (releases_event k) = k ≢ id
Spares id now later _ = Unit

find-before :
    (q : SlackEventRow → Bool) (xs ys : List SlackEventRow) (x : SlackEventRow)
    → find q xs ≡ some x
    → find q (xs ++ ys) ≡ some x
unfolding find
find-before q [] ys x h = cc
find-before q (y ∷ xs) ys x h = ground (arith, find-before q xs ys x)

find-select :
    (q p : SlackEventRow → Bool) (xs : List SlackEventRow) (x : SlackEventRow)
    → p x ≡ true
    → find q xs ≡ some x
    → find q (select p xs) ≡ some x
unfolding find select
find-select q p [] x k h = cc
find-select q p (y ∷ xs) x k h = split (q y) (p y) (find-select q p xs x k) refl refl h
  where
    split :
        (b c : Bool)
        → (find q xs ≡ some x → find q (select p xs) ≡ some x)
        → q y ≡ b
        → p y ≡ c
        → (if b then some y else find q xs) ≡ some x
        → find q (if c then y ∷ select p xs else select p xs) ≡ some x
    split true true rest e f same = rw e same
    split true false rest e f same =
        let is : y ≡ x = cc in
        let kept : p y ≡ true = subst (λ z. p z ≡ true) (sym is) k in absurd cc
    split false true rest e f same = rw e (rest same)
    split false false rest e f same = rest same

module _ (id : String) (now : Time) where
  -- An UPDATE of the events that keeps the time of the claim.
  kept_by_update :
      (p : SlackEventRow → Bool) (f : SlackEventRow → SlackEventRow) (db : SlackDb)
      → ((row : SlackEventRow) → (f row).event_id ≡ row.event_id)
      → ((row : SlackEventRow)
          → (row.event_id == id) ≡ true
          → p row ≡ true
          → (f row).claimed_at ≡ row.claimed_at)
      → IsClaimedAt id now db
      → IsClaimedAt id now (record db { events = map_where p f db.events })
  unfolding find_event
  kept_by_update p f db names times (row, found, at) = (
    if p row then f row else row,
    find-map_where (is_event id) p f (λ r. rw (names r) refl) db.events row found,
    here (p row) refl ∙ at,
  )
    where
      here : (b : Bool) → p row ≡ b → (if b then f row else row).claimed_at ≡ row.claimed_at
      here true e = times row (found-id id now now db.events row found) e
      here false e = refl

  claim-other :
      (k : String)
      → k ≢ id
      → (r later : Time) (db : SlackDb) → IsClaimedAt id now db
      → Leaves (IsClaimedAt id now) (insert_claim k r later db)
  unfolding insert_claim find_event
  claim-other k n r later db q = here (any (is_event k) db.events)
    where
      here :
          (b : Bool)
          → Leaves {A = ℕ} (IsClaimedAt id now) (
              if b
              then ok (0, db)
              else ok (1, record db { events = db.events ++ claimed_row k r later ∷ [] }))
      here true = q
      here false = (q.0, find-before (is_event id) db.events _ q.0 q.1, q.2)

  reclaim-other :
      (k : String)
      → k ≢ id
      → (r later : Time) (at : ℕ) (db : SlackDb) → IsClaimedAt id now db
      → Leaves (IsClaimedAt id now) (reclaim k r later at db)
  unfolding reclaim
  reclaim-other k n r later at db q =
      kept_by_update (is_stale_claim k at) (reclaimed_row r later) db (λ row. refl)
        (λ row same stale. absurd (n (other row same stale))) q
    where
      other :
          (row : SlackEventRow)
          → (row.event_id == id) ≡ true
          → is_stale_claim k at row ≡ true
          → k ≡ id
      other row same stale = ground (arith, eq_iff row.event_id id, eq_iff row.event_id k)

  claim-Holds :
      (ctx : Ctx) (later : Time) (k : String) (r : Time)
      → (k ≡ id → IsSoon now later)
      → Keeps (λ db. IsClaimedAt id now db.slack) (claim_slack_event ctx later k r)
  claim-Holds ctx later k r soon = elim (Bool-cases (k == id)) [
    | inl e ↦
        let same : k ≡ id = (eq_iff k id).0 e in
        subst (λ j. Keeps (λ db. IsClaimedAt id now db.slack) (claim_slack_event ctx later j r))
          (sym same) (own (soon same))
    | inr e ↦ apart (λ same. let is = (eq_iff k id).1 same in cc)
  ]
    where
      own :
          IsSoon now later
          → Keeps (λ db. IsClaimedAt id now db.slack) (claim_slack_event ctx later id r)
      own h = record {
        triple =
            Triple-weaken _ (refused-Triple id now later r (is_recent-soon now later h) ctx)
              (λ db q. q) (λ b db q. q.1) (λ e db q. q);
      }

      apart : k ≢ id → Keeps (λ db. IsClaimedAt id now db.slack) (claim_slack_event ctx later k r)
      apart n = claim-Keeps k (claim-other k n) (reclaim-other k n) ctx later r

  release-Holds :
      (k : String) (db : SlackDb)
      → k ≢ id
      → IsClaimedAt id now db
      → Leaves (IsClaimedAt id now) (delete_claim k db)
  unfolding delete_claim find_event
  release-Holds k db n (row, found, at) = (
    row,
    find-select (is_event id)
        (λ (row : SlackEventRow). not (row.event_id == k && is_processing row.status)) db.events row
        (other (found-id id now now db.events row found)) found,
    at,
  )
    where
      other :
          (row.event_id == id) ≡ true → not (row.event_id == k && is_processing row.status) ≡ true
      other same = ground (arith, eq_iff row.event_id id, eq_iff row.event_id k)

  completion-Holds :
      (k : String) (t : Time) (db : SlackDb)
      → IsClaimedAt id now db
      → Leaves (IsClaimedAt id now) (set_processed k t db)
  unfolding set_processed
  completion-Holds k t db q =
      kept_by_update (is_event k) (processed_row t) db (λ row. refl) (λ row same p. refl) q

  holds :
      (digest : String → String)
      → IsSteady digest (Spares id now) (IsClaimedAt id now) (IsClaimedAt id now) (λ _. Unit {0})
  unfolding update_thread mark_removed find_event
  holds digest = record {
    weaker = λ db q. q;
    by_claim = λ ctx later k r c. claim-Holds ctx later k r c;
    by_completion = λ k t db q. completion-Holds k t db q;
    by_release = λ t k db n q. release-Holds k db n q;
    by_thread =
        λ identity s t db q. insert_thread-Leaves (IsClaimedAt id now) db digest identity s t q q;
    by_status = λ k s t db q. q;
    by_link = λ k version run_id t db q. q;
    by_reading = λ k row db q e. tt;
    by_advance = λ thread t s changed last parent db r q. q;
    by_message = λ thread t input db q.
        upsert_message-Leaves (IsClaimedAt id now) db digest thread t input (λ _. q);
    by_attachment = λ t thread message input db q.
        upsert_attachment-Leaves (IsClaimedAt id now) db digest t thread message input (λ _. q);
    by_removal = λ t thread message k db q. q;
    by_document = λ value t db q. insert_document-Leaves (IsClaimedAt id now) db value t (λ _. q);
  }

refused :
    (id : String) (now : Time) (result : Result Bool) (conn : Conn)
    → After
        (λ b db. (b ≡ false) × IsClaimedAt id now db.slack)
        (λ _ db. IsClaimedAt id now db.slack)
        (result, conn)
    → result ≢ ok true
refused id now (ok true) conn h = λ _. absurd (let no : true ≡ false = h.0 in cc)
refused id now (ok false) conn h = λ e. cc
refused id now (err x) conn h = λ e. cc

-- A claim of a Slack event that succeeds keeps the event while nothing releases it: after any history of calls
-- that write the Slack tables, other than a release of that event and a claim of it after five minutes, and
-- whatever statements fail, a claim that comes within five minutes of the first, less a millisecond for the
-- rounding of its time, does not succeed.
pub claim_exclusive :
    (digest : String → String) (id : String) (ctx ctx' : Ctx) (now later r r' : Time) (conn : Conn)
    (calls : List (Ctx × Time × SlackCall))
    → (claim_slack_event ctx now id r conn).0 ≡ ok true
    → AllCalls (Spares id now) calls
    → IsSoon now later
    → (claim_slack_event ctx' later id r'
        (perform_all_slack digest calls (claim_slack_event ctx now id r conn).1)).0
      ≢ ok true
claim_exclusive digest id ctx ctx' now later r r' conn calls won spared soon =
    let (result, next) = claim_slack_event ctx now id r conn in
    let after = perform_all_slack digest calls next in
    let (result', next') = claim_slack_event ctx' later id r' after in
    let claimed = after_claim id now result next ((claimed-Triple id now r ctx).at conn tt) won in
    refused id now result' next' (
      (refused-Triple id now later r' (is_recent-soon now later soon) ctx').at after
        (histories (holds id now digest) calls next spared claimed))
