-- ===== src/Storage/Slack/Versions.antt =====
-- Versions of Slack threads (backend/internal/storage/slack_store.go).
use go_dashboard.Prelude.{
  ℤ, pos, negsuc, suc, ap, ◌<◌, ◌^◌, ◌-◌, ltb, lt→ltb, length, increment, ℕ, ◌+◌, ◌≤◌, String, ◌≡◌,
  refl, sym, ◌∙◌, subst, Bool, true, false, some, List, [], ◌∷◌, ◌++◌, arith, eq_iff, if◌then◌else◌,
  find, any, All, All-append, ok,
}
use go_dashboard.Trigger.{Time}
use go_dashboard.Storage.Sql.{Conn, Ctx}
use go_dashboard.Storage.Tables.{constraint_failed}
use go_dashboard.Storage.Tables.Laws.{any-append, any-map_where, All-map_where}
use go_dashboard.Slack.Domain.{thread_local_id, Thread, ThreadIdentity, ThreadSyncStatus}
use go_dashboard.Storage.Slack.Rows.{ThreadRow, SlackDb}
use go_dashboard.Storage.Slack.Events.{
  is_event, insert_claim, claimed_row, reclaim, set_processed, delete_claim,
}
use go_dashboard.Storage.Slack.Threads.{
  is_identity, new_thread_row, thread_of, find_thread, is_thread, update_thread, insert_thread,
}
use go_dashboard.Storage.Slack.Attachments.{mark_removed}
use go_dashboard.Storage.Slack.Messages.{advanced_row}
use go_dashboard.Storage.Slack.Calls.{SlackCall, perform_all_slack}
use go_dashboard.Storage.Slack.Steady.Histories.{counted_histories, any_calls}
use go_dashboard.Storage.Slack.Steady.{
  claim-Keeps, AnyCall, Leaves, IsSteady, upsert_message-Leaves, upsert_attachment-Leaves,
  insert_document-Leaves,
}

-- A version, as an int64, that is one of these numbers.
abbrev pub IsWithin : ℕ → ℕ → ℤ → Type 0
IsWithin low high version = (n : ℕ) × (version ≡ pos n) × (low ≤ n) × (n ≤ high)

abbrev pub IsAtVersion : String → ℕ → ℕ → ThreadRow → Type 0
IsAtVersion id low high row = row.id ≡ id → IsWithin low high row.context_version

-- The thread is there, at one of these versions.
abbrev pub HasVersion : String → ℕ → ℕ → SlackDb → Type 0
HasVersion id low high db =
    All (IsAtVersion id low high) db.threads × (any (is_thread id) db.threads ≡ true)

later-All :
    (id : String) (low high high' : ℕ) (rows : List ThreadRow)
    → high ≤ high'
    → All (IsAtVersion id low high) rows
    → All (IsAtVersion id low high') rows
later-All id low high high' [] h a = tt
later-All id low high high' (row ∷ rows) h a = (
  (λ same. let (n, is, from, to) = a.0 same in (n, is, from, omega arith)),
  later-All id low high high' rows h a.1,
)

later-HasVersion :
    (id : String) (low high high' : ℕ) (db : SlackDb)
    → high ≤ high'
    → HasVersion id low high db
    → HasVersion id low high' db
later-HasVersion id low high high' db h q = (later-All id low high high' db.threads h q.0, q.1)

-- A version that is raised by one, below the end of an int64, does not wrap.
increment-IsWithin :
    (low high : ℕ) (version : ℤ)
    → suc high < 2 ^ 63
    → IsWithin low high version
    → IsWithin low (suc high) (increment version)
unfolding increment
increment-IsWithin low high version fits (n, is, from, to) =
    (suc n, ap increment is ∙ below, omega arith, omega arith)
  where
    below : (if ltb (suc n) (2 ^ 63) then pos (suc n) else negsuc (2 ^ 63 - 1)) ≡ pos (suc n)
    below = rw (lt→ltb (suc n) (2 ^ 63) (omega arith)) refl

module _ (id : String) (low v : ℕ) where
  -- An UPDATE of a thread that keeps its ID and does not lower its version.
  update-HasVersion :
      (k : String) (f : ThreadRow → ThreadRow) (db : SlackDb)
      → ((row : ThreadRow) → (f row).id ≡ row.id)
      → ((row : ThreadRow)
          → is_thread k row ≡ true
          → IsAtVersion id low v row
          → IsAtVersion id low v (f row))
      → HasVersion id low v db
      → Leaves (HasVersion id low v) (update_thread k f db)
  unfolding update_thread
  update-HasVersion k f db same h q = (
    All-map_where (IsAtVersion id low v) (is_thread k) f h db.threads q.0,
    any-map_where (is_thread id) (is_thread k) f (λ r _. rw (same r) refl) db.threads ∙ q.1,
  )

  insert-HasVersion :
      (digest : String → String) (identity : ThreadIdentity) (s : ThreadSyncStatus) (now : Time)
      (db : SlackDb)
      → HasVersion id low v db
      → Leaves (HasVersion id low v) (insert_thread digest identity s now db)
  unfolding insert_thread
  insert-HasVersion digest identity s now db q =
      here (any (is_identity identity) db.threads)
        (any (is_thread (thread_local_id digest identity)) db.threads) refl
    where
      here :
          (b c : Bool)
          → any (is_thread (thread_local_id digest identity)) db.threads ≡ c
          → Leaves {A = ℕ} (HasVersion id low v) (
              if b
              then ok (0, db)
              else if c
              then constraint_failed "slack_threads"
              else ok (
                1,
                record db { threads = db.threads ++ new_thread_row digest identity s now ∷ [] },
              ))
      here true c e = q
      here false true e = tt
      here false false e = (
        All-append (IsAtVersion id low v) db.threads _ q.0 (
          λ same.
              let there : any (is_thread id) db.threads ≡ false =
                subst (λ k. any (is_thread k) db.threads ≡ false) same e in
              absurd cc,
          tt,
        ),
        rw (any-append (is_thread id) db.threads (new_thread_row digest identity s now ∷ []), q.1)
            refl,
      )

  found-version :
      (k : String) (rows : List ThreadRow) (row : ThreadRow)
      → All (IsAtVersion id low v) rows
      → find (is_thread k) rows ≡ some row
      → IsAtVersion id low v row
  unfolding find
  found-version k [] row a h = cc
  found-version k (r ∷ rows) row a h = here (found-version k rows row a.1) (is_thread k r) h
    where
      here :
          (find (is_thread k) rows ≡ some row → IsAtVersion id low v row)
          → (b : Bool) → (if b then some r else find (is_thread k) rows) ≡ some row
          → IsAtVersion id low v row
      here rest true e = let same : r ≡ row = cc in subst (IsAtVersion id low v) same a.0
      here rest false e = rest e

  advanced :
      (digest : String → String) (thread : Thread) (now : Time) (s : ThreadSyncStatus)
      (changed : Bool) (last parent : String) (db : SlackDb)
      → (thread.id ≡ id → IsWithin low v thread.context_version)
      → suc v < 2 ^ 63
      → HasVersion id low (suc v) db
      → Leaves
          (HasVersion id low (suc v))
          (update_thread thread.id (advanced_row digest thread now s changed last parent) db)
  unfolding update_thread
  advanced digest thread now s changed last parent db r fits q = (
    All-map_where (IsAtVersion id low (suc v)) (is_thread thread.id)
        (advanced_row digest thread now s changed last parent)
        (λ row is _ same. reached changed (r (sym ((eq_iff row.id thread.id).0 is) ∙ same)))
        db.threads q.0,
    any-map_where (is_thread id) (is_thread thread.id)
          (advanced_row digest thread now s changed last parent) (λ r _. refl) db.threads
        ∙ q.1,
  )
    where
      reached :
          (b : Bool)
          → IsWithin low v thread.context_version
          → IsWithin low
              (suc v)
              (if b then increment thread.context_version else thread.context_version)
      reached true h = increment-IsWithin low v thread.context_version fits h
      reached false (n, is, from, to) = (n, is, from, omega arith)

  claim-HasVersion :
      (k : String) (r now : Time) (db : SlackDb)
      → HasVersion id low v db
      → Leaves (HasVersion id low v) (insert_claim k r now db)
  unfolding insert_claim
  claim-HasVersion k r now db q = here (any (is_event k) db.events)
    where
      here :
          (b : Bool)
          → Leaves {A = ℕ} (HasVersion id low v) (
              if b
              then ok (0, db)
              else ok (1, record db { events = db.events ++ claimed_row k r now ∷ [] }))
      here true = q
      here false = q

  reclaim-HasVersion :
      (k : String) (r now : Time) (at : ℕ) (db : SlackDb)
      → HasVersion id low v db
      → Leaves (HasVersion id low v) (reclaim k r now at db)
  unfolding reclaim
  reclaim-HasVersion k r now at db q = q

  steady :
      (digest : String → String)
      → suc v < 2 ^ 63
      → IsSteady digest AnyCall
          (HasVersion id low v)
          (HasVersion id low (suc v))
          (λ thread. thread.id ≡ id → IsWithin low v thread.context_version)
  unfolding insert_claim set_processed delete_claim mark_removed find_thread thread_of
  steady digest fits = record {
    weaker = λ db q. later-HasVersion id low v (suc v) db (omega arith) q;
    by_claim = λ ctx now k r c. claim-Keeps k (claim-HasVersion k) (reclaim-HasVersion k) ctx now r;
    by_completion = λ k at db q. q;
    by_release = λ now k db c q. q;
    by_thread = λ identity s now db q. insert-HasVersion digest identity s now db q;
    by_status = λ k s now db q. update-HasVersion k _ db (λ row. refl) (λ row is h. h) q;
    by_link = λ k version run_id now db q. update-HasVersion k _ db (λ row. refl) (λ row is h. h) q;
    by_reading = λ k row db q e. found-version k db.threads row q.0 e;
    by_advance = λ thread now s changed last parent db r q.
        advanced digest thread now s changed last parent db r fits
          (later-HasVersion id low v (suc v) db (omega arith) q);
    by_message = λ thread now input db q.
        upsert_message-Leaves (HasVersion id low v) db digest thread now input (λ _. q);
    by_attachment = λ now thread message input db q.
        upsert_attachment-Leaves (HasVersion id low v) db digest now thread message input (λ _. q);
    by_removal = λ now thread message k db q. q;
    by_document =
        λ value now db q. insert_document-Leaves (HasVersion id low v) db value now (λ _. q);
  }

-- The context version of a thread does not decrease before it wraps, and the thread never goes: from a version
-- `v` of its row, any history of calls that write the Slack tables, each at its own time, with its own context
-- and whatever statements fail, leads to a table where the thread is there, at a version from `v` to `v` and the
-- number of calls, where that is less than 2^63.
pub version_never_decreases :
    (digest : String → String) (id : String) (v : ℕ) (calls : List (Ctx × Time × SlackCall))
    (conn : Conn)
    → HasVersion id v v conn.db.slack
    → v + length calls < 2 ^ 63
    → HasVersion id v (v + length calls) (perform_all_slack digest calls conn).db.slack
version_never_decreases digest id v calls conn q fits =
    let whole : v + (0 + length calls) ≡ v + length calls = omega arith in
    subst (λ k. HasVersion id v k (perform_all_slack digest calls conn).db.slack) whole
      (counted_histories (λ n. HasVersion id v (v + n)) _ (length calls)
        (λ n below. steady_from n (omega arith)) 0 calls conn (any_calls calls) (omega arith)
        (later-HasVersion id v v (v + 0) conn.db.slack (omega arith) q))
  where
    steady_from :
        (n : ℕ)
        → suc (v + n) < 2 ^ 63
        → IsSteady digest AnyCall
            (HasVersion id v (v + n))
            (HasVersion id v (v + suc n))
            (λ thread. thread.id ≡ id → IsWithin v (v + n) thread.context_version)
    steady_from n h =
        let same : suc (v + n) ≡ v + suc n = omega arith in
        subst
          (λ k.
            IsSteady digest AnyCall (HasVersion id v (v + n)) (HasVersion id v k)
              (λ thread. thread.id ≡ id → IsWithin v (v + n) thread.context_version))
          same (steady id v (v + n) digest h)
