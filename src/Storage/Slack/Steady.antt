-- ===== src/Storage/Slack/Steady.antt =====
-- Invariants of the Slack tables and the calls of `Store` that write them
-- (backend/internal/storage/slack_store.go), from what each statement does.
pub mod Histories
use go_dashboard.Prelude.{
  ℤ, ℕ, String, ◌≡◌, refl, Bool, true, false, not, ◌||◌, Option, none, some, List, [], ◌∷◌, ◌++◌,
  ◌==◌, eqb, if◌then◌else◌, find, any, map_where, Error, Result, ok, err,
}
use go_dashboard.Trigger.{Time}
use go_dashboard.Storage.Db.{Db}
use go_dashboard.Storage.Sql.{Conn, Ctx, pure, fail, lift, commit, ◌>>=◌}
use go_dashboard.Slack.Domain.{
  Thread, ThreadIdentity, ThreadSyncStatus, MessageInput, AttachmentInput, ExtractedDocument,
  thread_local_id, attachment_local_id,
}
use go_dashboard.Storage.Tables.{constraint_failed}
use go_dashboard.Storage.Slack.Rows.{
  SlackEventRow, ThreadRow, MessageRow, AttachmentRow, DocumentRow, SlackDb,
}
use go_dashboard.Storage.Sql.Triple.{Triple-statement}
use go_dashboard.Storage.Sql.Triple
use go_dashboard.Storage.Sql.Keeps.{
  Keeps, Keeps-pure, Keeps-fail, Keeps-lift, Keeps-query, Keeps-transaction, Keeps-if, Keeps-bind,
  Keeps-commit, Keeps-db,
}
use go_dashboard.Storage.Slack.Events.{
  lifted, on_slack, insert_claim, reclaim, claim_again, claim_existing, claim_slack_event,
  set_processed, complete_slack_event, delete_claim, release_slack_event,
}
use go_dashboard.Storage.Slack.Threads.{
  thread_of, scan_thread, find_thread, get_slack_thread_by_identity, get_slack_thread,
  update_thread, set_thread_status, update_slack_thread_status, link_run, link_slack_workflow_run,
  is_thread, new_thread_row, insert_thread, ensure_slack_thread,
}
use go_dashboard.Storage.Slack.Attachments.{
  is_file_in, set_attachment, new_attachment_row, upsert_attachment, write_attachments,
  mark_removed, remove_attachments, apply_slack_attachments, is_file, file_differs,
}
use go_dashboard.Storage.Slack.Messages.{
  holds_message, set_message, new_message_row, upsert_message, message_id,
  apply_attachments_if_known, apply_message, apply_messages, later_ts, parent_or, advanced_row,
  apply_body, apply_slack_messages,
}
use go_dashboard.Storage.Slack.Documents.{document_row, insert_document, create_extracted_document}
use go_dashboard.Storage.Slack.Calls.{
  SlackCall, claims_event, completes_event, releases_event, ensures_thread, sets_status,
  applies_messages, links_run, creates_document, perform_slack, perform_all_slack,
}

-- What a statement leaves, if it is carried out.
abbrev pub Leaves : {A : Type 0} → (SlackDb → Type 0) → Result (A × SlackDb) → Type 0
Leaves Q (ok (a, db)) = Q db
Leaves Q (err e) = Unit

module _ {Q : SlackDb → Type 0} where
  pub on_slack-Keeps :
      {A : Type 0} (ctx : Ctx) (f : SlackDb → Result (A × SlackDb))
      → ((db : SlackDb) → Q db → Leaves Q (f db))
      → Keeps (λ db. Q db.slack) (on_slack ctx f)
  on_slack-Keeps {A} ctx f h = record {
    triple = Triple-statement ctx _ (λ db q. here db (f db.slack) q (h db.slack q)) (λ e db q. q);
  }
    where
      here :
          (db : Db) (r : Result (A × SlackDb))
          → Q db.slack
          → Leaves Q r
          → Triple.Settled (λ _ db. Q db.slack) (λ _ db. Q db.slack) db (lifted db r)
      here db (ok (a, slack)) _ q = q
      here db (err e) p _ = p

  pub claim-Keeps :
      (id : String)
      → ((r now : Time) (db : SlackDb) → Q db → Leaves Q (insert_claim id r now db))
      → ((r now : Time) (at : ℕ) (db : SlackDb) → Q db → Leaves Q (reclaim id r now at db))
      → (ctx : Ctx) (now r : Time) → Keeps (λ db. Q db.slack) (claim_slack_event ctx now id r)
  unfolding claim_slack_event claim_again
  claim-Keeps id inserts reclaims ctx now r =
      Keeps-bind _ _ (on_slack-Keeps ctx _ (inserts r now))
        λ rows. Keeps-if _ _ _ (Keeps-pure _) (Keeps-bind _ _ (Keeps-query ctx _) existing)
    where
      existing :
          (row : Option SlackEventRow) → Keeps (λ db. Q db.slack) (claim_existing ctx now id r row)
      existing none = Keeps-fail _
      existing (some row) = Keeps-if _ _ _ (Keeps-pure _) (
          Keeps-if _ _ _ (Keeps-fail _) (
            Keeps-bind _ _ (on_slack-Keeps ctx _ (reclaims r now row.claimed_at))
              λ rows. Keeps-if _ _ _ (Keeps-fail _) (Keeps-pure _)))

-- A call that is made at a time.
abbrev pub CallPredicate : Type 1
CallPredicate = Time → SlackCall → Type 0

-- Any call at any time.
abbrev pub AnyCall : CallPredicate
AnyCall now call = Unit

-- `Q` is kept by each statement of the calls that `C` holds of, but for the one that may advance the version of
-- a thread: that one leaves `Q'`, which `Q` gives. `R` is what `Q` says of a thread that is read.
pub record IsSteady (digest : String → String) (C : CallPredicate) (Q Q' : SlackDb → Type 0)
    (R : Thread → Type 0) : Type 0 where
  pub weaker : (db : SlackDb) → Q db → Q' db
  pub by_claim :
      (ctx : Ctx) (now : Time) (id : String) (r : Time)
      → C now (claims_event id r)
      → Keeps (λ db. Q db.slack) (claim_slack_event ctx now id r)
  pub by_completion :
      (id : String) (at : Time) (db : SlackDb) → Q db → Leaves Q (set_processed id at db)
  pub by_release :
      (now : Time) (id : String) (db : SlackDb)
      → C now (releases_event id)
      → Q db
      → Leaves Q (delete_claim id db)
  pub by_thread :
      (identity : ThreadIdentity) (s : ThreadSyncStatus) (now : Time) (db : SlackDb)
      → Q db
      → Leaves Q (insert_thread digest identity s now db)
  pub by_status :
      (id : String) (s : ThreadSyncStatus) (now : Time) (db : SlackDb)
      → Q db
      → Leaves Q (update_thread id (set_thread_status s now) db)
  pub by_link :
      (id : String) (version : ℤ) (run_id : String) (now : Time) (db : SlackDb)
      → Q db
      → Leaves Q (update_thread id (link_run version run_id now) db)
  pub by_reading :
      (id : String) (row : ThreadRow) (db : SlackDb)
      → Q db
      → find_thread id db ≡ some row
      → R (thread_of row)
  pub by_advance :
      (thread : Thread) (now : Time) (s : ThreadSyncStatus) (changed : Bool) (last parent : String)
      (db : SlackDb)
      → R thread
      → Q db
      → Leaves Q'
          (update_thread thread.id (advanced_row digest thread now s changed last parent) db)
  pub by_message :
      (thread : Thread) (now : Time) (input : MessageInput) (db : SlackDb)
      → Q db
      → Leaves Q (upsert_message digest thread now input db)
  pub by_attachment :
      (now : Time) (thread : Thread) (message : String) (input : AttachmentInput) (db : SlackDb)
      → Q db
      → Leaves Q (upsert_attachment digest now thread message input db)
  pub by_removal :
      (now : Time) (thread : Thread) (message id : String) (db : SlackDb)
      → Q db
      → Leaves Q (mark_removed digest now thread message id db)
  pub by_document :
      (value : ExtractedDocument) (now : Time) (db : SlackDb)
      → Q db
      → Leaves Q (insert_document value now db)

-- What the INSERTs leave: the table with a row that is new, or rewritten.
module _ (Q : SlackDb → Type 0) (db : SlackDb) where
  refusal-Leaves :
      {A : Type 0} (b : Bool) (what : String) (a : A) (db' : SlackDb)
      → Q db'
      → Leaves Q (if b then constraint_failed what else ok (a, db'))
  refusal-Leaves true what a db' q = tt
  refusal-Leaves false what a db' q = q

  upsert-Leaves :
      {A : Type 0} (b c : Bool) (what : String) (a a' : A) (old new : SlackDb)
      → Q old
      → Q new
      → Leaves Q (if b then ok (a, old) else if c then constraint_failed what else ok (a', new))
  upsert-Leaves true c what a a' old new q q' = q
  upsert-Leaves false c what a a' old new q q' = refusal-Leaves c what a' new q'

  module _ (digest : String → String) where
    pub insert_thread-Leaves :
        (identity : ThreadIdentity) (s : ThreadSyncStatus) (now : Time)
        → Q db
        → Q (record db { threads = db.threads ++ new_thread_row digest identity s now ∷ [] })
        → Leaves Q (insert_thread digest identity s now db)
    unfolding insert_thread
    insert_thread-Leaves identity s now q q' =
        upsert-Leaves _ (any (is_thread (thread_local_id digest identity)) db.threads)
          "slack_threads" 0 1 db
          (record db { threads = db.threads ++ new_thread_row digest identity s now ∷ [] }) q q'

    pub upsert_message-Leaves :
        (thread : Thread) (now : Time) (input : MessageInput)
        → ((messages : List MessageRow) → Q (record db { messages = messages }))
        → Leaves Q (upsert_message digest thread now input db)
    unfolding upsert_message
    upsert_message-Leaves thread now input q =
        upsert-Leaves (any (holds_message input) db.messages)
          (any (λ (m : MessageRow). m.id == message_id digest input) db.messages) "slack_messages"
          tt tt
          (record db {
            messages =
                map_where (holds_message input) (set_message digest thread now input) db.messages;
          })
          (record db { messages = db.messages ++ new_message_row digest thread now input ∷ [] })
          (q _) (q _)

    pub upsert_attachment-Leaves :
        (now : Time) (thread : Thread) (message : String) (input : AttachmentInput)
        → ((attachments : List AttachmentRow) → Q (record db { attachments = attachments }))
        → Leaves Q (upsert_attachment digest now thread message input db)
    unfolding upsert_attachment
    upsert_attachment-Leaves now thread message input q =
        upsert-Leaves (any (is_file_in thread.workspace_id input.slack_file_id) db.attachments)
          (any (λ (a : AttachmentRow). a.id == attachment_local_id digest input thread.workspace_id)
            db.attachments)
          "slack_attachments" tt tt
          (record db {
            attachments =
                map_where (is_file_in thread.workspace_id input.slack_file_id)
                  (set_attachment digest now thread message input) db.attachments;
          })
          (record db {
            attachments = db.attachments ++ new_attachment_row digest now thread message input ∷ [];
          })
          (q _) (q _)

  pub insert_document-Leaves :
      (value : ExtractedDocument) (now : Time)
      → ((documents : List DocumentRow) → Q (record db { documents = documents }))
      → Leaves Q (insert_document value now db)
  unfolding insert_document
  insert_document-Leaves value now q =
      refusal-Leaves
        (any (λ (d : DocumentRow). d.id == value.id) db.documents
          || not (any (λ (a : AttachmentRow). a.id == value.attachment_id) db.attachments))
        "extracted_documents" tt
        (record db { documents = db.documents ++ document_row value now ∷ [] }) (q _)
