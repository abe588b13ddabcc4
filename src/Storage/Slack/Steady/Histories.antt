-- ===== src/Storage/Slack/Steady/Histories.antt =====
-- What is steady is kept by the calls of the Slack store (backend/internal/storage/slack_store.go), and by
-- every history of them.
use go_dashboard.Prelude.{
  suc, ◌+◌, ◌≤◌, ◌<◌, length, arith, subst, ℕ, String, ◌≡◌, refl, Bool, true, false, ◌||◌, Option,
  none, some, List, [], ◌∷◌, eqb, if◌then◌else◌, find, Error, Result, ok, err,
}
use go_dashboard.Trigger.{Time}
use go_dashboard.Storage.Db.{Db}
use go_dashboard.Storage.Sql.{Sql, Conn, Ctx, pure, fail, lift, commit, ◌>>=◌}
use go_dashboard.Slack.Domain.{
  Thread, ThreadIdentity, ThreadSyncStatus, MessageInput, AttachmentInput,
}
use go_dashboard.Storage.Slack.Rows.{ThreadRow, AttachmentRow, SlackDb}
use go_dashboard.Storage.Sql.Triple.{Triple-statement}
use go_dashboard.Storage.Sql.Triple
use go_dashboard.Storage.Sql.Keeps.{
  Keeps, Keeps-pure, Keeps-fail, Keeps-lift, Keeps-query, Keeps-if, Keeps-bind, Keeps-commit,
  Keeps-db,
}
use go_dashboard.Storage.Slack.Events.{lifted, on_slack, complete_slack_event, release_slack_event}
use go_dashboard.Storage.Slack.Threads.{
  thread_of, scan_thread, get_slack_thread_by_identity, get_slack_thread, update_thread,
  update_slack_thread_status, link_slack_workflow_run, ensure_slack_thread,
}
use go_dashboard.Storage.Slack.Attachments.{
  write_attachments, remove_attachments, apply_slack_attachments, is_file, file_differs,
}
use go_dashboard.Storage.Slack.Messages.{
  message_id, apply_attachments_if_known, apply_message, apply_messages, later_ts, parent_or,
  advanced_row, apply_body, apply_slack_messages,
}
use go_dashboard.Storage.Slack.Documents.{create_extracted_document}
use go_dashboard.Storage.Slack.Calls.{
  SlackCall, claims_event, completes_event, releases_event, ensures_thread, sets_status,
  applies_messages, links_run, creates_document, perform_slack, perform_all_slack,
}
use go_dashboard.Storage.Slack.Steady.{Leaves, IsSteady, CallPredicate, AnyCall, on_slack-Keeps}

module _ {digest : String → String} {C : CallPredicate} {Q Q' : SlackDb → Type 0}
    {R : Thread → Type 0} (steady : IsSteady digest C Q Q' R) where
  abbrev P : Db → Type 0
  P db = Q db.slack

  abbrev P' : Db → Type 0
  P' db = Q' db.slack

  get-Keeps : (ctx : Ctx) (id : String) → Keeps P' (get_slack_thread ctx id)
  unfolding get_slack_thread
  get-Keeps ctx id = Keeps-bind _ _ (Keeps-query ctx _) (λ row. Keeps-lift _)

  ensure-Keeps :
      (ctx : Ctx) (now : Time) (identity : ThreadIdentity) (s : ThreadSyncStatus)
      → Keeps P (ensure_slack_thread digest ctx now identity s)
  unfolding ensure_slack_thread get_slack_thread_by_identity
  ensure-Keeps ctx now identity s = Keeps-bind _ _ (Keeps-lift _) λ _.
      Keeps-bind _ _ (on_slack-Keeps ctx _ (steady.by_thread identity s now)) λ rows.
        Keeps-bind _ _ (Keeps-bind _ _ (Keeps-query ctx _) (λ row. Keeps-lift _))
          λ thread. Keeps-pure _

  -- An UPDATE that must find its row.
  updated-Keeps :
      (ctx : Ctx) (f : SlackDb → Result (ℕ × SlackDb))
      → ((db : SlackDb) → Q db → Leaves Q (f db))
      → Keeps P
          (on_slack ctx f >>= λ rows. if eqb rows 0 then fail Error.slack_not_found else pure tt)
  updated-Keeps ctx f h =
      Keeps-bind _ _ (on_slack-Keeps ctx f h) λ rows. Keeps-if _ _ _ (Keeps-fail _) (Keeps-pure _)

  module _ (ctx : Ctx) (now : Time) (thread : Thread) where
    module _ (message : String) where
      write-Keeps :
          (existing : List AttachmentRow) (changed : Bool) (inputs : List AttachmentInput)
          → Keeps P (write_attachments digest now thread message ctx existing changed inputs)
      unfolding write_attachments
      write-Keeps existing changed [] = Keeps-pure _
      write-Keeps existing changed (input ∷ rest) =
          Keeps-if _ _ _ (write-Keeps existing changed rest) (
            Keeps-bind _ _ (on_slack-Keeps ctx _ (steady.by_attachment now thread message input))
              λ _.
                write-Keeps existing
                  (changed || file_differs (find (is_file input.slack_file_id) existing) input)
                  rest)

      remove-Keeps :
          (inputs : List AttachmentInput) (changed : Bool) (rows : List AttachmentRow)
          → Keeps P (remove_attachments digest now thread message ctx inputs changed rows)
      unfolding remove_attachments
      remove-Keeps inputs changed [] = Keeps-pure _
      remove-Keeps inputs changed (row ∷ rest) =
          Keeps-if _ _ _
            (Keeps-bind _ _
              (on_slack-Keeps ctx _ (steady.by_removal now thread message row.slack_file_id))
              λ _. remove-Keeps inputs true rest)
            (remove-Keeps inputs changed rest)

    attached-Keeps :
        (input : MessageInput) → Keeps P (apply_attachments_if_known digest ctx now thread input)
    unfolding apply_attachments_if_known apply_slack_attachments
    attached-Keeps input =
        Keeps-if _ _ _
          (Keeps-bind _ _ (Keeps-query ctx _) λ existing.
            Keeps-bind _ _ (write-Keeps (message_id digest input) existing false input.attachments)
              λ written. remove-Keeps (message_id digest input) input.attachments written existing)
          (Keeps-pure _)

    message-Keeps : (input : MessageInput) → Keeps P (apply_message digest ctx now thread input)
    unfolding apply_message
    message-Keeps input = Keeps-if _ _ _ (Keeps-fail _) (
        Keeps-bind _ _ (Keeps-query ctx _) λ existing.
          Keeps-bind _ _ (on_slack-Keeps ctx _ (steady.by_message thread now input))
            λ _. Keeps-bind _ _ (attached-Keeps input) λ attached. Keeps-pure _)

    messages-Keeps :
        (inputs : List MessageInput) (changed : Bool) (last parent : String)
        → Keeps P (apply_messages digest ctx now thread inputs changed last parent)
    unfolding apply_messages
    messages-Keeps [] changed last parent = Keeps-pure _
    messages-Keeps (input ∷ rest) changed last parent =
        Keeps-bind _ _ (message-Keeps input) (λ material.
          messages-Keeps rest (changed || material) (later_ts digest last input)
            (parent_or digest thread parent input))

    advance-Triple :
        {A : Type 0} (f : SlackDb → Result (A × SlackDb))
        → ((db : SlackDb) → Q db → Leaves Q' (f db))
        → Triple.Triple P (on_slack ctx f) (λ _. P') (λ _ _. Unit {0})
    advance-Triple {A} f h =
        Triple-statement ctx _ (λ db q. here db (f db.slack) (h db.slack q)) (λ e db q. tt)
      where
        here :
            (db : Db) (r : Result (A × SlackDb))
            → Leaves Q' r
            → Triple.Settled (λ _. P') (λ _ _. Unit {0}) db (lifted db r)
        here db (ok (a, slack)) q = q
        here db (err e) _ = tt

    rest-Keeps :
        (inputs : List MessageInput) (s : ThreadSyncStatus)
        → R thread
        → Triple.Triple {A = String × Bool} P
            (apply_messages digest ctx now thread inputs false thread.last_message_ts
                thread.parent_message_id
              >>= λ (out : Bool × String × String).
                  on_slack ctx
                    (update_thread thread.id (advanced_row digest thread now s out.0 out.1 out.2))
                  >>= λ _. commit ctx >>= λ _. pure (thread.id, out.0))
            (λ _. P')
            (λ _ _. Unit {0})
    rest-Keeps inputs s r =
        Triple.Triple-bind (λ _. P) _ _
          (Triple.Triple-weaken _ (messages-Keeps inputs false _ _).triple (λ db p. p) (λ a db p. p)
            (λ e db p. tt))
          λ out.
            Triple.Triple-bind (λ _. P') _ _
              (advance-Triple
                (update_thread thread.id (advanced_row digest thread now s out.0 out.1 out.2))
                (λ db q. steady.by_advance thread now s out.0 out.1 out.2 db r q))
              λ _.
                Triple.Triple-weaken _ (kept (thread.id, out.0)).triple (λ db p. p) (λ a db p. p)
                  (λ e db p. tt)
      where
        kept : (out : String × Bool) → Keeps P' (commit ctx >>= λ _. pure out)
        kept out = Keeps-bind _ _ (Keeps-commit ctx) (λ _. Keeps-pure _)

  body-Keeps :
      (ctx : Ctx) (now : Time) (id : String) (inputs : List MessageInput) (s : ThreadSyncStatus)
      → Triple.Triple P (apply_body digest ctx now id inputs s) (λ _. P') (λ _ _. Unit {0})
  unfolding apply_body scan_thread
  body-Keeps ctx now id inputs s =
      Triple.Triple-bind
        (λ (row : Option ThreadRow) db. P db × ((r : ThreadRow) → row ≡ some r → R (thread_of r))) _
        _
        (Triple-statement ctx _ (λ db q. (q, λ r e. steady.by_reading id r db.slack q e))
          (λ e db q. tt))
        λ row.
          Triple.Triple-bind (λ thread db. P db × R thread) _ _ (scanned row)
            λ thread. record { at = λ conn h. (rest-Keeps ctx now thread inputs s h.1).at conn h.0 }
    where
      scanned :
          (row : Option ThreadRow)
          → Triple.Triple
              (λ db. P db × ((r : ThreadRow) → row ≡ some r → R (thread_of r)))
              (lift (scan_thread row))
              (λ thread db. P db × R thread)
              (λ _ _. Unit {0})
      scanned none = record { at = λ conn h. tt }
      scanned (some row) = record { at = λ conn h. (h.0, h.1 row refl) }

  apply-Triple :
      (ctx : Ctx) (now : Time) (id : String) (inputs : List MessageInput) (s : ThreadSyncStatus)
      → Triple.Triple P (apply_slack_messages digest ctx now id inputs s) (λ _. P') (λ _. P')
  unfolding apply_slack_messages
  apply-Triple ctx now id inputs s =
      Triple.Triple-bind (λ _. P') _ _
        (Triple.Triple-transaction ctx _ (body-Keeps ctx now id inputs s)
          (λ e db q. steady.weaker db.slack q))
        λ out. (Keeps-bind _ _ (get-Keeps ctx out.0) (λ thread. Keeps-pure _)).triple

  weakened :
      {A : Type 0} (m : Sql A)
      → Keeps P m
      → (conn : Conn) → Q conn.db.slack
      → Q' (m conn).1.db.slack
  weakened m k conn q =
      let (r, conn') = m conn in steady.weaker conn'.db.slack (Keeps-db m k conn q)

  pub perform_slack-Keeps :
      (ctx : Ctx) (now : Time) (call : SlackCall) (conn : Conn)
      → C now call
      → Q conn.db.slack
      → Q' (perform_slack digest ctx now call conn).db.slack
  unfolding perform_slack update_slack_thread_status link_slack_workflow_run complete_slack_event
      release_slack_event create_extracted_document
  perform_slack-Keeps ctx now (claims_event id r) conn c q =
      weakened _ (steady.by_claim ctx now id r c) conn q
  perform_slack-Keeps ctx now (completes_event id at) conn c q =
      weakened _ (on_slack-Keeps ctx _ (steady.by_completion id at)) conn q
  perform_slack-Keeps ctx now (releases_event id) conn c q =
      weakened _ (on_slack-Keeps ctx _ (λ db. steady.by_release now id db c)) conn q
  perform_slack-Keeps ctx now (ensures_thread identity s) conn c q =
      weakened _ (ensure-Keeps ctx now identity s) conn q
  perform_slack-Keeps ctx now (sets_status id s) conn c q =
      weakened _ (updated-Keeps ctx _ (steady.by_status id s now)) conn q
  perform_slack-Keeps ctx now (applies_messages id inputs s) conn c q =
      let (r, conn') = apply_slack_messages digest ctx now id inputs s conn in
      after r conn' ((apply-Triple ctx now id inputs s).at conn q)
    where
      after :
          (r : Result (Thread × Bool)) (conn' : Conn)
          → Triple.After (λ _. P') (λ _. P') (r, conn')
          → P' conn'.db
      after (ok a) conn' p = p
      after (err e) conn' p = p
  perform_slack-Keeps ctx now (links_run id version run_id) conn c q =
      weakened _ (updated-Keeps ctx _ (steady.by_link id version run_id now)) conn q
  perform_slack-Keeps ctx now (creates_document value) conn c q =
      weakened _ (on_slack-Keeps ctx _ (steady.by_document value now)) conn q

-- Each call of a history is one that `C` holds of.
abbrev pub AllCalls : CallPredicate → List (Ctx × Time × SlackCall) → Type 0
AllCalls C [] = Unit
AllCalls C ((ctx, now, call) ∷ calls) = C now call × AllCalls C calls

-- What is steady from each number of calls to the next holds after every history of calls.
pub counted_histories :
    {digest : String → String} {C : CallPredicate} (Q : ℕ → SlackDb → Type 0)
    (R : ℕ → Thread → Type 0) (limit : ℕ)
    → ((n : ℕ) → n < limit → IsSteady digest C (Q n) (Q (suc n)) (R n))
    → (n : ℕ) (calls : List (Ctx × Time × SlackCall)) (conn : Conn) → AllCalls C calls
    → n + length calls ≤ limit
    → Q n conn.db.slack
    → Q (n + length calls) (perform_all_slack digest calls conn).db.slack
unfolding perform_all_slack
counted_histories Q R limit steady n [] conn c b q = subst (λ k. Q k conn.db.slack) (omega arith) q
counted_histories {digest} Q R limit steady n ((ctx, now, call) ∷ calls) conn c b q =
    let later = perform_slack digest ctx now call conn in
    let reached =
      counted_histories Q R limit steady (suc n) calls later c.1 (omega arith)
        (perform_slack-Keeps (steady n (omega arith)) ctx now call conn c.0 q) in
    let same : suc n + length calls ≡ n + suc (length calls) = omega arith in
    subst (λ k. Q k (perform_all_slack digest calls later).db.slack) same reached

pub any_calls : (calls : List (Ctx × Time × SlackCall)) → AllCalls AnyCall calls
any_calls [] = tt
any_calls ((ctx, now, call) ∷ calls) = (tt, any_calls calls)

-- What is steady is kept by every history of calls.
pub histories :
    {digest : String → String} {C : CallPredicate} {Q : SlackDb → Type 0} {R : Thread → Type 0}
    → IsSteady digest C Q Q R
    → (calls : List (Ctx × Time × SlackCall)) (conn : Conn) → AllCalls C calls
    → Q conn.db.slack
    → Q (perform_all_slack digest calls conn).db.slack
histories {Q} {R} steady calls conn c q =
    counted_histories (λ _. Q) (λ _. R) (length calls) (λ _ _. steady) 0 calls conn c (omega arith)
      q
