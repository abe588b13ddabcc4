-- ===== src/Slack/Service.antt =====
-- backend/internal/slack/service.go: `HandleEvent`, `synchronize`, `Refresh`, `Analyze` and the readers, in
-- the world of the executor. A context is read from the world, since it may end while a call is under
-- way. The parameters are SHA-256, `json.Unmarshal` of an event, the thread client (`ThreadClient`, an
-- interface), the workflow service (`WorkflowStarter`, an interface) and the two limits. The zero
-- `workflow.Run` is `none`.
pub mod Delivery
pub mod Settled
pub mod Analysis
use go_dashboard.Prelude.{
  ℕ, zero, suc, ◌+◌, ◌-◌, ◌*◌, ◌/◌, ◌≤◌, ◌<◌, String, ◌≡◌, refl, sym, ap, ◌∙◌, subst, ◌≢◌, ◌↔◌, ◌⊎◌,
  inl, inr, Bool, true, false, not, ◌&&◌, ◌||◌, Option, none, some, List, [], ◌∷◌, ◌++◌, map, arith,
  ◌==◌, eq_iff, eq_refl, ltb, leb, eqb, if◌then◌else◌, Bool-cases, Option-cases, length, get_elem?,
  select, find, any, count, map_where, length-append, All, All-append, take, length-take-le, chars,
  of_chars, chars-of_chars, ℤ, pos, negsuc, is_pos, is_neg, to_ℕ, eq_ℤ, lt_ℤ, is_blank, trim_space,
  cut_prefix, str_lt, Error, Flaw, Result, ok, err, ltb→lt, lt→ltb, leb→le,
}
use go_dashboard.Prelude.{format, format_ℤ, lt_ℤ}
use go_dashboard.Trigger.{Time, Request, Source}
use go_dashboard.Json.{RawMessage}
use go_dashboard.Workflow.Run.{Run}
use go_dashboard.Workflow.Executor.World.{
  World, Exec, pure, fail, lift, gets, store_at, attempt, no_ctx, ◌>>=◌, ◌>>◌,
}
use go_dashboard.Storage.Sql.{Sql, Ctx}
use go_dashboard.Slack.Domain.{
  Thread, ThreadIdentity, ThreadSyncStatus, Message, MessageInput, Attachment, ContextSnapshot,
  message_identity, request_id,
}
use go_dashboard.Slack.Domain.ThreadSyncStatus.{uninitialized, syncing, synchronized, dirty}
use go_dashboard.Slack.Timestamp.{unix_time}
use go_dashboard.Slack.Context.{build_context}
use go_dashboard.Slack.Event.{EventEnvelope, MessageEvent, normalize_event}
use go_dashboard.Storage.Slack.Events.{claim_slack_event, complete_slack_event, release_slack_event}
use go_dashboard.Storage.Slack.Threads.{
  get_slack_thread, get_slack_thread_by_identity, ensure_slack_thread, list_slack_threads,
  update_slack_thread_status, link_slack_workflow_run,
}
use go_dashboard.Storage.Slack.Messages.{
  apply_slack_messages, list_slack_messages, get_slack_message_by_identity,
}
use go_dashboard.Storage.Slack.Attachments.{list_slack_attachments}

-- `envelope.EventTime` in seconds, or the present time.
unfoldable pub received_at : ℤ → Time → Time
received_at event_time now = if is_pos event_time then unix_time event_time (pos 0) else now

abbrev pub is_callback : EventEnvelope → Bool
is_callback envelope =
    envelope.type == "event_callback"
    && not (envelope.event_id == "")
    && not (envelope.team_id == "")

-- The claim that `HandleEvent` makes.
abbrev pub claim : (World → Ctx) → EventEnvelope → Exec Bool
claim ctx envelope = do
  now ← gets (λ w. w.clock)
  store_at ctx
      λ c at. claim_slack_event c at envelope.event_id (received_at envelope.event_time now)

-- A message of a thread that is fetched gets the identity of the thread.
abbrev pub within : Thread → MessageInput → MessageInput
within thread input = record input {
  workspace_id = thread.workspace_id;
  channel_id = thread.channel_id;
  thread_timestamp = thread.thread_ts;
}

abbrev pub source_of : Message → Source
source_of message = record {
  id = message.id;
  kind = "slack_message";
  external_id = message.slack_timestamp;
  author_id = message.author_id;
  content = message.text;
  occurred_at = message.slack_created_at;
  metadata = ("channel_id", message.channel_id) ∷ ("thread_ts", message.thread_timestamp) ∷ [];
}

-- The request that `Analyze` starts.
abbrev pub request_of : (String → String) → Thread → ContextSnapshot → Time → Request
request_of digest thread snapshot now = record {
  id = request_id digest snapshot;
  source = "slack";
  type = "slack_thread";
  content = snapshot.content;
  metadata =
      ("slack_thread_id", thread.id)
      ∷ ("workspace_id", thread.workspace_id)
      ∷ ("channel_id", thread.channel_id)
      ∷ ("thread_ts", thread.thread_ts)
      ∷ ("context_version", format_ℤ thread.context_version)
      ∷ [];
  sources = map source_of snapshot.messages;
  received_at = now;
}

abbrev pub needs_messages : ThreadSyncStatus → Bool
needs_messages uninitialized = true
needs_messages syncing = true
needs_messages ThreadSyncStatus.failed = true
needs_messages _ = false

-- A thread that has changed since the version that was last analyzed.
abbrev pub needs_analysis : Bool → Thread → Bool
needs_analysis changed thread =
    changed && lt_ℤ thread.requested_analysis_version thread.context_version

-- `errors.Is(err, ErrUnsupportedEvent)`
abbrev pub is_unsupported : Error → Bool
is_unsupported Error.unsupported_event = true
is_unsupported _ = false

-- `run.ID != ""`
abbrev pub has_id : Option Run → Bool
has_id none = false
has_id (some run) = not (run.id == "")

module _ (digest : String → String) (ctx : World → Ctx)
    (fetch_thread : String → String → Exec (List MessageInput)) where
  abbrev mark : String → ThreadSyncStatus → Exec (Unit {0})
  mark id status = store_at ctx (λ c now. update_slack_thread_status c now id status)

  -- The messages of a thread; where they cannot be had, the thread has failed.
  abbrev pub fetched_or_failed : Thread → Result (List MessageInput) → Exec (List MessageInput)
  fetched_or_failed thread (ok messages) = pure messages
  fetched_or_failed thread (err e) =
      attempt (mark thread.id ThreadSyncStatus.failed) >>= λ _. fail e

  unfoldable pub synchronize : Thread → Exec (Thread × Bool)
  synchronize thread = do
    mark thread.id syncing
    fetched ← attempt (fetch_thread thread.channel_id thread.thread_ts)
    messages ← fetched_or_failed thread fetched
    store_at ctx λ c now.
        apply_slack_messages digest c now thread.id (map (within thread) messages) synchronized

  module _ (starter : Request → Exec Run) (max_messages max_chars : ℤ) where
    unfoldable pub analyze : String → Exec Run
    analyze thread_id = do
      thread ← store_at ctx (λ c _. get_slack_thread c thread_id)
      messages ← store_at ctx (λ c _. list_slack_messages c thread.id)
      snapshot ← lift (build_context thread messages max_messages max_chars)
      now ← gets (λ w. w.clock)
      run ← starter (request_of digest thread snapshot now)
      _ ←
          store_at ctx
            (λ c now. link_slack_workflow_run c now thread.id thread.context_version run.id)
      pure run

    unfoldable pub analyze_if_changed : Bool → Thread → Exec (Option Run)
    analyze_if_changed changed thread =
        if needs_analysis changed thread
        then (analyze thread.id >>= λ run. pure (some run))
        else pure none

    -- An error of the analysis is returned with the thread; the model keeps the error.
    unfoldable pub refresh : String → Exec (Thread × Option Run)
    refresh thread_id = do
      thread ← store_at ctx (λ c _. get_slack_thread c thread_id)
      (updated, changed) ← synchronize thread
      run ← analyze_if_changed changed updated
      pure (updated, run)

    -- A deleted message without a thread is in the thread that it is stored with.
    unfoldable pub with_thread : MessageInput → Exec MessageInput
    with_thread input =
        if input.thread_timestamp == "" && input.is_deleted
        then (store_at ctx (λ c _. get_slack_message_by_identity c (message_identity input))
            >>= λ existing. pure (record input { thread_timestamp = existing.thread_timestamp }))
        else pure input

    abbrev pub identity_of : MessageInput → ThreadIdentity
    identity_of input = record {
      workspace_id = input.workspace_id;
      channel_id = input.channel_id;
      thread_ts = input.thread_timestamp;
    }

    -- The thread, and whether it had to be made.
    abbrev pub found_or_new : ThreadIdentity → Result Thread → Exec (Thread × Bool)
    found_or_new identity (ok thread) = pure (thread, false)
    found_or_new identity (err Error.slack_not_found) =
        store_at ctx (λ c now. ensure_slack_thread digest c now identity syncing)
        >>= λ (made : Thread × Bool). pure (made.0, true)
    found_or_new identity (err e) = fail e

    unfoldable pub find_or_make : ThreadIdentity → Exec (Thread × Bool)
    find_or_make identity =
        attempt (store_at ctx (λ c _. get_slack_thread_by_identity c identity))
        >>= found_or_new identity

    unfoldable pub synchronize_if_needed : Bool → Thread → Exec (Thread × Bool)
    synchronize_if_needed is_new thread =
        if is_new || needs_messages thread.sync_status
        then synchronize thread
        else pure (thread, false)

    abbrev complete : String → Exec (Unit {0})
    complete event_id = store_at ctx (λ c now. complete_slack_event c event_id now)

    -- What an event that is claimed comes to, and the run that it starts.
    unfoldable pub apply_input : String → MessageInput → Exec (Option Run × Bool)
    apply_input event_id input = do
      placed ← with_thread input
      (thread, is_new) ← find_or_make (identity_of placed)
      (current, changed) ← synchronize_if_needed is_new thread
      (updated, incremental) ←
          store_at ctx λ c now. apply_slack_messages digest c now current.id (placed ∷ []) dirty
      run ← analyze_if_changed (changed || incremental) updated
      _ ← complete event_id
      pure (run, has_id run)

    -- An event of another kind is marked as processed.
    abbrev pub apply_normalized : String → Result MessageInput → Exec (Option Run × Bool)
    apply_normalized event_id (ok input) = apply_input event_id input
    apply_normalized event_id (err e) =
        if is_unsupported e then (complete event_id >>= λ _. pure (none, false)) else fail e

    -- The deferred function: an event that is not completed is released, with `context.Background()`.
    abbrev pub release_on_error : String → Result (Option Run × Bool) → Exec (Option Run × Bool)
    release_on_error event_id (ok outcome) = pure outcome
    release_on_error event_id (err e) =
        attempt (store_at no_ctx (λ c _. release_slack_event c event_id)) >>= λ _. fail e

    module _ (decode : RawMessage → Option MessageEvent) where
      unfoldable pub handle_claimed : EventEnvelope → Exec (Option Run × Bool)
      handle_claimed envelope = do
        now ← gets (λ w. w.clock)
        apply_normalized envelope.event_id (normalize_event decode now envelope)

      abbrev pub after_claim : EventEnvelope → Bool → Exec (Option Run × Bool)
      after_claim envelope false = pure (none, false)
      after_claim envelope true =
          attempt (handle_claimed envelope) >>= release_on_error envelope.event_id

      -- The run that the event starts, and whether it starts one.
      unfoldable pub handle_event : EventEnvelope → Exec (Option Run × Bool)
      handle_event envelope =
          if is_callback envelope
          then (claim ctx envelope >>= after_claim envelope)
          else fail Error.unsupported_event

module _ (ctx : World → Ctx) where
  unfoldable pub list_threads : ℤ → Exec (List Thread)
  list_threads limit = store_at ctx (λ c _. list_slack_threads c limit)

  unfoldable pub get_thread : String → Exec Thread
  get_thread id = store_at ctx (λ c _. get_slack_thread c id)

  unfoldable pub list_messages : String → Exec (List Message)
  list_messages id = do
    _ ← store_at ctx (λ c _. get_slack_thread c id)
    store_at ctx (λ c _. list_slack_messages c id)

  unfoldable pub list_attachments : String → Exec (List Attachment)
  list_attachments id = do
    _ ← store_at ctx (λ c _. get_slack_thread c id)
    store_at ctx (λ c _. list_slack_attachments c id)
