-- ===== src/Http/Slack.antt =====
-- backend/internal/httpapi/slack_handler.go: the Slack handlers. HMAC-SHA256 in hexadecimal and `json.Unmarshal`
-- are parameters, and so is the application (`SlackApplication`, an interface): its calls are steps of a
-- world. A body is a text, which is `none` where reading it fails or it is over the limit.
pub mod Signed
use go_dashboard.Prelude.{
  ℕ, zero, suc, ◌+◌, ◌-◌, ◌*◌, ◌/◌, ◌≤◌, ◌<◌, String, ◌≡◌, refl, sym, ap, ◌∙◌, subst, ◌≢◌, ◌↔◌, ◌⊎◌,
  inl, inr, Bool, true, false, not, ◌&&◌, ◌||◌, Option, none, some, List, [], ◌∷◌, ◌++◌, map, arith,
  ◌==◌, eq_iff, eq_refl, ltb, leb, eqb, if◌then◌else◌, Bool-cases, Option-cases, length, get_elem?,
  select, find, any, count, map_where, length-append, All, All-append, take, length-take-le, chars,
  of_chars, chars-of_chars, ℤ, pos, negsuc, is_pos, is_neg, to_ℕ, eq_ℤ, lt_ℤ, is_blank, trim_space,
  cut_prefix, str_lt, Error, Flaw, Result, ok, err, ltb→lt, lt→ltb, leb→le,
}
use go_dashboard.Prelude.{parse_int, atoi_value}
use Prim.Native.String.{◌++◌ as concat}
use go_dashboard.Trigger.{Time}
use go_dashboard.Workflow.Run.{Run}
use go_dashboard.Workflow.Executor.World.{World, Exec, pure, fail, attempt, ◌>>=◌}
use go_dashboard.Slack.Domain.{Thread, Message, Attachment}
use go_dashboard.Slack.Event.{EventEnvelope}
use go_dashboard.Slack.Timestamp.{unix_time}
use go_dashboard.Slack.Service.{has_id}
use go_dashboard.Http.{Reply, refuses, replies, silent}

pub record SlackApplication : Type 0 where
  pub handle_event : EventEnvelope → Exec (Option Run × Bool)
  pub list_threads : ℤ → Exec (List Thread)
  pub get_thread : String → Exec Thread
  pub list_messages : String → Exec (List Message)
  pub list_attachments : String → Exec (List Attachment)
  pub refresh : String → Exec (Thread × Option Run)
  pub analyze : String → Exec Run

-- The body of the replies to an event: the challenge, or the ID of a run that is started.
pub data EventBody : Type 0 where
  challenges : String → EventBody
  handled : Option String → EventBody

-- The headers of a request, with its body.
pub record EventRequest : Type 0 where
  pub timestamp : String
  pub signature : String
  pub body : Option String

-- `5*time.Minute` in nanoseconds.
abbrev pub signature_period : ℕ
signature_period = 300_000_000_000

-- The two times are no further than that apart.
abbrev pub is_close : Time → Time → Bool
is_close now then_ = leb (now - then_) signature_period && leb (then_ - now) signature_period

abbrev has_prefix : Option String → Bool
has_prefix none = false
has_prefix (some rest) = true

module _ (hmac : String → String → String) where
  -- The signature that Slack makes of a body at a timestamp.
  abbrev pub expected_signature : String → String → String → String
  expected_signature secret timestamp body =
      concat "v0=" (hmac secret (concat "v0:" (concat timestamp (concat ":" body))))

  abbrev pub checked_signature : String → String → String → String → Time → Option ℤ → Bool
  checked_signature secret timestamp signature body now none = false
  checked_signature secret timestamp signature body now (some seconds) =
      not (is_blank secret)
      && has_prefix (cut_prefix "v0=" signature)
      && is_close now (unix_time seconds (pos 0))
      && expected_signature secret timestamp body == signature

  unfoldable pub verify_slack_signature : String → String → String → String → Time → Bool
  verify_slack_signature secret timestamp signature body now =
      checked_signature secret timestamp signature body now (parse_int timestamp)

abbrev pub not_configured : {A : Type 0} → Reply A
not_configured = refuses 503 "slack_not_configured" "Slack ingestion is not configured."

unfoldable pub write_error : {A : Type 0} → Error → Reply A
write_error Error.slack_not_found = refuses 404 "slack_thread_not_found" "Slack thread not found."
write_error _ = refuses 500 "slack_operation_failed" "Unable to complete the Slack operation."

abbrev pub reply_with : {A B : Type 0} → ℕ → (A → B) → Result A → Reply B
reply_with status f (ok a) = replies status (f a)
reply_with status f (err e) = write_error e

-- A handler of an application that may be missing.
abbrev pub with_application :
    {A B : Type 0}
    → ℕ
    → (A → B)
    → (SlackApplication → Exec A)
    → Option SlackApplication
    → Exec (Reply B)
with_application status f call none = pure not_configured
with_application status f call (some application) =
    attempt (call application) >>= λ result. pure (reply_with status f result)

-- `nullableRun`
unfoldable pub nullable_run : Option Run → Option Run
nullable_run none = none
nullable_run (some run) = if run.id == "" then none else some run

module _ (application : Option SlackApplication) where
  unfoldable pub list_threads : String → Exec (Reply (List Thread))
  list_threads limit =
      with_application 200 (λ threads. threads) (λ a. a.list_threads (atoi_value limit)) application

  unfoldable pub get_thread : String → Exec (Reply Thread)
  get_thread id = with_application 200 (λ thread. thread) (λ a. a.get_thread id) application

  unfoldable pub list_messages : String → Exec (Reply (List Message))
  list_messages id =
      with_application 200 (λ messages. messages) (λ a. a.list_messages id) application

  unfoldable pub list_attachments : String → Exec (Reply (List Attachment))
  list_attachments id =
      with_application 200 (λ files. files) (λ a. a.list_attachments id) application

  unfoldable pub refresh : String → Exec (Reply (Thread × Option Run))
  refresh id =
      with_application 202 (λ (out : Thread × Option Run). (out.0, nullable_run out.1))
        (λ a. a.refresh id) application

  unfoldable pub analyze : String → Exec (Reply Run)
  analyze id = with_application 202 (λ run. run) (λ a. a.analyze id) application

abbrev pub started_id : Option Run × Bool → Option String
started_id (some run, true) = some run.id
started_id (none, true) = some ""
started_id (_, false) = none

abbrev event_reply : Result (Option Run × Bool) → Reply EventBody
event_reply (ok outcome) = replies 200 (handled (started_id outcome))
event_reply (err e) = refuses 500 "slack_event_failed" "Unable to process the Slack event."

module _ (hmac : String → String → String) (decode : String → Option EventEnvelope) where
  abbrev pub dispatch : SlackApplication → Option EventEnvelope → Exec (Reply EventBody)
  dispatch application none =
      pure (refuses 400 "invalid_slack_event" "The Slack event must be valid JSON.")
  dispatch application (some envelope) =
      if envelope.type == "url_verification"
      then pure (replies 200 (challenges envelope.challenge))
      else (attempt (application.handle_event envelope) >>= λ result. pure (event_reply result))

  abbrev pub received :
      String → SlackApplication → Time → EventRequest → Option String → Exec (Reply EventBody)
  received secret application now request none =
      pure (refuses 400 "invalid_slack_event" "Unable to read the Slack event.")
  received secret application now request (some body) =
      if verify_slack_signature hmac secret request.timestamp request.signature body now
      then dispatch application (decode body)
      else pure (refuses 401 "invalid_slack_signature" "Slack request signature is invalid.")

  abbrev pub configured :
      String → Option SlackApplication → Time → EventRequest → Exec (Reply EventBody)
  configured secret none now request = pure not_configured
  configured secret (some application) now request =
      if secret == ""
      then pure not_configured
      else received secret application now request request.body

  -- `Events`, at the present time.
  unfoldable pub events : String → Option SlackApplication → EventRequest → Exec (Reply EventBody)
  events secret application request w = configured secret application w.clock request w
