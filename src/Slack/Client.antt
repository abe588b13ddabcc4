-- ===== src/Slack/Client.antt =====
-- backend/internal/slack/client.go: the Slack API client. What sends a request (`http.Client.Do`), the error of
-- `http.NewRequestWithContext`, what decodes a body (`encoding/json`) and `url.Values.Encode` are parameters. A
-- wait for a delay ends when the context is done by then, or takes the delay.
pub mod Pages
use go_dashboard.Prelude.{
  ℕ, zero, suc, ◌+◌, ◌-◌, ◌*◌, ◌/◌, ◌≤◌, ◌<◌, String, ◌≡◌, refl, sym, ap, ◌∙◌, subst, ◌≢◌, ◌↔◌, ◌⊎◌,
  inl, inr, Bool, true, false, not, ◌&&◌, ◌||◌, Option, none, some, List, [], ◌∷◌, ◌++◌, map, arith,
  ◌==◌, eq_iff, eq_refl, ltb, leb, eqb, if◌then◌else◌, Bool-cases, Option-cases, length, get_elem?,
  select, find, any, count, map_where, length-append, All, All-append, take, length-take-le, chars,
  of_chars, chars-of_chars, ℤ, pos, negsuc, is_pos, is_neg, to_ℕ, eq_ℤ, lt_ℤ, is_blank, trim_space,
  cut_prefix, str_lt, Error, Flaw, Result, ok, err, ltb→lt, lt→ltb, leb→le,
}
use go_dashboard.Prelude.{parse_int, format, trim_slashes, ◌%◌, ◌^◌}
use Prim.Native.String.{◌++◌ as concat}
use go_dashboard.Trigger.{Time, StringMap}
use go_dashboard.Json.{RawMessage}
use go_dashboard.Storage.Sql.{Ctx}
use go_dashboard.Workflow.Executor.World.{
  World, Exec, pure, fail, lift, gets, modify, others, attempt, ◌>>=◌, ◌>>◌,
}
use go_dashboard.Slack.Domain.{AttachmentInput, MessageInput}
use go_dashboard.Slack.Event.{SlackFile, attachment_inputs, edited_time, or_else}

pub record SlackMessage : Type 0 where
  pub type : String
  pub subtype : String
  pub user : String
  pub text : String
  pub ts : String
  pub thread_ts : String
  pub edited : Option String
  pub files : List SlackFile

pub record RepliesResponse : Type 0 where
  pub ok_flag : Bool
  pub error : String
  pub messages : List SlackMessage
  pub next_cursor : String

pub record ApiClient : Type 0 where
  pub base_url : String
  pub token : String

pub record HttpRequest : Type 0 where
  pub url : String
  pub authorization : String

pub record HttpResponse : Type 0 where
  pub status_code : ℕ
  pub retry_after : String
  pub body : RawMessage

unfoldable pub new_api_client : String → String → ApiClient
new_api_client base_url token = record { base_url = trim_slashes base_url; token = token }

-- `time.Duration(seconds) * time.Second`, on 64 bits; a delay that is negative passes at once.
unfoldable pub delay_of : ℕ → Time
delay_of seconds =
    let nanos = (seconds * 1_000_000_000) % 2 ^ 64 in if ltb nanos (2 ^ 63) then nanos else 0

abbrev pub requested_delay : Option ℤ → Time
requested_delay none = 1_000_000_000
requested_delay (some seconds) = if is_pos seconds then delay_of (to_ℕ seconds) else 1_000_000_000

-- `Retry-After` is a number of seconds; the default is one second.
unfoldable pub retry_delay : String → Time
retry_delay header = requested_delay (parse_int header)

abbrev pub pass : Time → Option Error → Exec (Unit {0})
pass delay none = modify (λ w. record w { clock = w.clock + delay })
pass delay (some e) = fail e

module _ (ctx : World → Ctx) (send : HttpRequest → Exec HttpResponse) where
  unfoldable pub wait : Time → Exec (Unit {0})
  wait delay w = let w' = others w in pass delay (ctx w') w'

  abbrev pub api_error : {A : Type 0} → Result A → Result A
  api_error (ok a) = ok a
  api_error (err e) = err (Error.slack_api "request")

  module _ (new_request : HttpRequest → Result (Unit {0}))
      (decode : RawMessage → Option RepliesResponse) (client : ApiClient) where
    abbrev request_to : String → HttpRequest
    request_to path = record {
      url = concat client.base_url path;
      authorization = concat "Bearer " client.token;
    }

    abbrev decoded : Option RepliesResponse → Result RepliesResponse
    decoded none = err (Error.failure "decode Slack API response")
    decoded (some page) = ok page

    abbrev pub answered : Exec RepliesResponse → HttpResponse → Exec RepliesResponse
    answered again response =
        if eqb response.status_code 429
        then (wait (retry_delay response.retry_after) >> again)
        else if ltb response.status_code 200 || leb 300 response.status_code
        then fail (Error.slack_api (concat "HTTP " (format response.status_code)))
        else lift (decoded (decode response.body))

    -- The attempts that are left.
    unfoldable pub get_attempts : ℕ → String → Exec RepliesResponse
    get_attempts zero path = fail (Error.slack_api "rate limit retry exhausted")
    get_attempts (suc attempts) path =
        let again = get_attempts attempts path in
        lift (new_request (request_to path)) >>= λ _.
        attempt (send (request_to path)) >>= λ sent. lift (api_error sent) >>= answered again

    unfoldable pub get : String → Exec RepliesResponse
    get path = get_attempts 3 path

-- The messages of a page; one without a timestamp is skipped.
unfoldable pub page_inputs : String → String → List SlackMessage → List MessageInput
page_inputs channel_id thread_ts [] = []
page_inputs channel_id thread_ts (item ∷ items) =
    let rest = page_inputs channel_id thread_ts items in
    if item.ts == ""
    then rest
    else record {
      workspace_id = "";
      channel_id = channel_id;
      slack_timestamp = item.ts;
      thread_timestamp = or_else item.thread_ts thread_ts;
      author_id = item.user;
      text = item.text;
      is_deleted = false;
      edited_at = edited_time item.edited;
      deleted_at = none;
      attachments = attachment_inputs item.files;
      attachments_known = true;
    }
      ∷ rest

abbrev query_of : String → String → String → StringMap
query_of channel_id thread_ts cursor =
    ("channel", channel_id)
    ∷ ("ts", thread_ts)
    ∷ ("limit", "200")
    ∷ (if cursor == "" then [] else ("cursor", cursor) ∷ [])

-- The pages of a thread, by what gets one. A thread of more pages than `fuel` is `none`.
module _ (get_page : String → Exec RepliesResponse) (encode : StringMap → String)
    (channel_id thread_ts : String) where
  abbrev pub page_at : String → Exec RepliesResponse
  page_at cursor =
      get_page (concat "/conversations.replies?" (encode (query_of channel_id thread_ts cursor)))

  abbrev pub accepted : RepliesResponse → Result RepliesResponse
  accepted page =
      if page.ok_flag
      then ok page
      else err (Error.slack_api (concat "conversations.replies: " page.error))

  -- What a page leads to: it is the last one, or the next one is got.
  abbrev pub after_page :
      (String → List MessageInput → Exec (Option (List MessageInput)))
      → List MessageInput
      → RepliesResponse
      → Exec (Option (List MessageInput))
  after_page get_rest messages page =
      let collected = messages ++ page_inputs channel_id thread_ts page.messages in
      let cursor = trim_space page.next_cursor in
      if cursor == "" then pure (some collected) else get_rest cursor collected

  unfoldable pub fetch_pages : ℕ → String → List MessageInput → Exec (Option (List MessageInput))
  fetch_pages zero cursor messages = pure none
  fetch_pages (suc fuel) cursor messages =
      let rest = fetch_pages fuel in
      page_at cursor >>= λ answer. lift (accepted answer) >>= after_page rest messages

  unfoldable pub fetch_thread : ℕ → Exec (Option (List MessageInput))
  fetch_thread fuel = fetch_pages fuel "" []
