-- ===== src/Slack/Event.antt =====
-- backend/internal/slack/service.go: event envelopes and `normalizeEvent`; backend/internal/slack/client.go:
-- the files of a message. `json.Unmarshal` into a `messageEvent` is a parameter.
pub mod Usable
use go_dashboard.Prelude.{
  ℕ, zero, suc, ◌+◌, ◌-◌, ◌*◌, ◌/◌, ◌≤◌, ◌<◌, String, ◌≡◌, refl, sym, ap, ◌∙◌, subst, ◌≢◌, ◌↔◌, ◌⊎◌,
  inl, inr, Bool, true, false, not, ◌&&◌, ◌||◌, Option, none, some, List, [], ◌∷◌, ◌++◌, map, arith,
  ◌==◌, eq_iff, eq_refl, ltb, leb, eqb, if◌then◌else◌, Bool-cases, Option-cases, length, get_elem?,
  select, find, any, count, map_where, length-append, All, All-append, take, length-take-le, chars,
  of_chars, chars-of_chars, ℤ, pos, negsuc, is_pos, is_neg, to_ℕ, eq_ℤ, lt_ℤ, is_blank, trim_space,
  cut_prefix, str_lt, Error, Flaw, Result, ok, err, ltb→lt, lt→ltb, leb→le,
}
use go_dashboard.Prelude.Results.{◌>>=◌, ◌>>◌, refuse_if, >>=-eq-ok, Result-cases}
use go_dashboard.Trigger.{Time}
use go_dashboard.Json.{RawMessage}
use go_dashboard.Slack.Domain.{AttachmentInput, MessageInput}
use go_dashboard.Slack.Timestamp.{slack_time}

pub record EventEnvelope : Type 0 where
  pub type : String
  pub challenge : String
  pub team_id : String
  pub event_id : String
  pub event_time : ℤ
  pub event : RawMessage

pub record SlackFile : Type 0 where
  pub id : String
  pub name : String
  pub mime_type : String
  pub size : ℤ

-- What a `messageEvent` has besides the two messages inside it; `edited` is its `ts`.
pub record EventFields : Type 0 where
  pub type : String
  pub subtype : String
  pub channel : String
  pub user : String
  pub text : String
  pub ts : String
  pub thread_ts : String
  pub deleted_ts : String
  pub edited : Option String
  pub files : List SlackFile

-- An event, with `message` and `previous_message`.
mutual
  pub data MessageEvent : Type 0 where
    event : EventFields → Nested → Nested → MessageEvent

  -- `*messageEvent`
  pub data Nested : Type 0 where
    nil : Nested
    pointer : MessageEvent → Nested

unfoldable pub attachment_inputs : List SlackFile → List AttachmentInput
attachment_inputs [] = []
attachment_inputs (file ∷ files) =
    let rest = attachment_inputs files in
    if file.id == ""
    then rest
    else record {
      slack_file_id = file.id;
      filename = file.name;
      mime_type = file.mime_type;
      size_bytes = file.size;
    }
      ∷ rest

-- `&messageEvent{TS: ts}`
abbrev pub blank_event : String → EventFields
blank_event ts = record {
  type = "";
  subtype = "";
  channel = "";
  user = "";
  text = "";
  ts = ts;
  thread_ts = "";
  deleted_ts = "";
  edited = none;
  files = [];
}

abbrev pub changed_message : Nested → Result EventFields
changed_message nil = err Error.unsupported_event
changed_message (pointer (event message _ _)) = ok message

abbrev pub deleted_message : String → Nested → EventFields
deleted_message deleted_ts nil = blank_event deleted_ts
deleted_message deleted_ts (pointer (event message _ _)) =
    if message.ts == "" then record message { ts = deleted_ts } else message

-- The message that an event is about, and whether it is deleted.
unfoldable pub event_message : MessageEvent → Result (EventFields × Bool)
event_message (event fields message previous) =
    if fields.subtype == ""
      || fields.subtype == "thread_broadcast"
      || fields.subtype == "bot_message"
    then ok (fields, false)
    else if fields.subtype == "message_changed"
    then (changed_message message >>= λ changed. ok (changed, false))
    else if fields.subtype == "message_deleted"
    then ok (deleted_message fields.deleted_ts previous, true)
    else err Error.unsupported_event

-- An edit time that is zero is none.
unfoldable pub edited_time : Option String → Option Time
edited_time none = none
edited_time (some ts) = let parsed = slack_time ts in if eqb parsed 0 then none else some parsed

abbrev pub or_else : String → String → String
or_else s other = if s == "" then other else s

abbrev pub input_with : String → String → Time → EventFields → Bool → MessageInput
input_with team_id channel now message deleted = record {
  workspace_id = team_id;
  channel_id = channel;
  slack_timestamp = message.ts;
  thread_timestamp = if deleted then message.thread_ts else or_else message.thread_ts message.ts;
  author_id = message.user;
  text = message.text;
  is_deleted = deleted;
  edited_at = edited_time message.edited;
  deleted_at = if deleted then some now else none;
  attachments = if deleted then [] else attachment_inputs message.files;
  attachments_known = true;
}

-- The input that a message gives, at the present time.
unfoldable pub input_of : String → String → Time → EventFields → Bool → Result MessageInput
input_of team_id event_channel now message deleted =
    let channel = or_else event_channel message.channel in
    refuse_if (channel == "" || message.ts == "") Error.unsupported_event
    >> ok (input_with team_id channel now message deleted)

abbrev pub fields_of : MessageEvent → EventFields
fields_of (event fields _ _) = fields

unfoldable pub normalize_decoded : String → Time → Option MessageEvent → Result MessageInput
normalize_decoded team_id now none = err (Error.failure "decode Slack message event")
normalize_decoded team_id now (some e) =
    let fields = fields_of e in
    refuse_if (not (fields.type == "message")) Error.unsupported_event
    >> (event_message e >>= λ (found : EventFields × Bool).
        input_of team_id fields.channel now found.0 found.1)

unfoldable pub normalize_event :
    (RawMessage → Option MessageEvent) → Time → EventEnvelope → Result MessageInput
normalize_event decode now envelope = normalize_decoded envelope.team_id now (decode envelope.event)
