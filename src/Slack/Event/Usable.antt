-- ===== src/Slack/Event/Usable.antt =====
-- What `normalizeEvent` (backend/internal/slack/service.go) makes of an event.
use go_dashboard.Prelude.{
  String, ◌≡◌, refl, subst, ◌≢◌, Bool, true, false, not, ◌||◌, Option, none, some, List, [], ◌∷◌,
  arith, ◌==◌, eq_iff, if◌then◌else◌, All, Error, ok,
}
use go_dashboard.Prelude.Results.{◌>>◌, refuse_if, >>=-eq-ok}
use go_dashboard.Trigger.{Time}
use go_dashboard.Json.{RawMessage}
use go_dashboard.Slack.Domain.{AttachmentInput, MessageInput}
use go_dashboard.Slack.Event.{
  EventEnvelope, MessageEvent, EventFields, SlackFile, attachment_inputs, event_message, input_of,
  input_with, or_else, normalize_decoded, normalize_event, fields_of,
}

abbrev pub IsNamed : AttachmentInput → Type 0
IsNamed input = input.slack_file_id ≢ ""

-- What the code relies on in an input, which depends on whether the message is deleted.
abbrev pub IsComplete : Time → Bool → MessageInput → Type 0
IsComplete now true input = (input.deleted_at ≡ some now) × (input.attachments ≡ [])
IsComplete now false input =
    (input.deleted_at ≡ none) × (input.thread_timestamp ≢ "") × All IsNamed input.attachments

abbrev pub IsUsable : String → Time → MessageInput → Type 0
IsUsable team_id now input =
    (input.workspace_id ≡ team_id)
    × (input.channel_id ≢ "")
    × (input.slack_timestamp ≢ "")
    × IsComplete now input.is_deleted input

not_eq : (s t : String) → s == t ≡ false → s ≢ t
not_eq s t h = λ e. ground (arith, eq_iff s t)

attachment_inputs-IsNamed : (files : List SlackFile) → All IsNamed (attachment_inputs files)
unfolding attachment_inputs
attachment_inputs-IsNamed [] = tt
attachment_inputs-IsNamed (file ∷ files) =
    here (attachment_inputs-IsNamed files) (file.id == "") refl
  where
    here :
        All IsNamed (attachment_inputs files)
        → (b : Bool) → file.id == "" ≡ b
        → All IsNamed (
            if b
            then attachment_inputs files
            else record {
              slack_file_id = file.id;
              filename = file.name;
              mime_type = file.mime_type;
              size_bytes = file.size;
            }
              ∷ attachment_inputs files)
    here rest true e = rest
    here rest false e = (not_eq file.id "" e, rest)

or_else-named : (s t : String) → t == "" ≡ false → or_else s t ≢ ""
or_else-named s t h = here (s == "") refl
  where
    here : (b : Bool) → s == "" ≡ b → (if b then t else s) ≢ ""
    here true e = not_eq t "" h
    here false e = not_eq s "" e

input_with-IsUsable :
    (team_id channel : String) (now : Time) (message : EventFields) (deleted : Bool)
    → channel == "" ≡ false
    → message.ts == "" ≡ false
    → IsUsable team_id now (input_with team_id channel now message deleted)
input_with-IsUsable team_id channel now message true c t =
    (refl, not_eq channel "" c, not_eq message.ts "" t, (refl, refl))
input_with-IsUsable team_id channel now message false c t = (
  refl,
  not_eq channel "" c,
  not_eq message.ts "" t,
  (refl, or_else-named message.thread_ts message.ts t, attachment_inputs-IsNamed message.files),
)

input_of-IsUsable :
    (team_id channel : String) (now : Time) (message : EventFields) (deleted : Bool)
    (input : MessageInput)
    → input_of team_id channel now message deleted ≡ ok input
    → IsUsable team_id now input
unfolding input_of
input_of-IsUsable team_id event_channel now message deleted input h =
    here (channel == "") (message.ts == "") refl refl h
  where
    channel : String
    channel = or_else event_channel message.channel

    here :
        (b c : Bool)
        → channel == "" ≡ b
        → message.ts == "" ≡ c
        → (refuse_if (b || c) Error.unsupported_event
            >> ok (input_with team_id channel now message deleted))
          ≡ ok input
        → IsUsable team_id now input
    here true c e f k = absurd cc
    here false true e f k = absurd cc
    here false false e f k =
        let same : input_with team_id channel now message deleted ≡ input = cc in
        subst (IsUsable team_id now) same
          (input_with-IsUsable team_id channel now message deleted e f)

decoded-IsUsable :
    (team_id : String) (now : Time) (decoded : Option MessageEvent) (input : MessageInput)
    → normalize_decoded team_id now decoded ≡ ok input
    → IsUsable team_id now input
unfolding normalize_decoded
decoded-IsUsable team_id now none input h = absurd cc
decoded-IsUsable team_id now (some e) input h =
    let (_, _, rest) =
      >>=-eq-ok (refuse_if (not ((fields_of e).type == "message")) Error.unsupported_event) _ h in
    let (found, _, made) = >>=-eq-ok (event_message e) _ rest in
    input_of-IsUsable team_id (fields_of e).channel now found.0 found.1 input made

-- An event that is accepted gives a usable input: it is in the workspace of the envelope, with a channel
-- and a timestamp that are not empty; where the message is deleted, it has the present time as its
-- deletion and no attachments; where it is not, it has no deletion, a thread, and attachments that all
-- have a file ID.
pub normalize_event-IsUsable :
    (decode : RawMessage → Option MessageEvent) (now : Time) (envelope : EventEnvelope)
    (input : MessageInput)
    → normalize_event decode now envelope ≡ ok input
    → IsUsable envelope.team_id now input
unfolding normalize_event
normalize_event-IsUsable decode now envelope input h =
    decoded-IsUsable envelope.team_id now (decode envelope.event) input h
