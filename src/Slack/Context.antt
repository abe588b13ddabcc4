-- ===== src/Slack/Context.antt =====
-- backend/internal/slack/service.go: `BuildContext` and the texts that it renders. Lengths are in
-- runes. Budgets are natural numbers: the code's own reach below 0 only where the text becomes "".
pub mod Budget
use go_dashboard.Prelude.{
  ℕ, zero, suc, ◌+◌, ◌-◌, ◌*◌, ◌/◌, ◌≤◌, ◌<◌, String, ◌≡◌, refl, sym, ap, ◌∙◌, subst, ◌≢◌, ◌↔◌, ◌⊎◌,
  inl, inr, Bool, true, false, not, ◌&&◌, ◌||◌, Option, none, some, List, [], ◌∷◌, ◌++◌, map, arith,
  ◌==◌, eq_iff, eq_refl, ltb, leb, eqb, if◌then◌else◌, Bool-cases, Option-cases, length, get_elem?,
  select, find, any, count, map_where, length-append, All, All-append, take, length-take-le, chars,
  of_chars, chars-of_chars, ℤ, pos, negsuc, is_pos, is_neg, to_ℕ, eq_ℤ, lt_ℤ, is_blank, trim_space,
  cut_prefix, str_lt, Error, Flaw, Result, ok, err, ltb→lt, lt→ltb, leb→le,
}
use go_dashboard.Prelude.Results.{◌>>=◌, ◌>>◌, refuse_if, >>=-eq-ok, Result-cases}
use Prim.Native.Char.{Char}
use Prim.Native.String.{◌++◌ as concat}
use mathlib.Core.List.{reverse}
use go_dashboard.Slack.Domain.{Thread, Message, ContextSnapshot}

-- `len([]rune(s))`
unfoldable pub rune_count : String → ℕ
rune_count s = length (chars s)

unfoldable pub truncate_runes : List Char → ℕ → List Char
truncate_runes runes max =
    if eqb max 0
    then []
    else if leb (length runes) max
    then runes
    else if leb max 1
    then take max runes
    else take (max - 1) runes ++ chars "…"

unfoldable pub truncate_text : String → ℕ → String
truncate_text value max = of_chars (truncate_runes (chars (trim_space value)) max)

unfoldable pub message_prefix : Message → String
message_prefix message = concat "[Slack " (
    concat (if message.is_parent then "parent" else "reply") (
      concat " ts="
        (concat message.slack_timestamp (concat " author=" (concat message.author_id "]\n")))))

unfoldable pub rendered_length : Message → ℕ
rendered_length message = rune_count (message_prefix message) + rune_count message.text + 2

unfoldable pub text_budget : Message → ℕ → ℕ
text_budget message total = total - rune_count (message_prefix message) - 2

-- `sort.SliceStable` by a `less` function.
unfoldable pub insert_sorted : (Message → Message → Bool) → Message → List Message → List Message
insert_sorted less x [] = x ∷ []
insert_sorted less x (y ∷ ys) =
    let rest = insert_sorted less x ys in if less y x then y ∷ rest else x ∷ y ∷ ys

unfoldable pub sort_stable : (Message → Message → Bool) → List Message → List Message
sort_stable less [] = []
sort_stable less (x ∷ xs) = insert_sorted less x (sort_stable less xs)

unfoldable pub created_before : Message → Message → Bool
created_before a b =
    if eqb a.slack_created_at b.slack_created_at
    then str_lt a.slack_timestamp b.slack_timestamp
    else ltb a.slack_created_at b.slack_created_at

unfoldable pub stamped_before : Message → Message → Bool
stamped_before a b = str_lt a.slack_timestamp b.slack_timestamp

unfoldable pub is_active : Message → Bool
is_active message = not message.is_deleted && not (is_blank message.text)

-- The loop that takes the first parent apart from the replies.
unfoldable pub split_parent : List Message → Option Message × List Message
split_parent [] = (none, [])
split_parent (m ∷ ms) =
    let (parent, replies) = split_parent ms in
    if m.is_parent then (some m, ms) else (parent, m ∷ replies)

abbrev pub shortened : Message → ℕ → Message
shortened message total = record message {
  text = truncate_text message.text (text_budget message total);
}

-- `if len(replies) > 0 && maxMessages > 1 { parentBudget = budget / 2 }`
unfoldable pub parent_budget : List Message → ℕ → ℕ → ℕ
parent_budget [] max_messages budget = budget
parent_budget (r ∷ rs) max_messages budget = if ltb 1 max_messages then budget / 2 else budget

-- The parent, if any of its text fits: the budget that is left, and the messages selected.
unfoldable pub select_parent : Option Message → List Message → ℕ → ℕ → ℕ × List Message
select_parent none replies max_messages budget = (budget, [])
select_parent (some parent) replies max_messages budget =
    let copy = shortened parent (parent_budget replies max_messages budget) in
    if copy.text == "" then (budget, []) else (budget - rendered_length copy, copy ∷ [])

-- The loop over the replies, the newest first.
unfoldable pub select_replies : List Message → ℕ → ℕ → List Message → List Message
select_replies [] slots budget selected = selected
select_replies (reply ∷ rest) slots budget selected =
    let copy = shortened reply budget in
    let skipped = select_replies rest slots budget selected in
    let taken =
      select_replies rest (slots - 1) (budget - rendered_length copy) (selected ++ copy ∷ []) in
    if eqb slots 0 || eqb budget 0 then selected else if copy.text == "" then skipped else taken

unfoldable pub selected_messages : List Message → ℕ → ℕ → List Message
selected_messages active max_messages max_chars =
    let (parent, replies) = split_parent active in
    let (budget, first) = select_parent parent replies max_messages max_chars in
    select_replies (reverse replies) (max_messages - length first) budget first

unfoldable pub render : List Message → String
render [] = ""
render (m ∷ ms) = concat (concat (message_prefix m) (concat m.text "\n\n")) (render ms)

abbrev pub or_default : ℤ → ℕ → ℕ
or_default n default = if is_pos n then to_ℕ n else default

abbrev pub snapshot : Thread → List Message → ℕ → ℕ → Result ContextSnapshot
snapshot thread [] max_messages max_chars = err Error.empty_context
snapshot thread (m ∷ ms) max_messages max_chars =
    let active = sort_stable created_before (m ∷ ms) in
    let selected = sort_stable stamped_before (selected_messages active max_messages max_chars) in
    ok (record {
      thread_id = thread.id;
      context_version = thread.context_version;
      content = trim_space (render selected);
      messages = selected;
    })

unfoldable pub build_context : Thread → List Message → ℤ → ℤ → Result ContextSnapshot
build_context thread messages max_messages max_chars =
    snapshot thread (select is_active messages) (or_default max_messages 200)
      (or_default max_chars 50000)
