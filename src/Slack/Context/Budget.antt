-- ===== src/Slack/Context/Budget.antt =====
-- The bounds of what `BuildContext` selects (backend/internal/slack/service.go).
use go_dashboard.Prelude.{
  ℕ, zero, suc, ◌+◌, ◌-◌, ◌≤◌, ◌<◌, String, ◌≡◌, refl, subst, Bool, true, false, Option, none, some,
  List, [], ◌∷◌, ◌++◌, arith, ◌==◌, length, length-append, take, length-take-le, chars,
  chars-of_chars, ℤ, trim_space, ok,
}
use Prim.Native.Char.{Char}
use mathlib.Core.List.{reverse}
use go_dashboard.Slack.Domain.{Thread, Message, ContextSnapshot}
use go_dashboard.Slack.Context.{
  rune_count, truncate_text, truncate_runes, message_prefix, rendered_length, text_budget,
  insert_sorted, sort_stable, created_before, stamped_before, split_parent, shortened,
  parent_budget, select_parent, select_replies, selected_messages, or_default, snapshot,
  build_context,
}

truncate_runes-le : (runes : List Char) (max : ℕ) → length (truncate_runes runes max) ≤ max
unfolding truncate_runes
truncate_runes-le runes max = ground (
  arith,
  length-take-le max runes,
  length-take-le (max - 1) runes,
  length-append (take (max - 1) runes) (chars "…"),
)

truncate-le : (value : String) (max : ℕ) → rune_count (truncate_text value max) ≤ max
unfolding truncate_text rune_count
truncate-le value max =
    rw (chars-of_chars (truncate_runes (chars (trim_space value)) max)) (truncate_runes-le _ max)

-- With no room, the text becomes empty.
truncate-zero : (value : String) → (truncate_text value 0 == "") ≡ true
unfolding truncate_text truncate_runes
truncate-zero value = refl

same_prefix : (m : Message) (total : ℕ) → message_prefix (shortened m total) ≡ message_prefix m
unfolding message_prefix
same_prefix m total = refl

room_left :
    (m : Message) (total room : ℕ)
    → text_budget m total ≡ room
    → (truncate_text m.text room == "") ≡ false
    → rune_count (message_prefix m) + rune_count (truncate_text m.text room) + 2 ≤ total
unfolding text_budget
room_left m total zero e kept = absurd (ground (arith, truncate-zero m.text))
room_left m total (suc room) e kept = omega (arith, truncate-le m.text (suc room))

-- A text that is kept fits the budget that it was shortened to, with its prefix and line ends.
shortened-le :
    (m : Message) (total : ℕ)
    → ((shortened m total).text == "") ≡ false
    → rendered_length (shortened m total) ≤ total
unfolding rendered_length
shortened-le m total kept = rw same_prefix (room_left m total (text_budget m total) refl kept)

-- The characters that a list of messages takes.
unfoldable pub total_rendered : List Message → ℕ
total_rendered [] = 0
total_rendered (m ∷ ms) = rendered_length m + total_rendered ms

total-append :
    (xs : List Message) (m : Message)
    → total_rendered (xs ++ m ∷ []) ≡ total_rendered xs + rendered_length m
unfolding total_rendered
total-append [] m = omega arith
total-append (x ∷ xs) m = omega (arith, total-append xs m)

select_replies-le :
    (rest : List Message) (slots budget : ℕ) (selected : List Message)
    → (total_rendered (select_replies rest slots budget selected)
        ≤ total_rendered selected + budget)
      × (length (select_replies rest slots budget selected) ≤ length selected + slots)
unfolding select_replies total_rendered
select_replies-le [] slots budget selected = omega arith
select_replies-le (r ∷ rest) slots budget selected = ground (
  arith,
  select_replies-le rest slots budget selected,
  select_replies-le rest (slots - 1) (budget - rendered_length (shortened r budget))
      (selected ++ shortened r budget ∷ []),
  shortened-le r budget,
  total-append selected (shortened r budget),
  length-append selected (shortened r budget ∷ []),
)

parent_budget-le :
    (replies : List Message) (max_messages budget : ℕ)
    → parent_budget replies max_messages budget ≤ budget
unfolding parent_budget
parent_budget-le [] max_messages budget = omega arith
parent_budget-le (r ∷ rs) max_messages budget = ground arith

select_parent-le :
    (parent : Option Message) (replies : List Message) (max_messages budget : ℕ)
    → (total_rendered (select_parent parent replies max_messages budget).1
          + (select_parent parent replies max_messages budget).0
        ≤ budget)
      × (length (select_parent parent replies max_messages budget).1 ≤ 1)
unfolding select_parent total_rendered
select_parent-le none replies max_messages budget = omega arith
select_parent-le (some p) replies max_messages budget =
    let share = parent_budget replies max_messages budget in
    ground (arith, shortened-le p share, parent_budget-le replies max_messages budget)

pub record FitsWithin (max_messages max_chars : ℕ) (messages : List Message) : Type 0 where
  pub chars_fit : total_rendered messages ≤ max_chars
  pub count_fits : length messages ≤ max_messages

selected-FitsWithin :
    (active : List Message) (max_messages max_chars : ℕ)
    → 0 < max_messages
    → FitsWithin max_messages max_chars (selected_messages active max_messages max_chars)
unfolding selected_messages
selected-FitsWithin active max_messages max_chars h =
    let (parent, replies) = split_parent active in
    let p = select_parent-le parent replies max_messages max_chars in
    let (budget, first) = select_parent parent replies max_messages max_chars in
    let r = select_replies-le (reverse replies) (max_messages - length first) budget first in
    record { chars_fit = omega (arith, p.0, r.0); count_fits = omega (arith, p.1, r.1) }

insert_sorted-same :
    (less : Message → Message → Bool) (x : Message) (xs : List Message)
    → (total_rendered (insert_sorted less x xs) ≡ rendered_length x + total_rendered xs)
      × (length (insert_sorted less x xs) ≡ suc (length xs))
unfolding insert_sorted total_rendered
insert_sorted-same less x [] = (refl, refl)
insert_sorted-same less x (y ∷ ys) = ground (arith, insert_sorted-same less x ys)

sort_stable-same :
    (less : Message → Message → Bool) (xs : List Message)
    → (total_rendered (sort_stable less xs) ≡ total_rendered xs)
      × (length (sort_stable less xs) ≡ length xs)
unfolding sort_stable total_rendered
sort_stable-same less [] = (refl, refl)
sort_stable-same less (x ∷ xs) =
    omega (arith, insert_sorted-same less x (sort_stable less xs), sort_stable-same less xs)

sort_stable-FitsWithin :
    (less : Message → Message → Bool) (n k : ℕ) (xs : List Message)
    → FitsWithin n k xs
    → FitsWithin n k (sort_stable less xs)
sort_stable-FitsWithin less n k xs f =
    let s = sort_stable-same less xs in
    record {
      chars_fit = omega (arith, s, f.chars_fit);
      count_fits = omega (arith, s, f.count_fits);
    }

snapshot-FitsWithin :
    (thread : Thread) (active : List Message) (n k : ℕ) (s : ContextSnapshot)
    → 0 < n
    → snapshot thread active n k ≡ ok s
    → FitsWithin n k s.messages
snapshot-FitsWithin thread [] n k s h e = cc
snapshot-FitsWithin thread (m ∷ ms) n k s h e =
    let active = sort_stable created_before (m ∷ ms) in
    let selected = selected_messages active n k in
    subst (FitsWithin n k) {x = sort_stable stamped_before selected} (ground arith)
      (sort_stable-FitsWithin stamped_before n k selected (selected-FitsWithin active n k h))

-- A context that is built has at most the given number of messages (200 where none is given), and
-- with their prefixes they take at most the given number of characters (50000 where none is given).
pub build_context-FitsWithin :
    (thread : Thread) (messages : List Message) (max_messages max_chars : ℤ) (s : ContextSnapshot)
    → build_context thread messages max_messages max_chars ≡ ok s
    → FitsWithin (or_default max_messages 200) (or_default max_chars 50000) s.messages
unfolding build_context
build_context-FitsWithin thread messages max_messages max_chars s e =
    snapshot-FitsWithin thread _ (or_default max_messages 200) _ s (ground arith) e
