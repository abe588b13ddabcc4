-- ===== src/Slack/Client/Pages.antt =====
-- The pages of a thread (backend/internal/slack/client.go, `FetchThread`).
use go_dashboard.Prelude.{
  ℕ, zero, suc, ◌<◌, String, ◌≡◌, refl, ◌≢◌, ◌⊎◌, inl, inr, Bool, true, false, Option, none, some,
  List, [], ◌∷◌, ◌++◌, arith, ◌==◌, eq_iff, if◌then◌else◌, All, All-append, trim_space, Error,
  Result, ok, err,
}
use Prim.Native.String.{◌++◌ as concat}
use go_dashboard.Trigger.{StringMap}
use go_dashboard.Workflow.Executor.World.{World, Exec, pure, lift, continue, ◌>>=◌}
use go_dashboard.Slack.Domain.{MessageInput}
use go_dashboard.Slack.Client.{
  SlackMessage, RepliesResponse, page_inputs, page_at, accepted, after_page, fetch_pages,
  fetch_thread,
}

-- A message that is fetched is of the channel, has a timestamp, and is not deleted.
abbrev pub IsFetched : String → MessageInput → Type 0
IsFetched channel_id input =
    (input.channel_id ≡ channel_id) × (input.slack_timestamp ≢ "") × (input.is_deleted ≡ false)

page_inputs-IsFetched :
    (channel_id thread_ts : String) (items : List SlackMessage)
    → All (IsFetched channel_id) (page_inputs channel_id thread_ts items)
unfolding page_inputs
page_inputs-IsFetched channel_id thread_ts [] = tt
page_inputs-IsFetched channel_id thread_ts (item ∷ items) =
    ground (arith, eq_iff item.ts "", page_inputs-IsFetched channel_id thread_ts items)

-- Each page that is got is the last one, or its cursor has a lower rank than the one it was got with.
abbrev pub IsFinite : (String → Exec RepliesResponse) → (String → ℕ) → Type 0
IsFinite page rank =
    (cursor : String) (w : World) (answer : RepliesResponse)
    → (page cursor w).0 ≡ ok answer
    → (trim_space answer.next_cursor ≡ "") ⊎ (rank (trim_space answer.next_cursor) < rank cursor)

module _ (get_page : String → Exec RepliesResponse) (encode : StringMap → String)
    (channel_id thread_ts : String) where
  abbrev Fetched : Type 0
  Fetched = Option (List MessageInput)

  -- One round, whatever the first page is.
  round :
      (Good : Result Fetched → Type 0) (rest : String → List MessageInput → Exec Fetched)
      (messages : List MessageInput) (r : Result RepliesResponse) (w : World)
      → ((e : Error) → Good (err e))
      → ((page : RepliesResponse)
          → Good (ok (some (messages ++ page_inputs channel_id thread_ts page.messages))))
      → ((page : RepliesResponse)
          → r ≡ ok page
          → trim_space page.next_cursor == "" ≡ false
          → Good
              (rest
                (trim_space page.next_cursor)
                (messages ++ page_inputs channel_id thread_ts page.messages)
                w).0)
      → Good
          (continue r
            (λ answer.
              lift (accepted get_page encode channel_id thread_ts answer)
              >>= after_page get_page encode channel_id thread_ts rest messages)
            w).0
  unfolding ◌>>=◌
  round Good rest messages (err e) w failed last more = failed e
  round Good rest messages (ok page) w failed last more = here page.ok_flag
    where
      turn :
          (c : Bool)
          → trim_space page.next_cursor == "" ≡ c
          → Good
              ((if c
                  then pure (some (messages ++ page_inputs channel_id thread_ts page.messages))
                  else rest
                      (trim_space page.next_cursor)
                      (messages ++ page_inputs channel_id thread_ts page.messages))
                w).0
      turn true e = last page
      turn false e = more page refl e

      here :
          (b : Bool)
          → Good
              (continue
                (if b
                  then ok page
                  else err (Error.slack_api (concat "conversations.replies: " page.error)))
                (λ (p : RepliesResponse).
                  after_page get_page encode channel_id thread_ts rest messages p)
                w).0
      here true = turn (trim_space page.next_cursor == "") refl
      here false = failed _

  abbrev IsGood : Result Fetched → Type 0
  IsGood (ok (some messages)) = All (IsFetched channel_id) messages
  IsGood _ = Unit

  pages-IsFetched :
      (fuel : ℕ) (cursor : String) (messages : List MessageInput) (w : World)
      → All (IsFetched channel_id) messages
      → IsGood (fetch_pages get_page encode channel_id thread_ts fuel cursor messages w).0
  unfolding fetch_pages ◌>>=◌
  pages-IsFetched zero cursor messages w a = tt
  pages-IsFetched (suc fuel) cursor messages w a =
      let (r, w') = page_at get_page encode channel_id thread_ts cursor w in
      round IsGood (fetch_pages get_page encode channel_id thread_ts fuel) messages r w' (λ e. tt)
        (λ page. longer page)
        (λ page _ _.
          pages-IsFetched fuel (trim_space page.next_cursor)
            (messages ++ page_inputs channel_id thread_ts page.messages) w' (longer page))
    where
      longer :
          (page : RepliesResponse)
          → All (IsFetched channel_id) (messages ++ page_inputs channel_id thread_ts page.messages)
      longer page =
          All-append (IsFetched channel_id) messages _ a
            (page_inputs-IsFetched channel_id thread_ts page.messages)

  pages-finish :
      (rank : String → ℕ)
      → IsFinite (page_at get_page encode channel_id thread_ts) rank
      → (fuel : ℕ) (cursor : String) (messages : List MessageInput) (w : World) → rank cursor < fuel
      → (fetch_pages get_page encode channel_id thread_ts fuel cursor messages w).0 ≢ ok none
  unfolding fetch_pages ◌>>=◌
  pages-finish rank finite zero cursor messages w h = absurd (omega arith)
  pages-finish rank finite (suc fuel) cursor messages w h =
      let (r, w') = page_at get_page encode channel_id thread_ts cursor w in
      round (λ out. out ≢ ok none) (fetch_pages get_page encode channel_id thread_ts fuel) messages
        r w' (λ e k. cc) (λ page k. cc)
        (λ page e more.
          pages-finish rank finite fuel (trim_space page.next_cursor)
            (messages ++ page_inputs channel_id thread_ts page.messages) w' (lower page e more))
    where
      lower :
          (page : RepliesResponse)
          → (page_at get_page encode channel_id thread_ts cursor w).0 ≡ ok page
          → trim_space page.next_cursor == "" ≡ false
          → rank (trim_space page.next_cursor) < fuel
      lower page e more =
          ground (arith, finite cursor w page e, eq_iff (trim_space page.next_cursor) "")

-- The loop over the pages of a thread ends: where each page that the API gives is the last one or has a
-- cursor of a lower rank than the one it was asked for with, more rounds than the rank of the first cursor
-- are enough, and the code returns the messages or an error.
pub fetch_thread-ends :
    (get_page : String → Exec RepliesResponse) (encode : StringMap → String)
    (channel_id thread_ts : String) (rank : String → ℕ) (fuel : ℕ) (w : World)
    → IsFinite (page_at get_page encode channel_id thread_ts) rank
    → rank "" < fuel
    → ((messages : List MessageInput) × ((fetch_thread get_page encode channel_id thread_ts fuel
            w).0
          ≡ ok (some messages))
        × All (IsFetched channel_id) messages)
      ⊎ ((e : Error) × ((fetch_thread get_page encode channel_id thread_ts fuel w).0 ≡ err e))
unfolding fetch_thread
fetch_thread-ends get_page encode channel_id thread_ts rank fuel w finite h =
    here (fetch_thread get_page encode channel_id thread_ts fuel w).0 refl
      (pages-finish get_page encode channel_id thread_ts rank finite fuel "" [] w h)
      (pages-IsFetched get_page encode channel_id thread_ts fuel "" [] w tt)
  where
    here :
        (r : Result (Option (List MessageInput)))
        → (fetch_thread get_page encode channel_id thread_ts fuel w).0 ≡ r
        → r ≢ ok none
        → IsGood get_page encode channel_id thread_ts r
        → ((messages : List MessageInput) × ((fetch_thread get_page encode channel_id thread_ts fuel
                w).0
              ≡ ok (some messages))
            × All (IsFetched channel_id) messages)
          ⊎ ((e : Error) × ((fetch_thread get_page encode channel_id thread_ts fuel w).0 ≡ err e))
    here (ok none) e k g = absurd (k refl)
    here (ok (some messages)) e k g = inl (messages, e, g)
    here (err x) e k g = inr (x, e)
