-- ===== src/Slack/Service/Analysis.antt =====
-- The analysis of a Slack thread (backend/internal/slack/service.go, `Analyze`).
use go_dashboard.Prelude.{
  format_ℤ, sym, ◌∙◌, Option, none, some, find, arith, eq_iff, ℕ, String, ◌≡◌, refl, ap, subst,
  List, [], ◌∷◌, select, ℤ, Result, ok, err,
}
use go_dashboard.Trigger.{Time, Request}
use go_dashboard.Workflow.Run.{Run}
use go_dashboard.Workflow.Executor.World.{
  World, Exec, lift, gets, others, store_at, continue, ◌>>=◌,
}
use go_dashboard.Slack.Domain.{
  Thread, Message, MessageInput, ContextSnapshot, request_id, stable_id,
}
use go_dashboard.Slack.Context.{build_context, snapshot, is_active, or_default}
use go_dashboard.Prelude.Results.{Provides, Provides-ok, Provides-value, Provides-error}
use go_dashboard.Storage.Sql.{Ctx, Conn}
use go_dashboard.Storage.Sql
use go_dashboard.Storage.Sql.Triple.{After, Triple, Triple-statement, Triple-bind}
use go_dashboard.Storage.Slack.Rows.{ThreadRow}
use go_dashboard.Storage.Slack.Threads.{
  get_slack_thread, find_thread, is_thread, scan_thread, thread_of, link_slack_workflow_run,
}
use go_dashboard.Storage.Slack.Messages.{list_slack_messages}
use go_dashboard.Slack.Service.{analyze, request_of}

module _ {A B : Type 0} where
  -- Where a chain of steps succeeds, both of its parts did.
  step-ok :
      (m : Exec A) (f : A → Exec B) (w : World) (b : B) (w' : World)
      → (m >>= f) w ≡ (ok b, w')
      → (a : A) × (w1 : World) × (m w ≡ (ok a, w1)) × (f a w1 ≡ (ok b, w'))
  unfolding ◌>>=◌
  step-ok m f w b w' h = here (m w).0 (m w).1 refl h
    where
      here :
          (r : Result A) (w1 : World)
          → m w ≡ (r, w1)
          → continue r f w1 ≡ (ok b, w')
          → (a : A) × (w1 : World) × (m w ≡ (ok a, w1)) × (f a w1 ≡ (ok b, w'))
      here (ok a) w1 e k = (a, w1, e, k)
      here (err x) w1 e k =
          let failed : err x ≡ ok b = ap (λ (p : Result B × World). p.0) k in absurd cc

-- What an analysis that succeeds has asked for, and the worlds that its calls led through.
abbrev pub IsAsked :
    (String → String)
    → (World → Ctx)
    → String
    → ℤ
    → ℤ
    → (Request → Exec Run)
    → World
    → World
    → Run
    → Type 0
IsAsked digest ctx thread_id max_messages max_chars starter w w' run =
    (thread : Thread) × (messages : List Message) × (snapshot : ContextSnapshot) × (w1 w2
      w3 : World)
    × ◌≡◌ {A = Result Thread × World} (store_at ctx (λ c _. get_slack_thread c thread_id) w)
        (ok thread, w1)
    × (thread.id ≡ thread_id)
    × ◌≡◌ {A = Result (List Message) × World}
        (store_at ctx (λ c _. list_slack_messages c thread_id) w1) (ok messages, w2)
    × (build_context thread messages max_messages max_chars ≡ ok snapshot)
    × ◌≡◌ {A = Result Run × World} (starter (request_of digest thread snapshot w2.clock) w2)
        (ok run, w3)
    × ((request_of digest thread snapshot w2.clock).id
        ≡ stable_id digest "request" (thread_id ∷ format_ℤ thread.context_version ∷ []))
    × ◌≡◌ {A = Result (Unit {0}) × World}
        (store_at ctx
          (λ c now. link_slack_workflow_run c now thread_id thread.context_version run.id) w3)
        (ok tt, w')

abbrev IsNamed : Thread → ContextSnapshot → Type 0
IsNamed thread s = (s.thread_id ≡ thread.id) × (s.context_version ≡ thread.context_version)

build_context-IsNamed :
    (thread : Thread) (messages : List Message) (max_messages max_chars : ℤ)
    → Provides (IsNamed thread) (build_context thread messages max_messages max_chars)
unfolding build_context
build_context-IsNamed thread messages max_messages max_chars =
    here (select is_active messages) (or_default max_messages 200) (or_default max_chars 50000)
  where
    here :
        (active : List Message) (m c : ℕ) → Provides (IsNamed thread) (snapshot thread active m c)
    here [] m c = Provides-error _ _
    here (first ∷ rest) m c = Provides-value (IsNamed thread) _ (refl, refl)

value_of : (w w' : World) (a b : Run) → ◌≡◌ {A = Result Run × World} (ok a, w) (ok b, w') → a ≡ b
value_of w w' a b h = let same : ok a ≡ ok b = ap (λ (p : Result Run × World). p.0) h in cc

world_of :
    {A : Type 0} (w w' : World) (a b : A)
    → ◌≡◌ {A = Result A × World} (ok a, w) (ok b, w')
    → (a ≡ b) × (w ≡ w')
world_of w w' a b h =
    let same : ok a ≡ ok b = ap (λ (p : Result _ × World). p.0) h in
    (cc, ap (λ (p : Result _ × World). p.1) h)

-- What is read under an ID has that ID.
found-id :
    (thread_id : String) (rows : List ThreadRow) (row : ThreadRow)
    → find (is_thread thread_id) rows ≡ some row
    → row.id ≡ thread_id
unfolding find
found-id thread_id [] row h = cc
found-id thread_id (r ∷ rows) row h =
    ground (arith, eq_iff r.id thread_id, found-id thread_id rows row)

get_slack_thread-Triple :
    (c : Ctx) (thread_id : String)
    → Triple
        (λ _. Unit {0})
        (get_slack_thread c thread_id)
        (λ thread _. thread.id ≡ thread_id)
        (λ _ _. Unit {0})
unfolding get_slack_thread find_thread scan_thread thread_of
get_slack_thread-Triple c thread_id =
    Triple-bind (λ found _. (row : ThreadRow) → found ≡ some row → row.id ≡ thread_id) _ _
      (Triple-statement c _ (λ db _. λ row e. found-id thread_id db.slack.threads row e)
        (λ e db _. tt))
      scanned
  where
    scanned :
        (found : Option ThreadRow)
        → Triple
            (λ _. (row : ThreadRow) → found ≡ some row → row.id ≡ thread_id)
            (Sql.lift (scan_thread found))
            (λ thread _. thread.id ≡ thread_id)
            (λ _ _. Unit {0})
    scanned none = record { at = λ conn h. tt }
    scanned (some row) = record { at = λ conn h. h row refl }

read-named :
    (ctx : World → Ctx) (thread_id : String) (w w1 : World) (thread : Thread)
    → ◌≡◌ {A = Result Thread × World}
        (store_at ctx (λ c _. get_slack_thread c thread_id) w)
        (ok thread, w1)
    → thread.id ≡ thread_id
unfolding store_at
read-named ctx thread_id w w1 thread h =
    let w' = others w in
    let (r, conn') = get_slack_thread (ctx w') thread_id w'.conn in
    here r conn' ((get_slack_thread-Triple (ctx w') thread_id).at w'.conn tt)
      (ap (λ (p : Result Thread × World). p.0) h)
  where
    here :
        (r : Result Thread) (conn' : Conn)
        → After (λ thread _. thread.id ≡ thread_id) (λ _ _. Unit {0}) (r, conn')
        → r ≡ ok thread
        → thread.id ≡ thread_id
    here (ok t) conn' a e = let same : t ≡ thread = cc in subst (λ x. x.id ≡ thread_id) same a
    here (err x) conn' a e = absurd cc

-- The steps of an analysis, by what is known of their values.
module _ (digest : String → String) where
  listed_by :
      (ctx : World → Ctx) (thread_id : String) (w1 w2 : World) (thread : Thread)
      (messages : List Message)
      → thread.id ≡ thread_id
      → ◌≡◌ {A = Result (List Message) × World}
          (store_at ctx (λ c _. list_slack_messages c thread.id) w1)
          (ok messages, w2)
      → ◌≡◌ {A = Result (List Message) × World}
          (store_at ctx (λ c _. list_slack_messages c thread_id) w1)
          (ok messages, w2)
  listed_by ctx thread_id w1 w2 thread messages named h =
      subst
        (λ k.
          ◌≡◌ {A = Result (List Message) × World} (store_at ctx (λ c _. list_slack_messages c k) w1)
            (ok messages, w2))
        named h

  asked_by :
      (starter : Request → Exec Run) (thread : Thread) (snapshot : ContextSnapshot) (now : Time)
      (w2 w4 w3 : World) (started run : Run)
      → now ≡ w2.clock
      → w4 ≡ w2
      → started ≡ run
      → ◌≡◌ {A = Result Run × World}
          (starter (request_of digest thread snapshot now) w4)
          (ok started, w3)
      → ◌≡◌ {A = Result Run × World}
          (starter (request_of digest thread snapshot w2.clock) w2)
          (ok run, w3)
  asked_by starter thread snapshot now w2 w4 w3 started run time here same h =
      sym (ap (λ t. starter (request_of digest thread snapshot t) w2) time)
      ∙ sym (ap (starter (request_of digest thread snapshot now)) here)
      ∙ h
      ∙ ap (λ r. (ok r, w3)) same

  linked_by :
      (ctx : World → Ctx) (thread_id : String) (w3 w6 w' : World) (thread : Thread)
      (started run : Run)
      → thread.id ≡ thread_id
      → started ≡ run
      → w6 ≡ w'
      → ◌≡◌ {A = Result (Unit {0}) × World}
          (store_at ctx
            (λ c now. link_slack_workflow_run c now thread.id thread.context_version started.id)
            w3)
          (ok tt, w6)
      → ◌≡◌ {A = Result (Unit {0}) × World}
          (store_at ctx
            (λ c now. link_slack_workflow_run c now thread_id thread.context_version run.id)
            w3)
          (ok tt, w')
  linked_by ctx thread_id w3 w6 w' thread started run named same ended h =
      sym (
        ap
          (λ k.
            store_at ctx (λ c now. link_slack_workflow_run c now k thread.context_version run.id)
              w3)
          named)
      ∙ sym (
          ap
            (λ (r : Run).
              store_at ctx
                (λ c now. link_slack_workflow_run c now thread.id thread.context_version r.id) w3)
            same)
      ∙ h
      ∙ ap (λ w. (ok tt, w)) ended

-- An analysis that returns a run has read the thread of the ID that was given, then its messages, and has got
-- the run from the workflow service for a request with the context of that thread and those messages; the ID
-- of the request is a digest of the ID of the thread and its context version; and the run was then linked to
-- the thread at that version. Each of these calls begins in the world that the one before it left.
pub analyze-asks :
    (digest : String → String) (ctx : World → Ctx)
    (fetch_thread : String → String → Exec (List MessageInput)) (starter : Request → Exec Run)
    (max_messages max_chars : ℤ) (thread_id : String) (w w' : World) (run : Run)
    → analyze digest ctx fetch_thread starter max_messages max_chars thread_id w ≡ (ok run, w')
    → IsAsked digest ctx thread_id max_messages max_chars starter w w' run
unfolding analyze request_id
analyze-asks digest ctx fetch_thread starter max_messages max_chars thread_id w w' run h =
    let (thread, w1, read, h1) =
      step-ok (store_at ctx (λ c _. get_slack_thread c thread_id)) _ w run w' h in
    let (messages, w2, listed, h2) =
      step-ok (store_at ctx (λ c _. list_slack_messages c thread.id)) _ w1 run w' h1 in
    let (found, w3, built, h3) =
      step-ok (lift (build_context thread messages max_messages max_chars)) _ w2 run w' h2 in
    let (now, w4, told, h4) = step-ok (gets (λ (w : World). w.clock)) _ w3 run w' h3 in
    let (started, w5, called, h5) =
      step-ok (starter (request_of digest thread found now)) _ w4 run w' h4 in
    let (_, w6, linked, h6) =
      step-ok
        (store_at ctx
          (λ c now. link_slack_workflow_run c now thread.id thread.context_version started.id))
        _ w5 run w' h5 in
    let (same, ended) = world_of w6 w' started run h6 in
    let snapshot_ok = ap (λ (p : Result ContextSnapshot × World). p.0) built in
    let w3_is : w2 ≡ w3 = ap (λ (p : Result ContextSnapshot × World). p.1) built in
    let (now_is, w4_is) = world_of w3 w4 w3.clock now told in
    let here : w4 ≡ w2 = sym (w3_is ∙ w4_is) in
    let time : now ≡ w2.clock = sym now_is ∙ ap (λ (x : World). x.clock) (sym w3_is) in
    let names =
      Provides-ok (IsNamed thread) _ found
        (build_context-IsNamed thread messages max_messages max_chars) snapshot_ok in
    let named = read-named ctx thread_id w w1 thread read in
    (
      thread,
      messages,
      found,
      w1,
      w2,
      w5,
      read,
      named,
      listed_by digest ctx thread_id w1 w2 thread messages named listed,
      snapshot_ok,
      asked_by digest starter thread found now w2 w4 w5 started run time here same called,
      rw (names.0, names.1, named) refl,
      linked_by digest ctx thread_id w5 w6 w' thread started run named same ended linked,
    )
