-- ===== src/Slack/Service/Settled.antt =====
-- What a delivery of a Slack event leaves of its claim (backend/internal/slack/service.go, `HandleEvent`).
use go_dashboard.Prelude.{
  String, ◌≡◌, refl, ap, ◌∙◌, Bool, true, false, not, ◌&&◌, Option, none, List, [], ◌∷◌, arith,
  ◌==◌, eq_iff, if◌then◌else◌, select, map_where, All, ℤ, Error, Result, ok, err,
}
use go_dashboard.Trigger.{Time, Request}
use go_dashboard.Json.{RawMessage}
use go_dashboard.Workflow.Run.{Run}
use go_dashboard.Workflow.Executor.World.{
  World, Exec, pure, fail, others, store_at, attempt, continue, stored, ◌>>=◌,
}
use go_dashboard.Storage.Sql.{Conn, Ctx, statement}
use go_dashboard.Storage.Sql.Triple.{After, Triple, Triple-statement}
use go_dashboard.Storage.Slack.Rows.{SlackEventRow, SlackDb}
use go_dashboard.Storage.Slack.Events.{
  is_event, is_processing, complete_slack_event, release_slack_event, set_processed, processed_row,
  delete_claim,
}
use go_dashboard.Storage.Slack.Processed.{SaysProcessed}
use go_dashboard.Slack.Domain.{MessageInput}
use go_dashboard.Slack.Event.{EventEnvelope, MessageEvent}
use go_dashboard.Slack.Service.Delivery.{handles-claims}
use go_dashboard.Slack.Service.{
  is_unsupported, apply_input, apply_normalized, handle_event, handle_claimed, after_claim,
  is_callback, release_on_error, claim,
}

-- No claim of the event is being processed.
abbrev pub IsReleased : String → SlackDb → Type 0
IsReleased id db = All (SaysProcessed id) db.events

-- What holds when a step succeeds.
abbrev Finished : {A : Type 0} → (World → Type 0) → Result A × World → Type 0
Finished Q (ok a, w) = Q w
Finished Q (err e, w) = Unit

abbrev Ends : {A : Type 0} → (World → Type 0) → Exec A → Type 0
Ends Q m = (w : World) → Finished Q (m w)

module _ {A B : Type 0} (Q : World → Type 0) (m : Exec A) where
  -- A step that is followed by ones that end so ends so.
  Ends-bind : (f : A → Exec B) → ((a : A) → Ends Q (f a)) → Ends Q (m >>= f)
  unfolding ◌>>=◌
  Ends-bind f h w = here (m w).0 (m w).1
    where
      here : (r : Result A) (w' : World) → Finished Q (continue r f w')
      here (ok a) w' = h a w'
      here (err e) w' = tt

  Ends-pure : (b : B) → Ends Q m → Ends Q (m >>= λ _. pure b)
  unfolding ◌>>=◌
  Ends-pure b h w = here (m w).0 (m w).1 (h w)
    where
      here :
          (r : Result A) (w' : World)
          → Finished Q (r, w')
          → Finished Q (continue r (λ _. pure b) w')
      here (ok a) w' q = q
      here (err e) w' q = tt

-- A statement on the Slack tables that a service carries out.
module _ (id : String) where
  abbrev Released : World → Type 0
  Released w = IsReleased id w.conn.db.slack

  released-rows :
      (at : Time) (rows : List SlackEventRow)
      → All (SaysProcessed id) (map_where (is_event id) (processed_row at) rows)
  unfolding map_where
  released-rows at [] = tt
  released-rows at (row ∷ rows) = (here (row.event_id == id) refl, released-rows at rows)
    where
      here :
          (b : Bool)
          → row.event_id == id ≡ b
          → SaysProcessed id (if b then processed_row at row else row)
      here true e = λ _. refl
      here false e = λ same. ground (arith, eq_iff row.event_id id)

  complete-Triple :
      (ctx : Ctx) (at : Time)
      → Triple
          (λ _. Unit {0})
          (complete_slack_event ctx id at)
          (λ _ db. IsReleased id db.slack)
          (λ _ _. Unit {0})
  unfolding complete_slack_event set_processed
  complete-Triple ctx at =
      Triple-statement ctx _ (λ db _. released-rows at db.slack.events) (λ e db _. tt)

  stored-Finished :
      {A : Type 0} (w : World) (r : Result A) (conn : Conn)
      → After (λ _ db. IsReleased id db.slack) (λ _ _. Unit {0}) (r, conn)
      → Finished Released (stored w (r, conn))
  stored-Finished w (ok a) conn h = h
  stored-Finished w (err e) conn h = tt

  complete-Ends :
      (ctx : World → Ctx) → Ends Released (store_at ctx (λ c now. complete_slack_event c id now))
  unfolding store_at
  complete-Ends ctx w =
      let w' = others w in
      let (r, conn) = complete_slack_event (ctx w') id w'.clock w'.conn in
      stored-Finished w' r conn ((complete-Triple (ctx w') w'.clock).at w'.conn tt)

  unreleased-rows :
      (rows : List SlackEventRow)
      → All
          (SaysProcessed id)
          (select (λ (r : SlackEventRow). not (r.event_id == id && is_processing r.status)) rows)
  unfolding select
  unreleased-rows [] = tt
  unreleased-rows (row ∷ rows) = ground (arith, eq_iff row.event_id id, unreleased-rows rows)

module _ (digest : String → String) (ctx : World → Ctx)
    (fetch_thread : String → String → Exec (List MessageInput)) (starter : Request → Exec Run)
    (max_messages max_chars : ℤ) (decode : RawMessage → Option MessageEvent)
    (envelope : EventEnvelope) where
  abbrev handles : Exec (Option Run × Bool)
  handles = handle_event digest ctx fetch_thread starter max_messages max_chars decode envelope

  abbrev body : Exec (Option Run × Bool)
  body = handle_claimed digest ctx fetch_thread starter max_messages max_chars decode envelope

  input-Ends :
      (input : MessageInput)
      → Ends (Released envelope.event_id) (
          apply_input digest ctx fetch_thread starter max_messages max_chars envelope.event_id
            input)
  unfolding apply_input
  input-Ends input = Ends-bind _ _ _ λ placed. Ends-bind _ _ _ λ thread. Ends-bind _ _ _ λ current.
      Ends-bind _ _ _
        λ updated. Ends-bind _ _ _ λ run. Ends-pure _ _ _ (complete-Ends envelope.event_id ctx)

  normalized-Ends :
      (input : Result MessageInput)
      → Ends (Released envelope.event_id) (
          apply_normalized digest ctx fetch_thread starter max_messages max_chars envelope.event_id
            input)
  normalized-Ends (ok input) = input-Ends input
  normalized-Ends (err e) = here (is_unsupported e)
    where
      here :
          (b : Bool)
          → Ends {A = Option Run × Bool} (Released envelope.event_id) (
              if b
              then (store_at ctx (λ c now. complete_slack_event c envelope.event_id now) >>= λ _.
                  pure (none, false))
              else fail e)
      here true w = Ends-pure _ _ _ (complete-Ends envelope.event_id ctx) w
      here false w = tt

  body-Ends : Ends (Released envelope.event_id) body
  unfolding handle_claimed
  body-Ends = Ends-bind _ _ _ λ now. normalized-Ends _

  attempt-bind :
      (m : Exec (Option Run × Bool)) (f : Result (Option Run × Bool) → Exec (Option Run × Bool))
      (w : World)
      → (attempt m >>= f) w ≡ f (m w).0 (m w).1
  unfolding ◌>>=◌ attempt
  attempt-bind m f w = refl

  abbrev settles : Result (Option Run × Bool) → Exec (Option Run × Bool)
  settles =
      release_on_error digest ctx fetch_thread starter max_messages max_chars envelope.event_id

  handles-body :
      (w w1 : World)
      → is_callback envelope ≡ true
      → claim ctx envelope w ≡ (ok true, w1)
      → handles w ≡ settles (body w1).0 (body w1).1
  handles-body w w1 h c =
      handles-claims digest ctx fetch_thread starter max_messages max_chars decode envelope w h
      ∙ ap
          (λ (out : Result Bool × World).
            continue out.0
              (after_claim digest ctx fetch_thread starter max_messages max_chars decode envelope)
              out.1)
          c
      ∙ attempt-bind body settles w1

  -- A release that is not disturbed, and gives the error on.
  release-Released :
      (e : Error) (w : World)
      → (others w).conn.faults ≡ []
      → ((settles (err e) w).0 ≡ err e) × Released envelope.event_id (settles (err e) w).1
  unfolding release_slack_event delete_claim store_at attempt ◌>>=◌ statement
  release-Released e w calm = rw calm (refl, unreleased-rows envelope.event_id _)

  settles-Released :
      (r : Result (Option Run × Bool)) (w : World)
      → Finished (Released envelope.event_id) (r, w)
      → (others w).conn.faults ≡ []
      → Released envelope.event_id (settles r w).1
  settles-Released (ok outcome) w q calm = q
  settles-Released (err e) w q calm = (release-Released e w calm).1

-- A delivery that claims its event lets go of it on every path: whether it starts a run, needs none, finds
-- an event of another kind, or fails at any step, in the end no row of the event says that it is being
-- processed, if the statement of the release, which is made without the context of the call, is not
-- disturbed when the delivery has failed.
pub claim_settled :
    (digest : String → String) (ctx : World → Ctx)
    (fetch_thread : String → String → Exec (List MessageInput)) (starter : Request → Exec Run)
    (max_messages max_chars : ℤ) (decode : RawMessage → Option MessageEvent)
    (envelope : EventEnvelope) (w w1 : World)
    → is_callback envelope ≡ true
    → claim ctx envelope w ≡ (ok true, w1)
    → (others
        (handle_claimed digest ctx fetch_thread starter max_messages max_chars decode envelope
          w1).1).conn.faults
      ≡ []
    → IsReleased envelope.event_id
        (handle_event digest ctx fetch_thread starter max_messages max_chars decode envelope
          w).1.conn.db.slack
claim_settled digest ctx fetch_thread starter max_messages max_chars decode envelope w w1 h c calm =
    let (r, w2) =
      handle_claimed digest ctx fetch_thread starter max_messages max_chars decode envelope w1 in
    rw
      (handles-body digest ctx fetch_thread starter max_messages max_chars decode envelope w w1 h c)
      (settles-Released digest ctx fetch_thread starter max_messages max_chars decode envelope r w2
        (body-Ends digest ctx fetch_thread starter max_messages max_chars decode envelope w1) calm)
