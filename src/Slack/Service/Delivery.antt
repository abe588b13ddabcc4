-- ===== src/Slack/Service/Delivery.antt =====
-- Deliveries of Slack events (backend/internal/slack/service.go, `HandleEvent`).
use go_dashboard.Prelude.{
  String, ◌≡◌, refl, ◌≢◌, Bool, true, false, Option, List, ℤ, Result, ok, err,
}
use go_dashboard.Trigger.{Request}
use go_dashboard.Json.{RawMessage}
use go_dashboard.Workflow.Run.{Run}
use go_dashboard.Workflow.Executor.World.{World, Exec, others, store_at, continue, ◌>>=◌}
use go_dashboard.Storage.Sql.{Ctx}
use go_dashboard.Storage.Slack.Events.{claim_slack_event}
use go_dashboard.Storage.Slack.Processed.{IsProcessed, claim-Triple, not_claimed}
use go_dashboard.Slack.Domain.{MessageInput}
use go_dashboard.Slack.Event.{EventEnvelope, MessageEvent}
use go_dashboard.Slack.Service.{
  handle_event, handle_claimed, after_claim, is_callback, received_at, claim,
}

module _ (digest : String → String) (ctx : World → Ctx)
    (fetch_thread : String → String → Exec (List MessageInput)) (starter : Request → Exec Run)
    (max_messages max_chars : ℤ) (decode : RawMessage → Option MessageEvent)
    (envelope : EventEnvelope) where
  abbrev handles : Exec (Option Run × Bool)
  handles = handle_event digest ctx fetch_thread starter max_messages max_chars decode envelope

  abbrev body : Exec (Option Run × Bool)
  body = handle_claimed digest ctx fetch_thread starter max_messages max_chars decode envelope

  abbrev next : Bool → Exec (Option Run × Bool)
  next = after_claim digest ctx fetch_thread starter max_messages max_chars decode envelope

  abbrev claims : Exec Bool
  claims = claim ctx envelope

  pub handles-claims :
      (w : World)
      → is_callback envelope ≡ true
      → handles w ≡ continue (claims w).0 next (claims w).1
  unfolding handle_event ◌>>=◌
  handles-claims w h = rw h refl

  refused :
      (r : Result Bool) (w : World)
      → r ≢ ok true
      → ((run : Option Run) → (continue r next w).0 ≢ ok (run, true)) × ((continue r next w).1 ≡ w)
  refused (ok true) w h = absurd (h refl)
  refused (ok false) w h = (λ run e. cc, refl)
  refused (err e) w h = (λ run k. cc, refl)

  claims-refused :
      (w : World) → IsProcessed envelope.event_id (others w).conn.db.slack → (claims w).0 ≢ ok true
  unfolding ◌>>=◌ store_at
  claims-refused w q =
      let w' = others w in
      let at = received_at envelope.event_time w.clock in
      let (result, conn) = claim_slack_event (ctx w') w'.clock envelope.event_id at w'.conn in
      not_claimed envelope.event_id (ctx w') w'.clock at result conn
        ((claim-Triple envelope.event_id (ctx w') w'.clock at).at w'.conn q)

-- A delivery of an event that is marked as processed starts no run, and does nothing but the claim, which
-- does not succeed: neither the Slack API nor the workflow service is called.
pub redelivered :
    (digest : String → String) (ctx : World → Ctx)
    (fetch_thread : String → String → Exec (List MessageInput)) (starter : Request → Exec Run)
    (max_messages max_chars : ℤ) (decode : RawMessage → Option MessageEvent)
    (envelope : EventEnvelope) (w : World)
    → is_callback envelope ≡ true
    → IsProcessed envelope.event_id (others w).conn.db.slack
    → ((run : Option Run)
        → (handle_event digest ctx fetch_thread starter max_messages max_chars decode envelope w).0
          ≢ ok (run, true))
      × ((handle_event digest ctx fetch_thread starter max_messages max_chars decode envelope w).1
          ≡ (claim ctx envelope w).1)
redelivered digest ctx fetch_thread starter max_messages max_chars decode envelope w h q =
    rw (handles-claims digest ctx fetch_thread starter max_messages max_chars decode envelope w h) (
      refused digest ctx fetch_thread starter max_messages max_chars decode envelope
        (claim ctx envelope w).0 (claim ctx envelope w).1
        (claims-refused digest ctx fetch_thread starter max_messages max_chars decode envelope w q))
