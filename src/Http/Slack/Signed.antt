-- ===== src/Http/Slack/Signed.antt =====
-- Slack events and their signatures (backend/internal/httpapi/slack_handler.go, `Events` and
-- `VerifySlackSignature`).
use go_dashboard.Prelude.{
  ℕ, ◌≤◌, String, ◌≡◌, refl, ◌⊎◌, inl, inr, Bool, true, false, not, ◌&&◌, Option, none, some, arith,
  ◌==◌, eq_iff, if◌then◌else◌, ℤ, pos, is_blank, Result, ok,
}
use go_dashboard.Prelude.{parse_int}
use go_dashboard.Trigger.{Time}
use go_dashboard.Workflow.Executor.World.{World, pure}
use go_dashboard.Slack.Event.{EventEnvelope}
use go_dashboard.Slack.Timestamp.{unix_time}
use go_dashboard.Http.{Reply, refuses}
use go_dashboard.Http.Slack.{
  SlackApplication, EventRequest, EventBody, is_close, expected_signature, checked_signature,
  verify_slack_signature, events, configured, received, dispatch, not_configured,
}

module _ (hmac : String → String → String) where
  -- A request with a body that is signed with the secret, at a timestamp that is close to the present time.
  abbrev pub IsSigned : String → EventRequest → Time → Type 0
  IsSigned secret request now =
      (body : String) × (request.body ≡ some body)
      × (seconds : ℤ) × (parse_int request.timestamp ≡ some seconds)
      × (is_close now (unix_time seconds (pos 0)) ≡ true)
      × (expected_signature hmac secret request.timestamp body ≡ request.signature)
      × (is_blank secret ≡ false)

  abbrev IsChecked : String → String → String → String → Time → Option ℤ → Type 0
  IsChecked secret timestamp signature body now parsed =
      (seconds : ℤ) × (parsed ≡ some seconds)
      × (is_close now (unix_time seconds (pos 0)) ≡ true)
      × (expected_signature hmac secret timestamp body ≡ signature)
      × (is_blank secret ≡ false)

  all_checked :
      (blank prefix close same : Bool)
      → (not blank && prefix && close && same) ≡ true
      → (blank ≡ false) × (close ≡ true) × (same ≡ true)
  all_checked true prefix close same h = absurd cc
  all_checked false false close same h = absurd cc
  all_checked false true false same h = absurd cc
  all_checked false true true false h = absurd cc
  all_checked false true true true h = (refl, refl, refl)

  checked :
      (secret timestamp signature body : String) (now : Time) (parsed : Option ℤ)
      → checked_signature hmac secret timestamp signature body now parsed ≡ true
      → IsChecked secret timestamp signature body now parsed
  checked secret timestamp signature body now none h = absurd cc
  checked secret timestamp signature body now (some seconds) h =
      let (named, close, same) =
        all_checked (is_blank secret) _ (is_close now (unix_time seconds (pos 0))) _ h in
      (seconds, refl, close, (eq_iff _ _).0 same, named)

  abbrev pub IsRefused : World → Result (Reply EventBody) × World → Type 0
  IsRefused w out =
      (status : ℕ) × (code message : String) × (out ≡ (ok (refuses status code message), w))
      × (400 ≤ status)

  module _ (decode : String → Option EventEnvelope) (secret : String) where
    events_lem :
        (application : Option SlackApplication) (request : EventRequest) (w : World)
        → IsSigned secret request w.clock
          ⊎ IsRefused w (configured hmac decode secret application w.clock request w)
    unfolding verify_slack_signature
    events_lem none request w = inr (503, _, _, refl, omega arith)
    events_lem (some application) request w = configured_lem (secret == "")
      where
        verified_lem :
            (body : String) (b : Bool)
            → request.body ≡ some body
            → verify_slack_signature hmac secret request.timestamp request.signature body w.clock
              ≡ b
            → IsSigned secret request w.clock
              ⊎ IsRefused w (
                  (if b
                      then dispatch hmac decode application (decode body)
                      else pure (
                          refuses 401 "invalid_slack_signature"
                            "Slack request signature is invalid."))
                    w)
        verified_lem body true e h =
            let (seconds, parsed, close, signed, named) =
              checked secret request.timestamp request.signature body w.clock
                (parse_int request.timestamp) h in
            inl (body, e, seconds, parsed, close, signed, named)
        verified_lem body false e h = inr (401, _, _, refl, omega arith)

        received_lem :
            (body : Option String)
            → request.body ≡ body
            → IsSigned secret request w.clock
              ⊎ IsRefused w (received hmac decode secret application w.clock request body w)
        received_lem none e = inr (400, _, _, refl, omega arith)
        received_lem (some body) e =
            verified_lem body
              (verify_slack_signature hmac secret request.timestamp request.signature body w.clock)
              e refl

        configured_lem :
            (b : Bool)
            → IsSigned secret request w.clock
              ⊎ IsRefused w (
                  (if b
                      then pure not_configured
                      else received hmac decode secret application w.clock request request.body)
                    w)
        configured_lem true = inr (503, _, _, refl, omega arith)
        configured_lem false = received_lem request.body refl

-- A request to the events handler that is not signed does nothing: either its body is signed with the
-- configured secret, which is not blank, at a timestamp within five minutes of the present time, or it gets an
-- error, of status 400 or higher, and the world is as it was: the application is not called.
pub events-IsSigned :
    (hmac : String → String → String) (decode : String → Option EventEnvelope) (secret : String)
    (application : Option SlackApplication) (request : EventRequest) (w : World)
    → IsSigned hmac secret request w.clock
      ⊎ IsRefused hmac w (events hmac decode secret application request w)
unfolding events
events-IsSigned hmac decode secret application request w =
    events_lem hmac decode secret application request w
