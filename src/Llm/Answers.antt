-- ===== src/Llm/Answers.antt =====
-- What the model's client returns (backend/internal/llm/ollama_client.go), and how the executor
-- (backend/internal/workflow/executor.go, `errorCategory`) names its errors.
use go_dashboard.Prelude.{
  ℕ, String, ◌≡◌, refl, subst, Bool, true, false, not, ◌||◌, Option, none, some, ◌==◌, eqb,
  if◌then◌else◌, is_blank, Error, Result, ok, err,
}
use Prim.Native.String.{◌++◌ as concat}
use go_dashboard.Json.{RawMessage}
use go_dashboard.Storage.Sql.{Ctx}
use go_dashboard.Workflow.Executor.Execute.{error_category}
use go_dashboard.ModelRouter.{Generation}
use go_dashboard.Llm.{
  OllamaClient, GenerateRequest, GenerateResponse, HttpReply, is_success, send_error,
  mentions_model, read_generation, read_reply, generate, request_of, is_deadline, is_canceled,
  ended_with,
}

-- An error that has a category of its own.
abbrev pub IsCategorized : Error → Type 0
IsCategorized e = error_category e == "capability_failed" ≡ false

-- The errors of the client.
pub data IsModelError : Error → Type 0 where
  timed_out : IsModelError Error.deadline_exceeded
  cancelled : IsModelError Error.canceled
  unavailable : IsModelError Error.provider_unavailable
  not_installed : IsModelError Error.model_not_found
  malformed : IsModelError Error.invalid_response

categorized : (e : Error) → IsModelError e → IsCategorized e
unfolding error_category
categorized e timed_out = refl
categorized e cancelled = refl
categorized e unavailable = refl
categorized e not_installed = refl
categorized e malformed = refl

-- What is said of an outcome: an answer is not blank and names a model, an error has its own category.
unfoldable pub IsAccounted : OllamaClient → Result Generation → Type 0
IsAccounted client (ok generation) =
    (is_blank generation.content ≡ false)
    × (client.model == "" ≡ false → generation.model == "" ≡ false)
IsAccounted client (err e) = IsModelError e

send_error-IsModelError : (ctx : Ctx) (e : Error) → IsModelError (send_error ctx e)
unfolding send_error
send_error-IsModelError ctx e =
    here (is_deadline e || ended_with is_deadline ctx) (is_canceled e || ended_with is_canceled ctx)
  where
    here :
        (b c : Bool)
        → IsModelError (
            if b
            then Error.deadline_exceeded
            else if c
            then Error.canceled
            else Error.provider_unavailable)
    here true c = timed_out
    here false true = cancelled
    here false false = unavailable

module _ (to_lower : String → String) (client : OllamaClient) where
  named :
      (s : String)
      → client.model == "" ≡ false
      → (if s == "" then client.model else s) == "" ≡ false
  named s h = here (s == "") refl
    where
      here : (b : Bool) → s == "" ≡ b → (if b then client.model else s) == "" ≡ false
      here true e = h
      here false e = e

  read-IsAccounted :
      (status : ℕ) (decoded : Option GenerateResponse)
      → IsAccounted client (read_generation to_lower client status decoded)
  unfolding read_generation IsAccounted error_category
  read-IsAccounted status none = here (eqb status 404) (is_success status)
    where
      here :
          (b c : Bool)
          → IsAccounted client (
              if b
              then err Error.model_not_found
              else if not c
              then err Error.provider_unavailable
              else err Error.invalid_response)
      here true c = not_installed
      here false true = malformed
      here false false = unavailable
  read-IsAccounted status (some result) =
      here (is_success status) (eqb status 404 || mentions_model to_lower client result)
        (is_blank result.response) refl
    where
      here :
          (b c d : Bool)
          → is_blank result.response ≡ d
          → IsAccounted client (
              if not b
              then (if c then err Error.model_not_found else err Error.provider_unavailable)
              else if d
              then err Error.invalid_response
              else ok (record {
                content = result.response;
                model = if result.model == "" then client.model else result.model;
              }))
      here false true d e = not_installed
      here false false d e = unavailable
      here true c true e = malformed
      here true c false e = (e, named result.model)

pub account :
    (to_lower : String → String) (client : OllamaClient)
    (decode : RawMessage → Option GenerateResponse) (accepts : String → Bool)
    (send : String → GenerateRequest → Result HttpReply) (ctx : Ctx) (prompt : String)
    → accepts (concat client.base_url "/api/generate") ≡ true
    → IsAccounted client (generate to_lower client decode accepts send ctx prompt)
unfolding generate IsAccounted
account to_lower client decode accepts send ctx prompt h =
    rw h (here (send (concat client.base_url "/api/generate") (request_of client prompt)))
  where
    here : (r : Result HttpReply) → IsAccounted client (read_reply to_lower client decode ctx r)
    here (ok reply) = read-IsAccounted to_lower client reply.status_code (decode reply.body)
    here (err e) = send_error-IsModelError ctx e

-- A call of the model at an address that `http.NewRequestWithContext` accepts, when it fails, whether in
-- sending, by its context, or by its reply, fails with one of the five errors of the client, and the
-- executor has a category for each of them other than the one of unknown failures.
pub generate-IsModelError :
    (to_lower : String → String) (client : OllamaClient)
    (decode : RawMessage → Option GenerateResponse) (accepts : String → Bool)
    (send : String → GenerateRequest → Result HttpReply) (ctx : Ctx) (prompt : String) (e : Error)
    → accepts (concat client.base_url "/api/generate") ≡ true
    → generate to_lower client decode accepts send ctx prompt ≡ err e
    → IsModelError e × IsCategorized e
unfolding IsAccounted
generate-IsModelError to_lower client decode accepts send ctx prompt e accepted h =
    here (generate to_lower client decode accepts send ctx prompt)
      (account to_lower client decode accepts send ctx prompt accepted) h
  where
    here :
        (r : Result Generation)
        → IsAccounted client r
        → r ≡ err e
        → IsModelError e × IsCategorized e
    here (ok generation) a k = absurd cc
    here (err x) a k =
        let same : x ≡ e = cc in let is = subst IsModelError same a in (is, categorized e is)
