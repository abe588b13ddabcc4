-- ===== src/Http/Accounted.antt =====
-- The errors of a summary, from the model (backend/internal/llm/ollama_client.go) through the service
-- (backend/internal/summary/service.go) to the handler (backend/internal/httpapi/summary_handler.go).
use go_dashboard.Prelude.{
  String, ◌≡◌, refl, ◌≢◌, Bool, true, false, not, Option, none, some, arith, ◌==◌, ltb, eqb, length,
  chars, is_blank, trim_space, Error, Result, ok, err,
}
use go_dashboard.Prelude.Results.{◌>>=◌, refuse_if}
use Prim.Native.String.{◌++◌ as concat}
use go_dashboard.Json.{RawMessage}
use go_dashboard.Storage.Sql.{Ctx}
use go_dashboard.Llm
use go_dashboard.ModelRouter.{Generation}
use go_dashboard.Llm.{OllamaClient, GenerateRequest, GenerateResponse, HttpReply}
use go_dashboard.Llm.Answers.{
  IsModelError, timed_out, cancelled, unavailable, not_installed, malformed, generate-IsModelError,
}
use go_dashboard.Summary
use go_dashboard.Summary.{
  SummaryRequest, SummaryResult, build_prompt, byte_length, checked_summary, read_summary,
  is_valid_type, max_content_length, max_generated_content_length,
}
use go_dashboard.Http.{code_of}
use go_dashboard.Http.Summaries.{
  Decoded, too_large, invalid, not_alone, decoded, summary_error, summary_reply, generate_summary,
}

-- An error that is not answered with the status 500.
abbrev IsKnown : Error → Type 0
IsKnown e = eqb (code_of (summary_error e)) 500 ≡ false

unfoldable Fails : {A : Type 0} → Result A → Type 0
Fails (ok a) = Unit
Fails (err e) = IsKnown e

Fails-refuse : (b : Bool) (e : Error) → IsKnown e → Fails (refuse_if b e)
unfolding Fails
Fails-refuse true e h = h
Fails-refuse false e h = tt

Fails-bind :
    {A B : Type 0} (first : Result A) (next : A → Result B)
    → Fails first
    → ((a : A) → Fails (next a))
    → Fails (first >>= next)
unfolding Fails
Fails-bind (ok a) next h k = k a
Fails-bind (err e) next h k = h

model-IsKnown : (e : Error) → IsModelError e → IsKnown e
unfolding summary_error
model-IsKnown e timed_out = refl
model-IsKnown e cancelled = refl
model-IsKnown e unavailable = refl
model-IsKnown e not_installed = refl
model-IsKnown e malformed = refl

module _ (to_lower : String → String) (client : OllamaClient)
    (decode : RawMessage → Option GenerateResponse) (accepts : String → Bool)
    (send : String → GenerateRequest → Result HttpReply) (ctx : Ctx)
    (read : String → Option (String × Bool))
    (accepted : accepts (concat client.base_url "/api/generate") ≡ true) where
  abbrev pub model : String → Result Generation
  model = Llm.generate to_lower client decode accepts send ctx

  model-Fails : (prompt : String) → Fails (model prompt)
  unfolding Fails
  model-Fails prompt = here (model prompt) refl
    where
      here : (r : Result Generation) → model prompt ≡ r → Fails r
      here (ok generation) h = tt
      here (err e) h =
          model-IsKnown e
            (generate-IsModelError to_lower client decode accepts send ctx prompt e accepted h).0

  checked-Fails :
      (summary_type : String) (generation : Generation) (found : Option (String × Bool))
      → Fails (checked_summary summary_type generation found)
  unfolding checked_summary Fails summary_error
  checked-Fails summary_type generation none = refl
  checked-Fails summary_type generation (some (summary, ends)) =
      Fails-bind (refuse_if (is_blank summary) _) _ (Fails-refuse _ _ refl)
        λ _. Fails-bind (refuse_if (not ends) _) _ (Fails-refuse _ _ refl) λ _. tt

  summary-Fails : (request : SummaryRequest) → Fails (Summary.generate read model request)
  unfolding Summary.generate read_summary summary_error
  summary-Fails request =
      let content = trim_space request.content in
      Fails-bind (refuse_if (content == "") _) _ (Fails-refuse _ _ refl) λ _.
        Fails-bind (refuse_if (ltb max_content_length (length (chars content))) _) _
          (Fails-refuse _ _ refl)
          λ _.
            Fails-bind (refuse_if (not (is_valid_type request.summary_type)) _) _
              (Fails-refuse _ _ refl)
              λ _.
                Fails-bind (model (build_prompt content request.summary_type)) _ (model-Fails _)
                  λ generation.
                    Fails-bind
                      (refuse_if
                        (ltb max_generated_content_length (byte_length (chars generation.content)))
                        _)
                      _ (Fails-refuse _ _ refl)
                      λ _. checked-Fails request.summary_type generation (read generation.content)

-- Where `http.NewRequestWithContext` accepts the address of the model, the summary handler, over the summary
-- service, over the client of the model, never replies with the status 500 of an unknown error, whatever the
-- body, the answer of the model and the context are.
pub generate_summary-accounted :
    (to_lower : String → String) (client : OllamaClient)
    (decode : RawMessage → Option GenerateResponse) (accepts : String → Bool)
    (send : String → GenerateRequest → Result HttpReply) (ctx : Ctx)
    (read : String → Option (String × Bool)) (body : Decoded)
    → accepts (concat client.base_url "/api/generate") ≡ true
    → code_of (
        generate_summary
          (Summary.generate read (Llm.generate to_lower client decode accepts send ctx))
          body)
      ≢ 500
unfolding generate_summary Fails
generate_summary-accounted to_lower client decode accepts send ctx read too_large accepted =
    λ h. omega arith
generate_summary-accounted to_lower client decode accepts send ctx read invalid accepted =
    λ h. omega arith
generate_summary-accounted to_lower client decode accepts send ctx read not_alone accepted =
    λ h. omega arith
generate_summary-accounted to_lower client decode accepts send ctx read (decoded request) accepted =
    here (Summary.generate read (Llm.generate to_lower client decode accepts send ctx) request)
      (summary-Fails to_lower client decode accepts send ctx read accepted request)
  where
    here : (r : Result SummaryResult) → Fails r → code_of (summary_reply r) ≢ 500
    here (ok result) h = λ k. omega arith
    here (err e) h = λ k. ground (arith, h)
