-- ===== src/Llm.antt =====
-- backend/internal/llm/client.go and ollama_client.go: the client of a language model. What sends a request
-- (`http.Client.Do`), the test of a URL that `http.NewRequestWithContext` makes, `encoding/json` and
-- `strings.ToLower` are parameters.
pub mod Answers
use go_dashboard.Prelude.{
  ℕ, zero, suc, ◌+◌, ◌-◌, ◌*◌, ◌/◌, ◌≤◌, ◌<◌, String, ◌≡◌, refl, sym, ap, ◌∙◌, subst, ◌≢◌, ◌↔◌, ◌⊎◌,
  inl, inr, Bool, true, false, not, ◌&&◌, ◌||◌, Option, none, some, List, [], ◌∷◌, ◌++◌, map, arith,
  ◌==◌, eq_iff, eq_refl, ltb, leb, eqb, if◌then◌else◌, Bool-cases, Option-cases, length, get_elem?,
  select, find, any, count, map_where, length-append, All, All-append, take, length-take-le, chars,
  of_chars, chars-of_chars, ℤ, pos, negsuc, is_pos, is_neg, to_ℕ, eq_ℤ, lt_ℤ, is_blank, trim_space,
  cut_prefix, str_lt, Error, Flaw, Result, ok, err, ltb→lt, lt→ltb, leb→le,
}
use go_dashboard.Prelude.Results.{◌>>=◌, ◌>>◌, refuse_if, >>=-eq-ok, Result-cases}
use Prim.Native.String.{◌++◌ as concat}
use Prim.Native.Char.{Char, code}
use go_dashboard.Json.{RawMessage}
use go_dashboard.Storage.Sql.{Ctx}
use go_dashboard.ModelRouter.{Generation, ProviderStatus}

pub record OllamaClient : Type 0 where
  pub base_url : String
  pub model : String
  pub keep_alive : String

-- `ollamaGenerateRequest`
pub record GenerateRequest : Type 0 where
  pub model : String
  pub prompt : String
  pub stream : Bool
  pub format : String
  pub think : Bool
  pub keep_alive : String

-- `ollamaGenerateResponse`
pub record GenerateResponse : Type 0 where
  pub model : String
  pub response : String
  pub error : String

pub record HttpReply : Type 0 where
  pub status_code : ℕ
  pub body : RawMessage

-- The optional arguments of `NewOllamaClient` are a list.
unfoldable pub new_ollama_client : String → String → List String → OllamaClient
new_ollama_client base_url model [] = record {
  base_url = base_url;
  model = model;
  keep_alive = "-1m";
}
new_ollama_client base_url model (keep_alive ∷ _) = record {
  base_url = base_url;
  model = model;
  keep_alive = if keep_alive == "" then "-1m" else keep_alive;
}

abbrev pub is_success : ℕ → Bool
is_success status = leb 200 status && ltb status 300

abbrev is_deadline : Error → Bool
is_deadline Error.deadline_exceeded = true
is_deadline _ = false

abbrev is_canceled : Error → Bool
is_canceled Error.canceled = true
is_canceled _ = false

abbrev ended_with : (Error → Bool) → Ctx → Bool
ended_with is none = false
ended_with is (some e) = is e

-- The error of a request that is not sent, or not answered; `ctx` is the context after it.
unfoldable pub send_error : Ctx → Error → Error
send_error ctx e =
    if is_deadline e || ended_with is_deadline ctx
    then Error.deadline_exceeded
    else if is_canceled e || ended_with is_canceled ctx
    then Error.canceled
    else Error.provider_unavailable

-- `strings.HasPrefix` and `strings.Contains`, on characters.
unfoldable pub starts_with : List Char → List Char → Bool
starts_with [] s = true
starts_with (p ∷ ps) [] = false
starts_with (p ∷ ps) (c ∷ cs) = let rest = starts_with ps cs in eqb (code p) (code c) && rest

unfoldable pub contains : List Char → List Char → Bool
contains part [] = starts_with part []
contains part (c ∷ cs) = let rest = contains part cs in starts_with part (c ∷ cs) || rest

abbrev pub request_of : OllamaClient → String → GenerateRequest
request_of client prompt = record {
  model = client.model;
  prompt = prompt;
  stream = false;
  format = "json";
  think = false;
  keep_alive = client.keep_alive;
}

module _ (to_lower : String → String) (client : OllamaClient) where
  abbrev pub mentions_model : GenerateResponse → Bool
  mentions_model result = contains (chars "model") (chars (to_lower result.error))

  -- What a body that does not parse, or one that does, comes to.
  unfoldable pub read_generation : ℕ → Option GenerateResponse → Result Generation
  read_generation status none =
      if eqb status 404
      then err Error.model_not_found
      else if not (is_success status)
      then err Error.provider_unavailable
      else err Error.invalid_response
  read_generation status (some result) =
      if not (is_success status)
      then (if eqb status 404 || mentions_model result
          then err Error.model_not_found
          else err Error.provider_unavailable)
      else if is_blank result.response
      then err Error.invalid_response
      else ok (record {
        content = result.response;
        model = if result.model == "" then client.model else result.model;
      })

  module _ (decode : RawMessage → Option GenerateResponse) where
    abbrev pub read_reply : Ctx → Result HttpReply → Result Generation
    read_reply ctx (err e) = err (send_error ctx e)
    read_reply ctx (ok reply) = read_generation reply.status_code (decode reply.body)

    -- `ctx` is what the context says when `send` returns.
    unfoldable pub generate :
        (String → Bool)
        → (String → GenerateRequest → Result HttpReply)
        → Ctx
        → String
        → Result Generation
    generate accepts send ctx prompt =
        if accepts (concat client.base_url "/api/generate")
        then read_reply ctx
            (send (concat client.base_url "/api/generate") (request_of client prompt))
        else err (Error.failure "create Ollama request")

-- A model that is installed, by its two names.
abbrev pub Installed : Type 0
Installed = String × String

unfoldable pub is_installed : String → List Installed → Bool
is_installed model [] = false
is_installed model ((name, other) ∷ rest) =
    let later = is_installed model rest in if name == model || other == model then true else later

abbrev pub found_model : String → Option (List Installed) → Bool
found_model model none = false
found_model model (some tags) = is_installed model tags

module _ (client : OllamaClient) (decode : RawMessage → Option (List Installed)) where
  abbrev pub unavailable_status : ProviderStatus
  unavailable_status = record { available = false; model = client.model; model_available = false }

  abbrev pub read_status : Result HttpReply → ProviderStatus
  read_status (err e) = unavailable_status
  read_status (ok reply) =
      if not (is_success reply.status_code) then unavailable_status else record {
        available = true;
        model = client.model;
        model_available = found_model client.model (decode reply.body);
      }

  unfoldable pub status : (String → Bool) → (String → Result HttpReply) → ProviderStatus
  status accepts send =
      if accepts (concat client.base_url "/api/tags")
      then read_status (send (concat client.base_url "/api/tags"))
      else unavailable_status
