-- ===== src/Tests/Services.antt =====
-- The theorems on the configuration, the capabilities, the summaries and the HTTP API at concrete inputs.
use go_dashboard.Prelude.{
  ℕ, zero, suc, ◌+◌, ◌-◌, ◌*◌, ◌/◌, ◌≤◌, ◌<◌, String, ◌≡◌, refl, sym, ap, ◌∙◌, subst, ◌≢◌, ◌↔◌, ◌⊎◌,
  inl, inr, Bool, true, false, not, ◌&&◌, ◌||◌, Option, none, some, List, [], ◌∷◌, ◌++◌, map, arith,
  ◌==◌, eq_iff, eq_refl, ltb, leb, eqb, if◌then◌else◌, Bool-cases, Option-cases, length, get_elem?,
  select, find, any, count, map_where, length-append, All, All-append, take, length-take-le, chars,
  of_chars, chars-of_chars, ℤ, pos, negsuc, is_pos, is_neg, to_ℕ, eq_ℤ, lt_ℤ, is_blank, trim_space,
  cut_prefix, str_lt, Error, Flaw, Result, ok, err, ltb→lt, lt→ltb, leb→le,
}
use go_dashboard.Prelude as Shared
use go_dashboard.Trigger.{StringMap, get}
use go_dashboard.Json.{RawMessage, absent}
use go_dashboard.Storage.Db
use go_dashboard.Workflow.Executor.World.{World}
use go_dashboard.Config as Config
use go_dashboard.Config.{Url, SlackConfig, load}
use go_dashboard.Config.Checked.{IsSound, load-IsSound}
use go_dashboard.Llm as Llm
use go_dashboard.ModelRouter.{Generation}
use go_dashboard.Llm.{OllamaClient, GenerateRequest, GenerateResponse, HttpReply}
use go_dashboard.Llm.Answers.{IsModelError, IsCategorized, generate-IsModelError}
use go_dashboard.Summary as Summary
use go_dashboard.Summary.{SummaryRequest, SummaryResult}
use go_dashboard.Summary.Accepted.{IsSummaryOf, generate-IsSummaryOf}
use go_dashboard.Capability.{Output}
use go_dashboard.Capability.Text as Text
use go_dashboard.Capability.Text.{
  new_summarize_text, new_extract_action_items, compose_dashboard_result,
}
use go_dashboard.Capability.Classify as Classify
use go_dashboard.Capability.Classify.{
  Float64, Classification, classify, classify_text, encode_classification,
}
use go_dashboard.Capability.Sound.{
  IsGuarded, IsClassified, capabilities-IsGuarded, classify-IsClassified,
}
use go_dashboard.Http.{code_of}
use go_dashboard.Http.Summaries.{decoded, generate_summary}
use go_dashboard.Http.Accounted.{generate_summary-accounted}
use go_dashboard.Http.Slack.{EventRequest, events}
use go_dashboard.Http.Slack.Signed.{IsSigned, IsRefused, events-IsSigned}

abbrev settings : StringMap
settings =
    ("APP_ENV", "test")
    ∷ ("HTTP_PORT", "8080")
    ∷ ("OLLAMA_BASE_URL", "http://ollama")
    ∷ ("OLLAMA_MODEL", "llama3")
    ∷ ("FRONTEND_ORIGIN", "http://web")
    ∷ []

abbrev environment : String → String
environment name = get name settings

abbrev durations : String → Option ℤ
durations text = some (pos 60)

abbrev urls : String → Option Url
urls text = some (record { scheme = "http"; host = "host"; raw_query = ""; fragment = "" })

abbrev outcome : Result Config.Config
outcome = load environment durations urls

abbrev config_of : Result Config.Config → Config.Config
config_of (ok config) = config
config_of (err e) = record {
  app_env = "";
  http_port = "";
  ollama_base_url = "";
  ollama_model = "";
  ollama_timeout = pos 0;
  ollama_keep_alive = "";
  frontend_origin = "";
  database_path = "";
  model_profiles = [];
  slack = record {
    signing_secret = "";
    bot_token = "";
    api_base_url = "";
    request_timeout = pos 0;
    max_context_messages = pos 0;
    max_context_chars = pos 0;
  };
  attachment_storage_path = "";
}

load_example : IsSound environment durations urls (config_of outcome)
unfolding load Config.check_missing Config.missing_names trim_space get Shared.trim_slashes
    Shared.parse_int Config.validate_http_url Config.positive_duration_setting
    Config.duration_setting Config.load_slack Config.positive_int_setting
load_example = load-IsSound environment durations urls (config_of outcome) refl

abbrev brief : SummaryRequest
brief = record { content = " notes "; summary_type = "brief" }

abbrev llama : String → Result Generation
llama prompt = ok (record { content = "{}"; model = "llama3" })

abbrev reads : String → Option (String × Bool)
reads text = some ("short", true)

abbrev result : SummaryResult
result = record { summary = "short"; summary_type = "brief"; model = "llama3" }

generate_example : IsSummaryOf reads llama brief result
unfolding Summary.generate Summary.read_summary Summary.checked_summary Summary.is_valid_type
    Summary.byte_length trim_space is_blank
generate_example = generate-IsSummaryOf reads llama brief result refl

abbrev client : OllamaClient
client = record { base_url = "http://ollama"; model = "llama3"; keep_alive = "-1m" }

abbrev lowers : String → String
lowers s = s

abbrev not_json : RawMessage → Option GenerateResponse
not_json raw = none

abbrev any_address : String → Bool
any_address url = true

abbrev missing : String → GenerateRequest → Result HttpReply
missing url request = ok (record { status_code = 404; body = absent })

generate-IsModelError_example :
    IsModelError Error.model_not_found × IsCategorized Error.model_not_found
unfolding Llm.generate Llm.read_generation
generate-IsModelError_example =
    generate-IsModelError lowers client not_json any_address missing none "prompt"
      Error.model_not_found refl refl

generate_summary_example :
    code_of (
      generate_summary
        (Summary.generate reads (Llm.generate lowers client not_json any_address missing none))
        (decoded brief))
    ≢ 500
generate_summary_example =
    generate_summary-accounted lowers client not_json any_address missing none reads (decoded brief)
      refl

abbrev schemas : String → RawMessage × RawMessage
schemas name = (absent, absent)

abbrev contents : RawMessage → Option String
contents raw = some "text"

abbrev generator : ℕ → String → SummaryRequest → Result SummaryResult
generator calls profile request = ok result

abbrev pairs : RawMessage → Option (SummaryResult × SummaryResult)
pairs raw = some (result, result)

abbrev shown : Float64 → String
shown x = "0.875"

abbrev seven_eighths : Float64
seven_eighths = record { negative = false; mantissa = 7; exponent = negsuc 2 }

abbrev update : Classification
update = record { category = "update"; confidence = seven_eighths; reason = "news"; model = "" }

abbrev classifies : String → Option (Classification × Bool)
classifies text = some (update, true)

abbrev model : ℕ → String → String → Result Generation
model calls profile prompt = ok (record { content = "{}"; model = "llama3" })

capabilities_example : All IsGuarded (
    new_summarize_text schemas contents generator
    ∷ new_extract_action_items schemas contents generator
    ∷ compose_dashboard_result schemas contents pairs
    ∷ classify_text shown contents classifies model (schemas "classify_text")
    ∷ [])
capabilities_example =
    capabilities-IsGuarded schemas contents generator pairs shown classifies model

abbrev classified : Output
classified = record {
  content = encode_classification shown (record update { model = "llama3" });
  artifact_type = "classify_text";
  model = "llama3";
  prompt_version = "classify-text-v1";
}

classify_example : IsClassified shown contents classifies model 0 "general" absent classified
unfolding classify Classify.below_zero Classify.above_one Text.validate_text
    Classify.check_classification Classify.is_allowed any is_blank trim_space
classify_example =
    classify-IsClassified shown contents classifies model 0 "general" absent classified refl

abbrev unsigned : EventRequest
unsigned = record { timestamp = "10"; signature = "v0=00"; body = some "{}" }

abbrev world : World
world = record {
  conn = record { db = Db.empty; faults = [] };
  worker_ctx = none;
  task_ctx = none;
  run_ctx = none;
  user_cancelled = false;
  active_id = "";
  started = true;
  wake = false;
  clock = 7_000_000;
  drawn = 0;
  calls = 0;
  script = [];
}

events_example :
    IsSigned (λ key text. "ff") "secret" unsigned 7_000_000
    ⊎ IsRefused
        (λ key text. "ff")
        world
        (events (λ key text. "ff") (λ body. none) "secret" none unsigned world)
events_example = events-IsSigned (λ key text. "ff") (λ body. none) "secret" none unsigned world
