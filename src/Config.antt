-- ===== src/Config.antt =====
-- backend/internal/config/config.go: the configuration. The environment (`os.Getenv`),
-- `time.ParseDuration`, in nanoseconds, and `url.Parse` are parameters.
pub mod Checked
use go_dashboard.Prelude.{
  ℕ, zero, suc, ◌+◌, ◌-◌, ◌*◌, ◌/◌, ◌≤◌, ◌<◌, String, ◌≡◌, refl, sym, ap, ◌∙◌, subst, ◌≢◌, ◌↔◌, ◌⊎◌,
  inl, inr, Bool, true, false, not, ◌&&◌, ◌||◌, Option, none, some, List, [], ◌∷◌, ◌++◌, map, arith,
  ◌==◌, eq_iff, eq_refl, ltb, leb, eqb, if◌then◌else◌, Bool-cases, Option-cases, length, get_elem?,
  select, find, any, count, map_where, length-append, All, All-append, take, length-take-le, chars,
  of_chars, chars-of_chars, ℤ, pos, negsuc, is_pos, is_neg, to_ℕ, eq_ℤ, lt_ℤ, is_blank, trim_space,
  cut_prefix, str_lt, Error, Flaw, Result, ok, err, ltb→lt, lt→ltb, leb→le,
}
use go_dashboard.Prelude.Results.{◌>>=◌, ◌>>◌, refuse_if, >>=-eq-ok, Result-cases}
use go_dashboard.Prelude.{parse_int, trim_slashes, join}
use Prim.Native.String.{◌++◌ as concat}

pub record SlackConfig : Type 0 where
  pub signing_secret : String
  pub bot_token : String
  pub api_base_url : String
  pub request_timeout : ℤ
  pub max_context_messages : ℤ
  pub max_context_chars : ℤ

unfoldable pub slack_enabled : SlackConfig → Bool
slack_enabled config = not (config.signing_secret == "") && not (config.bot_token == "")

pub record ModelProfile : Type 0 where
  pub provider : String
  pub model : String
  pub timeout : ℤ
  pub keep_alive : String

pub record Config : Type 0 where
  pub app_env : String
  pub http_port : String
  pub ollama_base_url : String
  pub ollama_model : String
  pub ollama_timeout : ℤ
  pub ollama_keep_alive : String
  pub frontend_origin : String
  pub database_path : String
  pub model_profiles : List (String × ModelProfile)
  pub slack : SlackConfig
  pub attachment_storage_path : String

-- The parts of a `url.URL` that are looked at.
pub record Url : Type 0 where
  pub scheme : String
  pub host : String
  pub raw_query : String
  pub fragment : String

abbrev failure : {A : Type 0} → String → Result A
failure text = err (Error.failure text)

abbrev pub fail_if : Bool → String → Result (Unit {0})
fail_if b text = refuse_if b (Error.failure text)

abbrev pub is_empty : String → Bool
is_empty s = s == ""

-- The names whose values are empty.
unfoldable pub missing_names : List (String × String) → List String
missing_names [] = []
missing_names ((name, value) ∷ rest) =
    let others = missing_names rest in if is_empty value then name ∷ others else others

unfoldable pub check_missing : List String → Result (Unit {0})
check_missing [] = ok tt
check_missing (name ∷ names) =
    failure (concat "required environment variables are missing: " (join ", " (name ∷ names)))

abbrev pub is_port : Option ℤ → Bool
is_port none = false
is_port (some port) = not (lt_ℤ port (pos 1)) && not (lt_ℤ (pos 65535) port)

abbrev pub or_fallback : String → String → String
or_fallback fallback value = if is_empty value then fallback else value

abbrev pub is_positive : Option ℤ → Bool
is_positive none = false
is_positive (some n) = is_pos n

abbrev pub is_some : {A : Type 0} → Option A → Bool
is_some none = false
is_some (some a) = true

abbrev pub differ : Bool → Bool → Bool
differ true b = not b
differ false b = b

module _ (parse_url : String → Option Url) where
  abbrev pub is_http_url : Option Url → Bool
  is_http_url none = false
  is_http_url (some url) =
      not (is_empty url.host) && (url.scheme == "http" || url.scheme == "https")

  abbrev pub has_no_suffix : Option Url → Bool
  has_no_suffix none = true
  has_no_suffix (some url) = is_empty url.raw_query && is_empty url.fragment

  unfoldable pub validate_http_url : String → String → Result (Unit {0})
  validate_http_url name value =
      fail_if (not (is_http_url (parse_url value))) (concat name " must be a valid HTTP(S) URL")
      >> fail_if (not (has_no_suffix (parse_url value)))
          (concat name " must not contain a query or fragment")

module _ (getenv : String → String) where
  abbrev pub setting : String → String
  setting name = trim_space (getenv name)

  abbrev pub url_setting : String → String
  url_setting name = trim_slashes (setting name)

  abbrev pub parsed_int : String → Option ℤ → Result ℤ
  parsed_int name none = failure (concat name " must be a positive integer")
  parsed_int name (some n) =
      if is_pos n then ok n else failure (concat name " must be a positive integer")

  unfoldable pub positive_int_setting : String → ℤ → Result ℤ
  positive_int_setting name fallback =
      if is_empty (setting name) then ok fallback else parsed_int name (parse_int (setting name))

  module _ (parse_duration : String → Option ℤ) where
    abbrev pub duration_or : String → String → String → Result String
    duration_or name fallback text =
        let value = or_fallback fallback (setting name) in
        fail_if (not (is_some (parse_duration value))) text >> ok value

    unfoldable pub duration_setting : String → String → Result String
    duration_setting name fallback = duration_or name fallback (concat name " must be a duration")

    abbrev pub positive_duration : String → Option ℤ → Result ℤ
    positive_duration name none = failure (concat name " must be a positive duration")
    positive_duration name (some n) =
        if is_pos n then ok n else failure (concat name " must be a positive duration")

    unfoldable pub positive_duration_setting : String → String → Result ℤ
    positive_duration_setting name fallback =
        positive_duration name (parse_duration (or_fallback fallback (setting name)))

    module _ (parse_url : String → Option Url) where
      unfoldable pub load_slack : Result SlackConfig
      load_slack = do
        let secret = setting "SLACK_SIGNING_SECRET"
        let token = setting "SLACK_BOT_TOKEN"
        let base_url = or_fallback "https://slack.com/api" (url_setting "SLACK_API_BASE_URL")
        validate_http_url parse_url "SLACK_API_BASE_URL" base_url
        fail_if (differ (is_empty secret) (is_empty token))
            "SLACK_SIGNING_SECRET and SLACK_BOT_TOKEN must be configured together"
        timeout ← positive_duration_setting "SLACK_REQUEST_TIMEOUT" "15s"
        messages ← positive_int_setting "SLACK_MAX_CONTEXT_MESSAGES" (pos 200)
        characters ← positive_int_setting "SLACK_MAX_CONTEXT_CHARS" (pos 50000)
        fail_if (lt_ℤ characters (pos 1000)) "SLACK_MAX_CONTEXT_CHARS must be at least 1000"
        ok (record {
          signing_secret = secret;
          bot_token = token;
          api_base_url = base_url;
          request_timeout = timeout;
          max_context_messages = messages;
          max_context_chars = characters;
        })

      abbrev pub profiles :
          String → String → String → ℤ → String → String → String → List (String × ModelProfile)
      profiles general coding reasoning timeout keep_alive coding_keep_alive reasoning_keep_alive =
          (
            "general",
            record {
              provider = "ollama";
              model = general;
              timeout = timeout;
              keep_alive = keep_alive;
            },
          )
          ∷ (
            "coding",
            record {
              provider = "ollama";
              model = coding;
              timeout = timeout;
              keep_alive = coding_keep_alive;
            },
          )
          ∷ (
            "reasoning",
            record {
              provider = "ollama";
              model = reasoning;
              timeout = timeout;
              keep_alive = reasoning_keep_alive;
            },
          )
          ∷ []

      abbrev pub required : List (String × String)
      required =
          ("APP_ENV", setting "APP_ENV")
          ∷ ("HTTP_PORT", setting "HTTP_PORT")
          ∷ ("OLLAMA_BASE_URL", url_setting "OLLAMA_BASE_URL")
          ∷ ("OLLAMA_MODEL", setting "OLLAMA_MODEL")
          ∷ ("FRONTEND_ORIGIN", url_setting "FRONTEND_ORIGIN")
          ∷ []

      unfoldable pub load : Result Config
      load = do
        check_missing (missing_names required)
        fail_if (not (is_port (parse_int (setting "HTTP_PORT"))))
            "HTTP_PORT must be an integer between 1 and 65535"
        validate_http_url parse_url "OLLAMA_BASE_URL" (url_setting "OLLAMA_BASE_URL")
        validate_http_url parse_url "FRONTEND_ORIGIN" (url_setting "FRONTEND_ORIGIN")
        timeout ← positive_duration_setting "OLLAMA_GENERATE_TIMEOUT" "60s"
        keep_alive ←
            duration_or "OLLAMA_KEEP_ALIVE" "-1m"
              "OLLAMA_KEEP_ALIVE must be a duration such as 30m, -1m, or 0s"
        coding_keep_alive ← duration_setting "OLLAMA_CODING_KEEP_ALIVE" "15m"
        reasoning_keep_alive ← duration_setting "OLLAMA_REASONING_KEEP_ALIVE" "0s"
        slack ← load_slack
        ok (record {
          app_env = setting "APP_ENV";
          http_port = setting "HTTP_PORT";
          ollama_base_url = url_setting "OLLAMA_BASE_URL";
          ollama_model = setting "OLLAMA_MODEL";
          ollama_timeout = timeout;
          ollama_keep_alive = keep_alive;
          frontend_origin = url_setting "FRONTEND_ORIGIN";
          database_path = or_fallback "./data/dashboard.db" (setting "DATABASE_PATH");
          model_profiles =
              profiles (setting "OLLAMA_MODEL")
                (or_fallback "qwen2.5-coder:7b" (setting "OLLAMA_CODING_MODEL"))
                (or_fallback "deepseek-r1:8b" (setting "OLLAMA_REASONING_MODEL")) timeout keep_alive
                coding_keep_alive reasoning_keep_alive;
          slack = slack;
          attachment_storage_path =
              or_fallback "./data/attachments" (setting "ATTACHMENT_STORAGE_PATH");
        })
