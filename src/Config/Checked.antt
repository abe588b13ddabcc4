-- ===== src/Config/Checked.antt =====
-- Configurations that `Load` accepts (backend/internal/config/config.go).
use go_dashboard.Prelude.{
  String, ◌≡◌, refl, subst, Bool, true, false, not, Option, none, some, List, [], ◌∷◌,
  if◌then◌else◌, All, ℤ, pos, is_pos, lt_ℤ, Error, ok, err,
}
use go_dashboard.Prelude.Results.{
  not-false, Provides, Provides-value, Provides-bind, Provides-ok, refuse_if, refuse_if-passed,
  >>=-eq-ok,
}
use go_dashboard.Prelude.{parse_int}
use go_dashboard.Config.{
  positive_duration, parsed_int, Config, SlackConfig, ModelProfile, Url, load, load_slack,
  missing_names, check_missing, is_port, is_empty, is_some, setting, url_setting, fail_if,
  or_fallback, duration_or, duration_setting, positive_duration_setting, positive_int_setting,
  validate_http_url, is_http_url, has_no_suffix, differ, required,
}

module _ (getenv : String → String) (parse_duration : String → Option ℤ)
    (parse_url : String → Option Url) where
  -- An HTTP URL without a query and a fragment.
  abbrev pub IsBaseUrl : String → Type 0
  IsBaseUrl value =
      (is_http_url parse_url (parse_url value) ≡ true)
      × (has_no_suffix parse_url (parse_url value) ≡ true)

  abbrev pub IsSlackSound : SlackConfig → Type 0
  IsSlackSound config =
      IsBaseUrl config.api_base_url
      × (is_empty config.signing_secret ≡ is_empty config.bot_token)
      × (is_pos config.request_timeout ≡ true)
      × (is_pos config.max_context_messages ≡ true)
      × (lt_ℤ config.max_context_chars (pos 1000) ≡ false)

  -- What a call of a model with the profile relies on.
  abbrev pub IsProfileSound : String × ModelProfile → Type 0
  IsProfileSound (_, profile) =
      (is_empty profile.model ≡ false)
      × (is_pos profile.timeout ≡ true)
      × (is_some (parse_duration profile.keep_alive) ≡ true)

  abbrev pub IsSound : Config → Type 0
  IsSound config =
      (is_empty config.app_env ≡ false)
      × (is_port (parse_int config.http_port) ≡ true)
      × IsBaseUrl config.ollama_base_url
      × IsBaseUrl config.frontend_origin
      × (is_pos config.ollama_timeout ≡ true)
      × All IsProfileSound config.model_profiles
      × IsSlackSound config.slack

  no_missing :
      (values : List (String × String))
      → missing_names values ≡ []
      → All (λ (value : String × String). is_empty value.1 ≡ false) values
  unfolding missing_names
  no_missing [] h = tt
  no_missing ((name, value) ∷ rest) h = here (no_missing rest) (is_empty value) refl h
    where
      here :
          (missing_names rest ≡ []
            → All (λ (value : String × String). is_empty value.1 ≡ false) rest)
          → (b : Bool) → is_empty value ≡ b
          → (if b then name ∷ missing_names rest else missing_names rest) ≡ []
          → (is_empty value ≡ false)
            × All (λ (value : String × String). is_empty value.1 ≡ false) rest
      here others true e k = absurd cc
      here others false e k = (e, others k)

  none_missing : (names : List String) {u : Unit {0}} → check_missing names ≡ ok u → names ≡ []
  unfolding check_missing
  none_missing [] h = refl
  none_missing (name ∷ names) h = absurd cc

  url-IsBaseUrl :
      (name value : String) {u : Unit {0}}
      → validate_http_url parse_url name value ≡ ok u
      → IsBaseUrl value
  unfolding validate_http_url
  url-IsBaseUrl name value h =
      let (_, first, second) =
        >>=-eq-ok (refuse_if (not (is_http_url parse_url (parse_url value))) _) _ h in
      (not-false _ (refuse_if-passed _ _ first), not-false _ (refuse_if-passed _ _ second))

  duration-some :
      (name fallback text value : String)
      → duration_or getenv parse_duration name fallback text ≡ ok value
      → is_some (parse_duration value) ≡ true
  duration-some name fallback text value h =
      let (_, first, second) =
        >>=-eq-ok
          (refuse_if (not (is_some (parse_duration (or_fallback fallback (setting getenv name)))))
            _)
          _ h in
      let same : or_fallback fallback (setting getenv name) ≡ value = cc in
      subst (λ v. is_some (parse_duration v) ≡ true) same (not-false _ (refuse_if-passed _ _ first))

  positive_if :
      (m n : ℤ) (text : String) (b : Bool)
      → is_pos m ≡ b
      → (if b then ok m else err (Error.failure text)) ≡ ok n
      → is_pos n ≡ true
  positive_if m n text true e h = let same : m ≡ n = cc in subst (λ k. is_pos k ≡ true) same e
  positive_if m n text false e h = absurd cc

  positive_duration_lem :
      (name : String) (value : Option ℤ) (n : ℤ)
      → positive_duration getenv parse_duration name value ≡ ok n
      → is_pos n ≡ true
  positive_duration_lem name none n h = absurd cc
  positive_duration_lem name (some m) n h = positive_if m n _ (is_pos m) refl h

  duration-pos :
      (name fallback : String) (n : ℤ)
      → positive_duration_setting getenv parse_duration name fallback ≡ ok n
      → is_pos n ≡ true
  unfolding positive_duration_setting
  duration-pos name fallback n h =
      positive_duration_lem name (parse_duration (or_fallback fallback (setting getenv name))) n h

  parsed_int_lem :
      (name : String) (value : Option ℤ) (n : ℤ)
      → parsed_int getenv name value ≡ ok n
      → is_pos n ≡ true
  parsed_int_lem name none n h = absurd cc
  parsed_int_lem name (some m) n h = positive_if m n _ (is_pos m) refl h

  int-pos :
      (name : String) (fallback n : ℤ)
      → is_pos fallback ≡ true
      → positive_int_setting getenv name fallback ≡ ok n
      → is_pos n ≡ true
  unfolding positive_int_setting
  int-pos name fallback n p h = here (is_empty (setting getenv name)) h
    where
      here :
          (b : Bool)
          → (if b then ok fallback else parsed_int getenv name (parse_int (setting getenv name)))
            ≡ ok n
          → is_pos n ≡ true
      here true k = let same : fallback ≡ n = cc in subst (λ k. is_pos k ≡ true) same p
      here false k = parsed_int_lem name (parse_int (setting getenv name)) n k

  differ-false : (b c : Bool) → differ b c ≡ false → b ≡ c
  differ-false true true h = refl
  differ-false true false h = absurd cc
  differ-false false true h = absurd cc
  differ-false false false h = refl

  load_slack-IsSlackSound : Provides IsSlackSound (load_slack getenv parse_duration parse_url)
  unfolding load_slack
  load_slack-IsSlackSound =
      let secret = setting getenv "SLACK_SIGNING_SECRET" in
      let token = setting getenv "SLACK_BOT_TOKEN" in
      let base_url =
        or_fallback "https://slack.com/api" (url_setting getenv "SLACK_API_BASE_URL") in
      Provides-bind _ (validate_http_url parse_url "SLACK_API_BASE_URL" base_url) _ λ _ url.
        Provides-bind _ (fail_if (differ (is_empty secret) (is_empty token)) _) _ λ _ together.
          Provides-bind _
            (positive_duration_setting getenv parse_duration "SLACK_REQUEST_TIMEOUT" "15s") _
            λ timeout t.
              Provides-bind _ (positive_int_setting getenv "SLACK_MAX_CONTEXT_MESSAGES" (pos 200)) _
                λ messages m.
                  Provides-bind _
                    (positive_int_setting getenv "SLACK_MAX_CONTEXT_CHARS" (pos 50000)) _
                    λ characters c.
                      Provides-bind _ (fail_if (lt_ℤ characters (pos 1000)) _) _ λ _ least.
                        Provides-value IsSlackSound _ (
                          url-IsBaseUrl "SLACK_API_BASE_URL" base_url url,
                          differ-false (is_empty secret) (is_empty token)
                              (refuse_if-passed _ _ together),
                          duration-pos "SLACK_REQUEST_TIMEOUT" "15s" timeout t,
                          int-pos "SLACK_MAX_CONTEXT_MESSAGES" (pos 200) messages refl m,
                          refuse_if-passed _ _ least,
                        )

  abbrev url_of : String → String
  url_of name = url_setting getenv name

  or_fallback-named :
      (fallback value : String)
      → is_empty fallback ≡ false
      → is_empty (or_fallback fallback value) ≡ false
  or_fallback-named fallback value h = here (is_empty value) refl
    where
      here : (b : Bool) → is_empty value ≡ b → is_empty (if b then fallback else value) ≡ false
      here true e = h
      here false e = e

  load_lem : Provides IsSound (load getenv parse_duration parse_url)
  unfolding load duration_setting
  load_lem = Provides-bind _ (check_missing (missing_names values)) _ λ _ present.
      Provides-bind _ (fail_if (not (is_port (parse_int (setting getenv "HTTP_PORT")))) _) _
        λ _ port.
          Provides-bind _ (validate_http_url parse_url "OLLAMA_BASE_URL" (url_of "OLLAMA_BASE_URL"))
            _
            λ _ url.
              Provides-bind _
                (validate_http_url parse_url "FRONTEND_ORIGIN" (url_of "FRONTEND_ORIGIN")) _
                λ _ origin.
                  Provides-bind _
                    (positive_duration_setting getenv parse_duration "OLLAMA_GENERATE_TIMEOUT"
                      "60s")
                    _
                    λ timeout t.
                      Provides-bind _
                        (duration_or getenv parse_duration "OLLAMA_KEEP_ALIVE" "-1m" alive) _
                        λ keep_alive k.
                          Provides-bind _
                            (duration_or getenv parse_duration "OLLAMA_CODING_KEEP_ALIVE" "15m"
                              coding_alive)
                            _
                            λ coding kc.
                              Provides-bind _
                                (duration_or getenv parse_duration "OLLAMA_REASONING_KEEP_ALIVE"
                                  "0s" reasoning_alive)
                                _
                                λ reasoning kr.
                                  Provides-bind _ (load_slack getenv parse_duration parse_url) _
                                    λ slack s.
                                      let named = no_missing values (none_missing _ present) in
                                      let t-pos =
                                        duration-pos "OLLAMA_GENERATE_TIMEOUT" "60s" timeout t in
                                      Provides-value IsSound _ (
                                        named.0,
                                        not-false _ (refuse_if-passed _ _ port),
                                        url-IsBaseUrl "OLLAMA_BASE_URL" _ url,
                                        url-IsBaseUrl "FRONTEND_ORIGIN" _ origin,
                                        t-pos,
                                        (
                                          (
                                            named.1.1.1.0,
                                            t-pos,
                                            duration-some "OLLAMA_KEEP_ALIVE" "-1m" alive keep_alive
                                                k,
                                          ),
                                          (
                                            (
                                              or_fallback-named "qwen2.5-coder:7b"
                                                  (setting getenv "OLLAMA_CODING_MODEL") refl,
                                              t-pos,
                                              duration-some "OLLAMA_CODING_KEEP_ALIVE" "15m"
                                                  coding_alive coding kc,
                                            ),
                                            (
                                              (
                                                or_fallback-named "deepseek-r1:8b"
                                                    (setting getenv "OLLAMA_REASONING_MODEL") refl,
                                                t-pos,
                                                duration-some "OLLAMA_REASONING_KEEP_ALIVE" "0s"
                                                    reasoning_alive reasoning kr,
                                              ),
                                              tt,
                                            ),
                                          ),
                                        ),
                                        Provides-ok IsSlackSound _ slack load_slack-IsSlackSound s,
                                      )
    where
      values : List (String × String)
      values = required getenv parse_duration parse_url

      alive : String
      alive = "OLLAMA_KEEP_ALIVE must be a duration such as 30m, -1m, or 0s"

      coding_alive : String
      coding_alive = "OLLAMA_CODING_KEEP_ALIVE must be a duration"

      reasoning_alive : String
      reasoning_alive = "OLLAMA_REASONING_KEEP_ALIVE must be a duration"

-- A configuration that is accepted is sound: the environment has a name, the port is in the range of ports,
-- the three base URLs are HTTP URLs without a query and a fragment, every timeout is positive, each of the
-- three model profiles has a model, a positive timeout and a duration to keep the model alive, the secrets
-- of Slack are set together or not at all, and the limits of a Slack context are positive, the one on
-- characters at least 1000.
pub load-IsSound :
    (getenv : String → String) (parse_duration : String → Option ℤ)
    (parse_url : String → Option Url) (config : Config)
    → load getenv parse_duration parse_url ≡ ok config
    → IsSound getenv parse_duration parse_url config
load-IsSound getenv parse_duration parse_url config h =
    Provides-ok (IsSound getenv parse_duration parse_url) _ config
      (load_lem getenv parse_duration parse_url) h
