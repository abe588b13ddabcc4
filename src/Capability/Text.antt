-- ===== src/Capability/Text.antt =====
-- backend/internal/capability/text.go and classify.go: the capabilities. The generator of summaries
-- (`summary.Generator`) and the model (`llm.Client`) are parameters, and so are `json.Unmarshal` of an input and
-- the decoder of a classification; a number is given by its JSON text, and two tests compare it with 0 and 1.
use go_dashboard.Prelude.{
  ℕ, String, true, false, ◌||◌, Option, none, some, List, [], ◌∷◌, ◌==◌, if◌then◌else◌, is_blank,
  Error, Result, ok, err,
}
use go_dashboard.Prelude.Results.{◌>>=◌, ◌>>◌, refuse_if}
use go_dashboard.Json.{
  Json, RawMessage, Items, Fields, document, str, arr, obj, nil, cons, end, field,
}
use go_dashboard.Capability.{Output, Metadata, Capability}
use go_dashboard.Summary.{SummaryRequest, SummaryResult}

-- `json.Marshal` of a struct: its fields in order.
unfoldable pub struct : List (String × Json) → Fields
struct [] = end
struct ((name, value) ∷ rest) = field name value (struct rest)

unfoldable pub strings : List String → Items
strings [] = nil
strings (s ∷ rest) = cons (str s) (strings rest)

unfoldable pub encode_summary : SummaryResult → RawMessage
encode_summary result = document (
    obj (
      struct (
        ("summary", str result.summary)
        ∷ ("summary_type", str result.summary_type)
        ∷ ("model", str result.model)
        ∷ [])))

-- `ValidateInput` of a text.
unfoldable pub validate_text : Option String → Result (Unit {0})
validate_text none = err Error.invalid_input
validate_text (some content) = refuse_if (is_blank content) Error.invalid_input

-- `decoded.Content` of an input that does not parse is empty.
abbrev pub content_of : Option String → String
content_of none = ""
content_of (some content) = content

abbrev text_metadata : String → String → String → (RawMessage × RawMessage) → Metadata
text_metadata name description profile (input, output) = record {
  name = name;
  description = description;
  input_schema = input;
  output_schema = output;
  default_model_profile = profile;
  llm_backed = true;
}

-- The schemas are JSON texts that nothing of the program reads.
module _ (schemas : String → RawMessage × RawMessage)
    (decode_text : RawMessage → Option String) where
  unfoldable pub summary_metadata : String → Metadata
  summary_metadata name =
      if name == "extract_action_items"
      then text_metadata name "Extract concrete actions, owners, and deadlines from source text."
          "reasoning" (schemas name)
      else text_metadata name "Summarize source text into a concise result." "general"
          (schemas name)

  -- A capability that summarizes: the generator is given for the calls made before and the profile.
  module _ (generator : ℕ → String → SummaryRequest → Result SummaryResult) where
    unfoldable pub summarize : String → String → ℕ → String → RawMessage → Result Output
    summarize name summary_type calls profile input = do
      validate_text (decode_text input)
      generated ←
          generator calls profile
            (record { content = content_of (decode_text input); summary_type = summary_type })
      ok (record {
        content = encode_summary generated;
        artifact_type = name;
        model = generated.model;
        prompt_version = "manual-summary-v1";
      })

    abbrev pub summary_capability : String → String → Capability
    summary_capability name summary_type = record {
      name = name;
      metadata = summary_metadata name;
      validate_input = λ input. validate_text (decode_text input);
      execute = summarize name summary_type;
    }

    unfoldable pub new_summarize_text : Capability
    new_summarize_text = summary_capability "summarize_text" "brief"

    unfoldable pub new_extract_action_items : Capability
    new_extract_action_items = summary_capability "extract_action_items" "action_items"

  -- `composeInput`
  module _ (decode_compose : RawMessage → Option (SummaryResult × SummaryResult)) where
    unfoldable pub validate_compose : Option (SummaryResult × SummaryResult) → Result (Unit {0})
    validate_compose none = err Error.invalid_input
    validate_compose (some (summary, action_items)) =
        refuse_if (is_blank summary.summary || is_blank action_items.summary) Error.invalid_input

    -- The models that took part, each once.
    unfoldable pub models_of : SummaryResult → SummaryResult → List String
    models_of summary action_items =
        if action_items.model == summary.model
        then summary.model ∷ []
        else summary.model ∷ action_items.model ∷ []

    unfoldable pub encode_dashboard : SummaryResult → SummaryResult → RawMessage
    encode_dashboard summary action_items = document (
        obj (
          struct (
            ("summary", str summary.summary)
            ∷ ("action_items", str action_items.summary)
            ∷ ("models", arr (strings (models_of summary action_items)))
            ∷ [])))

    abbrev composed : Option (SummaryResult × SummaryResult) → Result Output
    composed none = err Error.invalid_input
    composed (some (summary, action_items)) = ok (record {
      content = encode_dashboard summary action_items;
      artifact_type = "dashboard_result";
      model = "";
      prompt_version = "";
    })

    unfoldable pub compose : RawMessage → Result Output
    compose input = do validate_compose (decode_compose input); composed (decode_compose input)

    unfoldable pub compose_dashboard_result : Capability
    compose_dashboard_result = record {
      name = "compose_dashboard_result";
      metadata = record {
        name = "compose_dashboard_result";
        description = "Compose summary and action artifacts into a dashboard result.";
        input_schema = (schemas "compose_dashboard_result").0;
        output_schema = (schemas "compose_dashboard_result").1;
        default_model_profile = "";
        llm_backed = false;
      };
      validate_input = λ input. validate_compose (decode_compose input);
      execute = λ calls profile input. compose input;
    }
