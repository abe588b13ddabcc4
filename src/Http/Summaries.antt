-- ===== src/Http/Summaries.antt =====
-- backend/internal/httpapi/summary_handler.go: the handler of summaries. The generator (`summary.Generator`,
-- an interface) is a parameter; what the decoder says of a body is a value.
use go_dashboard.Prelude.{Error, Result, ok, err}
use go_dashboard.Summary.{SummaryRequest, SummaryResult}
use go_dashboard.Http.{Reply, refuses, replies, silent}

-- What `json.Decoder` makes of a body, with a limit of 256 KiB.
pub data Decoded : Type 0 where
  too_large invalid not_alone : Decoded
  decoded : SummaryRequest → Decoded

unfoldable pub summary_error : Error → Reply SummaryResult
summary_error Error.empty_content = refuses 400 "content_required" "Content is required."
summary_error Error.invalid_summary_type =
    refuses 400 "invalid_summary_type" "Choose a supported summary type."
summary_error Error.content_too_long =
    refuses 413 "content_too_long" "Content exceeds the 50,000 character limit."
summary_error Error.model_not_found =
    refuses 503 "model_unavailable" "The configured model is not installed."
summary_error Error.provider_unavailable = refuses 503 "ollama_unavailable" "Ollama is unavailable."
summary_error Error.deadline_exceeded =
    refuses 504 "generation_timeout" "Summary generation timed out."
summary_error Error.canceled = silent
summary_error Error.invalid_response =
    refuses 502 "invalid_model_response" "The model returned an invalid response."
summary_error _ = refuses 500 "internal_error" "Unable to generate a summary."

abbrev pub summary_reply : Result SummaryResult → Reply SummaryResult
summary_reply (ok result) = replies 200 result
summary_reply (err e) = summary_error e

unfoldable pub generate_summary :
    (SummaryRequest → Result SummaryResult) → Decoded → Reply SummaryResult
generate_summary generator too_large =
    refuses 413 "request_too_large" "The request body is too large."
generate_summary generator invalid =
    refuses 400 "invalid_request" "The request body must be valid JSON."
generate_summary generator not_alone =
    refuses 400 "invalid_request" "The request body must contain one JSON object."
generate_summary generator (decoded request) = summary_reply (generator request)
