-- ===== src/Workflow/Executor/Input.antt =====
-- backend/internal/workflow/executor.go: `mapInput`. The pairs of the mapping come in the order in
-- which Go's map iteration yields them.
use go_dashboard.Prelude.{
  String, Option, none, some, List, [], ◌∷◌, ◌==◌, if◌then◌else◌, cut_prefix, Error, Result, ok,
  err,
}
use go_dashboard.Prelude.Results.{◌>>=◌}
use go_dashboard.Json.{Json, RawMessage, Fields, str, obj, end, document, unmarshal, set_field}
use go_dashboard.Trigger.{Request, StringMap}

-- The map `outputs`, with its latest entry first.
abbrev pub Outputs : Type 0
Outputs = List (String × RawMessage)

unfoldable pub output_of : String → Outputs → Option RawMessage
output_of id [] = none
output_of id ((k, r) ∷ rest) = if k == id then some r else output_of id rest

unfoldable pub decode_output : Option RawMessage → Result Json
decode_output none = err (Error.failure "step output is unavailable")
decode_output (some content) = elim (unmarshal content) [
  | none ↦ err (Error.failure "decode step output")
  | some j ↦ ok j
]

-- One round of the loop: the value of a source.
unfoldable pub source_value : Request → Outputs → String → Result Json
source_value request outputs source =
    if source == "request.content"
    then ok (str request.content)
    else elim (cut_prefix "steps." source) [
      | some id ↦ decode_output (output_of id outputs)
      | none ↦ err (Error.failure "unsupported input source")
    ]

unfoldable pub map_fields : Request → Outputs → StringMap → Fields → Result Fields
map_fields request outputs [] fields = ok fields
map_fields request outputs ((target, source) ∷ rest) fields = do
  value ← source_value request outputs source
  map_fields request outputs rest (set_field target value fields)

unfoldable pub map_input : Request → Outputs → StringMap → Result RawMessage
map_input request outputs mapping = do
  fields ← map_fields request outputs mapping end
  ok (document (obj fields))
