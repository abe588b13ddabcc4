-- ===== src/Workflow/Manual.antt =====
-- backend/internal/workflow/manual.go: the definition of the manual summary workflow. Its timeouts are
-- counts of nanoseconds in an int64, which wraps around.
use go_dashboard.Prelude.{
  ℕ, ◌+◌, ◌-◌, ◌*◌, ◌<◌, String, ◌≡◌, refl, ap, Bool, true, false, [], ◌∷◌, arith, ltb,
  if◌then◌else◌, ℤ, pos, negsuc, is_pos, to_ℕ, is_blank, ok, lt→ltb,
}
use go_dashboard.Prelude.{◌%◌, ◌^◌}
use go_dashboard.Json.{absent}
use go_dashboard.Workflow.Definition.{Definition, StepDefinition, RetryPolicy, validate}
use go_dashboard.Workflow.Definition

-- The int64 of a sum of positive terms.
unfoldable pub int64 : ℕ → ℤ
int64 n = let m = n % 2 ^ 64 in if ltb m (2 ^ 63) then pos m else negsuc (2 ^ 64 - 1 - m)

abbrev seconds : ℕ → ℕ
seconds n = n * 1_000_000_000

abbrev pub positive_or : ℕ → ℤ → ℕ
positive_or n t = if is_pos t then to_ℕ t else n

abbrev two_attempts : RetryPolicy
two_attempts = record { max_attempts = pos 2; backoff = pos 250_000_000 }

abbrev one_attempt : RetryPolicy
one_attempt = record { max_attempts = pos 1; backoff = pos 0 }

abbrev model_step : String → String → String → ℕ → StepDefinition
model_step id capability model_profile timeout = record {
  id = id;
  capability = capability;
  input_mapping = ("content", "request.content") ∷ [];
  depends_on = [];
  model_profile = model_profile;
  timeout = pos timeout;
  retry_policy = two_attempts;
  requires_approval = false;
}

abbrev compose_step : StepDefinition
compose_step = record {
  id = "compose";
  capability = "compose_dashboard_result";
  input_mapping = ("summary", "steps.summarize") ∷ ("action_items", "steps.actions") ∷ [];
  depends_on = "summarize" ∷ "actions" ∷ [];
  model_profile = "";
  timeout = pos (seconds 5);
  retry_policy = one_attempt;
  requires_approval = false;
}

abbrev with_step_timeout : ℕ → Definition
with_step_timeout timeout = record {
  id = "manual-summary";
  name = "Manual Summary";
  description = "Summarize manual text, extract action items, and compose a dashboard result.";
  version = pos 1;
  input_schema = absent;
  steps =
      model_step "summarize" "summarize_text" "general" timeout
      ∷ model_step "actions" "extract_action_items" "reasoning" timeout
      ∷ compose_step
      ∷ [];
  output_schema = absent;
  timeout = int64 (4 * timeout + seconds 15);
  retry_policy = one_attempt;
  enabled = true;
}

unfoldable pub manual_summary_definition : ℤ → Definition
manual_summary_definition model_timeout = with_step_timeout (positive_or (seconds 60) model_timeout)

int64-small : (n : ℕ) → n < 2 ^ 63 → int64 n ≡ pos n
unfolding int64
int64-small n h = go (ltb (n % 2 ^ 64) (2 ^ 63)) refl
  where
    go :
        (b : Bool)
        → ltb (n % 2 ^ 64) (2 ^ 63) ≡ b
        → (if b then pos (n % 2 ^ 64) else negsuc (2 ^ 64 - 1 - n % 2 ^ 64)) ≡ pos n
    go true e = ap pos (omega arith)
    go false e = ground arith

accepted :
    (t : ℕ) → 0 < t → 4 * t + 15_000_000_000 < 2 ^ 63 → validate (with_step_timeout t) ≡ ok tt
unfolding validate is_blank Definition.index_of Definition.contains
accepted t p h =
    rw
      (
        int64-small (4 * t + 15_000_000_000) h,
        lt→ltb 0 t p,
        lt→ltb 0 (4 * t + 15_000_000_000) (omega arith),
      )
      refl

positive_timeout :
    (t : ℤ)
    → 4 * to_ℕ t + 15_000_000_000 < 2 ^ 63
    → (0 < positive_or (seconds 60) t) × (4 * positive_or (seconds 60) t + 15_000_000_000 < 2 ^ 63)
positive_timeout t h = ground arith

-- `Validate` accepts the manual workflow for every model timeout whose total fits an int64.
pub validate-manual_summary_definition :
    (model_timeout : ℤ)
    → 4 * to_ℕ model_timeout + 15_000_000_000 < 2 ^ 63
    → validate (manual_summary_definition model_timeout) ≡ ok tt
unfolding manual_summary_definition
validate-manual_summary_definition t h =
    let (p, q) = positive_timeout t h in accepted (positive_or (seconds 60) t) p q
