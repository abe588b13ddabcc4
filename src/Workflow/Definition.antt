-- ===== src/Workflow/Definition.antt =====
-- backend/internal/workflow/domain.go: workflow definitions and `Definition.Validate`.
pub mod Spec
pub mod Sound
use go_dashboard.Prelude.{
  ℕ, zero, suc, ◌+◌, ◌-◌, ◌*◌, ◌/◌, ◌≤◌, ◌<◌, String, ◌≡◌, refl, sym, ap, ◌∙◌, subst, ◌≢◌, ◌↔◌, ◌⊎◌,
  inl, inr, Bool, true, false, not, ◌&&◌, ◌||◌, Option, none, some, List, [], ◌∷◌, ◌++◌, map, arith,
  ◌==◌, eq_iff, eq_refl, ltb, leb, eqb, if◌then◌else◌, Bool-cases, Option-cases, length, get_elem?,
  select, find, any, count, map_where, length-append, All, All-append, ℤ, pos, negsuc, is_pos,
  is_neg, to_ℕ, eq_ℤ, lt_ℤ, is_blank, trim_space, cut_prefix, str_lt, Error, Flaw, Result, ok, err,
  ltb→lt, lt→ltb, leb→le,
}
use go_dashboard.Prelude.Results.{◌>>=◌, ◌>>◌, refuse_if, >>=-eq-ok}
use go_dashboard.Json.{RawMessage}
use go_dashboard.Trigger.{StringMap}

pub record RetryPolicy : Type 0 where
  pub max_attempts : ℤ
  pub backoff : ℤ

pub record StepDefinition : Type 0 where
  pub id : String
  pub capability : String
  pub input_mapping : StringMap
  pub depends_on : List String
  pub model_profile : String
  pub timeout : ℤ
  pub retry_policy : RetryPolicy
  pub requires_approval : Bool

pub record Definition : Type 0 where
  pub id : String
  pub name : String
  pub description : String
  pub version : ℤ
  pub input_schema : RawMessage
  pub steps : List StepDefinition
  pub output_schema : RawMessage
  pub timeout : ℤ
  pub retry_policy : RetryPolicy
  pub enabled : Bool

-- The map `stepIndexes`, with its latest entry first.
abbrev pub StepIndexes : Type 0
StepIndexes = List (String × ℕ)

unfoldable pub index_of : String → StepIndexes → Option ℕ
index_of k [] = none
index_of k ((j, n) ∷ m) = if j == k then some n else index_of k m

unfoldable pub contains : String → List String → Bool
contains k [] = false
contains k (j ∷ js) = j == k || contains k js

abbrev pub is_some {ℓ} : {A : Type ℓ} → Option A → Bool
is_some none = false
is_some (some a) = true

abbrev pub no_steps : List StepDefinition → Bool
no_steps [] = true
no_steps (s ∷ ss) = false

-- The body of the first loop.
check_step : ℕ → StepDefinition → StepIndexes → Result (Unit {0})
check_step index step seen = do
  refuse_if (is_blank step.id || is_blank step.capability || not (is_pos step.timeout))
      (Error.invalid_definition (Flaw.invalid_step index))
  refuse_if (not (is_pos step.retry_policy.max_attempts) || is_neg step.retry_policy.backoff)
      (Error.invalid_definition (Flaw.invalid_retry step.id))
  refuse_if (is_some (index_of step.id seen))
      (Error.invalid_definition (Flaw.duplicate_step step.id))

-- The first loop: each step alone, and the map of the indexes.
check_steps : ℕ → List StepDefinition → StepIndexes → Result StepIndexes
unfolding check_step
check_steps index [] seen = ok seen
check_steps index (step ∷ rest) seen =
    check_step index step seen >> check_steps (suc index) rest ((step.id, index) ∷ seen)

-- The body of the inner loop.
check_dependency : ℕ → String → StepIndexes → List String → String → Result (Unit {0})
check_dependency index id indexes seen dependency = elim (index_of dependency indexes) [
  | none ↦ err (Error.invalid_definition (Flaw.unknown_dependency id dependency))
  | some at ↦ do
    refuse_if (leb index at) (Error.invalid_definition (Flaw.forward_dependency id dependency))
    refuse_if (contains dependency seen)
        (Error.invalid_definition (Flaw.repeated_dependency id dependency))
]

check_dependencies : ℕ → String → StepIndexes → List String → List String → Result (Unit {0})
unfolding check_dependency
check_dependencies index id indexes seen [] = ok tt
check_dependencies index id indexes seen (dependency ∷ rest) =
    check_dependency index id indexes seen dependency
    >> check_dependencies index id indexes (dependency ∷ seen) rest

-- The second loop.
check_order : ℕ → List StepDefinition → StepIndexes → Result (Unit {0})
unfolding check_dependencies
check_order index [] indexes = ok tt
check_order index (step ∷ rest) indexes =
    check_dependencies index step.id indexes [] step.depends_on
    >> check_order (suc index) rest indexes

unfoldable pub validate : Definition → Result (Unit {0})
unfolding check_steps check_order
validate definition = do
  refuse_if
      (is_blank definition.id
        || is_blank definition.name
        || not (is_pos definition.version)
        || not (is_pos definition.timeout)
        || no_steps definition.steps)
      (Error.invalid_definition Flaw.missing_fields)
  indexes ← check_steps 0 definition.steps []
  check_order 0 definition.steps indexes
