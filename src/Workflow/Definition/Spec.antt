-- ===== src/Workflow/Definition/Spec.antt =====
-- What a workflow definition has to be for the executor, said by positions in the list of steps.
use go_dashboard.Prelude.{
  ℕ, ◌<◌, String, ◌≡◌, ◌≢◌, true, false, some, List, [], ◌∷◌, get_elem?, All, is_pos, is_neg,
  is_blank,
}
use go_dashboard.Workflow.Definition.{StepDefinition, Definition}

pub record IsRunnable (step : StepDefinition) : Type 0 where
  pub has_id : is_blank step.id ≡ false
  pub has_capability : is_blank step.capability ≡ false
  pub has_timeout : is_pos step.timeout ≡ true
  pub has_attempts : is_pos step.retry_policy.max_attempts ≡ true
  pub has_backoff : is_neg step.retry_policy.backoff ≡ false

-- A step with this ID stands before position `i`.
abbrev pub StandsBefore : List StepDefinition → ℕ → String → Type 0
StandsBefore steps i id =
    (j : ℕ) × (t : StepDefinition) × (j < i) × (get_elem? steps j ≡ some t) × (t.id ≡ id)

abbrev pub AreDistinct : List String → Type 0
AreDistinct [] = Unit
AreDistinct (x ∷ xs) = All (λ y. x ≢ y) xs × AreDistinct xs

pub record IsWellFormed (d : Definition) : Type 0 where
  pub has_id : is_blank d.id ≡ false
  pub has_name : is_blank d.name ≡ false
  pub has_version : is_pos d.version ≡ true
  pub has_timeout : is_pos d.timeout ≡ true
  pub has_steps : d.steps ≢ []
  pub runnable : (i : ℕ) (s : StepDefinition) → get_elem? d.steps i ≡ some s → IsRunnable s
  pub unique :
      (i j : ℕ) (s t : StepDefinition)
      → get_elem? d.steps i ≡ some s
      → get_elem? d.steps j ≡ some t
      → s.id ≡ t.id
      → i ≡ j
  pub ordered :
      (i : ℕ) (s : StepDefinition)
      → get_elem? d.steps i ≡ some s
      → All (StandsBefore d.steps i) s.depends_on
  pub distinct :
      (i : ℕ) (s : StepDefinition) → get_elem? d.steps i ≡ some s → AreDistinct s.depends_on
