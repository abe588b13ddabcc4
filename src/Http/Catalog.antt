-- ===== src/Http/Catalog.antt =====
-- backend/internal/httpapi/catalog_handler.go: the catalog of capabilities and workflows.
-- `time.Duration.String` is a parameter.
use go_dashboard.Prelude.{String, Bool, Option, none, some, List, [], map, ℤ}
use go_dashboard.Capability.{Metadata}
use go_dashboard.Workflow.Definition.{Definition, StepDefinition}
use go_dashboard.Http.{Reply, replies}

pub record WorkflowStepMetadata : Type 0 where
  pub id : String
  pub capability : String
  pub model_profile : String
  pub depends_on : List String
  pub timeout : String

pub record WorkflowMetadata : Type 0 where
  pub id : String
  pub name : String
  pub description : String
  pub version : ℤ
  pub timeout : String
  pub enabled : Bool
  pub steps : List WorkflowStepMetadata

module _ (format_duration : ℤ → String) where
  abbrev pub step_metadata : StepDefinition → WorkflowStepMetadata
  step_metadata step = record {
    id = step.id;
    capability = step.capability;
    model_profile = step.model_profile;
    depends_on = step.depends_on;
    timeout = format_duration step.timeout;
  }

  unfoldable pub workflow_metadata : Definition → WorkflowMetadata
  workflow_metadata definition = record {
    id = definition.id;
    name = definition.name;
    description = definition.description;
    version = definition.version;
    timeout = format_duration definition.timeout;
    enabled = definition.enabled;
    steps = map step_metadata definition.steps;
  }

  -- The catalogs may be missing.
  unfoldable pub workflows : Option (List Definition) → Reply (List WorkflowMetadata)
  workflows none = replies 200 []
  workflows (some enabled) = replies 200 (map workflow_metadata enabled)

unfoldable pub capabilities : Option (List Metadata) → Reply (List Metadata)
capabilities none = replies 200 []
capabilities (some metadata) = replies 200 metadata
