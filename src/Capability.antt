-- ===== src/Capability.antt =====
-- backend/internal/capability/registry.go: capabilities and their registry.
pub mod Text
pub mod Classify
pub mod Sound
use go_dashboard.Prelude.{
  ◌≢◌, refl, false, map, str_lt, ℕ, String, ◌≡◌, Bool, Option, none, some, List, [], ◌∷◌, arith,
  ◌==◌, eq_iff, if◌then◌else◌, Error, Result, ok, err,
}
use go_dashboard.Json.{RawMessage, absent}

-- `capability.Result`
pub record Output : Type 0 where
  pub content : RawMessage
  pub artifact_type : String
  pub model : String
  pub prompt_version : String

pub record Metadata : Type 0 where
  pub name : String
  pub description : String
  pub input_schema : RawMessage
  pub output_schema : RawMessage
  pub default_model_profile : String
  pub llm_backed : Bool

-- The interface. What a call of `Execute` returns depends on a model, so it is given for each number
-- of calls made before; its other arguments are the profile in its context and the input.
pub record Capability : Type 0 where
  pub name : String
  pub metadata : Metadata
  pub validate_input : RawMessage → Result (Unit {0})
  pub execute : ℕ → String → RawMessage → Result Output

abbrev pub Registry : Type 0
Registry = List (String × Capability)

unfoldable pub lookup : String → Registry → Option Capability
lookup name [] = none
lookup name ((k, c) ∷ rest) = if k == name then some c else lookup name rest

unfoldable pub register : Capability → Registry → Result Registry
register capability registry =
    if capability.name == ""
    then err (Error.duplicate_capability "")
    else elim (lookup capability.name registry) [
      | some old ↦ err (Error.duplicate_capability capability.name)
      | none ↦ ok ((capability.name, capability) ∷ registry)
    ]

unfoldable pub resolve : String → Registry → Result Capability
resolve name registry = elim (lookup name registry) [
  | none ↦ err (Error.unknown_capability name)
  | some c ↦ ok c
]

-- A capability that is registered has a name, which resolved to nothing before; from then on its name
-- resolves to it, and any other name to what it resolved to.
pub resolve_registered :
    (c : Capability) (registry new : Registry) (name : String)
    → register c registry ≡ ok new
    → (c.name ≢ "")
      × (resolve c.name registry ≡ err (Error.unknown_capability c.name))
      × (resolve name new ≡ (if c.name == name then ok c else resolve name registry))
unfolding register resolve lookup
resolve_registered c registry new name h =
    (λ e. ground (arith, eq_iff c.name ""), ground arith, ground arith)

-- A name that is taken, or no name, is refused.
pub register_taken :
    (c : Capability) (registry : Registry) (old : Capability)
    → resolve c.name registry ≡ ok old
    → register c registry ≡ err (Error.duplicate_capability c.name)
unfolding register resolve lookup
register_taken c registry old h = ground (arith, eq_iff c.name "")

-- `sort.Strings` and `sort.Slice`, by a name.
unfoldable pub insert_by : {A : Type 0} → (A → String) → A → List A → List A
insert_by name a [] = a ∷ []
insert_by name a (b ∷ bs) =
    let rest = insert_by name a bs in if str_lt (name b) (name a) then b ∷ rest else a ∷ b ∷ bs

unfoldable pub sort_by : {A : Type 0} → (A → String) → List A → List A
sort_by name [] = []
sort_by name (a ∷ rest) = insert_by name a (sort_by name rest)

unfoldable pub names : Registry → List String
names registry = sort_by (λ s. s) (map (λ (entry : String × Capability). entry.0) registry)

unfoldable pub metadata_of : Registry → List Metadata
metadata_of registry =
    sort_by (λ (m : Metadata). m.name)
      (map (λ (entry : String × Capability). entry.1.metadata) registry)

abbrev listed : String → Capability
listed name = record {
  name = name;
  metadata = record {
    name = name;
    description = "";
    input_schema = absent;
    output_schema = absent;
    default_model_profile = "";
    llm_backed = false;
  };
  validate_input = λ _. ok tt;
  execute = λ _ _ _. err (Error.unknown_capability name);
}

names_sample : names (("b", listed "b") ∷ ("a", listed "a") ∷ []) ≡ "a" ∷ "b" ∷ []
unfolding names sort_by insert_by str_lt
names_sample = refl
