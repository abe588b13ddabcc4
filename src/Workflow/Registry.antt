-- ===== src/Workflow/Registry.antt =====
-- backend/internal/workflow/registry.go: the definitions by ID and version. A Go map is an association
-- list, and ranging over it visits the entries in the order of the list.
pub mod Lookup
use go_dashboard.Prelude.{
  ℕ, zero, suc, ◌+◌, ◌-◌, ◌*◌, ◌/◌, ◌≤◌, ◌<◌, String, ◌≡◌, refl, sym, ap, ◌∙◌, subst, ◌≢◌, ◌↔◌, ◌⊎◌,
  inl, inr, Bool, true, false, not, ◌&&◌, ◌||◌, Option, none, some, List, [], ◌∷◌, ◌++◌, map, arith,
  ◌==◌, eq_iff, eq_refl, ltb, leb, eqb, if◌then◌else◌, Bool-cases, Option-cases, length, get_elem?,
  select, find, any, count, map_where, length-append, All, All-append, take, length-take-le, chars,
  of_chars, chars-of_chars, ℤ, pos, negsuc, is_pos, is_neg, to_ℕ, eq_ℤ, lt_ℤ, is_blank, trim_space,
  cut_prefix, str_lt, Error, Flaw, Result, ok, err, ltb→lt, lt→ltb, leb→le,
}
use go_dashboard.Prelude.Results.{◌>>=◌, ◌>>◌, refuse_if, >>=-eq-ok, Result-cases}
use go_dashboard.Json.{absent}
use go_dashboard.Workflow.Definition.{Definition, RetryPolicy, validate, is_some}
use go_dashboard.Workflow.Definition

abbrev pub Versions : Type 0
Versions = List (ℤ × Definition)

abbrev pub Registry : Type 0
Registry = List (String × Versions)

unfoldable pub version_of : ℤ → Versions → Option Definition
version_of version [] = none
version_of version ((v, d) ∷ rest) = if eq_ℤ v version then some d else version_of version rest

-- `registry.definitions[id]`, which is empty where the ID is missing.
unfoldable pub versions_of : String → Registry → Versions
versions_of id [] = []
versions_of id ((k, versions) ∷ rest) = if k == id then versions else versions_of id rest

-- `registry.definitions[id] = versions`
unfoldable pub set_versions : String → Versions → Registry → Registry
set_versions id versions [] = (id, versions) ∷ []
set_versions id versions ((k, old) ∷ rest) =
    if k == id then (id, versions) ∷ rest else (k, old) ∷ set_versions id versions rest

unfoldable pub register : Definition → Registry → Result Registry
register definition registry =
    let versions = versions_of definition.id registry in
    validate definition
    >> refuse_if (is_some (version_of definition.version versions))
        (Error.duplicate_definition definition.id)
    >> ok (set_versions definition.id ((definition.version, definition) ∷ versions) registry)

-- The loop over the candidates.
unfoldable pub latest_version : ℤ → Versions → ℤ
latest_version best [] = best
latest_version best ((candidate, d) ∷ rest) =
    latest_version (if lt_ℤ best candidate && d.enabled then candidate else best) rest

-- `Definition{}`
abbrev pub no_definition : Definition
no_definition = record {
  id = "";
  name = "";
  description = "";
  version = pos 0;
  input_schema = absent;
  steps = [];
  output_schema = absent;
  timeout = pos 0;
  retry_policy = record { max_attempts = pos 0; backoff = pos 0 };
  enabled = false;
}

abbrev pub known : String → Option Definition → Result Definition
known id none = err (Error.unknown_workflow id)
known id (some definition) = ok definition

-- `versions[version]`
abbrev pub or_zero : Option Definition → Definition
or_zero none = no_definition
or_zero (some definition) = definition

unfoldable pub resolve_latest : String → Versions → Result Definition
resolve_latest id versions =
    let latest = latest_version (pos 0) versions in
    if eq_ℤ latest (pos 0)
    then err (Error.unknown_workflow id)
    else ok (or_zero (version_of latest versions))

unfoldable pub resolve_in : String → ℤ → Versions → Result Definition
resolve_in id version [] = err (Error.unknown_workflow id)
resolve_in id version (entry ∷ rest) =
    if lt_ℤ (pos 0) version
    then known id (version_of version (entry ∷ rest))
    else resolve_latest id (entry ∷ rest)

unfoldable pub resolve : String → ℤ → Registry → Result Definition
resolve id version registry = resolve_in id version (versions_of id registry)

unfoldable pub insert_by_id : Definition → List Definition → List Definition
insert_by_id d [] = d ∷ []
insert_by_id d (e ∷ rest) = if str_lt e.id d.id then e ∷ insert_by_id d rest else d ∷ e ∷ rest

-- The IDs, and the whole registry that each is resolved in.
unfoldable pub enabled_from : Registry → Registry → List Definition
enabled_from [] registry = []
enabled_from ((id, versions) ∷ rest) registry = elim (resolve id (pos 0) registry) [
  | ok d ↦ insert_by_id d (enabled_from rest registry)
  | err e ↦ enabled_from rest registry
]

unfoldable pub enabled : Registry → List Definition
enabled registry = enabled_from registry registry
