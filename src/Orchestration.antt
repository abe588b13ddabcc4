-- ===== src/Orchestration.antt =====
-- backend/internal/orchestration/service.go: choosing the workflow of a request, and starting it. The
-- engine is an interface, which `start` takes as a function.
use go_dashboard.Prelude.{
  ◌≢◌, sym, inl, inr, Bool-cases, String, ◌≡◌, refl, ◌∙◌, subst, Bool, true, false, not, ◌==◌,
  eq_iff, if◌then◌else◌, pos, Error, Result, ok, err,
}
use go_dashboard.Prelude.Results.{◌>>=◌, ◌>>◌, refuse_if, >>=-eq-ok}
use go_dashboard.Trigger.{StringMap, Request, get, put, get-put}
use go_dashboard.Workflow.Definition.{Definition}
use go_dashboard.Workflow.Registry.{Registry, resolve}
use go_dashboard.Workflow.Run.{Run}

pub record Selection : Type 0 where
  pub workflow_id : String
  pub method : String
  pub reason : String

pub record Selector : Type 0 where
  pub registry : Registry
  pub rules : StringMap

pub record Service : Type 0 where
  pub selector : Selector
  pub workflow_id : String

abbrev explicit_selection : String → Selection
explicit_selection id = record {
  workflow_id = id;
  method = "explicit";
  reason = "The caller selected this workflow.";
}

abbrev rule_selection : String → Selection
rule_selection id = record {
  workflow_id = id;
  method = "rule";
  reason = "The normalized request type matched a configured rule.";
}

-- What is chosen must resolve to its latest enabled version.
abbrev selected : Registry → Selection → Result Selection
selected registry selection = resolve selection.workflow_id (pos 0) registry >>= λ _. ok selection

unfoldable pub select_workflow : Selector → Request → Result Selection
select_workflow selector request =
    let explicit = get "workflow_id" request.metadata in
    let matched = get request.type selector.rules in
    if not (explicit == "")
    then selected selector.registry (explicit_selection explicit)
    else if not (matched == "")
    then selected selector.registry (rule_selection matched)
    else err Error.selection_required

abbrev pub selected_metadata : Selection → StringMap → StringMap
selected_metadata selection metadata = put "selection_reason" selection.reason (
    put "selection_method" selection.method
      (put "selected_workflow" selection.workflow_id metadata))

abbrev pub with_selection : Request → Selection → Request
with_selection request selection = record request {
  metadata = selected_metadata selection request.metadata;
}

unfoldable pub start : Service → (Request → Result Run) → Request → Result Run
start service engine request = do
  selection ← select_workflow service.selector request
  refuse_if (not (selection.workflow_id == service.workflow_id))
      (Error.workflow_mismatch selection.workflow_id)
  engine (with_selection request selection)

selected-resolves :
    (registry : Registry) (chosen selection : Selection)
    → selected registry chosen ≡ ok selection
    → (d : Definition) × (resolve selection.workflow_id (pos 0) registry ≡ ok d)
selected-resolves registry chosen selection h =
    let (d, found, same) =
      >>=-eq-ok (resolve chosen.workflow_id (pos 0) registry) (λ _. ok chosen) h in
    let equal : chosen ≡ selection = cc in
    (d, subst (λ (c : Selection). resolve c.workflow_id (pos 0) registry ≡ ok d) equal found)

select_workflow-resolves :
    (selector : Selector) (request : Request) (selection : Selection)
    → select_workflow selector request ≡ ok selection
    → (d : Definition) × (resolve selection.workflow_id (pos 0) selector.registry ≡ ok d)
unfolding select_workflow
select_workflow-resolves selector request selection h =
    go (not (get "workflow_id" request.metadata == ""))
      (not (get request.type selector.rules == "")) h
  where
    go :
        (b c : Bool)
        → (if b
            then selected selector.registry
                (explicit_selection (get "workflow_id" request.metadata))
            else if c
            then selected selector.registry (rule_selection (get request.type selector.rules))
            else err Error.selection_required)
          ≡ ok selection
        → (d : Definition) × (resolve selection.workflow_id (pos 0) selector.registry ≡ ok d)
    go true c k = selected-resolves _ _ selection k
    go false true k = selected-resolves _ _ selection k
    go false false k = cc

put_other :
    (k j v w : String) (m : StringMap) → k == j ≡ false → get j m ≡ w → get j (put k v m) ≡ w
put_other k j v w m h e = rw (get-put k j v m, h) e

refused-not : (b : Bool) (e : Error) → refuse_if (not b) e ≡ ok tt → b ≡ true
refused-not true e h = refl
refused-not false e h = cc

other_key : (k j : String) → j ≢ k → k == j ≡ false
other_key k j n = elim (Bool-cases (k == j)) [
  | inl e ↦ absurd (n (sym ((eq_iff k j).0 e)))
  | inr e ↦ e
]

-- A run that is started comes from the engine, which was given the request with the workflow that the service
-- serves as the selected one, a workflow that has an enabled version. What the engine was given differs from
-- the request in its metadata only, and there only in the three keys `selected_workflow`, `selection_method`
-- and `selection_reason`.
pub start-selects :
    (service : Service) (engine : Request → Result Run) (request : Request) (run : Run)
    (key : String)
    → key ≢ "selected_workflow"
    → key ≢ "selection_method"
    → key ≢ "selection_reason"
    → start service engine request ≡ ok run
    → (given : Request) × (engine given ≡ ok run)
      × (get "selected_workflow" given.metadata ≡ service.workflow_id)
      × (get "workflow_id" given.metadata ≡ get "workflow_id" request.metadata)
      × (get key given.metadata ≡ get key request.metadata)
      × (record given { metadata = request.metadata } ≡ request)
      × (d : Definition) × (resolve service.workflow_id (pos 0) service.selector.registry ≡ ok d)
unfolding start
start-selects service engine request run key n m r h =
    let (selection, chosen, rest) = >>=-eq-ok (select_workflow service.selector request) _ h in
    let (_, passed, started) =
      >>=-eq-ok (refuse_if (not (selection.workflow_id == service.workflow_id)) _) _ rest in
    let same = (eq_iff selection.workflow_id service.workflow_id).0 (refused-not _ _ passed) in
    let (d, found) = select_workflow-resolves service.selector request selection chosen in
    (
      with_selection request selection,
      started,
      put_other "selection_reason" "selected_workflow" _ _ _ refl (
          put_other "selection_method" "selected_workflow" _ _ _ refl (
            get-put "selected_workflow" "selected_workflow" selection.workflow_id request.metadata
            ∙ same)),
      put_other "selection_reason" "workflow_id" _ _ _ refl (
          put_other "selection_method" "workflow_id" _ _ _ refl
            (put_other "selected_workflow" "workflow_id" _ _ _ refl refl)),
      put_other "selection_reason" key _ _ _ (other_key _ key r) (
          put_other "selection_method" key _ _ _ (other_key _ key m)
            (put_other "selected_workflow" key _ _ _ (other_key _ key n) refl)),
      refl,
      d,
      subst (λ id. resolve id (pos 0) service.selector.registry ≡ ok d) same found,
    )
