-- ===== src/Workflow/Status.antt =====
-- backend/internal/workflow/domain.go: the statuses of runs and steps and their transition tables.
use go_dashboard.Prelude.{◌≡◌, Bool, true, false, arith}

pub data RunStatus : Type 0 where
  pending running waiting_approval completed failed cancelled : RunStatus

pub data StepStatus : Type 0 where
  pending running completed failed skipped cancelled : StepStatus

unfoldable pub run_can_transition_to : RunStatus → RunStatus → Bool
run_can_transition_to RunStatus.pending RunStatus.running = true
run_can_transition_to RunStatus.pending RunStatus.cancelled = true
run_can_transition_to RunStatus.running RunStatus.waiting_approval = true
run_can_transition_to RunStatus.running RunStatus.completed = true
run_can_transition_to RunStatus.running RunStatus.failed = true
run_can_transition_to RunStatus.running RunStatus.cancelled = true
run_can_transition_to RunStatus.waiting_approval RunStatus.running = true
run_can_transition_to RunStatus.waiting_approval RunStatus.cancelled = true
run_can_transition_to RunStatus.failed RunStatus.pending = true
run_can_transition_to _ _ = false

unfoldable pub step_can_transition_to : StepStatus → StepStatus → Bool
step_can_transition_to StepStatus.pending StepStatus.running = true
step_can_transition_to StepStatus.pending StepStatus.skipped = true
step_can_transition_to StepStatus.pending StepStatus.cancelled = true
step_can_transition_to StepStatus.running StepStatus.completed = true
step_can_transition_to StepStatus.running StepStatus.failed = true
step_can_transition_to StepStatus.running StepStatus.cancelled = true
step_can_transition_to StepStatus.failed StepStatus.running = true
step_can_transition_to _ _ = false

-- `status == s`
abbrev pub run_eq : RunStatus → RunStatus → Bool
run_eq RunStatus.pending RunStatus.pending = true
run_eq RunStatus.running RunStatus.running = true
run_eq RunStatus.waiting_approval RunStatus.waiting_approval = true
run_eq RunStatus.completed RunStatus.completed = true
run_eq RunStatus.failed RunStatus.failed = true
run_eq RunStatus.cancelled RunStatus.cancelled = true
run_eq _ _ = false

abbrev pub step_eq : StepStatus → StepStatus → Bool
step_eq StepStatus.pending StepStatus.pending = true
step_eq StepStatus.running StepStatus.running = true
step_eq StepStatus.completed StepStatus.completed = true
step_eq StepStatus.failed StepStatus.failed = true
step_eq StepStatus.skipped StepStatus.skipped = true
step_eq StepStatus.cancelled StepStatus.cancelled = true
step_eq _ _ = false

pub run_eq-eq : (a b : RunStatus) → run_eq a b ≡ true → a ≡ b
run_eq-eq a b h = ground arith

pub step_eq-eq : (a b : StepStatus) → step_eq a b ≡ true → a ≡ b
step_eq-eq a b h = ground arith
