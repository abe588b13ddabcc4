-- ===== src/Workflow/Executor/Cancelled.antt =====
-- A cancelled run through `execute`.
use go_dashboard.Prelude.{ℕ, String, ◌≡◌, some}
use go_dashboard.Capability.{Registry}
use go_dashboard.Workflow.Status.{RunStatus}
use go_dashboard.Workflow.Definition.{Definition}
use go_dashboard.Workflow.Run.{Run}
use go_dashboard.Storage.Db.{status_of}
use go_dashboard.Storage.Cancelled.{IsCancelled, IsCancelled-status_of}
use go_dashboard.Storage.Cancelled.Histories.{perform-IsCancelled}
use go_dashboard.Workflow.Executor.World.{World}
use go_dashboard.Workflow.Executor.Execute.{execute}
use go_dashboard.Workflow.Executor.Invariants.{execute-Holds}

-- A run that is cancelled when `execute` starts still says `cancelled` when it has returned, for
-- every run that it executes, every capability, and all that other goroutines and faults do.
pub execute-keeps_cancelled :
    (id : String) (suffix : ℕ → String) (definition : Definition) (registry : Registry) (run : Run)
    (w : World)
    → IsCancelled id w.conn.db
    → status_of id (execute suffix definition registry run w).1.conn.db ≡ some RunStatus.cancelled
execute-keeps_cancelled id suffix definition registry run w c =
    IsCancelled-status_of id _
      (execute-Holds (IsCancelled id) (perform-IsCancelled id) suffix definition registry run w c)
