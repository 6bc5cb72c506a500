-- ===== src/Control/Tasks.antt =====
-- The background tasks of tunnels: crates/localup-control/src/task_tracker.rs. Each operation holds the
-- lock, which no operation poisons.
pub mod Tracking
use localup.Base.{
  ℕ, Option, none, some, List, [], ◌∷◌, Map, lookup, remove, insert, Text, nat_eq, list_eq,
}

-- A handle of a task is its number; `aborted` collects the handles whose `abort` was called.
pub record TaskTracker : Type 0 where
  pub tasks : Map Text ℕ
  pub aborted : List ℕ

unfoldable pub new : TaskTracker
new = record { tasks = []; aborted = [] }

-- `if let Some(handle) = tasks.remove(..) { handle.abort(); }`
abbrev pub abort_removed : Option ℕ → List ℕ → List ℕ
abort_removed none aborted = aborted
abort_removed (some handle) aborted = handle ∷ aborted

unfoldable pub unregister : TaskTracker → Text → TaskTracker
unregister t localup_id = record {
  tasks = remove localup_id t.tasks;
  aborted = abort_removed (lookup localup_id t.tasks) t.aborted;
}

unfoldable pub register : TaskTracker → Text → ℕ → TaskTracker
register t localup_id handle = record {
  tasks = insert localup_id handle (remove localup_id t.tasks);
  aborted = abort_removed (lookup localup_id t.tasks) t.aborted;
}
