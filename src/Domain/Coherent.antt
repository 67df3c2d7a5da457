-- ===== src/Domain/Coherent.antt =====
-- The invariant of a run snapshot between two events: the statuses of the tasks agree with the id
-- lists, the active task and the gate of fsasm-first/src/fsasm/models.py.
pub mod Tasks
pub mod Ids
pub mod Lists
pub mod Preserved
pub mod Validated
use fsasm_training_lab.Prelude.{
  String, ◌≡◌, ◌≢◌, true, Option, none, some, List, [], All, contains, NoDup,
}
use fsasm_training_lab.Models.{
  TaskStatus, RunStatus, ChildTask, Plan, RunState, GateOccurrence, task_ids, active_in,
}
use fsasm_training_lab.Domain.Register.{tasks_of}
use fsasm_training_lab.Domain.Tasks.{Unique}

-- One task against the active id and the three id lists.
pub record TaskOk (active : Option String) (completed failed needs_human : List String)
    (t : ChildTask) : Type 0 where
  pub running_active : t.status ≡ TaskStatus.running → active ≡ some t.task_id
  pub completed_passed : contains completed t.task_id ≡ true → t.status ≡ TaskStatus.passed
  pub failed_failed : contains failed t.task_id ≡ true → t.status ≡ TaskStatus.failed
  pub waiting : contains needs_human t.task_id ≡ true → t.status ≡ TaskStatus.needs_human

abbrev pub Known : List String → List String → Type 0
Known ids xs = All (λ x. contains ids x ≡ true) xs

abbrev pub ids_of : RunState → List String
ids_of s = task_ids (tasks_of s)

abbrev pub TasksOk : RunState → Type 0
TasksOk s =
    All (TaskOk s.active_task_id s.completed_task_ids s.failed_task_ids s.needs_human_task_ids)
      (tasks_of s)

-- An open gate stands at a run that waits for a human, at one of the waiting tasks.
abbrev pub GateOk : RunStatus → List String → Option GateOccurrence → Type 0
GateOk status waiting none = Unit
GateOk status waiting (some gate) =
    (status ≡ RunStatus.needs_human) × (contains waiting gate.task_id ≡ true)

-- The id lists, the active task and the gate against the ids of the plan.
pub record ListsOk (ids : List String) (s : RunState) : Type 0 where
  pub active_known : active_in s.active_task_id ids ≡ true
  pub completed_known : Known ids s.completed_task_ids
  pub failed_known : Known ids s.failed_task_ids
  pub waiting_known : Known ids s.needs_human_task_ids
  pub waiting_once : NoDup s.needs_human_task_ids
  pub gate_ok : GateOk s.status s.needs_human_task_ids s.gate
  -- Only an ABORT, which fails the run, enters a task as failed.
  pub failed_closed : s.status ≢ RunStatus.failed → s.failed_task_ids ≡ []
  -- Nothing has happened to a run that is not planned yet.
  pub created_idle :
      s.status ≡ RunStatus.created
      → (s.active_task_id ≡ none) × (s.completed_task_ids ≡ []) × (s.needs_human_task_ids ≡ [])

abbrev pub OwnPlan : String → Option Plan → Type 0
OwnPlan run_id none = Unit
OwnPlan run_id (some plan) = plan.run_id ≡ run_id

pub record IsCoherent (s : RunState) : Type 0 where
  pub own_plan : OwnPlan s.run_id s.plan
  pub unique : Unique (tasks_of s)
  pub tasks_ok : TasksOk s
  pub lists_ok : ListsOk (ids_of s) s
