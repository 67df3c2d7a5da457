-- ===== src/Domain/Register.antt =====
-- The Task Register of a run, `_validate_identity` and the checked reads of
-- fsasm-first/src/fsasm/domain.py. The task that `_find_task` returns is an alias into the plan, so
-- a write to it replaces that entry of the list.
use fsasm_training_lab.Prelude.{
  String, ◌==◌, Bool, false, not, Option, none, some, List, [], ◌∷◌, any, all, contains,
  if◌then◌else◌, ok, err, ◌>>◌, reject_if,
}
use fsasm_training_lab.Models.{TaskStatus, RunStatus, ChildTask, Plan, RunState}
use fsasm_training_lab.Domain.Matrix.{task_allowed, run_allowed}
use fsasm_training_lab.Domain.Events.{
  DomainEvent, event_run_id, event_task_id, foreign_run, no_plan, unknown_task, task_not_allowed,
  run_not_allowed, invalid_transition, unreachable, Outcome,
}

-- The tasks of a run, none before it has a plan.
abbrev pub plan_tasks : Option Plan → List ChildTask
plan_tasks none = []
plan_tasks (some plan) = plan.tasks

abbrev pub tasks_of : RunState → List ChildTask
tasks_of state = plan_tasks state.plan

-- The first task with the id.
unfoldable pub lookup_task : String → List ChildTask → Option ChildTask
lookup_task id [] = none
lookup_task id (t ∷ ts) = if t.task_id == id then some t else lookup_task id ts

-- What a write through the alias to that task leaves in the list.
unfoldable pub update_task : String → (ChildTask → ChildTask) → List ChildTask → List ChildTask
update_task id f [] = []
update_task id f (t ∷ ts) =
    let rest = update_task id f ts in if t.task_id == id then f t ∷ ts else t ∷ rest

abbrev pub modify_plan : String → (ChildTask → ChildTask) → Option Plan → Option Plan
modify_plan id f none = none
modify_plan id f (some plan) = some (record plan { tasks = update_task id f plan.tasks })

abbrev pub modify_task : String → (ChildTask → ChildTask) → RunState → RunState
modify_task id f state = record state { plan = modify_plan id f state.plan }

abbrev pub set_status : TaskStatus → ChildTask → ChildTask
set_status s t = record t { status = s }

abbrev pub has_task : List ChildTask → String → Bool
has_task ts id = any (λ (t : ChildTask). t.task_id == id) ts

abbrev pub validate_task_id : RunState → Option String → Outcome Unit
validate_task_id state none = ok tt
validate_task_id state (some id) = elim state.plan [
  | none ↦ err (invalid_transition state.run_id no_plan)
  | some plan ↦ reject_if (not (has_task plan.tasks id)) (invalid_transition id unknown_task)
]

unfoldable pub validate_identity : RunState → DomainEvent → Outcome Unit
validate_identity state event = do
  reject_if (not (event_run_id event == state.run_id)) (invalid_transition state.run_id foreign_run)
  validate_task_id state (event_task_id event)

abbrev pub or_unreachable : Option ChildTask → Outcome ChildTask
or_unreachable none = err unreachable
or_unreachable (some t) = ok t

unfoldable pub find_task : RunState → String → Outcome ChildTask
find_task state id = or_unreachable (lookup_task id (tasks_of state))

unfoldable pub check_task_transition : ChildTask → TaskStatus → Outcome Unit
check_task_transition task target =
    reject_if (not (task_allowed task.status target))
      (invalid_transition task.task_id task_not_allowed)

unfoldable pub check_run_transition : RunState → RunStatus → Outcome Unit
check_run_transition state target =
    reject_if (not (run_allowed state.status target))
      (invalid_transition state.run_id run_not_allowed)

unfoldable pub all_required_tasks_complete : RunState → Bool
all_required_tasks_complete state = elim state.plan [
  | none ↦ false
  | some plan ↦ all (λ (t : ChildTask). contains state.completed_task_ids t.task_id) plan.tasks
]
