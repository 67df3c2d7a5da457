-- ===== src/Scheduler/Query.antt =====
-- `schedule` of fsasm-first/src/fsasm/scheduler.py, with its helpers.
use fsasm_training_lab.Prelude.{
  String, ◌==◌, Bool, true, false, not, ◌&&◌, ◌||◌, Option, none, some, List, [], ◌∷◌, all, any,
  filter, contains, if◌then◌else◌,
}
use fsasm_training_lab.Models.{
  TaskStatus, RunStatus, task_status_eq, run_status_eq, task_status_in, run_status_in, ChildTask,
  RunState, can_retry,
}
use fsasm_training_lab.Scheduler.Order.{sort}

pub data ScheduleOutcome : Type 0 where
  next_task all_complete blocked waiting_on_gate busy : ScheduleOutcome

pub record ScheduleResult : Type 0 where
  pub outcome : ScheduleOutcome
  pub task : Option ChildTask

abbrev pub answer : ScheduleOutcome → ScheduleResult
answer outcome = record { outcome = outcome; task = none }

abbrev pub chosen : ChildTask → ScheduleResult
chosen task = record { outcome = next_task; task = some task }

abbrev pub is_some : Option String → Bool
is_some none = false
is_some (some _) = true

unfoldable pub dependencies_satisfied : ChildTask → List String → Bool
dependencies_satisfied task completed = all (contains completed) task.dependencies

-- `{t.task_id: t for t in tasks}.get(id)`: a later entry replaces an earlier one.
unfoldable pub by_id : List ChildTask → String → Option ChildTask
by_id [] id = none
by_id (t ∷ ts) id =
    let found = by_id ts id in
    elim found [ some u ↦ some u | none ↦ if t.task_id == id then some t else none ]

abbrev pub lost : List String → String → Option ChildTask → Bool
lost needs_human dep_id none = true
lost needs_human dep_id (some dep) =
    (task_status_eq dep.status TaskStatus.needs_human || contains needs_human dep_id)
    || (task_status_eq dep.status TaskStatus.failed && not (can_retry dep))

-- The loop returns at the first dependency that is lost, and passes over the completed ones.
unfoldable pub has_unsatisfiable_dependency :
    ChildTask → List ChildTask → (completed needs_human : List String) → Bool
unfolding by_id can_retry
has_unsatisfiable_dependency task tasks completed needs_human =
    any (λ dep_id. not (contains completed dep_id) && lost needs_human dep_id (by_id tasks dep_id))
      task.dependencies

unfoldable pub all_required_tasks_complete : RunState → Bool
all_required_tasks_complete state = elim state.plan [
  | none ↦ false
  | some plan ↦ all (λ (t : ChildTask). contains state.completed_task_ids t.task_id) plan.tasks
]

-- A task that may be activated once its dependencies are PASSED.
unfoldable pub is_candidate : List String → ChildTask → Bool
unfolding dependencies_satisfied
is_candidate completed t =
    task_status_in t.status (TaskStatus.pending ∷ TaskStatus.ready ∷ [])
    && dependencies_satisfied t completed

abbrev pub is_blocked : RunState → List ChildTask → ChildTask → Bool
is_blocked state tasks t =
    task_status_eq t.status TaskStatus.pending
    && has_unsatisfiable_dependency t tasks state.completed_task_ids state.needs_human_task_ids

abbrev pub is_remaining : RunState → ChildTask → Bool
is_remaining state t =
    not (contains state.completed_task_ids t.task_id)
    && (not (contains state.failed_task_ids t.task_id)
        && not (contains state.needs_human_task_ids t.task_id))

abbrev pub is_empty : List ChildTask → Bool
is_empty [] = true
is_empty (_ ∷ _) = false

-- The answer when no task is a candidate.
unfoldable pub no_candidate : RunState → List ChildTask → ScheduleResult
no_candidate state tasks =
    if not (is_empty (filter (is_blocked state tasks) tasks))
    then answer blocked
    else if is_empty (filter (is_remaining state) tasks)
    then answer all_complete
    else answer blocked

-- `candidates.sort(…); candidates[0]`
abbrev pub first_or : ScheduleResult → List ChildTask → ScheduleResult
first_or otherwise [] = otherwise
first_or otherwise (t ∷ _) = chosen t

unfoldable pub schedule_tasks : RunState → List ChildTask → ScheduleResult
unfolding is_candidate no_candidate
schedule_tasks state tasks =
    first_or (no_candidate state tasks)
      (sort (filter (is_candidate state.completed_task_ids) tasks))

unfoldable pub schedule : RunState → ScheduleResult
unfolding schedule_tasks all_required_tasks_complete
schedule state = elim state.plan [
  | none ↦ answer blocked
  | some plan ↦
      if is_some state.active_task_id
      then answer busy
      else if run_status_eq state.status RunStatus.needs_human
      then answer waiting_on_gate
      else if run_status_in state.status (RunStatus.passed ∷ RunStatus.failed ∷ [])
      then answer all_complete
      else if all_required_tasks_complete state
      then answer all_complete
      else schedule_tasks state plan.tasks
]
