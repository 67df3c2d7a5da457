-- ===== src/Transitions.antt =====
-- fsasm-first/src/fsasm/transitions.py: the imperative transitions that the milestone workflows call.
-- A function changes the object that it is given, so it returns the object beside its result, also
-- where it raises. `None`, `True` and `False` of a verification argument are an `Option Bool`.
pub mod Accepted
use fsasm_training_lab.Prelude.{
  ℕ, ◌+◌, String, Bool, true, false, not, ◌&&◌, ◌||◌, Option, none, some, List, if◌then◌else◌,
  Result, ok, err, ◌>>=◌, ◌>>◌, reject_if,
}
use fsasm_training_lab.Models.{
  TaskStatus, RunStatus, task_status_eq, run_status_eq, ChildTask, RunState, can_retry, touch,
}
use fsasm_training_lab.Domain.Matrix.{
  task_allowed_transitions, run_allowed_transitions, task_allowed, run_allowed,
  task_requires_verification_pass, task_requires_verification_fail, task_requires_retry_check,
  run_requires_verification_pass,
}

-- `InvalidTransitionError` by its reason, and `RetryExhaustedError`
pub data TransitionError : Type 0 where
  not_allowed requires_pass requires_fail can_still_retry not_waiting not_authorized :
      TransitionError
  retry_exhausted : (max_attempts current_attempt : ℕ) → TransitionError

abbrev pub Checked : Type 0
Checked = Result TransitionError Unit

abbrev pub is_true : Option Bool → Bool
is_true (some b) = b
is_true none = false

abbrev pub is_false : Option Bool → Bool
is_false (some b) = not b
is_false none = false

-- `task.attempt += 1` on READY -> RUNNING, before the other checks
abbrev pub count_attempt : TaskStatus → ChildTask → ChildTask
count_attempt target task =
    if task_status_eq task.status TaskStatus.ready && task_status_eq target TaskStatus.running
    then record task { attempt = task.attempt + 1 }
    else task

-- The retry budget, for the moves that depend on it.
abbrev pub check_budget : Bool → TaskStatus → ChildTask → Checked
check_budget false target task = ok tt
check_budget true target task =
    if task_status_eq target TaskStatus.needs_human
    then reject_if (can_retry task) can_still_retry
    else reject_if (not (can_retry task)) (retry_exhausted task.max_attempts task.attempt)

-- The verification and retry checks of the move from `source` to `target`.
unfoldable pub check_move :
    TaskStatus → TaskStatus → Option Bool → Option Bool → ChildTask → Checked
unfolding can_retry
check_move source target verification_pass verification_result task = do
  reject_if
      (task_requires_verification_pass source target
        && not (is_true verification_pass)
        && not (is_true verification_result))
      requires_pass
  reject_if
      (task_requires_verification_fail source target
        && not (is_false verification_pass)
        && not (is_false verification_result))
      requires_fail
  check_budget (task_requires_retry_check source target) target task

-- `task.status = target`, unless a check raised
abbrev pub moved : TaskStatus → Checked → ChildTask → Checked × ChildTask
moved target (ok _) task = (ok tt, record task { status = target })
moved target (err e) task = (err e, task)

unfoldable pub transition_task :
    ChildTask → TaskStatus → Option Bool → Option Bool → Checked × ChildTask
unfolding check_move
transition_task task target verification_pass verification_result =
    if task_allowed task.status target
    then (let counted = count_attempt target task in
        moved target (check_move task.status target verification_pass verification_result counted)
          counted)
    else (err not_allowed, task)

unfoldable pub transition_run : String → RunState → RunStatus → Option Bool → Checked × RunState
unfolding touch
transition_run now state target verification_pass =
    if not (run_allowed state.status target)
    then (err not_allowed, state)
    else if run_requires_verification_pass state.status target && not (is_true verification_pass)
    then (err requires_pass, state)
    else (ok tt, touch now (record state { status = target }))

abbrev pub with_max_attempts : Option ℕ → ChildTask → ChildTask
with_max_attempts none task = task
with_max_attempts (some n) task = record task { max_attempts = n }

unfoldable pub apply_human_authorized_task_transition :
    ChildTask → TaskStatus → Option ℕ → Checked × ChildTask
apply_human_authorized_task_transition task target new_max_attempts =
    if not (task_status_eq task.status TaskStatus.needs_human)
    then (err not_waiting, task)
    else if not (task_status_eq target TaskStatus.ready || task_status_eq target TaskStatus.failed)
    then (err not_authorized, task)
    else (ok tt, with_max_attempts new_max_attempts (record task { status = target }))

unfoldable pub apply_human_authorized_run_transition :
    String → RunState → RunStatus → Checked × RunState
unfolding touch
apply_human_authorized_run_transition now state target =
    if not (run_status_eq state.status RunStatus.needs_human)
    then (err not_waiting, state)
    else if not (run_status_eq target RunStatus.running || run_status_eq target RunStatus.failed)
    then (err not_authorized, state)
    else (ok tt, touch now (record state { status = target }))

-- The queries on the matrices.
abbrev pub is_task_transition_allowed : TaskStatus → TaskStatus → Bool
is_task_transition_allowed from_status to_status = task_allowed from_status to_status

abbrev pub is_run_transition_allowed : RunStatus → RunStatus → Bool
is_run_transition_allowed from_status to_status = run_allowed from_status to_status

abbrev pub get_allowed_task_transitions : TaskStatus → List TaskStatus
get_allowed_task_transitions from_status = task_allowed_transitions from_status

abbrev pub get_allowed_run_transitions : RunStatus → List RunStatus
get_allowed_run_transitions from_status = run_allowed_transitions from_status
