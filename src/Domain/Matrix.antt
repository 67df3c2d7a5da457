-- ===== src/Domain/Matrix.antt =====
-- The transition matrices of fsasm-first/src/fsasm/domain.py. A set of statuses is a list, and the
-- dictionaries are total functions: each of them has a key for every status.
use fsasm_training_lab.Prelude.{Bool, ◌&&◌, ◌||◌, List, [], ◌∷◌}
use fsasm_training_lab.Models.{
  TaskStatus, RunStatus, task_status_eq, run_status_eq, task_status_in, run_status_in,
}

abbrev pub task_allowed_transitions : TaskStatus → List TaskStatus
task_allowed_transitions TaskStatus.pending = TaskStatus.ready ∷ TaskStatus.blocked ∷ []
task_allowed_transitions TaskStatus.ready = TaskStatus.running ∷ TaskStatus.blocked ∷ []
task_allowed_transitions TaskStatus.running =
    TaskStatus.passed ∷ TaskStatus.failed ∷ TaskStatus.blocked ∷ []
task_allowed_transitions TaskStatus.passed = []
task_allowed_transitions TaskStatus.failed = TaskStatus.ready ∷ TaskStatus.needs_human ∷ []
task_allowed_transitions TaskStatus.blocked = TaskStatus.ready ∷ []
task_allowed_transitions TaskStatus.needs_human = []

abbrev pub run_allowed_transitions : RunStatus → List RunStatus
run_allowed_transitions RunStatus.created = RunStatus.planned ∷ []
run_allowed_transitions RunStatus.planned = RunStatus.running ∷ []
run_allowed_transitions RunStatus.running =
    RunStatus.passed ∷ RunStatus.failed ∷ RunStatus.needs_human ∷ []
run_allowed_transitions RunStatus.passed = []
run_allowed_transitions RunStatus.failed = []
run_allowed_transitions RunStatus.needs_human = []

-- `target in TASK_ALLOWED_TRANSITIONS.get(source, set())`
abbrev pub task_allowed : TaskStatus → TaskStatus → Bool
task_allowed source target = task_status_in target (task_allowed_transitions source)

abbrev pub run_allowed : RunStatus → RunStatus → Bool
run_allowed source target = run_status_in target (run_allowed_transitions source)

abbrev pub task_requires_verification_pass : TaskStatus → TaskStatus → Bool
task_requires_verification_pass source target =
    task_status_eq source TaskStatus.running && task_status_eq target TaskStatus.passed

abbrev pub task_requires_verification_fail : TaskStatus → TaskStatus → Bool
task_requires_verification_fail source target =
    task_status_eq source TaskStatus.running && task_status_eq target TaskStatus.failed

abbrev pub task_requires_retry_check : TaskStatus → TaskStatus → Bool
task_requires_retry_check source target =
    (task_status_eq source TaskStatus.failed && task_status_eq target TaskStatus.ready)
    || (task_status_eq source TaskStatus.failed && task_status_eq target TaskStatus.needs_human)

abbrev pub run_requires_verification_pass : RunStatus → RunStatus → Bool
run_requires_verification_pass source target =
    run_status_eq source RunStatus.running && run_status_eq target RunStatus.passed
