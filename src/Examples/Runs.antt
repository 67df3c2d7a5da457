-- ===== src/Examples/Runs.antt =====
-- Sample tasks, states and events, as fsasm-first/src/fsasm/domain.py takes a run through them.
use fsasm_training_lab.Prelude.{
  ℕ, String, ◌≡◌, refl, true, false, Option, none, some, List, [], ◌∷◌, ok, contains, append_once,
  remove,
}
use fsasm_training_lab.Models.{
  TaskStatus, RunStatus, VerificationType, ChildTask, Plan, RunState, GateOccurrence,
  HumanDecisionAction, can_retry, gate_id_for, decimal,
}
use fsasm_training_lab.Domain.Events.{
  DomainEvent, task_activated, task_verification_passed, task_escalated,
  human_gate_decision_applied, run_planned,
}
use fsasm_training_lab.Domain.Register.{
  lookup_task, update_task, validate_identity, find_task, check_task_transition,
  check_run_transition, all_required_tasks_complete,
}
use fsasm_training_lab.Domain.Apply.{
  apply_run_planned, apply_task_activated, finish_if_complete, apply_task_verification_passed,
  apply_task_escalated, apply_retry_once, apply_action, apply_gate_decision, apply, apply_event,
}

abbrev pub task_one : TaskStatus → ℕ → List String → ChildTask
task_one status attempt refs = record {
  task_id = "TASK-r-1";
  parent_id = some "PARENT-r";
  sequence = 1;
  title = "First";
  description = "Write the file";
  status = status;
  dependencies = [];
  constraints = [];
  allowed_files = "src/a.py" ∷ [];
  allowed_tools = "apply_patch" ∷ [];
  verification = record { type = VerificationType.exists; expected = "src/a.py" };
  expected_evidence = [];
  attempt = attempt;
  max_attempts = 1;
  accepted_evidence_refs = refs;
  budget = none;
}

-- It waits for the first one.
abbrev pub task_two : ChildTask
task_two = record (task_one TaskStatus.pending 0 []) {
  task_id = "TASK-r-2";
  sequence = 2;
  title = "Second";
  dependencies = "TASK-r-1" ∷ [];
}

abbrev pub plan_of : ChildTask → Plan
plan_of one = record {
  plan_id = "plan-r";
  run_id = "r";
  goal = "Two files";
  tasks = one ∷ task_two ∷ [];
}

abbrev pub run_with :
    RunStatus
    → ChildTask
    → Option String
    → (completed waiting : List String) → Option GateOccurrence
    → RunState
run_with status one active completed waiting gate = record {
  run_id = "r";
  goal = "Two files";
  status = status;
  schema_version = 1;
  revision = 3;
  plan = some (plan_of one);
  active_task_id = active;
  completed_task_ids = completed;
  failed_task_ids = [];
  needs_human_task_ids = waiting;
  gate = gate;
  budget = none;
  created_at = "t0";
  updated_at = "t3";
}

abbrev pub planned_run : RunState
planned_run = run_with RunStatus.planned (task_one TaskStatus.pending 0 []) none [] [] none

abbrev pub created_run : RunState
created_run = record planned_run { status = RunStatus.created; plan = none }

abbrev pub ready_run : RunState
ready_run = run_with RunStatus.running (task_one TaskStatus.ready 0 []) none [] [] none

abbrev pub working_run : RunState
working_run =
    run_with RunStatus.running (task_one TaskStatus.running 1 []) (some "TASK-r-1") [] [] none

abbrev pub evidenced_run : RunState
evidenced_run =
    run_with RunStatus.running (task_one TaskStatus.running 1 ("evidence-1" ∷ [])) (some "TASK-r-1")
      [] [] none

abbrev pub passed_run : RunState
passed_run =
    run_with RunStatus.running (task_one TaskStatus.passed 1 ("evidence-1" ∷ [])) none
      ("TASK-r-1" ∷ []) [] none

abbrev pub failed_run : RunState
failed_run = run_with RunStatus.running (task_one TaskStatus.failed 1 []) none [] [] none

abbrev pub first_gate : GateOccurrence
first_gate = record {
  gate_id = "gate-r-TASK-r-1-attempt-1";
  task_id = "TASK-r-1";
  attempt = 1;
  accepted_decision_id = none;
  accepted_action = none;
  applied = false;
}

abbrev pub waiting_run : RunState
waiting_run =
    run_with RunStatus.needs_human (task_one TaskStatus.needs_human 1 []) none [] ("TASK-r-1" ∷ [])
      (some first_gate)

abbrev pub retried_run : RunState
retried_run = record ready_run {
  plan = some (plan_of (record (task_one TaskStatus.ready 1 []) { max_attempts = 2 }));
}

-- The run is over although a task of it failed late.
abbrev pub closed_run : RunState
closed_run = record failed_run { status = RunStatus.failed }

abbrev pub activation : DomainEvent
activation = task_activated "r" "TASK-r-1"

abbrev pub passing : DomainEvent
passing = task_verification_passed "r" "TASK-r-1" true

abbrev pub escalation : DomainEvent
escalation = task_escalated "r" "TASK-r-1" 1

abbrev pub consent : DomainEvent
consent =
    human_gate_decision_applied "r" "TASK-r-1" "gate-r-TASK-r-1-attempt-1" "d1"
      HumanDecisionAction.retry_once 1 (some 2)

pub activation_accepted : apply_event ready_run activation ≡ ok working_run
unfolding apply_event apply validate_identity apply_task_activated find_task lookup_task update_task
    check_task_transition check_run_transition
activation_accepted = refl

pub passing_accepted : apply_event evidenced_run passing ≡ ok passed_run
unfolding apply_event apply validate_identity apply_task_verification_passed find_task lookup_task
    update_task check_task_transition check_run_transition finish_if_complete
    all_required_tasks_complete contains append_once
passing_accepted = refl

pub escalation_accepted : apply_event failed_run escalation ≡ ok waiting_run
unfolding apply_event apply validate_identity apply_task_escalated find_task lookup_task update_task
    check_task_transition check_run_transition can_retry gate_id_for decimal append_once
escalation_accepted = refl

pub consent_accepted : apply_event waiting_run consent ≡ ok retried_run
unfolding apply_event apply validate_identity apply_gate_decision apply_action apply_retry_once
    find_task lookup_task update_task check_task_transition check_run_transition remove
consent_accepted = refl

pub planning_accepted :
    apply_event created_run (run_planned "r" (plan_of (task_one TaskStatus.pending 0 [])))
    ≡ ok planned_run
unfolding apply_event apply validate_identity apply_run_planned check_run_transition
planning_accepted = refl
