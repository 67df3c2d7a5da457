-- ===== src/Domain/Apply.antt =====
-- `apply_event` of fsasm-first/src/fsasm/domain.py. `_apply` assigns to the fields of a deep copy;
-- here each of its `if isinstance(event, …)` blocks is a function that returns the new state.
use fsasm_training_lab.Prelude.{
  ℕ, ◌+◌, String, ◌==◌, Bool, true, false, not, ◌&&◌, Option, none, some, List, [], append_once,
  remove, if◌then◌else◌, nat_eq, ok, err, ◌>>=◌, ◌>>◌, reject_if,
}
use fsasm_training_lab.Models.{
  TaskStatus, RunStatus, run_status_eq, task_status_eq, HumanDecisionAction, retry_once, abort,
  ChildTask, Plan, RunState, GateOccurrence, can_retry, gate_id_for,
}
use fsasm_training_lab.Domain.Matrix.{task_requires_retry_check}
use fsasm_training_lab.Domain.Events.{
  DomainEvent, run_planned, run_started, task_readied, task_activated, task_blocked, task_unblocked,
  evidence_accepted, task_verification_passed, task_verification_failed, task_retried,
  task_escalated, human_gate_decision_applied, run_completed, run_failed, foreign_plan,
  another_active, unverified_pass, no_evidence, unverified_fail, budget_remains, not_at_gate,
  wrong_gate, stale_gate, duplicate_decision, contradictory_decision, missing_limit,
  unverified_run_pass, invalid_transition, retry_exhausted, Outcome,
}
use fsasm_training_lab.Domain.Register.{
  modify_task, set_status, validate_identity, find_task, check_task_transition,
  check_run_transition, all_required_tasks_complete,
}

-- `state.active_task_id is not None and state.active_task_id != task_id`
abbrev pub other_active : Option String → String → Bool
other_active none task_id = false
other_active (some active) task_id = not (active == task_id)

-- `if state.active_task_id == task_id: state.active_task_id = None`
abbrev pub clear_active : Option String → String → Option String
clear_active none task_id = none
clear_active (some active) task_id = if active == task_id then none else some active

abbrev pub no_refs : List String → Bool
no_refs [] = true
no_refs _ = false

unfoldable pub apply_run_planned : RunState → Plan → Outcome RunState
unfolding check_run_transition
apply_run_planned state plan = do
  check_run_transition state RunStatus.planned
  reject_if (not (state.run_id == plan.run_id)) (invalid_transition state.run_id foreign_plan)
  ok (record state { plan = some plan; status = RunStatus.planned })

unfoldable pub apply_run_started : RunState → Outcome RunState
unfolding check_run_transition
apply_run_started state = do
  check_run_transition state RunStatus.running
  ok (record state { status = RunStatus.running })

-- `TaskReadied` and `TaskUnblocked`; `TaskBlocked` with the other target
unfoldable pub apply_task_moved : TaskStatus → RunState → String → Outcome RunState
unfolding find_task check_task_transition
apply_task_moved target state task_id = do
  task ← find_task state task_id
  check_task_transition task target
  ok (modify_task task_id (set_status target) state)

abbrev pub start_attempt : ChildTask → ChildTask
start_attempt t = record t {
  attempt = t.attempt + 1;
  accepted_evidence_refs = [];
  status = TaskStatus.running;
}

unfoldable pub apply_task_activated : RunState → String → Outcome RunState
unfolding find_task check_task_transition
apply_task_activated state task_id = do
  task ← find_task state task_id
  check_task_transition task TaskStatus.running
  reject_if (other_active state.active_task_id task_id)
      (invalid_transition state.run_id another_active)
  ok (record (modify_task task_id start_attempt state) {
    active_task_id = some task_id;
    status =
        if run_status_eq state.status RunStatus.planned then RunStatus.running else state.status;
  })

abbrev pub set_refs : List String → ChildTask → ChildTask
set_refs refs t = record t { accepted_evidence_refs = refs }

unfoldable pub apply_evidence_accepted : RunState → String → List String → Outcome RunState
unfolding find_task
apply_evidence_accepted state task_id refs = do
  find_task state task_id
  ok (modify_task task_id (set_refs refs) state)

-- The state of a passed task, before the run itself is looked at.
abbrev pub pass_task : String → RunState → RunState
pass_task task_id state = record (modify_task task_id (set_status TaskStatus.passed) state) {
  completed_task_ids = append_once state.completed_task_ids task_id;
  active_task_id = clear_active state.active_task_id task_id;
}

-- `if _all_required_tasks_complete(state): …`
unfoldable pub finish_if_complete : RunState → Outcome RunState
unfolding check_run_transition
finish_if_complete state =
    if all_required_tasks_complete state
    then (do
      check_run_transition state RunStatus.passed
      ok (record state { status = RunStatus.passed }))
    else ok state

unfoldable pub apply_task_verification_passed : RunState → String → Bool → Outcome RunState
unfolding find_task check_task_transition finish_if_complete
apply_task_verification_passed state task_id verified = do
  reject_if (not verified) (invalid_transition task_id unverified_pass)
  task ← find_task state task_id
  check_task_transition task TaskStatus.passed
  reject_if (no_refs task.accepted_evidence_refs) (invalid_transition task_id no_evidence)
  finish_if_complete (pass_task task_id state)

unfoldable pub apply_task_verification_failed : RunState → String → Bool → Outcome RunState
unfolding find_task check_task_transition
apply_task_verification_failed state task_id verified = do
  reject_if verified (invalid_transition task_id unverified_fail)
  task ← find_task state task_id
  check_task_transition task TaskStatus.failed
  ok (record (modify_task task_id (set_status TaskStatus.failed) state) {
    active_task_id = clear_active state.active_task_id task_id;
  })

unfoldable pub apply_task_retried : RunState → String → Outcome RunState
unfolding find_task check_task_transition can_retry
apply_task_retried state task_id = do
  task ← find_task state task_id
  check_task_transition task TaskStatus.ready
  reject_if (task_requires_retry_check TaskStatus.failed TaskStatus.ready && not (can_retry task))
      (retry_exhausted task.task_id task.max_attempts task.attempt)
  ok (modify_task task_id (set_status TaskStatus.ready) state)

abbrev pub open_gate : RunState → String → ℕ → GateOccurrence
open_gate state task_id attempt = record {
  gate_id = gate_id_for state.run_id task_id attempt;
  task_id = task_id;
  attempt = attempt;
  accepted_decision_id = none;
  accepted_action = none;
  applied = false;
}

-- The matrix allows RUNNING→NEEDS_HUMAN, and the run's check stands inside the test for RUNNING.
unfoldable pub apply_task_escalated : RunState → String → ℕ → Outcome RunState
unfolding find_task check_task_transition check_run_transition can_retry
apply_task_escalated state task_id attempt = do
  task ← find_task state task_id
  check_task_transition task TaskStatus.needs_human
  reject_if (task_requires_retry_check TaskStatus.failed TaskStatus.needs_human && can_retry task)
      (invalid_transition task.task_id budget_remains)
  let opened = record (modify_task task_id (set_status TaskStatus.needs_human) state) {
    needs_human_task_ids = append_once state.needs_human_task_ids task_id;
    gate = some (open_gate state task_id attempt);
    active_task_id = clear_active state.active_task_id task_id;
  }
  if run_status_eq opened.status RunStatus.running
      then (do
        check_run_transition opened RunStatus.needs_human
        ok (record opened { status = RunStatus.needs_human }))
      else ok opened

-- `if state.gate is None or state.gate.gate_id != gate_id: raise …`
abbrev pub require_gate : Option GateOccurrence → String → String → Outcome GateOccurrence
require_gate none task_id gate_id = err (invalid_transition task_id wrong_gate)
require_gate (some gate) task_id gate_id =
    if gate.gate_id == gate_id then ok gate else err (invalid_transition task_id wrong_gate)

-- `gate.accepted_decision_id == decision_id`
abbrev pub same_decision : Option String → String → Bool
same_decision none decision_id = false
same_decision (some accepted) decision_id = accepted == decision_id

abbrev pub grant_retry : ℕ → ChildTask → ChildTask
grant_retry limit t = record t { status = TaskStatus.ready; max_attempts = limit }

abbrev pub leave_gate : RunStatus → RunStatus → RunStatus
leave_gate status next = if run_status_eq status RunStatus.needs_human then next else status

-- The fields of the gate that are written before `state.gate = None` are not readable afterwards.
unfoldable pub apply_retry_once : RunState → String → Option ℕ → Outcome RunState
apply_retry_once state task_id none = err (invalid_transition task_id missing_limit)
apply_retry_once state task_id (some limit) =
    ok (record (modify_task task_id (grant_retry limit) state) {
      needs_human_task_ids = remove state.needs_human_task_ids task_id;
      gate = none;
      status = leave_gate state.status RunStatus.running;
    })

unfoldable pub apply_abort : RunState → String → Outcome RunState
apply_abort state task_id = ok (record (modify_task task_id (set_status TaskStatus.failed) state) {
  failed_task_ids = append_once state.failed_task_ids task_id;
  needs_human_task_ids = remove state.needs_human_task_ids task_id;
  gate = none;
  status = leave_gate state.status RunStatus.failed;
})

unfoldable pub apply_action : HumanDecisionAction → RunState → String → Option ℕ → Outcome RunState
unfolding apply_retry_once apply_abort
apply_action retry_once state task_id limit = apply_retry_once state task_id limit
apply_action abort state task_id limit = apply_abort state task_id

unfoldable pub apply_gate_decision :
    RunState
    → (task_id gate_id decision_id : String) → HumanDecisionAction
    → ℕ
    → Option ℕ
    → Outcome RunState
unfolding find_task apply_action
apply_gate_decision state task_id gate_id decision_id action attempt limit = do
  task ← find_task state task_id
  reject_if (not (task_status_eq task.status TaskStatus.needs_human))
      (invalid_transition task_id not_at_gate)
  gate ← require_gate state.gate task_id gate_id
  reject_if (not (nat_eq attempt gate.attempt)) (invalid_transition task_id stale_gate)
  reject_if (gate.applied && same_decision gate.accepted_decision_id decision_id)
      (invalid_transition task_id duplicate_decision)
  reject_if gate.applied (invalid_transition task_id contradictory_decision)
  apply_action action state task_id limit

unfoldable pub apply_run_completed : RunState → Bool → Outcome RunState
unfolding check_run_transition
apply_run_completed state verified = do
  reject_if (not verified) (invalid_transition state.run_id unverified_run_pass)
  check_run_transition state RunStatus.passed
  ok (record state { status = RunStatus.passed })

unfoldable pub apply_run_failed : RunState → Outcome RunState
unfolding check_run_transition
apply_run_failed state = do
  check_run_transition state RunStatus.failed
  ok (record state { status = RunStatus.failed })

-- `_apply`
unfoldable pub apply : RunState → DomainEvent → Outcome RunState
unfolding apply_run_planned apply_run_started apply_task_moved apply_task_activated
    apply_evidence_accepted apply_task_verification_passed apply_task_verification_failed
    apply_task_retried apply_task_escalated apply_gate_decision apply_run_completed apply_run_failed
apply state (run_planned _ plan) = apply_run_planned state plan
apply state (run_started _) = apply_run_started state
apply state (task_readied _ t) = apply_task_moved TaskStatus.ready state t
apply state (task_activated _ t) = apply_task_activated state t
apply state (task_blocked _ t) = apply_task_moved TaskStatus.blocked state t
apply state (task_unblocked _ t) = apply_task_moved TaskStatus.ready state t
apply state (evidence_accepted _ t refs) = apply_evidence_accepted state t refs
apply state (task_verification_passed _ t v) = apply_task_verification_passed state t v
apply state (task_verification_failed _ t v) = apply_task_verification_failed state t v
apply state (task_retried _ t) = apply_task_retried state t
apply state (task_escalated _ t n) = apply_task_escalated state t n
apply state (human_gate_decision_applied _ t g d a n m) = apply_gate_decision state t g d a n m
apply state (run_completed _ v) = apply_run_completed state v
apply state (run_failed _) = apply_run_failed state

unfoldable pub apply_event : RunState → DomainEvent → Outcome RunState
unfolding validate_identity apply
apply_event state event = do validate_identity state event; apply state event
