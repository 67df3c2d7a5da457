-- ===== src/Domain/Effect.antt =====
-- What each accepted domain event of fsasm-first/src/fsasm/domain.py does, as a relation that uses neither
-- the transition matrix nor the updates of the code: the premises of an event, and the state that it
-- leads to, with every field that is written spelled out.
mod Inversion
pub mod Agrees
use fsasm_training_lab.Prelude.{
  ℕ, ◌+◌, String, ◌==◌, ◌≡◌, ◌≢◌, ◌⊎◌, true, false, Option, none, some, List, [], append_once,
  remove, if◌then◌else◌,
}
use fsasm_training_lab.Models.{
  TaskStatus, RunStatus, run_status_eq, retry_once, abort, ChildTask, Plan, RunState,
  GateOccurrence, can_retry, gate_id_for,
}
use fsasm_training_lab.Domain.Events.{
  DomainEvent, run_planned, run_started, task_readied, task_activated, task_blocked, task_unblocked,
  evidence_accepted, task_verification_passed, task_verification_failed, task_retried,
  task_escalated, human_gate_decision_applied, run_completed,
}
use fsasm_training_lab.Domain.Register.{
  tasks_of, lookup_task, modify_task, all_required_tasks_complete,
}

abbrev pub Found : RunState → String → ChildTask → Type 0
Found s id task = lookup_task id (tasks_of s) ≡ some task

-- The statuses that a task can be made READY from, and BLOCKED.
abbrev pub MayBeReady : TaskStatus → Type 0
MayBeReady status =
    (status ≡ TaskStatus.pending) ⊎ (status ≡ TaskStatus.blocked) ⊎ (status ≡ TaskStatus.failed)

abbrev pub MayBeBlocked : TaskStatus → Type 0
MayBeBlocked status =
    (status ≡ TaskStatus.pending) ⊎ (status ≡ TaskStatus.ready) ⊎ (status ≡ TaskStatus.running)

-- The task that is active after `id` has ended.
abbrev pub active_after : Option String → String → Option String
active_after none id = none
active_after (some active) id = if active == id then none else some active

-- The status of a run after a decision: only a run that waits for it moves.
abbrev pub status_after : RunStatus → RunStatus → RunStatus
status_after status next = if run_status_eq status RunStatus.needs_human then next else status

-- A run whose task has passed.
abbrev pub with_passed : String → RunState → RunState
with_passed id s = record (modify_task id (λ t. record t { status = TaskStatus.passed }) s) {
  completed_task_ids = append_once s.completed_task_ids id;
  active_task_id = active_after s.active_task_id id;
}

pub data Effect (s : RunState) : DomainEvent → RunState → Type 0 where
  planned :
      (r : String) (p : Plan)
      → s.status ≡ RunStatus.created
      → s.run_id ≡ p.run_id
      → Effect s (run_planned r p) (record s { plan = some p; status = RunStatus.planned })
  started :
      (r : String)
      → s.status ≡ RunStatus.planned
      → Effect s (run_started r) (record s { status = RunStatus.running })
  readied :
      (r t : String) (task : ChildTask)
      → Found s t task
      → MayBeReady task.status
      → Effect s (task_readied r t) (modify_task t (λ u. record u { status = TaskStatus.ready }) s)
  unblocked :
      (r t : String) (task : ChildTask)
      → Found s t task
      → MayBeReady task.status
      → Effect s
          (task_unblocked r t)
          (modify_task t (λ u. record u { status = TaskStatus.ready }) s)
  blocked :
      (r t : String) (task : ChildTask)
      → Found s t task
      → MayBeBlocked task.status
      → Effect s
          (task_blocked r t)
          (modify_task t (λ u. record u { status = TaskStatus.blocked }) s)
  activated :
      (r t : String) (task : ChildTask)
      → Found s t task
      → task.status ≡ TaskStatus.ready
      → (s.active_task_id ≡ none) ⊎ (s.active_task_id ≡ some t)
      → Effect s
          (task_activated r t)
          (record (modify_task t
            (λ u. record u {
              status = TaskStatus.running;
              attempt = u.attempt + 1;
              accepted_evidence_refs = [];
            })
            s) {
              active_task_id = some t;
              status =
                  if run_status_eq s.status RunStatus.planned then RunStatus.running else s.status;
            })
  evidenced :
      (r t : String) (refs : List String) (task : ChildTask)
      → Found s t task
      → Effect s
          (evidence_accepted r t refs)
          (modify_task t (λ u. record u { accepted_evidence_refs = refs }) s)
  passed :
      (r t : String) (task : ChildTask)
      → Found s t task
      → task.status ≡ TaskStatus.running
      → task.accepted_evidence_refs ≢ []
      → all_required_tasks_complete (with_passed t s) ≡ false
      → Effect s (task_verification_passed r t true) (with_passed t s)
  passed_last :
      (r t : String) (task : ChildTask)
      → Found s t task
      → task.status ≡ TaskStatus.running
      → task.accepted_evidence_refs ≢ []
      → all_required_tasks_complete (with_passed t s) ≡ true
      → s.status ≡ RunStatus.running
      → Effect s
          (task_verification_passed r t true)
          (record (with_passed t s) { status = RunStatus.passed })
  failed :
      (r t : String) (task : ChildTask)
      → Found s t task
      → task.status ≡ TaskStatus.running
      → Effect s
          (task_verification_failed r t false)
          (record (modify_task t (λ u. record u { status = TaskStatus.failed }) s) {
            active_task_id = active_after s.active_task_id t;
          })
  retried :
      (r t : String) (task : ChildTask)
      → Found s t task
      → MayBeReady task.status
      → can_retry task ≡ true
      → Effect s (task_retried r t) (modify_task t (λ u. record u { status = TaskStatus.ready }) s)
  escalated :
      (r t : String) (n : ℕ) (task : ChildTask)
      → Found s t task
      → task.status ≡ TaskStatus.failed
      → can_retry task ≡ false
      → Effect s
          (task_escalated r t n)
          (record (modify_task t (λ u. record u { status = TaskStatus.needs_human }) s) {
            needs_human_task_ids = append_once s.needs_human_task_ids t;
            gate = some (record {
              gate_id = gate_id_for s.run_id t n;
              task_id = t;
              attempt = n;
              accepted_decision_id = none;
              accepted_action = none;
              applied = false;
            });
            active_task_id = active_after s.active_task_id t;
            status =
                if run_status_eq s.status RunStatus.running
                then RunStatus.needs_human
                else s.status;
          })
  decided_retry :
      (r t g d : String) (n m : ℕ) (task : ChildTask) (gate : GateOccurrence)
      → Found s t task
      → task.status ≡ TaskStatus.needs_human
      → s.gate ≡ some gate
      → gate.gate_id ≡ g
      → gate.attempt ≡ n
      → gate.applied ≡ false
      → Effect s
          (human_gate_decision_applied r t g d retry_once n (some m))
          (record (modify_task t
            (λ u. record u { status = TaskStatus.ready; max_attempts = m })
            s) {
              needs_human_task_ids = remove s.needs_human_task_ids t;
              gate = none;
              status = status_after s.status RunStatus.running;
            })
  decided_abort :
      (r t g d : String) (n : ℕ) (m : Option ℕ) (task : ChildTask) (gate : GateOccurrence)
      → Found s t task
      → task.status ≡ TaskStatus.needs_human
      → s.gate ≡ some gate
      → gate.gate_id ≡ g
      → gate.attempt ≡ n
      → gate.applied ≡ false
      → Effect s
          (human_gate_decision_applied r t g d abort n m)
          (record (modify_task t (λ u. record u { status = TaskStatus.failed }) s) {
            failed_task_ids = append_once s.failed_task_ids t;
            needs_human_task_ids = remove s.needs_human_task_ids t;
            gate = none;
            status = status_after s.status RunStatus.failed;
          })
  completed :
      (r : String)
      → s.status ≡ RunStatus.running
      → Effect s (run_completed r true) (record s { status = RunStatus.passed })
  run_failed :
      (r : String)
      → s.status ≡ RunStatus.running
      → Effect s (DomainEvent.run_failed r) (record s { status = RunStatus.failed })
