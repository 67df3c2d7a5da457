-- ===== src/Domain/Effect/Inversion.antt =====
-- Inversion of the event handlers of fsasm-first/src/fsasm/domain.py: what an accepted event met.
use fsasm_training_lab.Prelude.{
  ℕ, String, ◌≡◌, true, false, Option, some, List, append_once, if◌then◌else◌, ok, arith, eq_iff,
  Option-cases, inl, inr, nat_eq_iff,
}
use fsasm_training_lab.Models.{
  TaskStatus, RunStatus, run_status_eq, HumanDecisionAction, ChildTask, Plan, RunState,
  GateOccurrence, can_retry,
}
use fsasm_training_lab.Domain.Matrix.{task_allowed}
use fsasm_training_lab.Domain.Register.{modify_task, set_status}
use fsasm_training_lab.Domain.Apply.{
  other_active, clear_active, no_refs, start_attempt, set_refs, pass_task, open_gate,
  apply_task_moved, apply_run_planned, apply_task_activated, apply_evidence_accepted,
  apply_task_verification_passed, apply_task_verification_failed, apply_task_retried,
  apply_task_escalated, apply_gate_decision, finish_if_complete, apply_action,
}
use fsasm_training_lab.Domain.Effect.{Found}

pub moved_inv :
    (s : RunState) (id : String) (target : TaskStatus) (s' : RunState)
    → apply_task_moved target s id ≡ ok s'
    → (task : ChildTask) × Found s id task
      × (task_allowed task.status target ≡ true)
      × (s' ≡ modify_task id (set_status target) s)
unfolding apply_task_moved
moved_inv s id target s' h = ground arith

pub planned_inv :
    (s : RunState) (p : Plan) (s' : RunState)
    → apply_run_planned s p ≡ ok s'
    → (s.status ≡ RunStatus.created)
      × (s.run_id ≡ p.run_id)
      × (s' ≡ record s { plan = some p; status = RunStatus.planned })
unfolding apply_run_planned
planned_inv s p s' h = ground (arith, eq_iff s.run_id p.run_id)

pub activated_inv :
    (s : RunState) (t : String) (s' : RunState)
    → apply_task_activated s t ≡ ok s'
    → (task : ChildTask) × Found s t task
      × (task.status ≡ TaskStatus.ready)
      × (other_active s.active_task_id t ≡ false)
      × (s' ≡ record (modify_task t start_attempt s) {
        active_task_id = some t;
        status = if run_status_eq s.status RunStatus.planned then RunStatus.running else s.status;
      })
unfolding apply_task_activated
activated_inv s t s' h = ground arith

pub passed_inv :
    (s : RunState) (t : String) (s' : RunState)
    → apply_task_verification_passed s t true ≡ ok s'
    → (task : ChildTask) × Found s t task
      × (task.status ≡ TaskStatus.running)
      × (no_refs task.accepted_evidence_refs ≡ false)
      × (finish_if_complete (pass_task t s) ≡ ok s')
unfolding apply_task_verification_passed
passed_inv s t s' h = ground arith

pub failed_inv :
    (s : RunState) (t : String) (s' : RunState)
    → apply_task_verification_failed s t false ≡ ok s'
    → (task : ChildTask) × Found s t task
      × (task.status ≡ TaskStatus.running)
      × (s' ≡ record (modify_task t (set_status TaskStatus.failed) s) {
        active_task_id = clear_active s.active_task_id t;
      })
unfolding apply_task_verification_failed
failed_inv s t s' h = ground arith

pub evidenced_inv :
    (s : RunState) (t : String) (refs : List String) (s' : RunState)
    → apply_evidence_accepted s t refs ≡ ok s'
    → (task : ChildTask) × Found s t task × (s' ≡ modify_task t (set_refs refs) s)
unfolding apply_evidence_accepted
evidenced_inv s t refs s' h = ground arith

pub retried_inv :
    (s : RunState) (t : String) (s' : RunState)
    → apply_task_retried s t ≡ ok s'
    → (task : ChildTask) × Found s t task
      × (task_allowed task.status TaskStatus.ready ≡ true)
      × (can_retry task ≡ true)
      × (s' ≡ modify_task t (set_status TaskStatus.ready) s)
unfolding apply_task_retried
retried_inv s t s' h = ground arith

pub escalated_inv :
    (s : RunState) (t : String) (n : ℕ) (s' : RunState)
    → apply_task_escalated s t n ≡ ok s'
    → (task : ChildTask) × Found s t task
      × (task.status ≡ TaskStatus.failed)
      × (can_retry task ≡ false)
      × (s' ≡ record (modify_task t (set_status TaskStatus.needs_human) s) {
        needs_human_task_ids = append_once s.needs_human_task_ids t;
        gate = some (open_gate s t n);
        active_task_id = clear_active s.active_task_id t;
        status =
            if run_status_eq s.status RunStatus.running then RunStatus.needs_human else s.status;
      })
unfolding apply_task_escalated
escalated_inv s t n s' h = ground arith

pub decided_inv :
    (s : RunState) (t g d : String) (a : HumanDecisionAction) (n : ℕ) (m : Option ℕ) (s' : RunState)
    → apply_gate_decision s t g d a n m ≡ ok s'
    → (task : ChildTask) × (gate : GateOccurrence) × Found s t task
      × (task.status ≡ TaskStatus.needs_human)
      × (s.gate ≡ some gate)
      × (gate.gate_id ≡ g)
      × (gate.attempt ≡ n)
      × (gate.applied ≡ false)
      × (apply_action a s t m ≡ ok s')
unfolding apply_gate_decision
decided_inv s t g d a n m s' h = elim (Option-cases s.gate) [
  | inl e ↦ ground arith
  | inr (gate, e) ↦ ground (arith, eq_iff gate.gate_id g, nat_eq_iff n gate.attempt)
]
