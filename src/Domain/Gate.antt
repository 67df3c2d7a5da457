-- ===== src/Domain/Gate.antt =====
-- The Human Gate in `apply_event` of fsasm-first/src/fsasm/domain.py.
use fsasm_training_lab.Prelude.{
  ℕ, String, ◌≡◌, ◌≢◌, refl, false, Option, none, some, arith, ok, inl, inr, Option-cases, subst,
  if◌then◌else◌, append_once, remove,
}
use fsasm_training_lab.Models.{
  TaskStatus, RunStatus, run_status_eq, HumanDecisionAction, retry_once, ChildTask, RunState, Plan,
  GateOccurrence, can_retry, validate_run_state, validate_with_plan,
}
use fsasm_training_lab.Domain.Events.{human_gate_decision_applied, task_escalated}
use fsasm_training_lab.Domain.Register.{
  tasks_of, lookup_task, modify_task, modify_plan, update_task, set_status,
}
use fsasm_training_lab.Domain.Tasks.{lookup-update_self}
use fsasm_training_lab.Domain.Frame.{tasks_of-modify}
use fsasm_training_lab.Domain.Apply.{apply_event, grant_retry, leave_gate, open_gate, clear_active}
use fsasm_training_lab.Domain.Effect.{Effect, Found}
use fsasm_training_lab.Domain.Refinement.{apply_event-Effect}

-- What an accepted decision met, and what it leaves.
decision_inv :
    (s : RunState) (r t g d : String) (a : HumanDecisionAction) (n : ℕ) (m : Option ℕ)
    (s' : RunState)
    → Effect s (human_gate_decision_applied r t g d a n m) s'
    → (gate : GateOccurrence) × (s.gate ≡ some gate)
      × (gate.gate_id ≡ g)
      × (gate.attempt ≡ n)
      × (gate.applied ≡ false)
      × (s'.gate ≡ none)
decision_inv s r t g d a n m s'
      (Effect.decided_retry _ _ _ _ _ _ task gate found stands opened id att app) =
    (gate, opened, id, att, app, refl)
decision_inv s r t g d a n m s'
      (Effect.decided_abort _ _ _ _ _ _ task gate found stands opened id att app) =
    (gate, opened, id, att, app, refl)

-- An accepted decision names the open gate and its attempt, that gate had no applied decision, and
-- in the state that it leads to no decision is accepted: not the same one again, and no other, for
-- any task, action or attempt.
pub decision_applies_once :
    (s : RunState) (r t g d : String) (a : HumanDecisionAction) (n : ℕ) (m : Option ℕ)
    (s' : RunState) (r' t' g' d' : String) (a' : HumanDecisionAction) (n' : ℕ) (m' : Option ℕ)
    (s'' : RunState)
    → apply_event s (human_gate_decision_applied r t g d a n m) ≡ ok s'
    → ((gate : GateOccurrence) × (s.gate ≡ some gate)
        × (gate.gate_id ≡ g)
        × (gate.attempt ≡ n)
        × (gate.applied ≡ false))
      × (apply_event s' (human_gate_decision_applied r' t' g' d' a' n' m') ≢ ok s'')
decision_applies_once s r t g d a n m s' r' t' g' d' a' n' m' s'' h =
    let (gate, opened, id, att, app, closed) =
      decision_inv s r t g d a n m s'
        ((apply_event-Effect s (human_gate_decision_applied r t g d a n m) s').0 h).1 in
    (
      (gate, opened, id, att, app),
      λ h'.
          let (gate', opened', id', att', app', closed') =
            decision_inv s' r' t' g' d' a' n' m' s''
              ((apply_event-Effect s' (human_gate_decision_applied r' t' g' d' a' n' m') s'').0
                h').1 in
          cc,
    )

gate_blocks :
    (s : RunState) (plan : Plan) (gate : GateOccurrence)
    → s.gate ≡ some gate
    → s.status ≢ RunStatus.needs_human
    → validate_with_plan s (some plan) ≢ ok tt
gate_blocks s plan gate opened ended h = ground arith

-- The state after RETRY_ONCE with the limit `m`.
abbrev retried_state : RunState → String → ℕ → RunState
retried_state s t m = record (modify_task t (grant_retry m) s) {
  needs_human_task_ids = remove s.needs_human_task_ids t;
  gate = none;
  status = leave_gate s.status RunStatus.running;
}

-- The limit that a RETRY_ONCE decision carries is taken as it is: for every limit `m`, the decision
-- for the open gate is accepted and leaves the task READY with `max_attempts` equal to `m`, whatever
-- its attempt counter is.
pub retry_limit_unchecked :
    (s : RunState) (t d : String) (m : ℕ) (task : ChildTask) (gate : GateOccurrence)
    → Found s t task
    → task.status ≡ TaskStatus.needs_human
    → s.gate ≡ some gate
    → gate.applied ≡ false
    → (s' : RunState) × (apply_event s
          (human_gate_decision_applied s.run_id t gate.gate_id d retry_once gate.attempt (some m))
        ≡ ok s')
      × Found s' t (record task { status = TaskStatus.ready; max_attempts = m })
retry_limit_unchecked s t d m task gate found stands opened app = (
  retried_state s t m,
  (apply_event-Effect s _ (retried_state s t m)).1 (
    refl,
    Effect.decided_retry s.run_id t gate.gate_id d gate.attempt m task gate found stands opened refl
        refl app,
  ),
  rw (tasks_of-modify t (grant_retry m) s)
      (lookup-update_self (grant_retry m) (λ u. refl) t (tasks_of s) task found),
)

abbrev pub escalated_state : RunState → String → ℕ → RunState
escalated_state s t n = record (modify_task t (set_status TaskStatus.needs_human) s) {
  needs_human_task_ids = append_once s.needs_human_task_ids t;
  gate = some (open_gate s t n);
  active_task_id = clear_active s.active_task_id t;
  status = if run_status_eq s.status RunStatus.running then RunStatus.needs_human else s.status;
}

-- In a run that is neither RUNNING nor at a gate (a PASSED or FAILED one too), an escalation of a
-- FAILED task whose attempts are used up is accepted, and the snapshot that it leads to is refused by
-- the validators that run when it is read back.
pub late_escalation_breaks_snapshot :
    (s : RunState) (t : String) (n : ℕ) (task : ChildTask)
    → Found s t task
    → task.status ≡ TaskStatus.failed
    → can_retry task ≡ false
    → s.status ≢ RunStatus.running
    → s.status ≢ RunStatus.needs_human
    → (s' : RunState) × (apply_event s (task_escalated s.run_id t n) ≡ ok s')
      × (validate_run_state s' ≢ ok tt)
unfolding validate_run_state lookup_task
late_escalation_breaks_snapshot s t n task found failed spent run waits = (
  escalated_state s t n,
  (apply_event-Effect s (task_escalated s.run_id t n) (escalated_state s t n)).1
      (refl, Effect.escalated s.run_id t n task found failed spent),
  elim (Option-cases s.plan) [
    | inl none_ ↦ absurd (ground arith)
    | inr (plan, e) ↦ λ h.
        gate_blocks (escalated_state s t n)
          (record plan { tasks = update_task t (set_status TaskStatus.needs_human) plan.tasks })
          (open_gate s t n) refl (λ q. ground arith)
          (subst
            (λ o.
              validate_with_plan (escalated_state s t n)
                (modify_plan t (set_status TaskStatus.needs_human) o)
              ≡ ok tt)
            e h)
  ],
)
