-- ===== src/Domain/Budget.antt =====
-- The retry budget under `apply_event` of fsasm-first/src/fsasm/domain.py. The code checks it only in
-- `TaskRetried` and `TaskEscalated`; what else keeps a task within it is stated as a discipline.
use fsasm_training_lab.Prelude.{
  ◌+◌, ◌≤◌, ◌<◌, String, ◌≡◌, ◌≢◌, refl, false, some, ok, err, arith, inl, inr, All, Option-cases,
  ap, ◌∙◌, eq_iff,
}
use fsasm_training_lab.Models.{TaskStatus, ChildTask, RunState, Plan, retry_once, can_retry}
use fsasm_training_lab.Domain.Events.{
  DomainEvent, run_planned, task_readied, task_blocked, task_unblocked, task_retried,
  human_gate_decision_applied, event_task_id, retry_exhausted,
}
use fsasm_training_lab.Domain.Register.{
  tasks_of, plan_tasks, modify_task, set_status, find_task, check_task_transition,
}
use fsasm_training_lab.Domain.Apply.{apply_event, apply}
use fsasm_training_lab.Domain.Tasks.{Unique, All-update, All-lookup}
use fsasm_training_lab.Domain.Effect.{Effect, Found}
use fsasm_training_lab.Domain.Refinement.{apply_event-Effect, Found-valid}
use fsasm_training_lab.Domain.Frame.{target_change, Effect-tasks, Effect-plan, tasks_of-modify}

-- No attempt beyond the limit, and one left where the task can still be started.
pub record InBudget (t : ChildTask) : Type 0 where
  pub within : t.attempt ≤ t.max_attempts
  pub pending_left : t.status ≡ TaskStatus.pending → t.attempt < t.max_attempts
  pub ready_left : t.status ≡ TaskStatus.ready → t.attempt < t.max_attempts
  pub blocked_left : t.status ≡ TaskStatus.blocked → t.attempt < t.max_attempts

-- What the driver has to respect: it readies no FAILED task past `TaskRetried`, blocks a task only
-- while an attempt is left, grants exactly one more attempt, and plans tasks within their budget.
abbrev pub IsDisciplined : DomainEvent → ChildTask → Type 0
IsDisciplined (task_readied _ _) t = t.status ≢ TaskStatus.failed
IsDisciplined (task_unblocked _ _) t = t.status ≢ TaskStatus.failed
IsDisciplined (task_blocked _ _) t = t.attempt < t.max_attempts
IsDisciplined (human_gate_decision_applied _ _ _ _ retry_once _ (some m)) t = m ≡ t.attempt + 1
IsDisciplined _ t = Unit

-- One task, through the event that names it.
target-InBudget :
    (s : RunState) (e : DomainEvent) (s' : RunState) (t : String) (task : ChildTask)
    → Effect s e s'
    → event_task_id e ≡ some t
    → Found s t task
    → IsDisciplined e task
    → InBudget task
    → InBudget (target_change e task)
unfolding can_retry
target-InBudget s e s' t task (Effect.readied r u v found may) h g d b = ground arith
target-InBudget s e s' t task (Effect.unblocked r u v found may) h g d b = ground arith
target-InBudget s e s' t task (Effect.blocked r u v found may) h g d b = ground arith
target-InBudget s e s' t task (Effect.activated r u v found ready free) h g d b = ground arith
target-InBudget s e s' t task (Effect.evidenced r u refs v found) h g d b = ground arith
target-InBudget s e s' t task (Effect.passed r u v found stands refs more) h g d b = ground arith
target-InBudget s e s' t task (Effect.passed_last r u v found stands refs last run) h g d b =
    ground arith
target-InBudget s e s' t task (Effect.failed r u v found stands) h g d b = ground arith
target-InBudget s e s' t task (Effect.retried r u v found may budget) h g d b = ground arith
target-InBudget s e s' t task (Effect.escalated r u n v found failed spent) h g d b = ground arith
target-InBudget s e s' t task
      (Effect.decided_retry r u g' di n m v gate found stands opened id att app) h g d b =
    ground arith
target-InBudget s e s' t task
      (Effect.decided_abort r u g' di n m v gate found stands opened id att app) h g d b =
    ground arith
target-InBudget s e s' t task _ h g d b = cc

planned_tasks :
    (s : RunState) (r : String) (p : Plan) (s' : RunState)
    → Effect s (run_planned r p) s'
    → tasks_of s' ≡ p.tasks
planned_tasks s r p s' (Effect.planned _ _ created own) = refl

-- If every task is within its budget, with an attempt left where it is PENDING, READY or BLOCKED,
-- ids are unique, the event keeps to the discipline at the task that it names, and a plan that it
-- sets is within its budget, then every task of the state after the
-- accepted event is within its budget in the same sense.
pub apply_event-InBudget :
    (s : RunState) (e : DomainEvent) (s' : RunState)
    → apply_event s e ≡ ok s'
    → Unique (tasks_of s)
    → All InBudget (tasks_of s)
    → ((t : String) (task : ChildTask)
        → event_task_id e ≡ some t
        → Found s t task
        → IsDisciplined e task)
    → ((r : String) (p : Plan) → e ≡ run_planned r p → All InBudget p.tasks)
    → All InBudget (tasks_of s')
apply_event-InBudget s e s' h unique budget discipline planned =
    let effect = ((apply_event-Effect s e s').0 h).1 in
    elim (Option-cases (event_task_id e)) [
      | inl names ↦ elim (Effect-plan s e s' effect names) [
        | inl same ↦ rw (ap plan_tasks same) budget
        | inr (r, p, set) ↦ rw (planned_tasks s r p s' (rw set at effect)) (planned r p set)
      ]
      | inr (t, names) ↦
          let (task, found, written) = Effect-tasks s e s' effect t names in
          let after =
            target-InBudget s e s' t task effect names found (discipline t task names found)
              (All-lookup InBudget t (tasks_of s) task budget found) in
          rw (ap plan_tasks written ∙ tasks_of-modify t (target_change e) s) (
            All-update t (target_change e) task (λ u ne b. b) after (tasks_of s) unique found
              budget)
    ]

-- The budget check of `TaskRetried` is not that of `TaskReadied`: for a FAILED task of this run whose
-- attempts are used up, the first event is rejected as exhausted, and the second is accepted and
-- makes the task READY with its counters as they are.
pub readied_skips_budget :
    (s : RunState) (t : String) (task : ChildTask)
    → Found s t task
    → task.status ≡ TaskStatus.failed
    → can_retry task ≡ false
    → (apply_event s (task_retried s.run_id t)
        ≡ err (retry_exhausted task.task_id task.max_attempts task.attempt))
      × (apply_event s (task_readied s.run_id t)
          ≡ ok (modify_task t (set_status TaskStatus.ready) s))
unfolding apply_event apply find_task check_task_transition
readied_skips_budget s t task found failed spent =
    let valid = Found-valid s t task found in
    (
      ground (arith, eq_iff s.run_id s.run_id),
      (apply_event-Effect s (task_readied s.run_id t)
            (modify_task t (set_status TaskStatus.ready) s)).1
          (refl, Effect.readied s.run_id t task found (ground arith)),
    )
