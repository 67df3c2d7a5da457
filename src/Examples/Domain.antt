-- ===== src/Examples/Domain.antt =====
-- The theorems on fsasm-first/src/fsasm/domain.py at the sample run.
use fsasm_training_lab.Prelude.{
  ℕ, ◌+◌, String, ◌≡◌, ◌≢◌, ◌↔◌, ◌⊎◌, inl, inr, refl, true, false, some, List, [], ◌∷◌, ok, err,
  All, arith, contains, ==→≢, ◌∙◌,
}
use fsasm_training_lab.Models.{
  TaskStatus, RunStatus, ChildTask, Plan, RunState, GateOccurrence, HumanDecisionAction, can_retry,
  task_ids, validate_run_state,
}
use fsasm_training_lab.Domain.Events.{
  DomainEvent, task_activated, task_verification_passed, task_readied, task_retried,
  human_gate_decision_applied, run_planned, event_task_id, retry_exhausted,
}
use fsasm_training_lab.Domain.Register.{tasks_of, lookup_task, modify_task, set_status}
use fsasm_training_lab.Domain.Apply.{apply_event, no_refs}
use fsasm_training_lab.Domain.Effect.{Effect, Found}
use fsasm_training_lab.Domain.Tasks.{Unique}
use fsasm_training_lab.Domain.Refinement.{apply_event-Effect}
use fsasm_training_lab.Domain.Frame.{target_change, apply_event_writes_one_task}
use fsasm_training_lab.Domain.Authority.{pass_needs_verification, attempt_needs_activation}
use fsasm_training_lab.Domain.Status.{
  TaskStep, RunStep, Reach, run_status_follows_matrix, task_status_follows_matrix, terminal_absorbs,
}
use fsasm_training_lab.Domain.Budget.{InBudget, apply_event-InBudget, readied_skips_budget}
use fsasm_training_lab.Domain.Gate.{
  decision_applies_once, retry_limit_unchecked, late_escalation_breaks_snapshot,
}
use fsasm_training_lab.Domain.Coherent.{IsCoherent}
use fsasm_training_lab.Domain.Coherent.Preserved.{apply_event-IsCoherent}
use fsasm_training_lab.Examples.Runs.{
  task_one, task_two, ready_run, working_run, evidenced_run, passed_run, failed_run, first_gate,
  waiting_run, retried_run, closed_run, activation, passing, escalation, consent,
  activation_accepted, passing_accepted, escalation_accepted, consent_accepted,
}

pub first_found :
    (status : TaskStatus) (n : ℕ) (refs : List String)
    → lookup_task "TASK-r-1" (task_one status n refs ∷ task_two ∷ [])
      ≡ some (task_one status n refs)
unfolding lookup_task
first_found status n refs = refl

pub no_plan_in :
    (e : DomainEvent) (t : String)
    → event_task_id e ≡ some t
    → (r : String) (p : Plan) → e ≢ run_planned r p
no_plan_in e t h r p q = let k = rw q at h in cc

retried_found :
    lookup_task "TASK-r-1" (tasks_of retried_run)
    ≡ some (record (task_one TaskStatus.ready 1 []) { max_attempts = 2 })
unfolding lookup_task
retried_found = refl

spent : can_retry (task_one TaskStatus.failed 1 []) ≡ false
unfolding can_retry
spent = refl

apply_event-Effect_example :
    (apply_event ready_run activation ≡ ok working_run)
    ↔ (◌≡◌ {A = String} "r" "r" × Effect ready_run activation working_run)
apply_event-Effect_example = apply_event-Effect ready_run activation working_run

apply_event_writes_one_task_example :
    ((task : ChildTask) × Found ready_run "TASK-r-1" task
      × Found working_run "TASK-r-1" (target_change activation task))
    × (lookup_task "TASK-r-2" (tasks_of working_run) ≡ lookup_task "TASK-r-2" (tasks_of ready_run))
    × (task_ids (tasks_of working_run) ≡ task_ids (tasks_of ready_run))
apply_event_writes_one_task_example =
    apply_event_writes_one_task ready_run activation working_run "TASK-r-1" "TASK-r-2"
      activation_accepted refl (==→≢ "TASK-r-1" "TASK-r-2" refl)

pass_needs_verification_example :
    ((task : ChildTask) × Found evidenced_run "TASK-r-1" task × (task.status ≡ TaskStatus.passed))
    ⊎ ((r : String) × (p : Plan) × (passing ≡ run_planned r p))
    ⊎ (((r : String) × (passing ≡ task_verification_passed r "TASK-r-1" true))
        × ((task : ChildTask) × Found evidenced_run "TASK-r-1" task
            × (task.status ≡ TaskStatus.running)
            × (no_refs task.accepted_evidence_refs ≡ false)))
pass_needs_verification_example =
    pass_needs_verification evidenced_run passing passed_run "TASK-r-1"
      (task_one TaskStatus.passed 1 ("evidence-1" ∷ [])) passing_accepted
      (first_found TaskStatus.passed 1 ("evidence-1" ∷ [])) refl

attempt_needs_activation_example :
    (task : ChildTask) × Found ready_run "TASK-r-1" task
    × ((1 ≡ task.attempt)
        ⊎ (((r : String) × (activation ≡ task_activated r "TASK-r-1"))
            × (1 ≡ task.attempt + 1)
            × (◌≡◌ {A = List String} [] [])))
attempt_needs_activation_example =
    attempt_needs_activation ready_run activation working_run "TASK-r-1"
      (task_one TaskStatus.running 1 []) activation_accepted (no_plan_in activation "TASK-r-1" refl)
      (first_found TaskStatus.running 1 [])

run_status_follows_matrix_example : RunStep RunStatus.running RunStatus.needs_human
run_status_follows_matrix_example =
    run_status_follows_matrix failed_run escalation waiting_run escalation_accepted

task_status_follows_matrix_example :
    (task : ChildTask) × Found waiting_run "TASK-r-1" task × TaskStep task.status TaskStatus.ready
task_status_follows_matrix_example =
    task_status_follows_matrix waiting_run consent retried_run "TASK-r-1"
      (record (task_one TaskStatus.ready 1 []) { max_attempts = 2 }) consent_accepted
      (no_plan_in consent "TASK-r-1" refl) retried_found

abbrev closed_step : RunState
closed_step = modify_task "TASK-r-1" (set_status TaskStatus.ready) closed_run

terminal_absorbs_example : closed_step.status ≡ RunStatus.failed
terminal_absorbs_example = terminal_absorbs closed_run closed_step (inr refl) (
    Reach.next Reach.here (task_readied "r" "TASK-r-1")
      (readied_skips_budget closed_run "TASK-r-1" (task_one TaskStatus.failed 1 [])
        (first_found TaskStatus.failed 1 []) refl spent).1)

All-within : All InBudget (tasks_of ready_run)
All-within = (
  record {
    within = ground arith;
    pending_left = λ h. ground arith;
    ready_left = λ h. ground arith;
    blocked_left = λ h. ground arith;
  },
  (
    record {
      within = ground arith;
      pending_left = λ h. ground arith;
      ready_left = λ h. ground arith;
      blocked_left = λ h. ground arith;
    },
    tt,
  ),
)

pub two-Unique : (one : ChildTask) → one.task_id ≡ "TASK-r-1" → Unique (one ∷ task_two ∷ [])
unfolding contains
two-Unique one h = ((λ q. ==→≢ "TASK-r-2" "TASK-r-1" refl (q ∙ h), tt), (tt, tt))

apply_event-InBudget_example : All InBudget (tasks_of working_run)
apply_event-InBudget_example =
    apply_event-InBudget ready_run activation working_run activation_accepted
      (two-Unique (task_one TaskStatus.ready 0 []) refl) All-within (λ t task h found. tt)
      (λ r p q. absurd (no_plan_in activation "TASK-r-1" refl r p q))

readied_skips_budget_example :
    (apply_event failed_run (task_retried "r" "TASK-r-1") ≡ err (retry_exhausted "TASK-r-1" 1 1))
    × (apply_event failed_run (task_readied "r" "TASK-r-1")
        ≡ ok (modify_task "TASK-r-1" (set_status TaskStatus.ready) failed_run))
readied_skips_budget_example =
    readied_skips_budget failed_run "TASK-r-1" (task_one TaskStatus.failed 1 [])
      (first_found TaskStatus.failed 1 []) refl spent

decision_applies_once_example :
    ((gate : GateOccurrence) × (waiting_run.gate ≡ some gate)
      × (gate.gate_id ≡ "gate-r-TASK-r-1-attempt-1")
      × (gate.attempt ≡ 1)
      × (gate.applied ≡ false))
    × (apply_event retried_run consent ≢ ok retried_run)
decision_applies_once_example =
    decision_applies_once waiting_run "r" "TASK-r-1" "gate-r-TASK-r-1-attempt-1" "d1"
      HumanDecisionAction.retry_once 1 (some 2) retried_run "r" "TASK-r-1"
      "gate-r-TASK-r-1-attempt-1" "d1" HumanDecisionAction.retry_once 1 (some 2) retried_run
      consent_accepted

retry_limit_unchecked_example :
    (s' : RunState) × (apply_event waiting_run (
        human_gate_decision_applied "r" "TASK-r-1" "gate-r-TASK-r-1-attempt-1" "d1"
          HumanDecisionAction.retry_once 1
          (some 1))
      ≡ ok s')
    × Found s' "TASK-r-1" (task_one TaskStatus.ready 1 [])
retry_limit_unchecked_example =
    retry_limit_unchecked waiting_run "TASK-r-1" "d1" 1 (task_one TaskStatus.needs_human 1 [])
      first_gate (first_found TaskStatus.needs_human 1 []) refl refl refl

late_escalation_breaks_snapshot_example :
    (s' : RunState) × (apply_event closed_run escalation ≡ ok s') × (validate_run_state s' ≢ ok tt)
late_escalation_breaks_snapshot_example =
    late_escalation_breaks_snapshot closed_run "TASK-r-1" 1 (task_one TaskStatus.failed 1 [])
      (first_found TaskStatus.failed 1 []) refl spent (λ h. cc) (λ h. cc)

pub failed-IsCoherent : IsCoherent failed_run
unfolding contains
failed-IsCoherent = record {
  own_plan = refl;
  unique = two-Unique (task_one TaskStatus.failed 1 []) refl;
  tasks_ok = (
    record {
      running_active = λ h. cc;
      completed_passed = λ h. cc;
      failed_failed = λ h. cc;
      waiting = λ h. cc;
    },
    (
      record {
        running_active = λ h. cc;
        completed_passed = λ h. cc;
        failed_failed = λ h. cc;
        waiting = λ h. cc;
      },
      tt,
    ),
  );
  lists_ok = record {
    active_known = refl;
    completed_known = tt;
    failed_known = tt;
    waiting_known = tt;
    waiting_once = tt;
    gate_ok = tt;
    failed_closed = λ h. refl;
    created_idle = λ h. cc;
  };
}

apply_event-IsCoherent_example : IsCoherent waiting_run
apply_event-IsCoherent_example =
    apply_event-IsCoherent failed_run escalation waiting_run escalation_accepted (inl refl)
      (λ r p q. absurd (no_plan_in escalation "TASK-r-1" refl r p q)) failed-IsCoherent
