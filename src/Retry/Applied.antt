-- ===== src/Retry/Applied.antt =====
-- The verdicts of fsasm-first/src/fsasm/retry.py against the events of fsasm-first/src/fsasm/domain.py.
use fsasm_training_lab.Prelude.{
  String, ◌≡◌, refl, true, Option, some, arith, ok, ◌⊎◌, inl, inr, Bool-cases,
}
use fsasm_training_lab.Models.{TaskStatus, ChildTask, RunState, can_retry}
use fsasm_training_lab.Domain.Events.{task_retried, task_escalated}
use fsasm_training_lab.Domain.Apply.{apply_event, open_gate}
use fsasm_training_lab.Domain.Register.{tasks_of, lookup_task, modify_task, set_status}
use fsasm_training_lab.Domain.Effect
use fsasm_training_lab.Domain.Refinement.{apply_event-Effect}
use fsasm_training_lab.Retry.{
  ExecutorAttemptOutcome, VerificationResult, merytoryczna_retry, escalate, TransportRetryBudget,
  classify_attempt, again_or_escalate, is_fail,
}

-- After a failed verification the verdict is one that the Domain Core accepts for the failed task: it
-- takes either the retry, which makes the task READY, or the escalation, which opens its gate.
pub verdict_is_applicable :
    (s : RunState) (t : String) (task : ChildTask) (outcome : ExecutorAttemptOutcome)
    (budget : TransportRetryBudget) (result : Option VerificationResult)
    → lookup_task t (tasks_of s) ≡ some task
    → task.status ≡ TaskStatus.failed
    → is_fail result ≡ true
    → (((classify_attempt outcome task budget result).0.decision ≡ merytoryczna_retry)
        × (apply_event s (task_retried s.run_id t)
            ≡ ok (modify_task t (set_status TaskStatus.ready) s)))
      ⊎ (((classify_attempt outcome task budget result).0.decision ≡ escalate)
          × ((s' : RunState) × (apply_event s (task_escalated s.run_id t task.attempt) ≡ ok s')
              × (s'.gate ≡ some (open_gate s t task.attempt))))
unfolding classify_attempt again_or_escalate
verdict_is_applicable s t task outcome budget result found failed bad =
    elim (Bool-cases (can_retry task)) [
      | inl more ↦ inl (
        ground arith,
        (apply_event-Effect s (task_retried s.run_id t) _).1
            (refl, Effect.retried s.run_id t task found (ground arith) more),
      )
      | inr spent ↦ inr (
        ground arith,
        (
          _,
          (apply_event-Effect s (task_escalated s.run_id t task.attempt) _).1
              (refl, Effect.escalated s.run_id t task.attempt task found failed spent),
          refl,
        ),
      )
    ]
