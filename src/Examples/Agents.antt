-- ===== src/Examples/Agents.antt =====
-- The theorems on fsasm-first/src/fsasm/transitions.py, recovery.py and retry.py at the
-- sample run.
use fsasm_training_lab.Prelude.{◌≡◌, ◌≢◌, ◌↔◌, ◌⊎◌, refl, false, Option, none, some, [], ok, err}
use fsasm_training_lab.Models.{TaskStatus, ChildTask, RunState, VerificationResultStatus}
use fsasm_training_lab.Domain.Events.{task_retried, task_escalated}
use fsasm_training_lab.Domain.Register.{modify_task, set_status}
use fsasm_training_lab.Domain.Apply.{apply_event, open_gate}
use fsasm_training_lab.Transitions.{
  TransitionError, not_allowed, transition_task, check_move, apply_human_authorized_task_transition,
}
use fsasm_training_lab.Transitions.Accepted.{
  Asked, transition_task_iff, only_a_human_leaves_needs_human,
}
use fsasm_training_lab.Recovery.{effect_applied, verify, OperationBinding, reconcile_attempt}
use fsasm_training_lab.Recovery.Decision.{IsOpen, IsUsable, reconcile_verify_iff}
use fsasm_training_lab.Retry.{
  ExecutorAttemptOutcome, tool_error, timeout, VerificationResult, merytoryczna_retry, escalate,
  TransportRetryBudget, classify_attempt,
}
use fsasm_training_lab.Retry.Applied.{verdict_is_applicable}
use fsasm_training_lab.Examples.Runs.{task_one, working_run, failed_run}
use fsasm_training_lab.Examples.Domain.{first_found}

transition_task_iff_example :
    (transition_task (task_one TaskStatus.ready 0 []) TaskStatus.running none none
      ≡ (ok tt, task_one TaskStatus.running 1 []))
    ↔ (Asked TaskStatus.running (task_one TaskStatus.ready 0 []) none none
        × (task_one TaskStatus.running 1 [] ≡ task_one TaskStatus.running 1 []))
transition_task_iff_example =
    transition_task_iff (task_one TaskStatus.ready 0 []) TaskStatus.running none none
      (task_one TaskStatus.running 1 [])

unverified :
    (transition_task (task_one TaskStatus.running 1 []) TaskStatus.passed none (some false)).0
    ≡ err TransitionError.requires_pass
unfolding transition_task check_move
unverified = refl

-- The escalated task, back in READY with one more attempt granted.
abbrev granted_task : ChildTask
granted_task = record (task_one TaskStatus.needs_human 1 []) {
  status = TaskStatus.ready;
  max_attempts = 2;
}

only_a_human_leaves_needs_human_example :
    ((TaskStatus.needs_human ≢ TaskStatus.needs_human)
      ⊎ (transition_task (task_one TaskStatus.needs_human 1 []) TaskStatus.ready none none
          ≡ (err not_allowed, task_one TaskStatus.needs_human 1 [])))
    × ((apply_human_authorized_task_transition
            (task_one TaskStatus.needs_human 1 [])
            TaskStatus.ready
            (some 2)
          ≡ (ok tt, granted_task))
        ↔ ((TaskStatus.needs_human ≡ TaskStatus.needs_human)
            × ((TaskStatus.ready ≡ TaskStatus.ready) ⊎ (TaskStatus.ready ≡ TaskStatus.failed))
            × (granted_task ≡ granted_task)))
only_a_human_leaves_needs_human_example =
    only_a_human_leaves_needs_human (task_one TaskStatus.needs_human 1 []) TaskStatus.ready none
      none (some 2) granted_task

abbrev interrupted : OperationBinding
interrupted = record {
  run_id = "r";
  task_id = "TASK-r-1";
  attempt = 1;
  operation_id = "op-1";
  artifact_id = "artifact-1";
  artifact_path = "src/a.py";
  checkpoint = effect_applied;
  evidence_refs = [];
  transport_error = false;
}

reconcile_verify_iff_example :
    ((reconcile_attempt working_run interrupted (some "x = 1")).decision ≡ verify)
    ↔ (IsOpen working_run interrupted × IsUsable interrupted (some "x = 1"))
reconcile_verify_iff_example = reconcile_verify_iff working_run interrupted (some "x = 1")

abbrev cut_off : ExecutorAttemptOutcome
cut_off = record { reason = tool_error; observations = []; transport_error = some timeout }

abbrev transport_budget : TransportRetryBudget
transport_budget = record { max_transport_retries = 2; used = 0 }

abbrev failed_check : Option VerificationResult
failed_check = some (record { status = VerificationResultStatus.fail; message = "missing" })

verdict_is_applicable_example :
    (((classify_attempt cut_off
          (task_one TaskStatus.failed 1 [])
          transport_budget
          failed_check).0.decision
        ≡ merytoryczna_retry)
      × (apply_event failed_run (task_retried "r" "TASK-r-1")
          ≡ ok (modify_task "TASK-r-1" (set_status TaskStatus.ready) failed_run)))
    ⊎ (((classify_attempt cut_off
            (task_one TaskStatus.failed 1 [])
            transport_budget
            failed_check).0.decision
          ≡ escalate)
        × ((s' : RunState) × (apply_event failed_run (task_escalated "r" "TASK-r-1" 1) ≡ ok s')
            × (s'.gate ≡ some (open_gate failed_run "TASK-r-1" 1))))
verdict_is_applicable_example =
    verdict_is_applicable failed_run "TASK-r-1" (task_one TaskStatus.failed 1 []) cut_off
      transport_budget failed_check (first_found TaskStatus.failed 1 []) refl refl
