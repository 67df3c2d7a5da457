-- ===== src/Domain/Authority.antt =====
-- Who may change what, in `apply_event` of fsasm-first/src/fsasm/domain.py: PASS, the attempt
-- counter, the retry budget, and the status matrices.
use fsasm_training_lab.Prelude.{
  ◌+◌, String, ◌≡◌, ◌≢◌, refl, Bool, true, false, none, some, [], ok, arith, ◌⊎◌, inl, inr,
}
use fsasm_training_lab.Models.{TaskStatus, ChildTask, RunState, Plan, retry_once, abort}
use fsasm_training_lab.Domain.Events.{
  DomainEvent, run_planned, task_activated, evidence_accepted, task_verification_passed,
  human_gate_decision_applied, event_task_id,
}
use fsasm_training_lab.Domain.Apply.{apply_event, no_refs}
use fsasm_training_lab.Domain.Effect.Agrees.{has_refs}
use fsasm_training_lab.Domain.Effect.{Effect, Found}
use fsasm_training_lab.Domain.Refinement.{apply_event-Effect}
use fsasm_training_lab.Domain.Frame.{target_change, Found-after}

-- The premises of a PASS event.
pass_premises :
    (s : RunState) (r t : String) (v : Bool) (s' : RunState)
    → Effect s (task_verification_passed r t v) s'
    → (v ≡ true)
      × ((task : ChildTask) × Found s t task
          × (task.status ≡ TaskStatus.running)
          × (no_refs task.accepted_evidence_refs ≡ false))
pass_premises s r t v s' (Effect.passed _ _ task found stands refs more) =
    (refl, (task, found, stands, (has_refs task.accepted_evidence_refs).1 refs))
pass_premises s r t v s' (Effect.passed_last _ _ task found stands refs last run) =
    (refl, (task, found, stands, (has_refs task.accepted_evidence_refs).1 refs))

-- The only task event whose change sets PASSED.
passing_event :
    (e : DomainEvent) (t : String) (task : ChildTask)
    → event_task_id e ≡ some t
    → (target_change e task).status ≡ TaskStatus.passed
    → (task.status ≡ TaskStatus.passed)
      ⊎ ((r : String) × (v : Bool) × (e ≡ task_verification_passed r t v))
passing_event (task_verification_passed r u v) t task names h = inr (r, v, ground arith)
passing_event (evidence_accepted r u refs) t task names h = inl h
passing_event (human_gate_decision_applied r u g d retry_once n none) t task names h = inl h
passing_event (human_gate_decision_applied r u g d retry_once n (some m)) t task names h = cc
passing_event (human_gate_decision_applied r u g d abort n m) t task names h = cc
passing_event _ t task names h = cc

-- If a task is PASSED after an accepted event, then it was PASSED before, or the event sets the
-- plan, or the event is a `TaskVerificationPassed` for that task with a true verdict, and the task
-- was RUNNING with accepted evidence of its attempt.
pub pass_needs_verification :
    (s : RunState) (e : DomainEvent) (s' : RunState) (j : String) (after : ChildTask)
    → apply_event s e ≡ ok s'
    → Found s' j after
    → after.status ≡ TaskStatus.passed
    → ((task : ChildTask) × Found s j task × (task.status ≡ TaskStatus.passed))
      ⊎ ((r : String) × (p : Plan) × (e ≡ run_planned r p))
      ⊎ (((r : String) × (e ≡ task_verification_passed r j true))
          × ((task : ChildTask) × Found s j task
              × (task.status ≡ TaskStatus.running)
              × (no_refs task.accepted_evidence_refs ≡ false)))
pass_needs_verification s e s' j after h found is_passed =
    elim (Found-after s e s' j after h found) [
      | inl before ↦ inl (after, before, is_passed)
      | inr (inr set) ↦ inr (inl set)
      | inr (inl (task, before, names, change)) ↦
          elim (passing_event e j task names (rw (← change) is_passed)) [
            | inl old ↦ inl (task, before, old)
            | inr (r, v, pass) ↦
                let effect = rw pass at (((apply_event-Effect s e s').0 h).1) in
                let (verdict, rest) = pass_premises s r j v s' effect in
                inr (inr ((r, rw (← verdict) pass), rest))
          ]
    ]

-- How one event may change a task's attempt counter and evidence.
attempt_change :
    (e : DomainEvent) (j : String) (task : ChildTask)
    → event_task_id e ≡ some j
    → ((target_change e task).attempt ≡ task.attempt)
      ⊎ (((r : String) × (e ≡ task_activated r j))
          × ((target_change e task).attempt ≡ task.attempt + 1)
          × ((target_change e task).accepted_evidence_refs ≡ []))
attempt_change (task_activated r t) j task names = inr ((r, ground arith), refl, refl)
attempt_change (human_gate_decision_applied r u g d retry_once n none) j task names = inl refl
attempt_change (human_gate_decision_applied r u g d retry_once n (some m)) j task names = inl refl
attempt_change (human_gate_decision_applied r u g d abort n m) j task names = inl refl
attempt_change _ j task names = inl refl

-- After an accepted event that does not set the plan, a task's attempt counter is what it was, or
-- the event is the `TaskActivated` of that task, the counter is one more, and the evidence refs of
-- the earlier attempt are gone.
pub attempt_needs_activation :
    (s : RunState) (e : DomainEvent) (s' : RunState) (j : String) (after : ChildTask)
    → apply_event s e ≡ ok s'
    → ((r : String) (p : Plan) → e ≢ run_planned r p)
    → Found s' j after
    → (task : ChildTask) × Found s j task
      × ((after.attempt ≡ task.attempt)
          ⊎ (((r : String) × (e ≡ task_activated r j))
              × (after.attempt ≡ task.attempt + 1)
              × (after.accepted_evidence_refs ≡ [])))
attempt_needs_activation s e s' j after h no_plan found =
    elim (Found-after s e s' j after h found) [
      | inl before ↦ (after, before, inl refl)
      | inr (inr (r, p, set)) ↦ absurd (no_plan r p set)
      | inr (inl (task, before, names, change)) ↦
          (task, before, rw change (attempt_change e j task names))
    ]
