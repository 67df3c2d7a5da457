-- ===== src/Domain/Effect/Agrees.antt =====
-- `apply` of fsasm-first/src/fsasm/domain.py has exactly the effects of the relation.
use fsasm_training_lab.Prelude.{
  ℕ, refl, ap, ==→≡, ==_refl, ◌≢◌, ◌↔◌, List, [], ◌∷◌, String, ◌≡◌, ◌⊎◌, Bool, true, false, Option,
  none, some, inl, inr, ok, arith, eq_iff, ok-injective, nat_eq_iff,
}
use fsasm_training_lab.Models.{
  TaskStatus, RunStatus, HumanDecisionAction, retry_once, abort, RunState,
}
use fsasm_training_lab.Domain.Events.{
  DomainEvent, run_planned, run_started, task_readied, task_activated, task_blocked, task_unblocked,
  evidence_accepted, task_verification_passed, task_verification_failed, task_retried,
  task_escalated, human_gate_decision_applied, run_completed,
}
use fsasm_training_lab.Domain.Matrix.{task_allowed}
use fsasm_training_lab.Domain.Register.{
  all_required_tasks_complete, find_task, check_task_transition, check_run_transition,
}
use fsasm_training_lab.Domain.Apply.{
  other_active, no_refs, pass_task, apply, finish_if_complete, apply_action,
}
use fsasm_training_lab.Domain.Effect.{Effect, MayBeReady, MayBeBlocked}
use fsasm_training_lab.Domain.Effect.Inversion.{
  moved_inv, planned_inv, activated_inv, passed_inv, failed_inv, evidenced_inv, retried_inv,
  escalated_inv, decided_inv,
}

finish_inv :
    (s s' : RunState)
    → finish_if_complete s ≡ ok s'
    → ((all_required_tasks_complete s ≡ false) × (s' ≡ s))
      ⊎ ((all_required_tasks_complete s ≡ true)
          × (s.status ≡ RunStatus.running)
          × (s' ≡ record s { status = RunStatus.passed }))
unfolding finish_if_complete
finish_inv s s' h = ground arith

started_inv :
    (s : RunState) (r : String) (s' : RunState)
    → apply s (run_started r) ≡ ok s'
    → (s.status ≡ RunStatus.planned) × (s' ≡ record s { status = RunStatus.running })
unfolding apply
started_inv s r s' h = ground arith

free_for :
    (active : Option String) (t : String)
    → other_active active t ≡ false
    → (active ≡ none) ⊎ (active ≡ some t)
free_for none t h = inl refl
free_for (some a) t h = inr (ap some (==→≡ a t (ground arith)))

is_free :
    (active : Option String) (t : String)
    → (active ≡ none) ⊎ (active ≡ some t)
    → other_active active t ≡ false
is_free none t h = refl
is_free (some a) t (inl h) = cc
is_free (some a) t (inr h) = let same : a ≡ t = cc in rw same (rw (==_refl t) refl)

pub has_refs : (refs : List String) → (no_refs refs ≡ false) ↔ (refs ≢ [])
has_refs [] = (λ h. cc, λ h. absurd (h refl))
has_refs (x ∷ xs) = (λ h e. cc, λ h. refl)

passed_Effect :
    (s : RunState) (r t : String) (v : Bool) (s' : RunState)
    → apply s (task_verification_passed r t v) ≡ ok s'
    → Effect s (task_verification_passed r t v) s'
unfolding apply
passed_Effect s r t false s' h = cc
passed_Effect s r t true s' h =
    let (task, found, running, refs, fin) = passed_inv s t s' (unfold apply in h) in
    elim (finish_inv (pass_task t s) s' fin) [
      | inl (more, e) ↦ rw e (
          Effect.passed r t task found running ((has_refs task.accepted_evidence_refs).0 refs) more)
      | inr (last, run, e) ↦ rw e (
          Effect.passed_last r t task found running ((has_refs task.accepted_evidence_refs).0 refs)
            last run)
    ]

failed_Effect :
    (s : RunState) (r t : String) (v : Bool) (s' : RunState)
    → apply s (task_verification_failed r t v) ≡ ok s'
    → Effect s (task_verification_failed r t v) s'
unfolding apply
failed_Effect s r t true s' h = cc
failed_Effect s r t false s' h =
    let (task, found, running, e) = failed_inv s t s' h in
    rw e (Effect.failed r t task found running)

completed_Effect :
    (s : RunState) (r : String) (v : Bool) (s' : RunState)
    → apply s (run_completed r v) ≡ ok s'
    → Effect s (run_completed r v) s'
unfolding apply
completed_Effect s r false s' h = cc
completed_Effect s r true s' h =
    let run : s.status ≡ RunStatus.running = ground arith in
    let e : s' ≡ record s { status = RunStatus.passed } = ground arith in
    rw e (Effect.completed r run)

run_failed_Effect :
    (s : RunState) (r : String) (s' : RunState)
    → apply s (DomainEvent.run_failed r) ≡ ok s'
    → Effect s (DomainEvent.run_failed r) s'
unfolding apply
run_failed_Effect s r s' h =
    let run : s.status ≡ RunStatus.running = ground arith in
    let e : s' ≡ record s { status = RunStatus.failed } = ground arith in
    rw e (Effect.run_failed r run)

decided_Effect :
    (s : RunState) (r t g d : String) (a : HumanDecisionAction) (n : ℕ) (m : Option ℕ)
    (s' : RunState)
    → apply s (human_gate_decision_applied r t g d a n m) ≡ ok s'
    → Effect s (human_gate_decision_applied r t g d a n m) s'
unfolding apply apply_action
decided_Effect s r t g d retry_once n none s' h =
    let (task, gate, found, stands, opened, id, att, app, act) =
      decided_inv s t g d retry_once n none s' h in
    cc
decided_Effect s r t g d retry_once n (some m) s' h =
    let (task, gate, found, stands, opened, id, att, app, act) =
      decided_inv s t g d retry_once n (some m) s' h in
    rw (← ok-injective act)
      (Effect.decided_retry r t g d n m task gate found stands opened id att app)
decided_Effect s r t g d abort n m s' h =
    let (task, gate, found, stands, opened, id, att, app, act) =
      decided_inv s t g d abort n m s' h in
    rw (← ok-injective act)
      (Effect.decided_abort r t g d n m task gate found stands opened id att app)

may_be_ready :
    (status : TaskStatus) → task_allowed status TaskStatus.ready ≡ true → MayBeReady status
may_be_ready TaskStatus.pending h = inl refl
may_be_ready TaskStatus.blocked h = inr (inl refl)
may_be_ready TaskStatus.failed h = inr (inr refl)
may_be_ready _ h = cc

may_be_blocked :
    (status : TaskStatus) → task_allowed status TaskStatus.blocked ≡ true → MayBeBlocked status
may_be_blocked TaskStatus.pending h = inl refl
may_be_blocked TaskStatus.ready h = inr (inl refl)
may_be_blocked TaskStatus.running h = inr (inr refl)
may_be_blocked _ h = cc

-- An event that the code accepts has the effect of the relation.
pub apply-Effect :
    (s : RunState) (e : DomainEvent) (s' : RunState) → apply s e ≡ ok s' → Effect s e s'
unfolding apply
apply-Effect s (run_planned r p) s' h =
    let (created, own, e) = planned_inv s p s' h in rw e (Effect.planned r p created own)
apply-Effect s (run_started r) s' h =
    let (planned, e) = started_inv s r s' h in rw e (Effect.started r planned)
apply-Effect s (task_readied r t) s' h =
    let (task, found, may, e) = moved_inv s t TaskStatus.ready s' h in
    rw e (Effect.readied r t task found (may_be_ready task.status may))
apply-Effect s (task_activated r t) s' h =
    let (task, found, ready, free, e) = activated_inv s t s' h in
    rw e (Effect.activated r t task found ready (free_for s.active_task_id t free))
apply-Effect s (task_blocked r t) s' h =
    let (task, found, may, e) = moved_inv s t TaskStatus.blocked s' h in
    rw e (Effect.blocked r t task found (may_be_blocked task.status may))
apply-Effect s (task_unblocked r t) s' h =
    let (task, found, may, e) = moved_inv s t TaskStatus.ready s' h in
    rw e (Effect.unblocked r t task found (may_be_ready task.status may))
apply-Effect s (evidence_accepted r t refs) s' h =
    let (task, found, e) = evidenced_inv s t refs s' h in
    rw e (Effect.evidenced r t refs task found)
apply-Effect s (task_verification_passed r t v) s' h = passed_Effect s r t v s' h
apply-Effect s (task_verification_failed r t v) s' h = failed_Effect s r t v s' h
apply-Effect s (task_retried r t) s' h =
    let (task, found, may, budget, e) = retried_inv s t s' h in
    rw e (Effect.retried r t task found (may_be_ready task.status may) budget)
apply-Effect s (task_escalated r t n) s' h =
    let (task, found, failed, spent, e) = escalated_inv s t n s' h in
    rw e (Effect.escalated r t n task found failed spent)
apply-Effect s (human_gate_decision_applied r t g d a n m) s' h =
    decided_Effect s r t g d a n m s' h
apply-Effect s (run_completed r v) s' h = completed_Effect s r v s' h
apply-Effect s (DomainEvent.run_failed r) s' h = run_failed_Effect s r s' h

-- An effect of the relation is one that the code has.
pub Effect-apply :
    (s : RunState) (e : DomainEvent) (s' : RunState) → Effect s e s' → apply s e ≡ ok s'
unfolding apply find_task check_task_transition check_run_transition
Effect-apply s e s' (Effect.planned r p created own) = ground (arith, eq_iff s.run_id p.run_id)
Effect-apply s e s' (Effect.decided_retry r t g d n m task gate found stands opened id att app) =
    ground (arith, eq_iff gate.gate_id g, nat_eq_iff n gate.attempt)
Effect-apply s e s' (Effect.decided_abort r t g d n m task gate found stands opened id att app) =
    ground (arith, eq_iff gate.gate_id g, nat_eq_iff n gate.attempt)
Effect-apply s e s' (Effect.started r planned) = ground arith
Effect-apply s e s' (Effect.readied r t task found may) = ground arith
Effect-apply s e s' (Effect.unblocked r t task found may) = ground arith
Effect-apply s e s' (Effect.blocked r t task found may) = ground arith
Effect-apply s e s' (Effect.activated r t task found ready free) =
    let idle = is_free s.active_task_id t free in ground arith
Effect-apply s e s' (Effect.evidenced r t refs task found) = ground arith
Effect-apply s e s' (Effect.passed r t task found stands refs more) =
    let some_refs = (has_refs task.accepted_evidence_refs).1 refs in ground arith
Effect-apply s e s' (Effect.passed_last r t task found stands refs last run) =
    let some_refs = (has_refs task.accepted_evidence_refs).1 refs in ground arith
Effect-apply s e s' (Effect.failed r t task found stands) = ground arith
Effect-apply s e s' (Effect.retried r t task found may budget) = ground arith
Effect-apply s e s' (Effect.escalated r t n task found failed spent) = ground arith
Effect-apply s e s' (Effect.completed r run) = ground arith
Effect-apply s e s' (Effect.run_failed r run) = ground arith
