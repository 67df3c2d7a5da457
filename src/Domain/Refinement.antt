-- ===== src/Domain/Refinement.antt =====
-- `apply_event` of fsasm-first/src/fsasm/domain.py against the relation of its effects.
use fsasm_training_lab.Prelude.{
  String, ◌==◌, ◌≡◌, ◌↔◌, refl, true, some, ok, arith, eq_iff, ==→≡, Option-cases, inl, inr,
}
use fsasm_training_lab.Models.{ChildTask, RunState}
use fsasm_training_lab.Domain.Events.{DomainEvent, event_run_id, event_task_id}
use fsasm_training_lab.Domain.Register.{validate_task_id, lookup_task}
use fsasm_training_lab.Domain.Apply.{apply, apply_event}
use fsasm_training_lab.Domain.Tasks.{lookup-has_task}
use fsasm_training_lab.Domain.Effect.{Effect, Found}
use fsasm_training_lab.Domain.Effect.Agrees.{apply-Effect, Effect-apply}

pub Found-valid :
    (s : RunState) (t : String) (task : ChildTask)
    → Found s t task
    → validate_task_id s (some t) ≡ ok tt
unfolding lookup_task
Found-valid s t task h = elim (Option-cases s.plan) [
  | inl e ↦ ground arith
  | inr (plan, e) ↦ ground (arith, lookup-has_task t plan.tasks task)
]

-- The premises of an effect include that its task is in the plan.
effect_valid :
    (s : RunState) (e : DomainEvent) (s' : RunState)
    → Effect s e s'
    → validate_task_id s (event_task_id e) ≡ ok tt
effect_valid s e s' (Effect.readied r t task found _) = Found-valid s t task found
effect_valid s e s' (Effect.unblocked r t task found _) = Found-valid s t task found
effect_valid s e s' (Effect.blocked r t task found _) = Found-valid s t task found
effect_valid s e s' (Effect.activated r t task found _ _) = Found-valid s t task found
effect_valid s e s' (Effect.evidenced r t refs task found) = Found-valid s t task found
effect_valid s e s' (Effect.passed r t task found _ _ _) = Found-valid s t task found
effect_valid s e s' (Effect.passed_last r t task found _ _ _ _) = Found-valid s t task found
effect_valid s e s' (Effect.failed r t task found _) = Found-valid s t task found
effect_valid s e s' (Effect.retried r t task found _ _) = Found-valid s t task found
effect_valid s e s' (Effect.escalated r t n task found _ _) = Found-valid s t task found
effect_valid s e s' (Effect.decided_retry r t g d n m task gate found _ _ _ _ _) =
    Found-valid s t task found
effect_valid s e s' (Effect.decided_abort r t g d n m task gate found _ _ _ _ _) =
    Found-valid s t task found
effect_valid s e s' _ = refl

-- `apply_event` accepts an event and returns `s'` exactly when the event is bound to this run and
-- the relation of effects leads from the state by the event to `s'`: the relation gives for each event
-- the statuses it starts from and the fields of the state and of its task that it writes, among them
-- the counter and the cleared evidence of a new attempt, the lists of ids and the gate.
pub apply_event-Effect :
    (s : RunState) (e : DomainEvent) (s' : RunState)
    → (apply_event s e ≡ ok s') ↔ ((event_run_id e ≡ s.run_id) × Effect s e s')
unfolding apply_event
apply_event-Effect s e s' = (
  λ h.
      let own : (event_run_id e == s.run_id) ≡ true = ground arith in
      let accepted : apply s e ≡ ok s' = ground arith in
      (==→≡ (event_run_id e) s.run_id own, apply-Effect s e s' accepted),
  λ h.
      let valid = effect_valid s e s' h.1 in
      let accepted = Effect-apply s e s' h.1 in ground (arith, eq_iff (event_run_id e) s.run_id),
)
