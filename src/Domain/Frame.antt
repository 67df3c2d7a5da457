-- ===== src/Domain/Frame.antt =====
-- What an accepted event of fsasm-first/src/fsasm/domain.py does to the Task Register: it writes
-- one task, and no other.
use fsasm_training_lab.Prelude.{
  ℕ, String, ◌==◌, ◌≡◌, ◌≢◌, refl, Option, none, some, ok, arith, ap, sym, subst, ◌∙◌, ◌⊎◌,
  Bool-cases, ==→≡, ==→≢, Option-cases, inl, inr,
}
use fsasm_training_lab.Models.{TaskStatus, ChildTask, task_ids, RunState, Plan, retry_once, abort}
use fsasm_training_lab.Domain.Events.{
  DomainEvent, run_planned, task_readied, task_activated, task_blocked, task_unblocked,
  evidence_accepted, task_verification_passed, task_verification_failed, task_retried,
  task_escalated, human_gate_decision_applied, event_task_id,
}
use fsasm_training_lab.Domain.Register.{
  plan_tasks, lookup_task, tasks_of, modify_task, modify_plan, update_task, set_status,
}
use fsasm_training_lab.Domain.Apply.{apply_event, start_attempt, set_refs, grant_retry}
use fsasm_training_lab.Domain.Tasks.{KeepsId, task_ids-update, lookup-update_self, lookup-update_ne}
use fsasm_training_lab.Domain.Effect.{Effect, Found}
use fsasm_training_lab.Domain.Refinement.{apply_event-Effect}

-- A decision's limit counts only for RETRY_ONCE.
abbrev pub decided : Option ℕ → ChildTask → ChildTask
decided none t = t
decided (some limit) t = grant_retry limit t

-- What an event does to the task that it names.
abbrev pub target_change : DomainEvent → ChildTask → ChildTask
target_change (task_readied _ _) = set_status TaskStatus.ready
target_change (task_activated _ _) = start_attempt
target_change (task_blocked _ _) = set_status TaskStatus.blocked
target_change (task_unblocked _ _) = set_status TaskStatus.ready
target_change (evidence_accepted _ _ refs) = set_refs refs
target_change (task_verification_passed _ _ _) = set_status TaskStatus.passed
target_change (task_verification_failed _ _ _) = set_status TaskStatus.failed
target_change (task_retried _ _) = set_status TaskStatus.ready
target_change (task_escalated _ _ _) = set_status TaskStatus.needs_human
target_change (human_gate_decision_applied _ _ _ _ retry_once _ limit) = decided limit
target_change (human_gate_decision_applied _ _ _ _ abort _ _) = set_status TaskStatus.failed
target_change _ = λ t. t

pub target_change-KeepsId : (e : DomainEvent) → KeepsId (target_change e)
target_change-KeepsId (human_gate_decision_applied _ _ _ _ retry_once _ none) t = refl
target_change-KeepsId (human_gate_decision_applied _ _ _ _ retry_once _ (some m)) t = refl
target_change-KeepsId (human_gate_decision_applied _ _ _ _ abort _ m) t = refl
target_change-KeepsId (task_readied _ _) t = refl
target_change-KeepsId _ t = refl

pub tasks_of-modify :
    (id : String) (f : ChildTask → ChildTask) (s : RunState)
    → tasks_of (modify_task id f s) ≡ update_task id f (tasks_of s)
unfolding update_task
tasks_of-modify id f s = ground arith

-- Every task event is a write of `target_change` at its task.
pub Effect-tasks :
    (s : RunState) (e : DomainEvent) (s' : RunState)
    → Effect s e s'
    → (t : String) → event_task_id e ≡ some t
    → (task : ChildTask) × Found s t task × (s'.plan ≡ modify_plan t (target_change e) s.plan)
Effect-tasks s e s' (Effect.readied r u task found _) t h = (task, ground arith, ground arith)
Effect-tasks s e s' (Effect.unblocked r u task found _) t h = (task, ground arith, ground arith)
Effect-tasks s e s' (Effect.blocked r u task found _) t h = (task, ground arith, ground arith)
Effect-tasks s e s' (Effect.activated r u task found _ _) t h = (task, ground arith, ground arith)
Effect-tasks s e s' (Effect.evidenced r u refs task found) t h = (task, ground arith, ground arith)
Effect-tasks s e s' (Effect.passed r u task found _ _ _) t h = (task, ground arith, ground arith)
Effect-tasks s e s' (Effect.passed_last r u task found _ _ _ _) t h =
    (task, ground arith, ground arith)
Effect-tasks s e s' (Effect.failed r u task found _) t h = (task, ground arith, ground arith)
Effect-tasks s e s' (Effect.retried r u task found _ _) t h = (task, ground arith, ground arith)
Effect-tasks s e s' (Effect.escalated r u n task found _ _) t h = (task, ground arith, ground arith)
Effect-tasks s e s' (Effect.decided_retry r u g d n m task gate found _ _ _ _ _) t h =
    (task, ground arith, ground arith)
Effect-tasks s e s' (Effect.decided_abort r u g d n m task gate found _ _ _ _ _) t h =
    (task, ground arith, ground arith)
Effect-tasks s e s' _ t h = cc

-- An event that names no task leaves the plan alone, unless it sets the plan.
pub Effect-plan :
    (s : RunState) (e : DomainEvent) (s' : RunState)
    → Effect s e s'
    → event_task_id e ≡ none
    → (s'.plan ≡ s.plan) ⊎ ((r : String) × (p : Plan) × (e ≡ run_planned r p))
Effect-plan s e s' (Effect.planned r p created own) h = inr (r, p, refl)
Effect-plan s e s' (Effect.started r planned) h = inl refl
Effect-plan s e s' (Effect.completed r run) h = inl refl
Effect-plan s e s' (Effect.run_failed r run) h = inl refl
Effect-plan s e s' _ h = cc

-- The frame of an accepted task event.
pub apply_event_frame :
    (s : RunState) (e : DomainEvent) (s' : RunState) (t : String)
    → apply_event s e ≡ ok s'
    → event_task_id e ≡ some t
    → (task : ChildTask) × Found s t task
      × Found s' t (target_change e task)
      × ((j : String) → t ≢ j → lookup_task j (tasks_of s') ≡ lookup_task j (tasks_of s))
      × (task_ids (tasks_of s') ≡ task_ids (tasks_of s))
apply_event_frame s e s' t h names =
    let effect = ((apply_event-Effect s e s').0 h).1 in
    let (task, found, written) = Effect-tasks s e s' effect t names in
    let f = target_change e in
    let keeps = target_change-KeepsId e in
    let tasks : tasks_of s' ≡ update_task t f (tasks_of s) =
      ap plan_tasks written ∙ tasks_of-modify t f s in
    (
      task,
      found,
      rw tasks (lookup-update_self f keeps t (tasks_of s) task found),
      λ j other. rw tasks (lookup-update_ne f keeps t j (tasks_of s) other),
      rw tasks (task_ids-update f keeps t (tasks_of s)),
    )

-- An accepted event for the task `t` finds that task, changes it by `target_change`, leaves the task
-- of every other id `j` as it was, and keeps the list of ids.
pub apply_event_writes_one_task :
    (s : RunState) (e : DomainEvent) (s' : RunState) (t j : String)
    → apply_event s e ≡ ok s'
    → event_task_id e ≡ some t
    → t ≢ j
    → ((task : ChildTask) × Found s t task × Found s' t (target_change e task))
      × (lookup_task j (tasks_of s') ≡ lookup_task j (tasks_of s))
      × (task_ids (tasks_of s') ≡ task_ids (tasks_of s))
apply_event_writes_one_task s e s' t j h names other =
    let (task, found, written, others, ids) = apply_event_frame s e s' t h names in
    ((task, found, written), others j other, ids)

pub Found-unique : (s : RunState) (j : String) (a b : ChildTask) → Found s j a → Found s j b → a ≡ b
Found-unique s j a b p q = cc

-- A task of the state after an event: it was there before, or the event wrote it, or the event set
-- the plan.
pub Found-after :
    (s : RunState) (e : DomainEvent) (s' : RunState) (j : String) (after : ChildTask)
    → apply_event s e ≡ ok s'
    → Found s' j after
    → Found s j after
      ⊎ ((task : ChildTask) × Found s j task
          × (event_task_id e ≡ some j)
          × (after ≡ target_change e task))
      ⊎ ((r : String) × (p : Plan) × (e ≡ run_planned r p))
Found-after s e s' j after h found = elim (Option-cases (event_task_id e)) [
  | inl names ↦ elim (Effect-plan s e s' ((apply_event-Effect s e s').0 h).1 names) [
    | inl same ↦ inl (rw (← ap plan_tasks same) found)
    | inr set ↦ inr (inr set)
  ]
  | inr (t, names) ↦
      let (task, before, written, others, ids) = apply_event_frame s e s' t h names in
      elim (Bool-cases (t == j)) [
        | inl e' ↦
            let same = ==→≡ t j e' in
            inr (
              inl (
                task,
                subst (λ k. Found s k task) same before,
                rw (← same) names,
                Found-unique s' j after (target_change e task) found
                    (subst (λ k. Found s' k (target_change e task)) same written),
              ))
        | inr e' ↦ inl (sym (others j (==→≢ t j e')) ∙ found)
      ]
]
