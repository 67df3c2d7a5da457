-- ===== src/Repository/Storable.antt =====
-- A snapshot that can be read back stays one: what `advance` of fsasm-first/src/fsasm/state_repository.py
-- loads, and what it writes after an event.
use fsasm_training_lab.Prelude.{
  ℕ, String, ◌≡◌, refl, Option, none, some, ok, arith, ap, ◌∙◌, Option-cases, inl, inr,
}
use fsasm_training_lab.Models.{Plan, RunState, retry_once, abort}
use fsasm_training_lab.Domain.Events.{
  DomainEvent, event_task_id, run_planned, human_gate_decision_applied, task_readied,
}
use fsasm_training_lab.Domain.Register.{modify_plan}
use fsasm_training_lab.Domain.Apply.{apply_event}
use fsasm_training_lab.Domain.Effect.{Effect}
use fsasm_training_lab.Domain.Refinement.{apply_event-Effect}
use fsasm_training_lab.Domain.Frame.{target_change, target_change-KeepsId, Effect-tasks}
use fsasm_training_lab.PlanCheck.{validate_plan}
use fsasm_training_lab.PlanCheck.Stable.{KeepsDependencies, validate_plan-update}
use fsasm_training_lab.Persistence.Disk.{Codec, Disk}
use fsasm_training_lab.Persistence.Snapshot.{load_run_state, parsed, read_file, state_file_of}
use fsasm_training_lab.Persistence.Restored.{restored, plan_read, IsStorable, restored-IsStorable}
use fsasm_training_lab.Repository.Commit.{load, require_initialized}
use fsasm_training_lab.Repository.Laws.{committed_state}

-- Every plan that an event sets has passed its own validators, as a `Plan` of the program has.
abbrev pub PlansValid : DomainEvent → Type 0
PlansValid e = (r : String) (p : Plan) → e ≡ run_planned r p → validate_plan p ≡ ok tt

target_change-KeepsDependencies : (e : DomainEvent) → KeepsDependencies (target_change e)
target_change-KeepsDependencies (human_gate_decision_applied _ _ _ _ retry_once _ none) t = refl
target_change-KeepsDependencies (human_gate_decision_applied _ _ _ _ retry_once _ (some m)) t = refl
target_change-KeepsDependencies (human_gate_decision_applied _ _ _ _ abort _ m) t = refl
target_change-KeepsDependencies (task_readied _ _) t = refl
target_change-KeepsDependencies _ t = refl

modified-valid :
    (e : DomainEvent) (id : String) (plan : Option Plan)
    → plan_read plan ≡ ok tt
    → plan_read (modify_plan id (target_change e) plan) ≡ ok tt
modified-valid e id none h = refl
modified-valid e id (some p) h =
    validate_plan-update id (target_change e) (target_change-KeepsId e)
      (target_change-KeepsDependencies e) p h

run_event-valid :
    (s : RunState) (e : DomainEvent) (n : RunState)
    → Effect s e n
    → event_task_id e ≡ none
    → PlansValid e
    → plan_read s.plan ≡ ok tt
    → plan_read n.plan ≡ ok tt
run_event-valid s e n (Effect.planned r p created own) names plans h = plans r p refl
run_event-valid s e n (Effect.started r planned) names plans h = h
run_event-valid s e n (Effect.completed r running) names plans h = h
run_event-valid s e n (Effect.run_failed r running) names plans h = h
run_event-valid s e n _ names plans h = absurd (ground arith)

Effect-valid :
    (s : RunState) (e : DomainEvent) (n : RunState)
    → Effect s e n
    → PlansValid e
    → plan_read s.plan ≡ ok tt
    → plan_read n.plan ≡ ok tt
Effect-valid s e n effect plans h = elim (Option-cases (event_task_id e)) [
  | inl quiet ↦ run_event-valid s e n effect quiet plans h
  | inr (t, names) ↦
      let (task, found, written) = Effect-tasks s e n effect t names in
      ap plan_read written ∙ modified-valid e t s.plan h
]

Effect-goal : (s : RunState) (e : DomainEvent) (n : RunState) → Effect s e n → n.goal ≡ s.goal
Effect-goal s e n (Effect.started r planned) = refl
Effect-goal s e n _ = refl

-- What an event makes of a storable snapshot is storable, as it is committed.
pub apply_event-IsStorable :
    (now : String) (revision : ℕ) (s : RunState) (e : DomainEvent) (n : RunState)
    → apply_event s e ≡ ok n
    → PlansValid e
    → IsStorable s
    → IsStorable (committed_state now revision n)
apply_event-IsStorable now revision s e n step plans k =
    let effect = ((apply_event-Effect s e n).0 step).1 in
    let goal = Effect-goal s e n effect in
    record {
      stripped = rw goal k.stripped;
      named = rw goal k.named;
      plan_valid = Effect-valid s e n effect plans k.plan_valid;
    }

module _ (c : Codec) where
  open c use {Text}

  parsed_inv :
      (o : Option RunState) (s : RunState)
      → parsed c o ≡ ok (some s)
      → (raw : RunState) × (restored raw ≡ ok s)
  parsed_inv none s h = cc
  parsed_inv (some raw) s h = (raw, ground arith)

  read_file_inv :
      (o : Option Text) (s : RunState)
      → read_file c o ≡ ok (some s)
      → (raw : RunState) × (restored raw ≡ ok s)
  read_file_inv none s h = cc
  read_file_inv (some text) s h = parsed_inv (c.read_state text) s h

  load_file :
      (run_id : String) (disk : Disk Text) (s : RunState)
      → load c run_id disk ≡ ok s
      → read_file c (state_file_of c (disk run_id)) ≡ ok (some s)
  unfolding load require_initialized load_run_state
  load_file run_id disk s h = ground arith

  -- A snapshot that has been loaded is storable.
  pub load-IsStorable :
      (run_id : String) (disk : Disk Text) (s : RunState) → load c run_id disk ≡ ok s → IsStorable s
  load-IsStorable run_id disk s h =
      let (raw, read) =
        read_file_inv (state_file_of c (disk run_id)) s (load_file run_id disk s h) in
      restored-IsStorable raw s read
