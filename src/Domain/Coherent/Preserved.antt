-- ===== src/Domain/Coherent/Preserved.antt =====
-- Every event that is sent in its phase keeps a snapshot coherent (fsasm-first/src/fsasm/domain.py).
use fsasm_training_lab.Prelude.{
  String, ◌≡◌, ◌≢◌, refl, Option, none, some, List, [], arith, ap, ◌∙◌, sym, inl, inr, ◌⊎◌, ok, All,
  Option-cases, All-map, contains,
}
use fsasm_training_lab.Models.{TaskStatus, RunStatus, ChildTask, RunState, Plan, task_ids}
use fsasm_training_lab.Domain.Events.{DomainEvent, event_task_id, run_planned, task_escalated}
use fsasm_training_lab.Domain.Register.{tasks_of, plan_tasks, update_task}
use fsasm_training_lab.Domain.Apply.{apply_event}
use fsasm_training_lab.Domain.Tasks.{
  Unique, All-update, All-lookup, Unique-update, lookup-id, task_ids-update,
}
use fsasm_training_lab.Domain.Effect.{Effect}
use fsasm_training_lab.Domain.Refinement.{apply_event-Effect}
use fsasm_training_lab.Domain.Frame.{
  target_change, target_change-KeepsId, Effect-tasks, tasks_of-modify,
}
use fsasm_training_lab.Domain.Coherent.{TaskOk, IsCoherent, OwnPlan, ids_of}
use fsasm_training_lab.Domain.Coherent.Tasks.{TaskOkOf, other-TaskOk, target-TaskOk}
use fsasm_training_lab.Domain.Coherent.Ids.{lookup-known}
use fsasm_training_lab.Domain.Coherent.Lists.{InPhase, task-ListsOk, run-ListsOk, planned-ListsOk}

-- A plan as the Task Compiler makes it: unique ids, and nothing started.
pub record IsFresh (p : Plan) : Type 0 where
  pub unique : Unique p.tasks
  pub pending : All (λ (t : ChildTask). t.status ≡ TaskStatus.pending) p.tasks

not_failed :
    (s : RunState) (e : DomainEvent) (t : String)
    → event_task_id e ≡ some t
    → InPhase e s.status
    → s.status ≢ RunStatus.failed
not_failed s (task_escalated r u n) t h ph = ground arith
not_failed s (DomainEvent.task_readied r u) t h ph = ground arith
not_failed s _ t h ph = ground arith

OwnPlan-kept :
    (s : RunState) (e : DomainEvent) (s' : RunState)
    → Effect s e s'
    → OwnPlan s.run_id s.plan
    → OwnPlan s'.run_id s'.plan
OwnPlan-kept s e s' (Effect.planned r p created own) k = sym own
OwnPlan-kept s e s' (Effect.started r planned) k = k
OwnPlan-kept s e s' _ k = ground arith

task_event :
    (s : RunState) (e : DomainEvent) (s' : RunState) (t : String)
    → Effect s e s'
    → event_task_id e ≡ some t
    → InPhase e s.status
    → IsCoherent s
    → IsCoherent s'
task_event s e s' t effect names phase c =
    let (task, found, written) = Effect-tasks s e s' effect t names in
    let f = target_change e in
    let keeps = target_change-KeepsId e in
    let tasks : tasks_of s' ≡ update_task t f (tasks_of s) =
      ap plan_tasks written ∙ tasks_of-modify t f s in
    let ids : ids_of s' ≡ ids_of s = ap task_ids tasks ∙ task_ids-update f keeps t (tasks_of s) in
    let once = c.lists_ok.waiting_once in
    let fresh = c.lists_ok.failed_closed (not_failed s e t names phase) in
    let after =
      target-TaskOk s e s' t task effect names once fresh found
        (lookup-id t (tasks_of s) task found)
        (All-lookup (TaskOkOf s) t (tasks_of s) task c.tasks_ok found) in
    record {
      own_plan = OwnPlan-kept s e s' effect c.own_plan;
      unique = rw tasks (Unique-update t f (tasks_of s) keeps c.unique);
      tasks_ok = rw tasks (
          All-update t f task (λ u ne k. other-TaskOk s e s' t u effect names once ne k) after
            (tasks_of s) c.unique found c.tasks_ok);
      lists_ok = rw ids (
          task-ListsOk (ids_of s) s e s' t effect names phase
            (lookup-known t (tasks_of s) task found) c.lists_ok);
    }

fresh_task :
    (a : Option String) (xs ys zs : List String) (t : ChildTask)
    → xs ≡ []
    → ys ≡ []
    → zs ≡ []
    → t.status ≡ TaskStatus.pending
    → TaskOk a xs ys zs t
unfolding contains
fresh_task a xs ys zs t hx hy hz h = ground arith

planned_event :
    (s : RunState) (r : String) (p : Plan) (s' : RunState)
    → Effect s (run_planned r p) s'
    → IsFresh p
    → IsCoherent s
    → IsCoherent s'
planned_event s r p s' (Effect.planned _ _ created own) fresh c =
    let (no_active, none_done, none_waiting) = c.lists_ok.created_idle created in
    record {
      own_plan = sym own;
      unique = fresh.unique;
      tasks_ok =
          All-map (λ (t : ChildTask). t.status ≡ TaskStatus.pending) _
            (λ t h.
              fresh_task s.active_task_id s.completed_task_ids s.failed_task_ids
                s.needs_human_task_ids t none_done (c.lists_ok.failed_closed (ground arith))
                none_waiting h)
            p.tasks fresh.pending;
      lists_ok =
          planned-ListsOk (ids_of s) (task_ids p.tasks) s r p _ (Effect.planned r p created own)
            c.lists_ok;
    }

-- Events that name no task and set no plan change the status only.
run_event :
    (s : RunState) (e : DomainEvent) (s' : RunState)
    → Effect s e s'
    → event_task_id e ≡ none
    → ((r : String) (p : Plan) → e ≢ run_planned r p)
    → IsCoherent s
    → IsCoherent s'
run_event s e s' (Effect.planned r p created own) names np c = absurd (np r p refl)
run_event s e s' (Effect.started r planned) names np c = record {
  own_plan = c.own_plan;
  unique = c.unique;
  tasks_ok = c.tasks_ok;
  lists_ok = run-ListsOk (ids_of s) s e s' (Effect.started r planned) names np c.lists_ok;
}
run_event s e s' (Effect.completed r run) names np c = record {
  own_plan = c.own_plan;
  unique = c.unique;
  tasks_ok = c.tasks_ok;
  lists_ok = run-ListsOk (ids_of s) s e s' (Effect.completed r run) names np c.lists_ok;
}
run_event s e s' (Effect.run_failed r run) names np c = record {
  own_plan = c.own_plan;
  unique = c.unique;
  tasks_ok = c.tasks_ok;
  lists_ok = run-ListsOk (ids_of s) s e s' (Effect.run_failed r run) names np c.lists_ok;
}
run_event s e s' _ names np c = cc

not_planning :
    (s : RunState) (e : DomainEvent) (s' : RunState)
    → Effect s e s'
    → ((r : String) (p : Plan) → e ≢ run_planned r p)
      ⊎ ((r : String) × (p : Plan) × (e ≡ run_planned r p))
not_planning s (run_planned r p) s' effect = inr (r, p, refl)
not_planning s (DomainEvent.run_started r) s' effect = inl (λ r' p q. cc)
not_planning s _ s' effect = inl (λ r' p q. cc)

-- An accepted event that is sent in its phase, with a fresh plan if it sets the plan, leads from a
-- coherent snapshot to a coherent snapshot.
pub apply_event-IsCoherent :
    (s : RunState) (e : DomainEvent) (s' : RunState)
    → apply_event s e ≡ ok s'
    → InPhase e s.status
    → ((r : String) (p : Plan) → e ≡ run_planned r p → IsFresh p)
    → IsCoherent s
    → IsCoherent s'
apply_event-IsCoherent s e s' h phase fresh c =
    let effect = ((apply_event-Effect s e s').0 h).1 in
    elim (Option-cases (event_task_id e)) [
      | inr (t, names) ↦ task_event s e s' t effect names phase c
      | inl names ↦ elim (not_planning s e s' effect) [
        | inl np ↦ run_event s e s' effect names np c
        | inr (r, p, set) ↦ planned_event s r p s' (rw set at effect) (fresh r p set) c
      ]
    ]
