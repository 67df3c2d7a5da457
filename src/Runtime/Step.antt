-- ===== src/Runtime/Step.antt =====
-- One `_step` of the driver of fsasm-first/src/fsasm/runtime.py on a disk whose writes succeed.
use fsasm_training_lab.Prelude.{
  ℕ, ◌+◌, String, ◌≡◌, ◌≢◌, refl, some, arith, ok, eq_iff, sym, ap, ◌∙◌, [], ◌∷◌, ◌++◌, length,
  nat_eq_iff,
}
use fsasm_training_lab.Models.{ChildTask, RunState, Plan, task_ids}
use fsasm_training_lab.Domain.Events.{DomainEvent, event_run_id, event_task_id, run_planned}
use fsasm_training_lab.Domain.Register.{tasks_of, plan_tasks, update_task}
use fsasm_training_lab.Domain.Apply.{apply_event}
use fsasm_training_lab.Domain.Tasks.{task_ids-update, lookup-update_self}
use fsasm_training_lab.Domain.Effect.{Effect, Found}
use fsasm_training_lab.Domain.Refinement.{apply_event-Effect}
use fsasm_training_lab.Domain.Frame.{
  target_change, target_change-KeepsId, Effect-tasks, tasks_of-modify,
}
use fsasm_training_lab.Domain.Coherent.{IsCoherent}
use fsasm_training_lab.Domain.Coherent.Lists.{InPhase}
use fsasm_training_lab.Persistence.Disk.{Codec, Disk, no_fault}
use fsasm_training_lab.Persistence.Snapshot.{commit_run_state}
use fsasm_training_lab.Repository.Commit.{load, advance, next_of, commit_snapshot, may_commit}
use fsasm_training_lab.Repository.Laws.{committed_state}
use fsasm_training_lab.Repository.Revisions.{IsCoherent-advance}
use fsasm_training_lab.Runtime.{World, Session, as_runtime, step}
use fsasm_training_lab.Runtime.Weight.{weight, weigh, weigh-update}

Effect-run_id :
    (s : RunState) (e : DomainEvent) (s' : RunState) → Effect s e s' → s'.run_id ≡ s.run_id
Effect-run_id s e s' (Effect.planned r p created own) = refl
Effect-run_id s e s' _ = refl

-- On a disk whose writes succeed, an event that applies to the loaded snapshot is committed.
pub advance_accepts :
    (c : Codec) (now run_id : String) (e : DomainEvent) (disk : Disk (c.Text)) (s n : RunState)
    → load c run_id disk ≡ ok s
    → apply_event s e ≡ ok n
    → n.run_id ≡ run_id
    → (advance c no_fault now run_id s.revision e disk).0 ≡ ok (committed_state now s.revision n)
unfolding load advance next_of commit_snapshot may_commit commit_run_state
advance_accepts c now run_id e disk s n loaded applies own =
    ground (arith, eq_iff run_id n.run_id, nat_eq_iff s.revision s.revision)

-- The state in hand is the snapshot on disk, and it is coherent.
pub record Held (c : Codec) (run_id : String) (session : Session (c.Text)) (s : RunState)
    : Type 0 where
  pub loaded : load c run_id session.disk ≡ ok s
  pub own : s.run_id ≡ run_id
  pub coherent : IsCoherent s

module _ (c : Codec) (world : World) (writes : (k : ℕ) → world.fault k ≡ no_fault)
    (run_id : String) where
  open c use {Text}

  pub step-Held :
      (session : Session Text) (s n : RunState) (e : DomainEvent)
      → Held c run_id session s
      → Effect s e n
      → event_run_id e ≡ run_id
      → InPhase e s.status
      → ((r : String) (p : Plan) → e ≢ run_planned r p)
      → (now : String) × (after : Session Text) × (step c world run_id s.revision e session
          ≡ (ok (committed_state now s.revision n), after))
        × Held c run_id after (committed_state now s.revision n)
  unfolding step
  step-Held session s n e held effect bound phase no_plan =
      let k = length session.events in
      let now = world.clock k in
      let applies : apply_event s e ≡ ok n =
        (apply_event-Effect s e n).1 (bound ∙ sym held.own, effect) in
      let kept : n.run_id ≡ run_id = Effect-run_id s e n effect ∙ held.own in
      let done = advance_accepts c now run_id e session.disk s n held.loaded applies kept in
      let (again, good) =
        IsCoherent-advance c no_fault now run_id s.revision e session.disk s
          (committed_state now s.revision n) held.loaded held.coherent phase
          (λ r p q. absurd (no_plan r p q)) (λ r p q. absurd (no_plan r p q)) done in
      (
        now,
        record {
          disk = (advance c no_fault now run_id s.revision e session.disk).1;
          events = session.events ++ e ∷ [];
        },
        rw (writes k) (
            ap
              (λ a. (
                as_runtime c world a,
                record {
                  disk = (advance c no_fault now run_id s.revision e session.disk).1;
                  events = session.events ++ e ∷ [];
                },
              ))
              done),
        record { loaded = again; own = kept; coherent = good },
      )

  -- A step on the task `id`: what becomes of that task, of the weight and of the ids.
  pub task_step :
      (session : Session Text) (s n : RunState) (e : DomainEvent) (id : String) (t : ChildTask)
      → Held c run_id session s
      → Effect s e n
      → event_run_id e ≡ run_id
      → event_task_id e ≡ some id
      → Found s id t
      → InPhase e s.status
      → (now : String) × (after : Session Text) × (step c world run_id s.revision e session
          ≡ (ok (committed_state now s.revision n), after))
        × Held c run_id after (committed_state now s.revision n)
        × Found n id (target_change e t)
        × (weigh (tasks_of n) + weight t ≡ weigh (tasks_of s) + weight (target_change e t))
        × (task_ids (tasks_of n) ≡ task_ids (tasks_of s))
  task_step session s n e id t held effect bound names found phase =
      let (now, after, done, kept) =
        step-Held session s n e held effect bound phase (λ r p q. let k = rw q at names in cc) in
      let (task, there, written) = Effect-tasks s e n effect id names in
      let f = target_change e in
      let tasks : tasks_of n ≡ update_task id f (tasks_of s) =
        ap plan_tasks written ∙ tasks_of-modify id f s in
      (
        now,
        after,
        done,
        kept,
        rw tasks (lookup-update_self f (target_change-KeepsId e) id (tasks_of s) t found),
        rw tasks (weigh-update id f (tasks_of s) t found),
        rw tasks (task_ids-update f (target_change-KeepsId e) id (tasks_of s)),
      )
