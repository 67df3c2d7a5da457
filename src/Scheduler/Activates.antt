-- ===== src/Scheduler/Activates.antt =====
-- The scheduler and the Domain Core together: what `schedule` chooses, `apply_event` starts
-- (fsasm-first/src/fsasm/scheduler.py, fsasm-first/src/fsasm/domain.py).
use fsasm_training_lab.Prelude.{
  String, ◌≡◌, ◌≢◌, refl, none, some, List, [], ◌∷◌, if◌then◌else◌, arith, All, ◌⊎◌, inl, inr,
  Option-cases, ok, ==_refl, ≢→==, sym,
}
use fsasm_training_lab.Models.{TaskStatus, RunStatus, run_status_eq, ChildTask, RunState}
use fsasm_training_lab.Domain.Register.{tasks_of, lookup_task, modify_task, set_status}
use fsasm_training_lab.Domain.Events.{task_readied, task_activated}
use fsasm_training_lab.Domain.Apply.{apply_event, start_attempt}
use fsasm_training_lab.Domain.Tasks.{Unique, lookup-update_self}
use fsasm_training_lab.Domain.Effect.{Effect, Found}
use fsasm_training_lab.Domain.Refinement.{apply_event-Effect}
use fsasm_training_lab.Domain.Frame.{tasks_of-modify}
use fsasm_training_lab.Scheduler.Order.{In}
use fsasm_training_lab.Scheduler.Query.{schedule, chosen, answer, busy}
use fsasm_training_lab.Scheduler.Sound.{schedule_sound}

apart :
    (t : ChildTask) (ts : List ChildTask) (k : String)
    → In t ts
    → All (λ (u : ChildTask). u.task_id ≢ k) ts
    → t.task_id ≢ k
apart t [] k i a = absurd i
apart t (u ∷ us) k (inl same) a = rw (← same) a.0
apart t (u ∷ us) k (inr later) a = apart t us k later a.1

-- Where ids are unique, a task of the list is the one found by its id.
pub In-lookup :
    (t : ChildTask) (ts : List ChildTask) → Unique ts → In t ts → lookup_task t.task_id ts ≡ some t
unfolding lookup_task
In-lookup t [] u i = absurd i
In-lookup t (v ∷ vs) u (inl same) = rw same (rw (==_refl t.task_id))
In-lookup t (v ∷ vs) u (inr later) =
    let other = ≢→== v.task_id t.task_id (λ e. apart t vs v.task_id later u.0 (sym e)) in
    rw other (In-lookup t vs u.1 later)

-- The state after `TaskActivated`.
abbrev activated_state : RunState → String → RunState
activated_state s id = record (modify_task id start_attempt s) {
  active_task_id = some id;
  status = if run_status_eq s.status RunStatus.planned then RunStatus.running else s.status;
}

-- A READY task of an idle run is started, and then the scheduler is busy.
module _ (s : RunState) (id : String) (task : ChildTask) (found : Found s id task)
    (ready : task.status ≡ TaskStatus.ready) (idle : s.active_task_id ≡ none) where
  activates : apply_event s (task_activated s.run_id id) ≡ ok (activated_state s id)
  activates =
      (apply_event-Effect s (task_activated s.run_id id) (activated_state s id)).1
        (refl, Effect.activated s.run_id id task found ready (ground arith))

  then_busy : schedule (activated_state s id) ≡ answer busy
  unfolding schedule lookup_task
  then_busy = elim (Option-cases s.plan) [
    | inl e ↦ absurd (ground arith)
    | inr (plan, e) ↦ ground arith
  ]

-- If ids are unique and `schedule` chooses a task, then `apply_event` accepts the events that start
-- it: `TaskReadied` first if it is PENDING, and then `TaskActivated`. In the state that they lead to
-- the task is the active one and the scheduler answers BUSY.
pub scheduled_task_starts :
    (s : RunState) (t : ChildTask)
    → Unique (tasks_of s)
    → schedule s ≡ chosen t
    → (s1 : RunState) × (s2 : RunState) × (((t.status ≡ TaskStatus.ready) × (s1 ≡ s))
        ⊎ ((t.status ≡ TaskStatus.pending)
            × (apply_event s (task_readied s.run_id t.task_id) ≡ ok s1)))
      × (apply_event s1 (task_activated s1.run_id t.task_id) ≡ ok s2)
      × (s2.active_task_id ≡ some t.task_id)
      × (schedule s2 ≡ answer busy)
scheduled_task_starts s t unique h =
    let (idle, inside, eligible, least) = schedule_sound s t h in
    let found = In-lookup t (tasks_of s) unique inside in
    elim eligible.0 [
      | inr ready ↦ (
        s,
        activated_state s t.task_id,
        inl (ready, refl),
        activates s t.task_id t found ready idle.0,
        refl,
        then_busy s t.task_id t found ready idle.0,
      )
      | inl pending ↦
          let s1 = modify_task t.task_id (set_status TaskStatus.ready) s in
          let now : Found s1 t.task_id (set_status TaskStatus.ready t) =
            rw (tasks_of-modify t.task_id (set_status TaskStatus.ready) s) (
              lookup-update_self (set_status TaskStatus.ready) (λ u. refl) t.task_id (tasks_of s) t
                found) in
          (
            s1,
            activated_state s1 t.task_id,
            inr (
              pending,
              (apply_event-Effect s (task_readied s.run_id t.task_id) s1).1
                  (refl, Effect.readied s.run_id t.task_id t found (ground arith)),
            ),
            activates s1 t.task_id (set_status TaskStatus.ready t) now refl idle.0,
            refl,
            then_busy s1 t.task_id (set_status TaskStatus.ready t) now refl idle.0,
          )
    ]
