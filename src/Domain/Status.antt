-- ===== src/Domain/Status.antt =====
-- The state machines of tasks and runs: every status change that `apply_event` of
-- fsasm-first/src/fsasm/domain.py makes is an entry of a matrix or a human decision.
use fsasm_training_lab.Prelude.{String, ◌≡◌, ◌≢◌, refl, true, some, ok, arith, ◌⊎◌, inl, inr}
use fsasm_training_lab.Models.{TaskStatus, RunStatus, ChildTask, RunState, Plan}
use fsasm_training_lab.Domain.Matrix.{task_allowed, run_allowed}
use fsasm_training_lab.Domain.Events.{DomainEvent, run_planned, event_task_id}
use fsasm_training_lab.Domain.Apply.{apply_event}
use fsasm_training_lab.Domain.Effect.{Effect, Found}
use fsasm_training_lab.Domain.Refinement.{apply_event-Effect}
use fsasm_training_lab.Domain.Frame.{target_change, Found-after}

-- A task keeps its status, moves along the matrix, or leaves the Human Gate by a decision.
abbrev pub TaskStep : TaskStatus → TaskStatus → Type 0
TaskStep a b =
    (b ≡ a)
    ⊎ (task_allowed a b ≡ true)
    ⊎ ((a ≡ TaskStatus.needs_human) × ((b ≡ TaskStatus.ready) ⊎ (b ≡ TaskStatus.failed)))

abbrev pub RunStep : RunStatus → RunStatus → Type 0
RunStep a b =
    (b ≡ a)
    ⊎ (run_allowed a b ≡ true)
    ⊎ ((a ≡ RunStatus.needs_human) × ((b ≡ RunStatus.running) ⊎ (b ≡ RunStatus.failed)))

target_step :
    (s : RunState) (e : DomainEvent) (s' : RunState) (t : String) (task : ChildTask)
    → Effect s e s'
    → event_task_id e ≡ some t
    → Found s t task
    → TaskStep task.status (target_change e task).status
target_step s e s' t task (Effect.readied r u v found may) h g = inr (inl (ground arith))
target_step s e s' t task (Effect.unblocked r u v found may) h g = inr (inl (ground arith))
target_step s e s' t task (Effect.blocked r u v found may) h g = inr (inl (ground arith))
target_step s e s' t task (Effect.activated r u v found ready free) h g = inr (inl (ground arith))
target_step s e s' t task (Effect.evidenced r u refs v found) h g = inl refl
target_step s e s' t task (Effect.passed r u v found stands refs more) h g =
    inr (inl (ground arith))
target_step s e s' t task (Effect.passed_last r u v found stands refs last run) h g =
    inr (inl (ground arith))
target_step s e s' t task (Effect.failed r u v found stands) h g = inr (inl (ground arith))
target_step s e s' t task (Effect.retried r u v found may budget) h g = inr (inl (ground arith))
target_step s e s' t task (Effect.escalated r u n v found failed spent) h g =
    inr (inl (ground arith))
target_step s e s' t task (Effect.decided_retry r u g' d n m v gate found stands opened id att app)
      h g =
    inr (inr (ground arith, inl refl))
target_step s e s' t task (Effect.decided_abort r u g' d n m v gate found stands opened id att app)
      h g =
    inr (inr (ground arith, inr refl))
target_step s e s' t task _ h g = cc

run_step :
    (s : RunState) (e : DomainEvent) (s' : RunState) → Effect s e s' → RunStep s.status s'.status
run_step s e s' (Effect.planned r p created own) = inr (inl (ground arith))
run_step s e s' (Effect.started r planned) = inr (inl (ground arith))
run_step s e s' (Effect.activated r u v found ready free) = ground arith
run_step s e s' (Effect.passed_last r u v found stands refs last run) = inr (inl (ground arith))
run_step s e s' (Effect.escalated r u n v found failed spent) = ground arith
run_step s e s' (Effect.decided_retry r u g' d n m v gate found stands opened id att app) =
    ground arith
run_step s e s' (Effect.decided_abort r u g' d n m v gate found stands opened id att app) =
    ground arith
run_step s e s' (Effect.completed r run) = inr (inl (ground arith))
run_step s e s' (Effect.run_failed r run) = inr (inl (ground arith))
run_step s e s' _ = inl refl

-- Every accepted event keeps the run's status, moves it along the run matrix, or takes it from
-- NEEDS_HUMAN to RUNNING or FAILED.
pub run_status_follows_matrix :
    (s : RunState) (e : DomainEvent) (s' : RunState)
    → apply_event s e ≡ ok s'
    → RunStep s.status s'.status
run_status_follows_matrix s e s' h = run_step s e s' ((apply_event-Effect s e s').0 h).1

-- Every task of the state after an accepted event that does not set the plan was there before, and
-- its status is the same, or moved along the task matrix, or left NEEDS_HUMAN for READY or FAILED.
pub task_status_follows_matrix :
    (s : RunState) (e : DomainEvent) (s' : RunState) (j : String) (after : ChildTask)
    → apply_event s e ≡ ok s'
    → ((r : String) (p : Plan) → e ≢ run_planned r p)
    → Found s' j after
    → (task : ChildTask) × Found s j task × TaskStep task.status after.status
task_status_follows_matrix s e s' j after h no_plan found =
    elim (Found-after s e s' j after h found) [
      | inl before ↦ (after, before, inl refl)
      | inr (inr (r, p, set)) ↦ absurd (no_plan r p set)
      | inr (inl (task, before, names, change)) ↦ (
        task,
        before,
        rw change (target_step s e s' j task ((apply_event-Effect s e s').0 h).1 names before),
      )
    ]

-- The states that a run can reach by accepted events.
pub data Reach (s : RunState) : RunState → Type 0 where
  here : Reach s s
  next : {t u : RunState} → Reach s t → (e : DomainEvent) → apply_event t e ≡ ok u → Reach s u

abbrev pub IsTerminal : RunStatus → Type 0
IsTerminal a = (a ≡ RunStatus.passed) ⊎ (a ≡ RunStatus.failed)

terminal_step : (a b : RunStatus) → IsTerminal a → RunStep a b → b ≡ a
terminal_step a b h k = ground arith

-- A run that is PASSED or FAILED keeps that status under every sequence of accepted events.
pub terminal_absorbs : (s s' : RunState) → IsTerminal s.status → Reach s s' → s'.status ≡ s.status
terminal_absorbs s s' h here = refl
terminal_absorbs s s' h (next {t = t} r e step) =
    let before = terminal_absorbs s t h r in
    terminal_step s.status s'.status h (rw before at (run_status_follows_matrix t e s' step))
