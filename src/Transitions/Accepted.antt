-- ===== src/Transitions/Accepted.antt =====
-- When the functions of fsasm-first/src/fsasm/transitions.py succeed, and what they leave behind.
use fsasm_training_lab.Prelude.{
  ℕ, ◌+◌, ◌<◌, ◌≤◌, String, ◌≡◌, ◌≢◌, ◌↔◌, ◌⊎◌, Bool, true, false, Option, none, some, ok, err,
  arith,
}
use fsasm_training_lab.Models.{TaskStatus, RunStatus, ChildTask, RunState, can_retry, touch}
use fsasm_training_lab.Domain.Matrix.{run_allowed}
use fsasm_training_lab.Transitions.{
  TransitionError, check_move, transition_task, transition_run,
  apply_human_authorized_task_transition,
}

-- What each target asks of the task that moves there.
abbrev pub Asked : TaskStatus → ChildTask → Option Bool → Option Bool → Type 0
Asked TaskStatus.pending task vp vr = false ≡ true
Asked TaskStatus.ready task vp vr =
    ((task.status ≡ TaskStatus.pending) ⊎ (task.status ≡ TaskStatus.blocked))
    ⊎ ((task.status ≡ TaskStatus.failed) × (task.attempt < task.max_attempts))
Asked TaskStatus.running task vp vr = task.status ≡ TaskStatus.ready
Asked TaskStatus.passed task vp vr =
    (task.status ≡ TaskStatus.running) × ((vp ≡ some true) ⊎ (vr ≡ some true))
Asked TaskStatus.failed task vp vr =
    (task.status ≡ TaskStatus.running) × ((vp ≡ some false) ⊎ (vr ≡ some false))
Asked TaskStatus.blocked task vp vr =
    (task.status ≡ TaskStatus.pending)
    ⊎ (task.status ≡ TaskStatus.ready)
    ⊎ (task.status ≡ TaskStatus.running)
Asked TaskStatus.needs_human task vp vr =
    (task.status ≡ TaskStatus.failed) × (task.max_attempts ≤ task.attempt)

-- The attempt that a move starts.
abbrev pub started : TaskStatus → ℕ
started TaskStatus.running = 1
started _ = 0

accepted_inv :
    (task : ChildTask) (target : TaskStatus) (vp vr : Option Bool) (task' : ChildTask)
    → transition_task task target vp vr ≡ (ok tt, task')
    → Asked target task vp vr
      × (task' ≡ record task { status = target; attempt = task.attempt + started target })
unfolding transition_task check_move can_retry
accepted_inv task target vp vr task' h = elim target [
  | TaskStatus.pending ↦ ground arith
  | TaskStatus.ready ↦ ground arith
  | TaskStatus.running ↦ ground arith
  | TaskStatus.passed ↦ ground arith
  | TaskStatus.failed ↦ ground arith
  | TaskStatus.blocked ↦ ground arith
  | TaskStatus.needs_human ↦ ground arith
]

accepted_if :
    (task : ChildTask) (target : TaskStatus) (vp vr : Option Bool) (task' : ChildTask)
    → Asked target task vp vr
      × (task' ≡ record task { status = target; attempt = task.attempt + started target })
    → transition_task task target vp vr ≡ (ok tt, task')
unfolding transition_task check_move can_retry
accepted_if task target vp vr task' h = elim target [
  | TaskStatus.pending ↦ ground arith
  | TaskStatus.ready ↦ ground arith
  | TaskStatus.running ↦ ground arith
  | TaskStatus.passed ↦ ground arith
  | TaskStatus.failed ↦ ground arith
  | TaskStatus.blocked ↦ ground arith
  | TaskStatus.needs_human ↦ ground arith
]

-- `transition_task` succeeds exactly when the matrix, the verification arguments and the retry budget
-- permit the move; the task then differs in its status alone, and in one more attempt when it starts.
pub transition_task_iff :
    (task : ChildTask) (target : TaskStatus) (vp vr : Option Bool) (task' : ChildTask)
    → (transition_task task target vp vr ≡ (ok tt, task')) ↔ (
        Asked target task vp vr
        × (task' ≡ record task { status = target; attempt = task.attempt + started target }))
transition_task_iff task target vp vr task' =
    (accepted_inv task target vp vr task', accepted_if task target vp vr task')

-- A transition that raises leaves the task as it was, although the attempt is counted before the
-- last checks.
refused_transition_keeps_task :
    (task : ChildTask) (target : TaskStatus) (vp vr : Option Bool) (e : TransitionError)
    → (transition_task task target vp vr).0 ≡ err e
    → (transition_task task target vp vr).1 ≡ task
unfolding transition_task check_move can_retry
refused_transition_keeps_task task target vp vr e h = ground arith

-- `transition_run` succeeds exactly on the edges of the run matrix, to PASSED only with the
-- verification's PASS, and changes the status and the timestamp.
pub transition_run_iff :
    (now : String) (state : RunState) (target : RunStatus) (vp : Option Bool) (state' : RunState)
    → (transition_run now state target vp ≡ (ok tt, state')) ↔ (
        (run_allowed state.status target ≡ true)
        × ((target ≢ RunStatus.passed) ⊎ (vp ≡ some true))
        × (state' ≡ record state { status = target; updated_at = now }))
unfolding transition_run touch
transition_run_iff now state target vp state' = elim target [
  | RunStatus.created ↦ ground arith
  | RunStatus.planned ↦ ground arith
  | RunStatus.running ↦ ground arith
  | RunStatus.passed ↦ ground arith
  | RunStatus.failed ↦ ground arith
  | RunStatus.needs_human ↦ ground arith
]

-- The cap after the human-authorized transition: the one it is given, or the one the task had.
abbrev pub cap_after : Option ℕ → ℕ → ℕ
cap_after none before = before
cap_after (some limit) before = limit

human_move :
    (task : ChildTask) (target : TaskStatus) (limit : Option ℕ) (task' : ChildTask)
    → (apply_human_authorized_task_transition task target limit ≡ (ok tt, task')) ↔ (
        (task.status ≡ TaskStatus.needs_human)
        × ((target ≡ TaskStatus.ready) ⊎ (target ≡ TaskStatus.failed))
        × (task'
            ≡ record task { status = target; max_attempts = cap_after limit task.max_attempts }))
unfolding apply_human_authorized_task_transition
human_move task target none task' = (λ h. ground arith, λ h. ground arith)
human_move task target (some limit) task' = (λ h. ground arith, λ h. ground arith)

-- A task in NEEDS_HUMAN is out of reach of `transition_task`. The human-authorized transition succeeds
-- exactly from NEEDS_HUMAN to READY or FAILED, and the task that it leaves differs in its status, which
-- is the target, and in its cap of attempts, which is the given limit if there is one.
pub only_a_human_leaves_needs_human :
    (task : ChildTask) (target : TaskStatus) (vp vr : Option Bool) (limit : Option ℕ)
    (task' : ChildTask)
    → ((task.status ≢ TaskStatus.needs_human)
        ⊎ (transition_task task target vp vr ≡ (err TransitionError.not_allowed, task)))
      × ((apply_human_authorized_task_transition task target limit ≡ (ok tt, task')) ↔ (
          (task.status ≡ TaskStatus.needs_human)
          × ((target ≡ TaskStatus.ready) ⊎ (target ≡ TaskStatus.failed))
          × (task'
              ≡ record task { status = target; max_attempts = cap_after limit task.max_attempts })))
unfolding transition_task
only_a_human_leaves_needs_human task target vp vr limit task' = (
  elim task.status [
    | TaskStatus.pending ↦ ground arith
    | TaskStatus.ready ↦ ground arith
    | TaskStatus.running ↦ ground arith
    | TaskStatus.passed ↦ ground arith
    | TaskStatus.failed ↦ ground arith
    | TaskStatus.blocked ↦ ground arith
    | TaskStatus.needs_human ↦ ground arith
  ],
  human_move task target limit task',
)
