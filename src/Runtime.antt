-- ===== src/Runtime.antt =====
-- fsasm-first/src/fsasm/runtime.py: the driver that takes a whole plan to its end on controlled
-- results. `World` is what the driver is given from outside: the stub's `should_pass`, and for each
-- event the clock's reading and the write that fails at its commit. An `M A` is a piece of the driver:
-- it changes the disk and the list of events, and returns or raises.
pub mod Weight
pub mod Step
pub mod Round
pub mod Attempt
pub mod Query
pub mod Ends
use Prim.Native.String.{◌++◌}
use mathlib.Core.List as Lists
use fsasm_training_lab.Prelude.{
  ℕ, zero, suc, String, ◌==◌, Bool, true, false, not, ◌&&◌, Option, none, some, List, [], ◌∷◌,
  length, if◌then◌else◌, Result, ok, err,
}
use fsasm_training_lab.Models.{
  TaskStatus, RunStatus, HumanDecisionAction, task_status_eq, run_status_eq, ChildTask, RunState,
  can_retry, decimal,
}
use fsasm_training_lab.Domain.Events.{
  DomainEvent, run_started, task_readied, task_activated, evidence_accepted,
  task_verification_passed, task_verification_failed, task_retried, task_escalated,
  human_gate_decision_applied,
}
use fsasm_training_lab.Domain.Register.{tasks_of, lookup_task}
use fsasm_training_lab.Scheduler.Query.{
  ScheduleOutcome, ScheduleResult, schedule, next_task, all_complete, blocked, waiting_on_gate,
  busy,
}
use fsasm_training_lab.Persistence.Disk.{Codec, Disk, Fault, PersistenceError, Answer}
use fsasm_training_lab.Repository.Commit.{advance}

pub record World : Type 0 where
  pub should_pass : String → ℕ → Bool
  pub clock : ℕ → String
  pub fault : ℕ → Fault

-- What a run of the driver raises: an error of the repository, `RuntimeTerminated` without a plan or
-- with the iterations used up, and the `StopIteration` of a task that is not in the plan.
pub data RuntimeError : Type 0 where
  repository_error : PersistenceError → RuntimeError
  no_plan exceeded_iterations no_such_task : RuntimeError

pub data OutcomeReason : Type 0 where
  tasks_complete run_busy waiting_on_human plan_blocked no_eligible_task retry_exhausted :
      OutcomeReason
  initial_status : RunStatus → OutcomeReason

-- The field `events` of the outcome keeps its default, the empty list.
pub record RuntimeOutcome : Type 0 where
  pub state : RunState
  pub status : RunStatus
  pub reason : OutcomeReason
  pub events : List DomainEvent

abbrev pub outcome : RunState → OutcomeReason → RuntimeOutcome
outcome state reason = record { state = state; status = state.status; reason = reason; events = [] }

-- What one turn of the loop leads to.
pub data Turn : Type 0 where
  again : RunState → Turn
  finished : RuntimeOutcome → Turn

pub record Session (Text : Type 0) : Type 0 where
  pub disk : Disk Text
  pub events : List DomainEvent

abbrev pub execute : World → String → ℕ → String
execute world task_id attempt = if world.should_pass task_id attempt then "PASS" else "FAIL"

unfoldable pub stub_evidence_id : String → String → ℕ → String
stub_evidence_id run_id task_id attempt =
    "evidence-" ++ run_id ++ "-" ++ task_id ++ "-attempt-" ++ decimal attempt ++ "-stub"

abbrev pub verify : String → String → ℕ → String → Bool × List String
verify run_id task_id attempt claim =
    (claim == "PASS", if claim == "PASS" then stub_evidence_id run_id task_id attempt ∷ [] else [])

abbrev pub is_accepted : Bool × List String → Bool
is_accepted (passed, []) = false
is_accepted (passed, _ ∷ _) = passed

module _ (c : Codec) (world : World) where
  open c use {Text}

  abbrev pub M : Type 0 → Type 0
  M A = Session Text → Result RuntimeError A × Session Text

  abbrev pub then_with :
      {A B : Type 0}
      → Result RuntimeError A × Session Text
      → (A → M B)
      → Result RuntimeError B × Session Text
  then_with (ok a, session) next = next a session
  then_with (err e, session) next = (err e, session)

  infixl 5 ◌>>=◌
  abbrev pub ◌>>=◌ : {A B : Type 0} → M A → (A → M B) → M B
  ◌>>=◌ m f session = then_with (m session) f

  abbrev pub give : {A : Type 0} → A → M A
  give a session = (ok a, session)

  abbrev pub raise : {A : Type 0} → RuntimeError → M A
  raise e session = (err e, session)

  abbrev pub as_runtime : Answer RunState → Result RuntimeError RunState
  as_runtime (ok state) = ok state
  as_runtime (err e) = err (repository_error e)

  -- `_step`: the event is noted before it is applied.
  unfoldable pub step : String → ℕ → DomainEvent → M RunState
  step run_id expected event session =
      let n = length session.events in
      let (answer, disk) =
        advance c (world.fault n) (world.clock n) run_id expected event session.disk in
      (as_runtime answer, record { disk = disk; events = Lists.◌++◌ session.events (event ∷ []) })

  abbrev pub or_stop : Option ChildTask → M ChildTask
  or_stop none = raise no_such_task
  or_stop (some task) = give task

  unfoldable pub find_task_in : RunState → String → M ChildTask
  find_task_in state task_id = or_stop (lookup_task task_id (tasks_of state))

  -- A PENDING candidate is made READY first.
  unfoldable pub ready_if_pending : String → RunState → String → ChildTask → M RunState
  ready_if_pending run_id current task_id candidate =
      if task_status_eq candidate.status TaskStatus.pending
      then step run_id current.revision (task_readied run_id task_id)
      else give current

  unfoldable pub record_pass : String → RunState → String → List String → M Turn
  record_pass run_id current task_id refs = do
    accepted ← step run_id current.revision (evidence_accepted run_id task_id refs)
    passed ← step run_id accepted.revision (task_verification_passed run_id task_id true)
    give (again passed)

  unfoldable pub retry_or_escalate : String → RunState → String → ChildTask → M Turn
  retry_or_escalate run_id current task_id task =
      if can_retry task
      then (do
        retried ← step run_id current.revision (task_retried run_id task_id)
        give (again retried))
      else (do
        escalated ← step run_id current.revision (task_escalated run_id task_id task.attempt)
        give (finished (outcome escalated retry_exhausted)))

  unfoldable pub record_fail : String → RunState → String → M Turn
  unfolding retry_or_escalate find_task_in
  record_fail run_id current task_id = do
    failed ← step run_id current.revision (task_verification_failed run_id task_id false)
    failed_task ← find_task_in failed task_id
    retry_or_escalate run_id failed task_id failed_task

  -- Execute and verify the attempt of the active task, and record the verdict.
  unfoldable pub attempt_task : String → RunState → String → ChildTask → M Turn
  unfolding record_pass record_fail
  attempt_task run_id current task_id active =
      let verdict = verify run_id task_id active.attempt (execute world task_id active.attempt) in
      if is_accepted verdict
      then record_pass run_id current task_id verdict.1
      else record_fail run_id current task_id

  unfoldable pub run_task : String → RunState → String → M Turn
  unfolding find_task_in ready_if_pending attempt_task
  run_task run_id current task_id = do
    candidate ← find_task_in current task_id
    readied ← ready_if_pending run_id current task_id candidate
    started ← step run_id readied.revision (task_activated run_id task_id)
    active ← find_task_in started task_id
    attempt_task run_id started task_id active

  unfoldable pub fail_run : String → RunState → OutcomeReason → M Turn
  fail_run run_id current reason = do
    failed ← step run_id current.revision (DomainEvent.run_failed run_id)
    give (finished (outcome failed reason))

  -- What the loop does with the scheduler's answer.
  unfoldable pub act_on : String → RunState → ScheduleResult → M Turn
  unfolding run_task fail_run
  act_on run_id current result = elim result.outcome [
    | all_complete ↦ give (finished (outcome current tasks_complete))
    | busy ↦ give (finished (outcome current run_busy))
    | waiting_on_gate ↦ give (finished (outcome current waiting_on_human))
    | blocked ↦ fail_run run_id current plan_blocked
    | next_task ↦ elim result.task [
      | none ↦ fail_run run_id current no_eligible_task
      | some task ↦ run_task run_id current task.task_id
    ]
  ]

  -- `for _ in range(max_iterations)`
  unfoldable pub drive : ℕ → String → RunState → M RuntimeOutcome
  unfolding act_on
  drive zero run_id current = raise exceeded_iterations
  drive (suc n) run_id current = do
    turn ← act_on run_id current (schedule current)
    elim turn [ finished o ↦ give o | again next ↦ drive n run_id next ]

  unfoldable pub start_if_planned : RunState → M RunState
  start_if_planned state =
      if run_status_eq state.status RunStatus.planned
      then step state.run_id state.revision (run_started state.run_id)
      else give state

  unfoldable pub run_plan : ℕ → RunState → M RuntimeOutcome
  unfolding start_if_planned drive
  run_plan max_iterations state = do
    current ← start_if_planned state
    if not (run_status_eq current.status RunStatus.running)
        then give (outcome current (initial_status current.status))
        else elim current.plan [
          | none ↦ raise no_plan
          | some _ ↦ drive max_iterations state.run_id current
        ]

  unfoldable pub apply_human_gate :
      RunState
      → (gate_id task_id decision_id : String) → ℕ
      → HumanDecisionAction
      → Option ℕ
      → M RunState
  apply_human_gate state gate_id task_id decision_id attempt action new_max_attempts =
      step state.run_id state.revision (
        human_gate_decision_applied state.run_id task_id gate_id decision_id action attempt
          new_max_attempts)
