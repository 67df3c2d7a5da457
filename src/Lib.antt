-- ===== src/Lib.antt =====
-- FS-ASM runtime: a model of the deterministic core of fsasm-first/src/fsasm.
--
-- The program drives a run through a plan of child tasks. The task compiler makes the plan from the
-- proposal of a planner, within the limits that a human approved. A run is one snapshot (`RunState`):
-- its status, the plan with the task register, the active task, three lists of task ids and the open
-- Human Gate. The Domain Core (`apply_event`) alone changes it, one event at a time. The scheduler
-- only reads it and names the next task. The state repository loads the snapshot, applies an event
-- and commits the result under the next revision, over the persistence layer that keeps one directory
-- for each run. The driver (`run_plan`) loops: it asks the scheduler, starts the task, has the stub
-- execute and verify it, and commits what that means, one event after the other. The executor works on
-- one attempt: it asks a model, and has the Tool Broker do what the model calls for. Beside that stand
-- the imperative transitions of the milestone workflows, and three deciders that change no snapshot:
-- recovery of an interrupted attempt, the retry classifier and the model router.
--
-- Files:
-- - Models: fsasm-first/src/fsasm/models.py. Status has the enumerations, Task the tasks and plans,
--   Run the snapshot, Ids the identifiers, Invariants the validators of `RunState`, which run whenever
--   a snapshot is read back.
-- - Domain: fsasm-first/src/fsasm/domain.py. Matrix has the transition matrices, Events the events and
--   errors, Register the lookups and writes of the task register, Apply one function for each branch of
--   `_apply` and `apply_event`. Effect is the specification: a relation with one constructor for each
--   way an event can take effect, which spells out every field that is written; Effect/Inversion and Effect/Agrees, with Refinement, relate it to
--   the code. Tasks, Frame, Status, Authority, Budget, Gate and Coherent are about its consequences.
-- - Scheduler: fsasm-first/src/fsasm/scheduler.py. Order has the sort key and the sort, Query the
--   query, Sound and Activates what an answer means.
-- - Persistence: fsasm-first/src/fsasm/persistence.py. Identifier and Accepted are about
--   `_validate_identifier`, Disk has the run directories and the write that fails, Snapshot the
--   operations on the snapshot. Goal and Restored are about the constructor of `RunState` in
--   fsasm-first/src/fsasm/models.py, which a read snapshot passes with its plan.
-- - Repository: fsasm-first/src/fsasm/state_repository.py (Commit) and runtime_lifecycle.py
--   (Lifecycle); Laws, Written, Storable, Revisions and Recovery are about them.
-- - Transitions, Recovery, Router, Retry: the files of these names under fsasm-first/src/fsasm.
-- - Runtime: fsasm-first/src/fsasm/runtime.py. Weight measures the work that a plan has left, Step is
--   about one committed event, Round and Attempt about one turn of the loop, Query about the scheduler's
--   answers between turns, Ends about the loop.
-- - PlanCheck: the validators of `Plan` in fsasm-first/src/fsasm/models.py. Graph says what a cycle is,
--   Colors and Search are about the depth-first search, Accepted about the plans that pass,
--   Progress about the scheduler on them, Stable about a plan after a write to one of its tasks.
-- - Compiler: fsasm-first/src/fsasm/task_compiler.py. Ids is about the generated ids, Compiled about the
--   loop over the proposals, Graph about the dependencies of its tasks, Accepted about `compile_plan`,
--   Run about the run of a compiled plan.
-- - Executor: fsasm-first/src/fsasm/executor_loop.py, with the types of model_types.py in Types and
--   the values around the loop in Parts; Context has the context of an attempt, the interface of the
--   Context Builder and the opening messages. Turn is about one iteration, Ends about the budgets,
--   Effects about what an attempt can do to the world. Scripted has the scripted backend of gateway.py, Exhausted an attempt on it. The model gateway,
--   the Tool Broker and the Context Builder are records of operations on a type of worlds.
-- - Examples: a sample run, and the theorems at its states.
-- - Prelude: tests on numbers, lists, texts and results.
--
-- How the code corresponds to the model: an operation that raises returns a `Result`; `apply_event`
-- works on a deep copy, so a rejected event returns an error and no state. An operation that writes
-- returns the disk that it leaves beside its result. An attribute of a task that is changed through
-- its alias in the plan is an update of the first task with that id. A list sort is an insertion sort
-- by the same key; the set of a list of ids is the list itself. The driver's loop recurses on the
-- iterations that are left, as the code counts them. Every recursion is structural; the
-- decimal digits of a number `n` are computed with fuel `n + 1`, and each digit divides it by ten. The
-- search for a cycle has the number of tasks as fuel, since each level of it visits one more task. The
-- loop of the executor has fuel; a cap on model calls or agent steps and one more is enough.
--
-- Not part of the model: the wording of messages; JSON and the field types of pydantic, which are the
-- record `Codec` with the law that a written value reads back; Unicode case mapping, a parameter of
-- the router; the clock, a parameter of `touch`; `uuid4`, a parameter of `generate_run_id`; symbolic
-- links and directory listings; evidence files and the run log; the operations of the tool broker, the
-- verifier, what the Context Builder selects, planners, adapters, workflows and the command line.
mod Prelude
pub mod Models
pub mod Domain
pub mod Scheduler
pub mod Persistence
pub mod Repository
pub mod Transitions
pub mod Recovery
pub mod Router
pub mod Retry
pub mod Runtime
pub mod PlanCheck
pub mod Compiler
pub mod Executor
mod Examples
