-- ===== src/Compiler.antt =====
-- fsasm-first/src/fsasm/task_compiler.py, and its inputs of fsasm-first/src/fsasm/models.py: the boundary
-- that turns the proposal of a model into a plan of the runtime.
pub mod Ids
pub mod Compiled
pub mod Graph
pub mod Accepted
pub mod Run
use Prim.Native.String.{◌++◌}
use fsasm_training_lab.Prelude.{
  ℕ, zero, suc, min, String, ◌==◌, Bool, true, false, not, ◌&&◌, ◌||◌, Option, none, some, List, [],
  ◌∷◌, length, all, if◌then◌else◌, contains, ltb, leb, nat_eq, Result, ok, err, reject_if, ◌>>=◌,
  ◌>>◌,
}
use fsasm_training_lab.Models.{
  TaskStatus, VerificationType, schema, exists, count, custom, VerificationSpec, ChildTask, Plan,
  task_id_for, parent_id_for,
}
use fsasm_training_lab.PlanCheck.{PlanError, validate_plan}

-- A Python `int`: `negsuc n` is -(n + 1).
pub data ℤ : Type 0 where
  pos negsuc : ℕ → ℤ

pub record TaskProposal : Type 0 where
  pub title : String
  pub description : String
  pub dependencies : List ℤ
  pub verification_type : String
  pub verification_expected : String
  pub constraints : List String
  pub allowed_files : List String
  pub expected_evidence : List String

pub record PlannerProposal : Type 0 where
  pub tasks : List TaskProposal

pub record RunConstraints : Type 0 where
  pub allowed_files : List String
  pub allowed_tools : List String
  pub max_tasks : Option ℕ
  pub max_attempts_per_task : Option ℕ
  pub workspace_scope : List String

pub record GoalInput : Type 0 where
  pub goal : String
  pub run_id : Option String
  pub constraints : RunConstraints

-- `self.run_id or str(uuid4())`; the empty text is falsy.
unfoldable pub generate_run_id : String → GoalInput → String
generate_run_id uuid4 input = elim input.run_id [
  | none ↦ uuid4
  | some r ↦ if r == "" then uuid4 else r
]

pub data CompileError : Type 0 where
  empty_proposal plan_size_overflow duplicate_sequence invalid_dependency : CompileError
  privilege_extension unknown_verification_type : CompileError
  -- A `KeyError` at `task_id_map[dep_seq]`, and a plan that its validators refuse.
  no_such_sequence : CompileError
  plan_refused : PlanError → CompileError

abbrev pub default_max_attempts : ℕ
default_max_attempts = 3

-- `if not proposed: return True`, and `all(p in allowed_set for p in proposed)`
unfoldable pub subset : List String → List String → Bool
unfolding contains
subset [] allowed = true
subset (p ∷ ps) allowed = all (contains allowed) (p ∷ ps)

-- `VerificationType(value)`
unfoldable pub verification_type_of : String → Option VerificationType
verification_type_of value =
    if value == "schema"
    then some schema
    else if value == "exists"
    then some exists
    else if value == "count"
    then some count
    else if value == "custom"
    then some custom
    else none

unfoldable pub coerce_verification : TaskProposal → Result CompileError VerificationSpec
unfolding verification_type_of
coerce_verification proposal = elim (verification_type_of proposal.verification_type) [
  | none ↦ err unknown_verification_type
  | some type ↦ ok (record { type = type; expected = proposal.verification_expected })
]

-- `1 <= dep_seq < seq`
abbrev pub is_earlier : ℕ → ℤ → Bool
is_earlier seq (pos n) = leb 1 n && ltb n seq
is_earlier seq (negsuc n) = false

abbrev pub SequenceMap : Type 0
SequenceMap = ℕ → Option String

-- `task_id_map[seq] = task_id`
abbrev pub enter : ℕ → String → SequenceMap → SequenceMap
enter seq task_id ids n = if nat_eq n seq then some task_id else ids n

-- `task_id_map[dep_seq]`
abbrev pub id_at : SequenceMap → ℤ → Result CompileError String
id_at ids (negsuc n) = err no_such_sequence
id_at ids (pos n) = elim (ids n) [ none ↦ err no_such_sequence | some task_id ↦ ok task_id ]

unfoldable pub resolve : SequenceMap → ℕ → List ℤ → Result CompileError (List String)
resolve ids seq [] = ok []
resolve ids seq (dep_seq ∷ rest) = do
  reject_if (not (is_earlier seq dep_seq)) invalid_dependency
  task_id ← id_at ids dep_seq
  resolved ← resolve ids seq rest
  ok (task_id ∷ resolved)

abbrev pub capped_attempts : Option ℕ → ℕ
capped_attempts none = default_max_attempts
capped_attempts (some cap) = min default_max_attempts cap

unfoldable pub new_task :
    RunConstraints
    → (run_id : String) → ℕ
    → TaskProposal
    → List String
    → VerificationSpec
    → ChildTask
new_task constraints run_id seq proposal runtime_dependencies verification =
    let max_attempts = capped_attempts constraints.max_attempts_per_task in
    record {
      task_id = task_id_for run_id seq;
      parent_id = some (parent_id_for run_id);
      sequence = seq;
      title = proposal.title;
      description = proposal.description;
      status = TaskStatus.pending;
      dependencies = runtime_dependencies;
      constraints = proposal.constraints;
      allowed_files = proposal.allowed_files;
      allowed_tools = constraints.allowed_tools;
      verification = verification;
      expected_evidence = proposal.expected_evidence;
      attempt = 0;
      max_attempts = max_attempts;
      accepted_evidence_refs = [];
      budget = some (record {
        max_agent_steps = none;
        max_model_calls = none;
        max_tool_calls = none;
        max_attempts = some max_attempts;
      });
    }

-- The body of the loop, after the sequence is entered.
unfoldable pub compile_task :
    RunConstraints → String → SequenceMap → ℕ → TaskProposal → Result CompileError ChildTask
unfolding resolve subset coerce_verification new_task
compile_task constraints run_id ids seq proposal = do
  runtime_dependencies ← resolve ids seq proposal.dependencies
  reject_if (not (subset proposal.allowed_files constraints.allowed_files)) privilege_extension
  verification ← coerce_verification proposal
  ok (new_task constraints run_id seq proposal runtime_dependencies verification)

-- `seq in seen_sequences`
abbrev pub is_seen : List ℕ → ℕ → Bool
is_seen [] seq = false
is_seen (n ∷ seen) seq = nat_eq n seq || is_seen seen seq

-- `for idx, task_proposal in enumerate(proposal.tasks, start=1)`
unfoldable pub compile_tasks :
    RunConstraints
    → String
    → SequenceMap
    → List ℕ
    → ℕ
    → List TaskProposal
    → Result CompileError (List ChildTask)
unfolding compile_task
compile_tasks constraints run_id ids seen seq [] = ok []
compile_tasks constraints run_id ids seen seq (proposal ∷ rest) =
    let entered = enter seq (task_id_for run_id seq) ids in
    do
      reject_if (is_seen seen seq) duplicate_sequence
      task ← compile_task constraints run_id entered seq proposal
      tasks ← compile_tasks constraints run_id entered (seq ∷ seen) (suc seq) rest
      ok (task ∷ tasks)

abbrev pub is_oversized : Option ℕ → ℕ → Bool
is_oversized none n = false
is_oversized (some max_tasks) n = ltb max_tasks n

abbrev pub no_tasks : List TaskProposal → Bool
no_tasks [] = true
no_tasks (_ ∷ _) = false

-- `Plan(…)` runs the validators of the plan.
abbrev pub built : Plan → Result PlanError Unit → Result CompileError Plan
built plan (ok _) = ok plan
built plan (err e) = err (plan_refused e)

abbrev pub new_plan : String → String → List ChildTask → Plan
new_plan run_id goal tasks = record {
  plan_id = "plan-" ++ run_id;
  run_id = run_id;
  goal = goal;
  tasks = tasks;
}

unfoldable pub compile_plan : String → GoalInput → PlannerProposal → Result CompileError Plan
unfolding generate_run_id compile_tasks
compile_plan uuid4 goal_input proposal =
    let run_id = generate_run_id uuid4 goal_input in
    let constraints = goal_input.constraints in
    do
      reject_if (no_tasks proposal.tasks) empty_proposal
      reject_if (is_oversized constraints.max_tasks (length proposal.tasks)) plan_size_overflow
      tasks ← compile_tasks constraints run_id (λ n. none) [] 1 proposal.tasks
      built (new_plan run_id goal_input.goal tasks)
          (validate_plan (new_plan run_id goal_input.goal tasks))
