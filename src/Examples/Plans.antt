-- ===== src/Examples/Plans.antt =====
-- The theorems on the validators of `Plan` and on the task compiler (models.py and task_compiler.py of
-- fsasm-first/src/fsasm) at a sample proposal, and a run of its plan.
use fsasm_training_lab.Prelude.{
  inl, inr, ◌≡◌, ◌↔◌, ◌⊎◌, refl, true, none, some, [], ◌∷◌, ok, err, arith, contains,
}
use fsasm_training_lab.Models.{
  TaskStatus, VerificationType, ChildTask, Plan, RunState, task_id_for, parent_id_for, decimal,
  validate_run_state,
}
use fsasm_training_lab.Domain.Register.{lookup_task}
use fsasm_training_lab.Persistence.Goal.{goal_not_blank, strip, trim_start, trim_end}
use fsasm_training_lab.Persistence.Restored.{constructed, restored}
use fsasm_training_lab.Persistence.Identifier.{
  validate_identifier, rstrip, lstrip, stem, is_reserved,
}
use fsasm_training_lab.Persistence.Disk.{Disk}
use fsasm_training_lab.Persistence.Snapshot.{get_run_dir}
use fsasm_training_lab.Repository.Commit.{load}
use fsasm_training_lab.Runtime.{Session}
use fsasm_training_lab.Runtime.Ends.{Finishes}
use fsasm_training_lab.PlanCheck.{
  validate_plan, find_cycle, visit_roots, visit, visit_all, all_white, dependencies_of,
  dependencies_exist, dependency_cycle,
}
use fsasm_training_lab.PlanCheck.Graph.{HasCycle}
use fsasm_training_lab.PlanCheck.Accepted.{IsWellFormed, validate_plan_iff, search_returns}
use fsasm_training_lab.PlanCheck.Progress.{validated_plan_advances}
use fsasm_training_lab.Scheduler.Query.{schedule, chosen}
use fsasm_training_lab.Compiler.{
  pos, TaskProposal, CompileError, PlannerProposal, GoalInput, generate_run_id, compile_plan,
  compile_tasks, compile_task, resolve, subset, coerce_verification, verification_type_of, new_task,
  new_plan, privilege_extension, invalid_dependency,
}
use fsasm_training_lab.Compiler.Accepted.{
  IsAdmissible, IsRefused, IsCompiledPlan, compile_plan_iff, compile_plan-IsCompiledPlan,
}
use fsasm_training_lab.Compiler.Run.{planned_state, compiled_run_ends}
use fsasm_training_lab.Examples.Runs.{planned_run, task_one, task_two, plan_of}
use fsasm_training_lab.Examples.Domain.{two-Unique}
use fsasm_training_lab.Examples.Disk.{File, state_text, identity_codec}
use fsasm_training_lab.Examples.Driver.{calm}

abbrev first : ChildTask
first = task_one TaskStatus.pending 0 []

-- Each of its two tasks waits for the other.
abbrev tangled : Plan
tangled = plan_of (record first { dependencies = "TASK-r-2" ∷ [] })

tangled_refused : validate_plan tangled ≡ err dependency_cycle
unfolding validate_plan find_cycle visit_roots visit visit_all all_white dependencies_of
    dependencies_exist lookup_task contains
tangled_refused = refl

validate_plan_iff_example : (validate_plan (plan_of first) ≡ ok tt) ↔ IsWellFormed (plan_of first)
validate_plan_iff_example = validate_plan_iff (plan_of first)

search_returns_example :
    (validate_plan tangled ≡ ok tt)
    ⊎ ((validate_plan tangled ≡ err dependency_cycle) × HasCycle tangled.tasks)
unfolding contains
search_returns_example =
    search_returns tangled (λ e. cc)
      (two-Unique (record first { dependencies = "TASK-r-2" ∷ [] }) refl)
      ((refl, tt), ((refl, tt), tt))

plan_accepted : validate_plan (plan_of first) ≡ ok tt
unfolding validate_plan find_cycle visit_roots visit visit_all all_white dependencies_of
    dependencies_exist lookup_task contains
plan_accepted = refl

-- The second task waits for the first one, which is chosen.
validated_plan_advances_example : (u : ChildTask) × (schedule planned_run ≡ chosen u)
unfolding contains
validated_plan_advances_example =
    validated_plan_advances planned_run (plan_of first) task_two refl plan_accepted
      (refl, (λ h. cc), (λ h. cc), (λ h. cc)) ((λ h. inl refl), ((λ h. inl refl), tt))
      (inr (inl refl)) refl

abbrev writing : TaskProposal
writing = record {
  title = "First";
  description = "Write the file";
  dependencies = [];
  verification_type = "exists";
  verification_expected = "src/a.py";
  constraints = [];
  allowed_files = "src/a.py" ∷ [];
  expected_evidence = [];
}

abbrev checking : TaskProposal
checking = record writing {
  title = "Second";
  dependencies = pos 1 ∷ [];
  verification_type = "count";
  allowed_files = [];
}

abbrev intake : GoalInput
intake = record {
  goal = "Two files";
  run_id = some "r";
  constraints = record {
    allowed_files = "src/a.py" ∷ "src/b.py" ∷ [];
    allowed_tools = "apply_patch" ∷ [];
    max_tasks = some 2;
    max_attempts_per_task = some 2;
    workspace_scope = [];
  };
}

abbrev two_steps : PlannerProposal
two_steps = record { tasks = writing ∷ checking ∷ [] }

-- It asks for a file that the intake does not approve.
abbrev greedy : PlannerProposal
greedy = record { tasks = record writing { allowed_files = "src/*" ∷ [] } ∷ [] }

abbrev forward : PlannerProposal
forward = record { tasks = checking ∷ writing ∷ [] }

greedy_refused : compile_plan "u" intake greedy ≡ err privilege_extension
unfolding compile_plan generate_run_id compile_tasks compile_task resolve subset contains
greedy_refused = refl

forward_refused : compile_plan "u" intake forward ≡ err invalid_dependency
unfolding compile_plan generate_run_id compile_tasks compile_task resolve
forward_refused = refl

-- What both tasks are given.
abbrev granted : ChildTask → ChildTask
granted t = record t {
  max_attempts = 2;
  budget = some (record {
    max_agent_steps = none;
    max_model_calls = none;
    max_tool_calls = none;
    max_attempts = some 2;
  });
}

abbrev compiled : Plan
compiled = new_plan "r" "Two files" (
    granted first
    ∷ granted (record task_two {
      allowed_files = [];
      verification = record { type = VerificationType.count; expected = "src/a.py" };
    })
    ∷ [])

is_compiled : compile_plan "u" intake two_steps ≡ ok compiled
unfolding compile_plan generate_run_id compile_tasks compile_task resolve subset contains
    coerce_verification verification_type_of new_task task_id_for parent_id_for decimal
    validate_plan find_cycle visit_roots visit visit_all all_white dependencies_of
    dependencies_exist lookup_task
is_compiled = refl

compile_plan_iff_example :
    (((plan : Plan) × (compile_plan "u" intake greedy ≡ ok plan))
      ↔ IsAdmissible intake.constraints greedy.tasks)
    × ((e : CompileError)
        → compile_plan "u" intake greedy ≡ err e
        → IsRefused intake.constraints greedy.tasks e)
compile_plan_iff_example = compile_plan_iff "u" intake greedy

compile_plan-IsCompiledPlan_example : IsCompiledPlan "u" intake two_steps compiled
compile_plan-IsCompiledPlan_example =
    compile_plan-IsCompiledPlan "u" intake two_steps compiled is_compiled

abbrev saved : RunState
saved = planned_state "t0" "t1" "Two files" 1 compiled

abbrev saved_disk : Disk File
saved_disk run_id =
    some (record { marker = true; state_file = some (state_text saved); plan_file = none })

abbrev saved_session : Session File
saved_session = record { disk = saved_disk; events = [] }

saved_loads : load identity_codec "r" saved_disk ≡ ok saved
unfolding load get_run_dir validate_identifier rstrip lstrip is_reserved stem validate_run_state
    contains restored constructed goal_not_blank strip trim_start trim_end validate_plan find_cycle
    visit_roots visit visit_all all_white dependencies_of dependencies_exist lookup_task
saved_loads = refl

compiled_run_ends_example : Finishes identity_codec calm 1000 saved saved_session
compiled_run_ends_example =
    compiled_run_ends identity_codec calm saved_session "u" intake two_steps compiled "t0" "t1" 1
      (λ k. refl) is_compiled (omega arith) saved_loads
