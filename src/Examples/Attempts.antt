-- ===== src/Examples/Attempts.antt =====
-- The theorems on one attempt of the executor (fsasm-first/src/fsasm/executor_loop.py), with a scripted
-- model and a sandbox that keeps the paths that were written.
use fsasm_training_lab.Prelude.{
  String, ◌==◌, ◌≡◌, ◌↔◌, refl, Bool, true, false, Option, none, some, List, [], ◌∷◌, All, contains,
  arith, inl, if◌then◌else◌,
}
use fsasm_training_lab.Models.{TaskStatus, ChildTask, operation_id_for, decimal}
use fsasm_training_lab.Router.{ModelCallBudget}
use fsasm_training_lab.Retry.{ToolObservation, ToolOperationKind, policy_blocked, completed}
use fsasm_training_lab.Executor.{
  Gateway, Broker, AttemptReport, ModelUsage, ModelResult, ModelResponse, tool_call, final_response,
  invalid_response, ToolCall, Argument, other, blocked_observation, run, record_of, run_loop,
  iterate, would_exceed, call_model, called, accumulate_usage, on_result, on_response, on_tool_call,
  on_invalid, allowed_tool_names, dispatch_tool, after_tool, op_id, observation_summary, text_of,
  TaskContext, ContextBuilder,
}
use fsasm_training_lab.Executor.Turn.{IsWithinBudget, has_blocked}
use fsasm_training_lab.Executor.Ends.{run_ends}
use fsasm_training_lab.Executor.Effects.{IsKept, run_effects_allowed}
use fsasm_training_lab.Executor.Scripted.{
  Scheduled, Bench, scripted_gateway, bench_broker, bench_builder,
}
use fsasm_training_lab.Executor.Exhausted.{scripted_run_ends}
use fsasm_training_lab.Examples.Runs.{task_one, working_run}

record Sandbox : Type 0 where
  script : List ModelResponse
  written : List String

abbrev no_usage : ModelUsage
no_usage = record {
  prompt_tokens = none;
  completion_tokens = none;
  total_tokens = none;
  cost = none;
  duration_ms = none;
}

abbrev answer : ModelResponse → ModelResult
answer response = record {
  response = response;
  usage = no_usage;
  error = none;
  backend = "scripted";
}

abbrev next_answer : List ModelResponse → List String → ModelResult × Sandbox
next_answer [] written = (
  answer (invalid_response "" "scripted backend exhausted"),
  record { script = []; written = written },
)
next_answer (response ∷ script) written =
    (answer response, record { script = script; written = written })

abbrev scripted : Gateway Sandbox
scripted = record { generate = λ request env. next_answer env.script env.written }

abbrev done : ToolOperationKind → ToolObservation
done kind = record (blocked_observation "op" kind "") { is_done = true; blocked = false }

abbrev write : String → Bool → Sandbox → ToolObservation × Sandbox
write path false env = (blocked_observation "op" ToolOperationKind.apply_patch "out of scope", env)
write path true env =
    (done ToolOperationKind.apply_patch, record env { written = path ∷ env.written })

-- It writes only what the task allows, and reads nothing.
abbrev sandbox_broker : Broker Sandbox
sandbox_broker = record {
  read_file = λ run task attempt step path allowed env. (done ToolOperationKind.read_file, env);
  apply_patch =
      λ run task attempt step path content allowed env. write path (contains allowed path) env;
  search_code =
      λ run task attempt step needle allowed pattern env. (done ToolOperationKind.search_code, env);
  list_files =
      λ run task attempt step pattern allowed env. (done ToolOperationKind.list_files, env);
  run_checks = λ run task attempt step kind args env. (done ToolOperationKind.run_checks, env);
}

abbrev working : ChildTask
working = task_one TaskStatus.running 1 []

abbrev arguments : String → Option Argument
arguments key = if key == "path" then some (other "src/a.py") else none

abbrev patch : ToolCall
patch = record { tool_call_id = "c1"; name = "apply_patch"; arguments = arguments; json = "" }

abbrev five_calls : ModelCallBudget
five_calls = record {
  max_model_calls = some 5;
  max_tool_calls = some 2;
  max_agent_steps = none;
  max_tokens = none;
  max_cost = none;
  max_time_ms = none;
}

-- It reads no file.
abbrev context : ChildTask → Option (List String) → String → TaskContext
context task observed failure = record {
  run_id = "r";
  task_id = task.task_id;
  attempt = task.attempt;
  objective = task.title;
  acceptance_criteria = [];
  constraints = task.constraints;
  allowed_files = task.allowed_files;
  allowed_tools = task.allowed_tools;
  fragments = [];
  prior_observations = [];
  prior_verification = failure;
  context_budget_chars = 8192;
  used_chars = 0;
}

abbrev plain_builder : ContextBuilder Sandbox
plain_builder = record {
  build = λ state observed failure env. (context working observed failure, env);
}

-- One patch, one malformed answer, and the request to verify.
abbrev at_start : Sandbox
at_start = record {
  script = tool_call patch ∷ invalid_response "{" "no JSON" ∷ final_response "written" ∷ [];
  written = [];
}

run_ends_example :
    (r : AttemptReport) × (after : Sandbox) × (run scripted sandbox_broker five_calls 2 "r" working
        1 plain_builder working_run none "" 6 at_start
      ≡ some (r, after))
    × IsWithinBudget five_calls r.usage
    × ((r.outcome.reason ≡ policy_blocked) ↔ (has_blocked r.outcome.observations ≡ true))
run_ends_example =
    run_ends scripted sandbox_broker five_calls 2 "r" working 1 5 plain_builder working_run none ""
      6 at_start (inl refl) (omega arith)

abbrev InScope : Sandbox → Type 0
InScope env = All (λ (path : String). contains working.allowed_files path ≡ true) env.written

write-InScope :
    (path : String) (b : Bool) (env : Sandbox)
    → contains working.allowed_files path ≡ b
    → InScope env
    → InScope (write path b env).1
write-InScope path true env h p = (h, p)
write-InScope path false env h p = p

next-InScope :
    (script : List ModelResponse) (written : List String)
    → All (λ (path : String). contains working.allowed_files path ≡ true) written
    → InScope (next_answer script written).1
next-InScope [] written p = p
next-InScope (response ∷ script) written p = p

sandbox-IsKept : IsKept scripted sandbox_broker "r" working 1 InScope plain_builder working_run
sandbox-IsKept = record {
  context = λ observed failure env p. p;
  model = λ request env p. next-InScope env.script env.written p;
  read_file = λ a step path env p. p;
  apply_patch = λ a step path content env p.
      write-InScope path (contains working.allowed_files path) env refl p;
  search_code = λ a step needle pattern env p. p;
  list_files = λ a step pattern env p. p;
  run_checks = λ a step kind args env p. p;
}

abbrev verified_request : AttemptReport
verified_request = record {
  outcome = record {
    reason = completed;
    observations = done ToolOperationKind.apply_patch ∷ [];
    transport_error = none;
  };
  usage = record {
    model_calls = 3;
    tool_calls = 1;
    agent_steps = 3;
    tokens = 0;
    cost = 0;
    elapsed_ms = 0;
  };
  steps =
      record_of 1 true true "tool:apply_patch" (some (done ToolOperationKind.apply_patch))
      ∷ record_of 2 true false "invalid" none
      ∷ record_of 3 true false "final" none
      ∷ [];
  final_content = "written";
  escalation = none;
  backend = "scripted";
}

abbrev patched : Sandbox
patched = record { script = []; written = "src/a.py" ∷ [] }

-- The attempt, run.
ran :
    run scripted sandbox_broker five_calls 2 "r" working 1 plain_builder working_run none "" 6
      at_start
    ≡ some (verified_request, patched)
unfolding run run_loop iterate would_exceed call_model called accumulate_usage on_result on_response
    on_tool_call on_invalid allowed_tool_names dispatch_tool after_tool op_id observation_summary
    contains text_of operation_id_for decimal
ran = refl

run_effects_allowed_example : InScope patched
run_effects_allowed_example =
    run_effects_allowed scripted sandbox_broker five_calls 2 "r" working 1 plain_builder working_run
      none "" 6 at_start InScope verified_request patched sandbox-IsKept tt ran

abbrev no_caps : ModelCallBudget
no_caps = record five_calls { max_model_calls = none; max_tool_calls = none }

-- The script has one patch, and then nothing.
abbrev one_patch : Bench Sandbox
one_patch = record {
  backend = record {
    responses = Scheduled.response (tool_call patch) ∷ [];
    name = "scripted";
    calls = [];
    per_call_usage = none;
  };
  world = at_start;
}

abbrev parse_nothing : String → ModelResponse
parse_nothing raw = invalid_response raw "unparseable output"

scripted_run_ends_example :
    (r : AttemptReport) × (after : Bench Sandbox) × (run
        (scripted_gateway parse_nothing sandbox_broker)
        (bench_broker parse_nothing sandbox_broker)
        no_caps
        2
        "r"
        working
        1
        (bench_builder parse_nothing sandbox_broker plain_builder)
        working_run
        none
        ""
        4
        one_patch
      ≡ some (r, after))
scripted_run_ends_example =
    scripted_run_ends parse_nothing sandbox_broker no_caps 2 "r" working 1 plain_builder working_run
      none "" 4 one_patch (omega arith)
