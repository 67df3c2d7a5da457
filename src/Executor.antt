-- ===== src/Executor.antt =====
-- fsasm-first/src/fsasm/executor_loop.py: one attempt of a task, from the opening messages to a terminal
-- outcome. `Locals` has the local variables of `run` between two iterations, and the world.
mod Types
mod Parts
mod Context
unfoldable pub use Types.*
unfoldable pub use Parts.*
unfoldable pub use Context.*
pub mod Turn
pub mod Ends
pub mod Effects
pub mod Scripted
pub mod Exhausted
use Prim.Native.String.{◌++◌}
use fsasm_training_lab.Prelude.{
  ℕ, zero, suc, ◌+◌, String, ◌==◌, Bool, true, false, not, ◌&&◌, ◌||◌, Option, none, some, List, [],
  ◌∷◌, filter, if◌then◌else◌, contains, ltb,
}
use mathlib.Core.List as Lists
use fsasm_training_lab.Models.{ChildTask, RunState, operation_id_for}
use fsasm_training_lab.Router.{ModelCallBudget, EscalationRequest}
use fsasm_training_lab.Retry.{
  ToolObservation, ToolOperationKind, ModelErrorKind, ExecutorOutcomeReason, ExecutorAttemptOutcome,
  completed, escalation_requested, step_limit_reached, tool_error, policy_blocked, kind_value,
}

-- What one attempt is given: the gateway, the broker, the budget and the task.
module _ {Env : Type 0} (gateway : Gateway Env) (broker : Broker Env) (budget : ModelCallBudget)
    (max_invalid_reasks : ℕ) (run_id : String) (task : ChildTask) (attempt : ℕ) where
  -- The names of the tools that are declared to the model, and the only ones dispatched.
  unfoldable pub allowed_tool_names : List String
  unfolding contains
  allowed_tool_names = filter (contains declared_tools) task.allowed_tools

  unfoldable pub op_id : ℕ → String
  unfolding operation_id_for
  op_id step = operation_id_for run_id task.task_id attempt step

  abbrev pub dispatch_checks : ToolCall → ℕ → Option CheckKind → Env → ToolObservation × Env
  dispatch_checks call step none env = (
    blocked_observation (op_id step) ToolOperationKind.run_checks
        ("unknown check kind: " ++ str_arg call "kind" ""),
    env,
  )
  dispatch_checks call step (some kind) env =
      broker.run_checks run_id task.task_id attempt step kind (list_arg (call.arguments "args")) env

  unfoldable pub dispatch_tool : ToolCall → ℕ → Env → ToolObservation × Env
  unfolding op_id
  dispatch_tool call step env =
      if call.name == "read_file"
      then broker.read_file run_id task.task_id attempt step (str_arg call "path" "")
          task.allowed_files env
      else if call.name == "apply_patch"
      then broker.apply_patch run_id task.task_id attempt step (str_arg call "path" "")
          (str_arg call "new_content" "") task.allowed_files env
      else if call.name == "search_code"
      then broker.search_code run_id task.task_id attempt step (str_arg call "needle" "")
          task.allowed_files (str_arg call "pattern" "*") env
      else if call.name == "list_files"
      then broker.list_files run_id task.task_id attempt step (str_arg call "pattern" "*")
          task.allowed_files env
      else if call.name == "run_checks"
      then dispatch_checks call step (check_kind_of (str_arg call "kind" "")) env
      else (
        blocked_observation (op_id step) ToolOperationKind.list_files
            ("unknown tool: " ++ call.name),
        env,
      )

  -- `steps.append(…)`
  abbrev pub noted :
      Locals Env → Bool → Bool → String → Option ToolObservation → List ExecutorStepRecord
  noted l model_call called_tool kind observation =
      Lists.◌++◌ l.steps (record_of l.step model_call called_tool kind observation ∷ [])

  abbrev pub report :
      Locals Env
      → ExecutorOutcomeReason
      → List ExecutorStepRecord
      → String
      → Option EscalationRequest
      → Option ModelErrorKind
      → Progress Env
  report l reason steps final_content escalation transport_error =
      terminal
        (record {
          outcome = record {
            reason = reason;
            observations = l.observations;
            transport_error = transport_error;
          };
          usage = l.usage;
          steps = steps;
          final_content = final_content;
          escalation = escalation;
          backend = l.backend_name;
        })
        l.env

  abbrev pub observe : Locals Env → ToolObservation → Locals Env
  observe l obs = record l { observations = Lists.◌++◌ l.observations (obs ∷ []) }

  abbrev pub say : Locals Env → List ModelMessage → Locals Env
  say l said = record l { messages = Lists.◌++◌ l.messages said }

  abbrev pub policy_block : Locals Env → ToolObservation → Progress Env
  policy_block l obs =
      report (observe l obs) policy_blocked (noted l true true "tool_blocked" (some obs)) "" none
        none

  -- The observation of a dispatched tool.
  unfoldable pub after_tool : Locals Env → ToolCall → ToolObservation → Progress Env
  unfolding observation_summary
  after_tool l call obs =
      if obs.blocked
      then policy_block l obs
      else onward
          (record (say (observe l obs)
            (message tool (observation_summary obs) none (some call.tool_call_id) ∷ [])) {
              steps = noted l true true ("tool:" ++ kind_value obs.kind) (some obs);
            })

  unfoldable pub on_tool_call : Locals Env → ToolCall → Progress Env
  unfolding allowed_tool_names dispatch_tool after_tool op_id
  on_tool_call l call =
      if reaches_cap budget.max_tool_calls l.usage.tool_calls
      then report l step_limit_reached (noted l true false "tool_budget_exhausted" none) "" none
          none
      else if not (contains allowed_tool_names call.name)
      then policy_block l (
          blocked_observation (op_id l.step) ToolOperationKind.list_files
            ("tool not allowed for task: " ++ call.name))
      else let (obs, env) = dispatch_tool call l.step l.env in
        after_tool
          (record (say l (message assistant call.json (some call.tool_call_id) none ∷ [])) {
            usage = record l.usage { tool_calls = l.usage.tool_calls + 1 };
            env = env;
          })
          call obs

  -- The streak is never reset.
  unfoldable pub on_invalid : Locals Env → String → String → Progress Env
  on_invalid l raw reason =
      let steps = noted l true false "invalid" none in
      let streak = l.invalid_streak + 1 in
      if ltb max_invalid_reasks streak
      then report l tool_error steps "" none none
      else onward
          (record (say l (
            message assistant raw none none
            ∷ message user
                ("Your previous output was unparseable (" ++ reason
                  ++ "). Emit a valid tool call JSON, [VERIFY] <rationale>, or [ESCALATE ...].")
                none none
            ∷ [])) { invalid_streak = streak; steps = steps })

  unfoldable pub on_response : Locals Env → ModelResponse → Progress Env
  unfolding on_tool_call on_invalid
  on_response l (tool_call call) = on_tool_call l call
  on_response l (final_response content) =
      report l completed (noted l true false "final" none) content none none
  on_response l (escalation_request request) =
      report l escalation_requested (noted l true false ("escalation:" ++ request.kind) none) ""
        (some request) none
  on_response l (invalid_response raw reason) = on_invalid l raw reason

  unfoldable pub on_result : Locals Env → Option ModelErrorKind → ModelResponse → Progress Env
  unfolding on_response
  on_result l (some error) response =
      report l tool_error (noted l true false ("model_error:" ++ error_value error) none) "" none
        (some error)
  on_result l none response = on_response l response

  abbrev pub request_of : Locals Env → ModelRequest
  request_of l = record {
    run_id = run_id;
    task_id = task.task_id;
    attempt = attempt;
    step = l.step;
    messages = l.messages;
    tools = allowed_tool_names;
  }

  -- The locals after the model has answered.
  unfoldable pub called : Locals Env → ModelResult → Env → Locals Env
  unfolding accumulate_usage
  called l result env = record l {
    usage =
        accumulate_usage
          (record l.usage {
            model_calls = l.usage.model_calls + 1;
            agent_steps = l.usage.agent_steps + 1;
          })
          result.usage;
    backend_name = if result.backend == "" then l.backend_name else result.backend;
    env = env;
  }

  unfoldable pub call_model : Locals Env → Progress Env
  unfolding called on_result
  call_model l =
      let (result, env) = gateway.generate (request_of l) l.env in
      on_result (called l result env) result.error result.response

  -- The body of `while True`.
  unfoldable pub iterate : Locals Env → Progress Env
  unfolding would_exceed call_model
  iterate before =
      let l = record before { step = before.step + 1 } in
      if would_exceed l.usage budget
      then report l step_limit_reached (noted l false false "budget_exhausted" none) "" none none
      else if reaches_cap budget.max_agent_steps l.usage.agent_steps
      then report l step_limit_reached (noted l false false "step_limit" none) "" none none
      else call_model l

  -- `while True`, on fuel.
  unfoldable pub run_loop : ℕ → Locals Env → Option (AttemptReport × Env)
  unfolding iterate
  run_loop zero l = none
  run_loop (suc fuel) l = elim (iterate l) [
    | terminal report env ↦ some (report, env)
    | onward next ↦ run_loop fuel next
  ]

  -- `run`, where `task` is what `_find_task` returns: the context is built first, and the loop starts
  -- from its opening messages in the world that the reading of the files has left.
  unfoldable pub run :
      ContextBuilder Env
      → RunState
      → (prior_observations : Option (List String)) → (prior_verification : String) → (fuel : ℕ)
      → Env
      → Option (AttemptReport × Env)
  unfolding run_loop initial_messages
  run builder state prior_observations prior_verification fuel env =
      let (ctx, read) = builder.build state prior_observations prior_verification env in
      run_loop fuel (initial_locals (initial_messages ctx) read)
