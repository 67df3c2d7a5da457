-- ===== src/Executor/Types.antt =====
-- The types of fsasm-first/src/fsasm/model_types.py that the executor speaks to a model with, and the
-- parts that it is given: the gateway and the Tool Broker. `Env` is the state of the world behind them.
-- A cost is a whole number of the provider's units.
use fsasm_training_lab.Prelude.{
  ℕ, ◌+◌, String, ◌==◌, Bool, false, ◌||◌, Option, none, some, List, if◌then◌else◌, leb,
}
use fsasm_training_lab.Router.{ModelCallBudget, EscalationRequest}
use fsasm_training_lab.Retry.{ToolObservation, ModelErrorKind}

pub data ModelMessageRole : Type 0 where
  system user assistant tool : ModelMessageRole

pub record ModelMessage : Type 0 where
  pub role : ModelMessageRole
  pub content : String
  pub tool_call_id : Option String
  pub tool_result_for : Option String

-- An argument that the model sent: `None`, a list with the texts of its items, or any other value;
-- the text is what `str` makes of the value.
pub data Argument : Type 0 where
  null : Argument
  items : List String → String → Argument
  other : String → Argument

pub record ToolCall : Type 0 where
  pub tool_call_id : String
  pub name : String
  -- `arguments.get(key)`
  pub arguments : String → Option Argument
  -- `model_dump_json()`
  pub json : String

pub data ModelResponse : Type 0 where
  tool_call : ToolCall → ModelResponse
  final_response : (content : String) → ModelResponse
  escalation_request : EscalationRequest → ModelResponse
  invalid_response : (raw reason : String) → ModelResponse

pub record ModelUsage : Type 0 where
  pub prompt_tokens : Option ℕ
  pub completion_tokens : Option ℕ
  pub total_tokens : Option ℕ
  pub cost : Option ℕ
  pub duration_ms : Option ℕ

pub record ModelRequest : Type 0 where
  pub run_id : String
  pub task_id : String
  pub attempt : ℕ
  pub step : ℕ
  pub messages : List ModelMessage
  -- The names of the declared tools.
  pub tools : List String

pub record ModelResult : Type 0 where
  pub response : ModelResponse
  pub usage : ModelUsage
  pub error : Option ModelErrorKind
  pub backend : String

pub record BudgetUsage : Type 0 where
  pub model_calls : ℕ
  pub tool_calls : ℕ
  pub agent_steps : ℕ
  pub tokens : ℕ
  pub cost : ℕ
  pub elapsed_ms : ℕ

-- `cap is not None and used >= cap`
abbrev pub reaches_cap : Option ℕ → ℕ → Bool
reaches_cap none used = false
reaches_cap (some cap) used = leb cap used

unfoldable pub would_exceed : BudgetUsage → ModelCallBudget → Bool
would_exceed usage budget =
    reaches_cap budget.max_model_calls usage.model_calls
    || reaches_cap budget.max_tokens usage.tokens
    || reaches_cap budget.max_cost usage.cost
    || reaches_cap budget.max_time_ms usage.elapsed_ms

-- Also the counter that is reported: nothing counts as 0.
abbrev pub or_zero : Option ℕ → ℕ
or_zero none = 0
or_zero (some n) = n

-- With no total, and neither part reported, nothing is added.
abbrev pub reported_tokens : ModelUsage → ℕ
reported_tokens reported = elim reported.total_tokens [
  | some total ↦ total
  | none ↦ or_zero reported.prompt_tokens + or_zero reported.completion_tokens
]

unfoldable pub accumulate_usage : BudgetUsage → ModelUsage → BudgetUsage
accumulate_usage usage reported = record usage {
  tokens = usage.tokens + reported_tokens reported;
  cost = usage.cost + or_zero reported.cost;
  elapsed_ms = usage.elapsed_ms + or_zero reported.duration_ms;
}

pub data CheckKind : Type 0 where
  pytest pytest_file ruff_check custom : CheckKind

-- `CheckKind(value)`
abbrev pub check_kind_of : String → Option CheckKind
check_kind_of value =
    if value == "pytest"
    then some pytest
    else if value == "pytest_file"
    then some pytest_file
    else if value == "ruff_check"
    then some ruff_check
    else if value == "custom"
    then some custom
    else none

-- One call of the model through the gateway.
pub record Gateway (Env : Type 0) : Type 0 where
  pub generate : ModelRequest → Env → ModelResult × Env

-- The five operations of the Tool Broker that the loop calls, each for a run, a task, an attempt and
-- a step.
pub record Broker (Env : Type 0) : Type 0 where
  pub read_file :
      String → String → ℕ → ℕ → (path : String) → List String → Env → ToolObservation × Env
  pub apply_patch :
      String
      → String
      → ℕ
      → ℕ
      → (path new_content : String) → List String
      → Env
      → ToolObservation × Env
  pub search_code :
      String
      → String
      → ℕ
      → ℕ
      → (needle : String) → List String
      → (pattern : String) → Env
      → ToolObservation × Env
  pub list_files :
      String → String → ℕ → ℕ → (pattern : String) → List String → Env → ToolObservation × Env
  pub run_checks :
      String → String → ℕ → ℕ → CheckKind → (args : List String) → Env → ToolObservation × Env
