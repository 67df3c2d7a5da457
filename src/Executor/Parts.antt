-- ===== src/Executor/Parts.antt =====
-- The values of fsasm-first/src/fsasm/executor_loop.py around its loop: what a step records, what an attempt
-- reports, the local variables between two iterations, and the texts that are made for the model.
use Prim.Native.String.{◌++◌}
use fsasm_training_lab.Prelude.{
  ℕ, String, ◌==◌, Bool, true, false, not, Option, none, some, List, [], ◌∷◌, if◌then◌else◌,
}
use fsasm_training_lab.Router.{EscalationRequest}
use fsasm_training_lab.Retry.{
  ToolObservation, ToolOperationKind, ModelErrorKind, ExecutorAttemptOutcome, kind_value,
}
use fsasm_training_lab.Executor.Types.{
  ModelMessageRole, ModelMessage, ToolCall, Argument, null, items, other, BudgetUsage,
}

pub record ExecutorStepRecord : Type 0 where
  pub step : ℕ
  pub model_call : Bool
  pub called_tool : Bool
  pub response_kind : String
  pub observation : Option ToolObservation

-- What `_terminal` returns: the part that the retry classifier reads, and the rest.
pub record AttemptReport : Type 0 where
  pub outcome : ExecutorAttemptOutcome
  pub usage : BudgetUsage
  pub steps : List ExecutorStepRecord
  pub final_content : String
  pub escalation : Option EscalationRequest
  pub backend : String

pub record Locals (Env : Type 0) : Type 0 where
  pub step : ℕ
  pub usage : BudgetUsage
  pub observations : List ToolObservation
  pub steps : List ExecutorStepRecord
  pub invalid_streak : ℕ
  pub messages : List ModelMessage
  pub backend_name : String
  pub env : Env

-- What one iteration leads to.
pub data Progress (Env : Type 0) : Type 0 where
  terminal : AttemptReport → Env → Progress Env
  onward : Locals Env → Progress Env

abbrev pub declared_tools : List String
declared_tools = "read_file" ∷ "apply_patch" ∷ "search_code" ∷ "list_files" ∷ "run_checks" ∷ []

unfoldable pub text_of : Option Argument → String → String
text_of none default = default
text_of (some null) default = default
text_of (some (items xs text)) default = text
text_of (some (other text)) default = text

abbrev pub str_arg : ToolCall → String → String → String
str_arg call key default = text_of (call.arguments key) default

-- `[str(a) for a in raw_args] if isinstance(raw_args, list) else []`
abbrev pub list_arg : Option Argument → List String
list_arg (some (items xs text)) = xs
list_arg _ = []

abbrev pub blocked_observation : String → ToolOperationKind → String → ToolObservation
blocked_observation op kind reason = record {
  operation_id = op;
  kind = kind;
  is_done = false;
  blocked = true;
  reason = reason;
  artifact_path = none;
  content = "";
  diff = none;
  matches = [];
  exit_code = none;
  stdout = "";
  stderr = "";
  timed_out = false;
}

abbrev pub record_of : ℕ → Bool → Bool → String → Option ToolObservation → ExecutorStepRecord
record_of step model_call called_tool kind observation = record {
  step = step;
  model_call = model_call;
  called_tool = called_tool;
  response_kind = kind;
  observation = observation;
}

abbrev pub message : ModelMessageRole → String → Option String → Option String → ModelMessage
message role content call_id result_for = record {
  role = role;
  content = content;
  tool_call_id = call_id;
  tool_result_for = result_for;
}

abbrev pub line_if : Bool → String → String → String
line_if given label text = if given then "\n" ++ label ++ text else ""

abbrev pub joined : List String → String
joined [] = ""
joined (x ∷ []) = x
joined (x ∷ y ∷ ys) = x ++ "\n" ++ joined (y ∷ ys)

-- `if path: …`, where nothing and the empty text are falsy
abbrev pub optional_line : Option String → String → String
optional_line none label = ""
optional_line (some text) label = line_if (not (text == "")) label text

abbrev pub matches_line : List String → String
matches_line [] = ""
matches_line (m ∷ ms) = "\nmatches:\n" ++ joined (m ∷ ms)

abbrev pub exit_lines : ToolObservation → Option String → String
exit_lines obs none = ""
exit_lines obs (some code) =
    "\nexit_code="
    ++ code
    ++ line_if (not (obs.stdout == "")) "stdout:\n" obs.stdout
    ++ line_if (not (obs.stderr == "")) "stderr:\n" obs.stderr
    ++ line_if obs.timed_out "TIMED_OUT" ""

unfoldable pub observation_summary : ToolObservation → String
observation_summary obs =
    if obs.blocked
    then "BLOCKED (" ++ kind_value obs.kind ++ "): " ++ obs.reason
    else if not obs.is_done
    then "ERROR (" ++ kind_value obs.kind ++ "): " ++ obs.reason
    else "OK ("
      ++ kind_value obs.kind
      ++ ")"
      ++ optional_line obs.artifact_path "path="
      ++ line_if (not (obs.content == "")) "" obs.content
      ++ optional_line obs.diff "diff:\n"
      ++ matches_line obs.matches
      ++ exit_lines obs obs.exit_code

abbrev pub error_value : ModelErrorKind → String
error_value ModelErrorKind.timeout = "timeout"
error_value ModelErrorKind.rate_limited = "rate_limited"
error_value ModelErrorKind.unavailable = "unavailable"
error_value ModelErrorKind.bad_request = "bad_request"
error_value ModelErrorKind.authentication = "authentication"
error_value ModelErrorKind.protocol_error = "protocol_error"
error_value ModelErrorKind.unknown = "unknown"

abbrev pub initial_locals : {Env : Type 0} → List ModelMessage → Env → Locals Env
initial_locals opening env = record {
  step = 0;
  usage = record {
    model_calls = 0;
    tool_calls = 0;
    agent_steps = 0;
    tokens = 0;
    cost = 0;
    elapsed_ms = 0;
  };
  observations = [];
  steps = [];
  invalid_streak = 0;
  messages = opening;
  backend_name = "";
  env = env;
}
