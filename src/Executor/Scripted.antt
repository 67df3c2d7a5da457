-- ===== src/Executor/Scripted.antt =====
-- `ScriptedBackend` of fsasm-first/src/fsasm/gateway.py behind the gateway, and a Tool Broker beside it. The
-- parser of raw texts is a parameter; an item that is neither is ruled out by the type.
use fsasm_training_lab.Prelude.{String, Option, none, some, List, [], ◌∷◌}
use Prim.Native.String.{◌++◌}
use mathlib.Core.List as Lists
use fsasm_training_lab.Retry.{ToolObservation, ModelErrorKind}
use fsasm_training_lab.Executor.{
  ContextBuilder, Gateway, Broker, ModelRequest, ModelResult, ModelUsage, ModelResponse,
  invalid_response, error_value,
}

pub data Scheduled : Type 0 where
  response : ModelResponse → Scheduled
  failure : ModelErrorKind → Scheduled
  raw_text : String → Scheduled

pub record ScriptedBackend : Type 0 where
  pub responses : List Scheduled
  pub name : String
  pub calls : List ModelRequest
  pub per_call_usage : Option ModelUsage

abbrev pub no_usage : ModelUsage
no_usage = record {
  prompt_tokens = none;
  completion_tokens = none;
  total_tokens = none;
  cost = none;
  duration_ms = none;
}

abbrev pub usage_or_none : Option ModelUsage → ModelUsage
usage_or_none none = no_usage
usage_or_none (some usage) = usage

abbrev pub result_of : String → ModelUsage → Option ModelErrorKind → ModelResponse → ModelResult
result_of name usage error r = record { response = r; usage = usage; error = error; backend = name }

-- A scheduled item as the result of the call; a failure carries a response that is not read.
abbrev pub normalized : (String → ModelResponse) → ScriptedBackend → Scheduled → ModelResult
normalized parse backend (response r) =
    result_of backend.name (usage_or_none backend.per_call_usage) none r
normalized parse backend (failure kind) =
    result_of backend.name (usage_or_none backend.per_call_usage) (some kind)
      (invalid_response "" ("transport error: " ++ error_value kind))
normalized parse backend (raw_text text) =
    result_of backend.name (usage_or_none backend.per_call_usage) none (parse text)

abbrev pub next_scheduled :
    (String → ModelResponse) → ScriptedBackend → List Scheduled → ModelResult × ScriptedBackend
next_scheduled parse backend [] = (
  result_of backend.name no_usage none
      (invalid_response "" "scripted backend exhausted (no scheduled response)"),
  backend,
)
next_scheduled parse backend (item ∷ rest) =
    (normalized parse backend item, record backend { responses = rest })

unfoldable pub scripted_generate :
    (String → ModelResponse) → ModelRequest → ScriptedBackend → ModelResult × ScriptedBackend
scripted_generate parse request backend =
    let noted = record backend { calls = Lists.◌++◌ backend.calls (request ∷ []) } in
    next_scheduled parse noted noted.responses

-- The backend beside the world of the broker.
pub record Bench (W : Type 0) : Type 0 where
  pub backend : ScriptedBackend
  pub world : W

module _ {W : Type 0} (parse : String → ModelResponse) (broker : Broker W) where
  abbrev pub beside : ScriptedBackend → ToolObservation × W → ToolObservation × Bench W
  beside backend (obs, world) = (obs, record { backend = backend; world = world })

  abbrev pub answered : W → ModelResult × ScriptedBackend → ModelResult × Bench W
  answered world (result, backend) = (result, record { backend = backend; world = world })

  unfoldable pub scripted_gateway : Gateway (Bench W)
  unfolding scripted_generate
  scripted_gateway = record {
    generate = λ request env. answered env.world (scripted_generate parse request env.backend);
  }

  unfoldable pub bench_broker : Broker (Bench W)
  bench_broker = record {
    read_file = λ run task attempt step path allowed env.
        beside env.backend (broker.read_file run task attempt step path allowed env.world);
    apply_patch = λ run task attempt step path content allowed env.
        beside env.backend
          (broker.apply_patch run task attempt step path content allowed env.world);
    search_code = λ run task attempt step needle allowed pattern env.
        beside env.backend
          (broker.search_code run task attempt step needle allowed pattern env.world);
    list_files = λ run task attempt step pattern allowed env.
        beside env.backend (broker.list_files run task attempt step pattern allowed env.world);
    run_checks = λ run task attempt step kind args env.
        beside env.backend (broker.run_checks run task attempt step kind args env.world);
  }

  -- The context is built in the world of the broker.
  unfoldable pub bench_builder : ContextBuilder W → ContextBuilder (Bench W)
  bench_builder builder = record {
    build = λ state observed failure env.
        let built = builder.build state observed failure env.world in
        (built.0, record { backend = env.backend; world = built.1 });
  }
