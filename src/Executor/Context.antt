-- ===== src/Executor/Context.antt =====
-- The context of one attempt: `ContextFragment` and `TaskContext` of fsasm-first/src/fsasm/models.py, what
-- the loop asks of the Context Builder of fsasm-first/src/fsasm/context.py, and the opening messages that
-- fsasm-first/src/fsasm/executor_loop.py makes of a context.
use Prim.Native.String.{◌++◌}
use fsasm_training_lab.Prelude.{ℕ, String, ◌==◌, Option, none, List, [], ◌∷◌, map, if◌then◌else◌}
use mathlib.Core.List as Lists
use fsasm_training_lab.Models.{RunState}
use fsasm_training_lab.Executor.Types.{ModelMessage, system, user}
use fsasm_training_lab.Executor.Parts.{message}

pub record ContextFragment : Type 0 where
  pub source_path : String
  pub kind : String
  pub content : String
  pub start_line : Option ℕ
  pub end_line : Option ℕ
  pub reason : String

pub record TaskContext : Type 0 where
  pub run_id : String
  pub task_id : String
  pub attempt : ℕ
  pub objective : String
  pub acceptance_criteria : List String
  pub constraints : List String
  pub allowed_files : List String
  pub allowed_tools : List String
  pub fragments : List ContextFragment
  pub prior_observations : List String
  pub prior_verification : String
  pub context_budget_chars : ℕ
  pub used_chars : ℕ

-- `ContextBuilder.build` reads files through the Tool Broker, so it takes the world and leaves one.
pub record ContextBuilder (Env : Type 0) : Type 0 where
  pub build :
      RunState
      → (prior_observations : Option (List String)) → (prior_verification : String) → Env
      → TaskContext × Env

-- `sep.join(xs)`
unfoldable pub join : String → List String → String
join sep [] = ""
join sep (x ∷ []) = x
join sep (x ∷ y ∷ ys) = x ++ sep ++ join sep (y ∷ ys)

-- `if xs: user_parts.append(label + sep.join(xs))`
unfoldable pub part : String → String → List String → List String
unfolding join
part label sep [] = []
part label sep (x ∷ xs) = (label ++ join sep (x ∷ xs)) ∷ []

abbrev pub fragment_text : ContextFragment → String
fragment_text f =
    "--- " ++ f.source_path ++ " (" ++ f.kind ++ ") [" ++ f.reason ++ "] ---\n" ++ f.content

abbrev pub system_prompt : String
system_prompt =
    "You are the FS-ASM Executor for one task attempt. You operate only "
    ++ "through the declared tools within the approved scope. Make real "
    ++ "changes via the tools; do not declare success without a real effect. "
    ++ "When you believe the task is done, emit [VERIFY] <rationale> to "
    ++ "request independent verification. You never grant PASS. To request "
    ++ "expert help, emit [ESCALATE consultation|handover] <reason>."

abbrev pub closing_part : String
closing_part =
    "Use the declared tools to make real changes, then end with "
    ++ "[VERIFY] <rationale> to request verification, or [ESCALATE ...] "
    ++ "to request expert help. Do not claim PASS yourself."

unfoldable pub user_parts : TaskContext → List String
unfolding part
user_parts ctx = Lists.◌++◌ (("Objective: " ++ ctx.objective) ∷ []) (
    Lists.◌++◌ (part "Acceptance criteria:\n- " "\n- " ctx.acceptance_criteria) (
      Lists.◌++◌ (part "Constraints:\n- " "\n- " ctx.constraints) (
        Lists.◌++◌ (part "Allowed files: " ", " ctx.allowed_files) (
          Lists.◌++◌ (part "Allowed tools: " ", " ctx.allowed_tools) (
            Lists.◌++◌ (part "Relevant context:\n" "\n" (map fragment_text ctx.fragments)) (
              Lists.◌++◌ (part "Prior observations:\n- " "\n- " ctx.prior_observations) (
                Lists.◌++◌
                  (if ctx.prior_verification == ""
                    then []
                    else ("Prior verification failure: " ++ ctx.prior_verification) ∷ [])
                  (closing_part ∷ []))))))))

-- `_initial_messages`
unfoldable pub initial_messages : TaskContext → List ModelMessage
unfolding user_parts join
initial_messages ctx =
    message system system_prompt none none
    ∷ message user (join "\n\n" (user_parts ctx)) none none
    ∷ []
