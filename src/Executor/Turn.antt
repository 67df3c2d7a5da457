-- ===== src/Executor/Turn.antt =====
-- One iteration of the loop of fsasm-first/src/fsasm/executor_loop.py: it stays within the budget, and
-- goes on only past observations that are not blocked.
use fsasm_training_lab.Prelude.{
  ℕ, ◌+◌, ◌≤◌, String, ◌≡◌, ◌≢◌, ◌↔◌, refl, Bool, true, false, not, ◌||◌, Option, none, some, List,
  [], ◌∷◌, any, if◌then◌else◌, contains, arith, ◌⊎◌, inl, inr, sym, subst, ltb, ◌∙◌,
}
use mathlib.Core.List as Lists
use fsasm_training_lab.Models.{ChildTask}
use fsasm_training_lab.Router.{ModelCallBudget}
use fsasm_training_lab.Retry.{ToolObservation, ModelErrorKind, policy_blocked}
use fsasm_training_lab.Executor.{
  Gateway, Broker, Locals, Progress, terminal, onward, AttemptReport, BudgetUsage, ToolCall,
  ModelResponse, tool_call, final_response, escalation_request, invalid_response, reaches_cap,
  would_exceed, accumulate_usage, after_tool, on_tool_call, on_invalid, on_response, on_result,
  called, call_model, iterate, allowed_tool_names, request_of,
}

pub progress_cases :
    {Env : Type 0} (p : Progress Env)
    → ((r : AttemptReport) × (env : Env) × (p ≡ terminal r env))
      ⊎ ((l : Locals Env) × (p ≡ onward l))
progress_cases (terminal r env) = inl (r, env, refl)
progress_cases (onward l) = inr (l, refl)

abbrev pub Capped : Option ℕ → ℕ → Type 0
Capped o n = (cap : ℕ) → o ≡ some cap → n ≤ cap

pub record IsWithinBudget (budget : ModelCallBudget) (usage : BudgetUsage) : Type 0 where
  pub calls : Capped budget.max_model_calls usage.model_calls
  pub steps : Capped budget.max_agent_steps usage.agent_steps
  pub tools : Capped budget.max_tool_calls usage.tool_calls

abbrev pub has_blocked : List ToolObservation → Bool
has_blocked = any (λ (o : ToolObservation). o.blocked)

Capped-next : (o : Option ℕ) (n : ℕ) → reaches_cap o n ≡ false → Capped o (n + 1)
Capped-next none n h cap e = cc
Capped-next (some k) n h cap e = let same : k ≡ cap = cc in ground arith

has_blocked-append :
    (xs : List ToolObservation) (o : ToolObservation)
    → has_blocked (Lists.◌++◌ xs (o ∷ [])) ≡ (has_blocked xs || o.blocked)
has_blocked-append [] o = ground arith
has_blocked-append (x ∷ xs) o = ground (arith, has_blocked-append xs o)

pub record IsGoodReport (budget : ModelCallBudget) (r : AttemptReport) : Type 0 where
  pub within : IsWithinBudget budget r.usage
  pub policy : (r.outcome.reason ≡ policy_blocked) ↔ (has_blocked r.outcome.observations ≡ true)

module _ {Env : Type 0} (budget : ModelCallBudget) where
  pub record IsGood (l : Locals Env) : Type 0 where
    pub within : IsWithinBudget budget l.usage
    pub clear : has_blocked l.observations ≡ false

  -- An iteration that goes on has this many calls and steps behind it.
  abbrev pub Keeps : ℕ → ℕ → Progress Env → Type 0
  Keeps calls steps (terminal r env) = IsGoodReport budget r
  Keeps calls steps (onward l) =
      IsGood l × (l.usage.model_calls ≡ calls) × (l.usage.agent_steps ≡ steps)

  plain :
      (l : Locals Env) (r : AttemptReport)
      → IsGood l
      → r.usage ≡ l.usage
      → r.outcome.observations ≡ l.observations
      → r.outcome.reason ≢ policy_blocked
      → IsGoodReport budget r
  plain l r good used seen other = record {
    within = subst (IsWithinBudget budget) (sym used) good.within;
    policy = (
      λ h. absurd (other h),
      λ h. absurd (
          let was : has_blocked l.observations ≡ true =
            subst (λ os. has_blocked os ≡ true) seen h in
          let k = good.clear in ground arith),
    );
  }

  blocking :
      (l : Locals Env) (o : ToolObservation) (r : AttemptReport)
      → IsGood l
      → o.blocked ≡ true
      → r.usage ≡ l.usage
      → r.outcome.observations ≡ Lists.◌++◌ l.observations (o ∷ [])
      → r.outcome.reason ≡ policy_blocked
      → IsGoodReport budget r
  blocking l o r good is used seen reason = record {
    within = subst (IsWithinBudget budget) (sym used) good.within;
    policy = (λ h. rw seen (has_blocked-append l.observations o ∙ ground arith), λ h. reason);
  }

  Keeps-if :
      (calls steps : ℕ) (b : Bool) (p q : Progress Env)
      → (b ≡ true → Keeps calls steps p)
      → (b ≡ false → Keeps calls steps q)
      → Keeps calls steps (if b then p else q)
  Keeps-if calls steps true p q h k = h refl
  Keeps-if calls steps false p q h k = k refl

  abbrev pub IsTerminal : Progress Env → Type 0
  IsTerminal (terminal r env) = Unit
  IsTerminal (onward l) = ⊥

  IsTerminal-if :
      (b : Bool) (p q : Progress Env)
      → IsTerminal p
      → (b ≡ false → IsTerminal q)
      → IsTerminal (if b then p else q)
  IsTerminal-if true p q h k = h
  IsTerminal-if false p q h k = k refl

  module _ (gateway : Gateway Env) (broker : Broker Env) (max_invalid_reasks : ℕ) (run_id : String)
      (task : ChildTask) (attempt : ℕ) where
    after_tool_lem :
        (l : Locals Env) (call : ToolCall) (obs : ToolObservation)
        → IsGood l
        → Keeps l.usage.model_calls l.usage.agent_steps
            (after_tool gateway broker budget max_invalid_reasks run_id task attempt l call obs)
    unfolding after_tool
    after_tool_lem l call obs good =
        Keeps-if l.usage.model_calls l.usage.agent_steps obs.blocked _ _
          (λ e. blocking l obs _ good e refl refl refl)
          (λ e. (
            record {
              within = good.within;
              clear = has_blocked-append l.observations obs ∙ (let k = good.clear in ground arith);
            },
            refl,
            refl,
          ))

    on_tool_call_lem :
        (l : Locals Env) (call : ToolCall)
        → IsGood l
        → Keeps l.usage.model_calls l.usage.agent_steps
            (on_tool_call gateway broker budget max_invalid_reasks run_id task attempt l call)
    unfolding on_tool_call
    on_tool_call_lem l call good =
        Keeps-if l.usage.model_calls l.usage.agent_steps
          (reaches_cap budget.max_tool_calls l.usage.tool_calls) _ _
          (λ e. plain l _ good refl refl (λ q. ground arith))
          (λ room.
            Keeps-if l.usage.model_calls l.usage.agent_steps
              (not (
                contains
                  (allowed_tool_names gateway broker budget max_invalid_reasks run_id task attempt)
                  call.name))
              _ _ (λ e. blocking l _ _ good refl refl refl refl)
              (λ e. after_tool_lem _ call _ (record {
                within = record {
                  calls = good.within.calls;
                  steps = good.within.steps;
                  tools = Capped-next budget.max_tool_calls l.usage.tool_calls room;
                };
                clear = good.clear;
              })))

    on_invalid_lem :
        (l : Locals Env) (raw reason : String)
        → IsGood l
        → Keeps l.usage.model_calls l.usage.agent_steps
            (on_invalid gateway broker budget max_invalid_reasks run_id task attempt l raw reason)
    unfolding on_invalid
    on_invalid_lem l raw reason good =
        Keeps-if l.usage.model_calls l.usage.agent_steps
          (ltb max_invalid_reasks (l.invalid_streak + 1)) _ _
          (λ e. plain l _ good refl refl (λ q. ground arith))
          (λ e. (record { within = good.within; clear = good.clear }, refl, refl))

    on_result_lem :
        (l : Locals Env) (error : Option ModelErrorKind) (response : ModelResponse)
        → IsGood l
        → Keeps l.usage.model_calls l.usage.agent_steps (
            on_result gateway broker budget max_invalid_reasks run_id task attempt l error response)
    unfolding on_result on_response
    on_result_lem l (some error) response good = plain l _ good refl refl (λ q. ground arith)
    on_result_lem l none (tool_call call) good = on_tool_call_lem l call good
    on_result_lem l none (final_response content) good =
        plain l _ good refl refl (λ q. ground arith)
    on_result_lem l none (escalation_request request) good =
        plain l _ good refl refl (λ q. ground arith)
    on_result_lem l none (invalid_response raw reason) good = on_invalid_lem l raw reason good

    call_model_lem :
        (l : Locals Env)
        → IsGood l
        → reaches_cap budget.max_model_calls l.usage.model_calls ≡ false
        → reaches_cap budget.max_agent_steps l.usage.agent_steps ≡ false
        → Keeps
            (l.usage.model_calls + 1)
            (l.usage.agent_steps + 1)
            (call_model gateway broker budget max_invalid_reasks run_id task attempt l)
    unfolding call_model called accumulate_usage
    call_model_lem l good call_room step_room =
        let answer =
          gateway.generate
            (request_of gateway broker budget max_invalid_reasks run_id task attempt l) l.env in
        on_result_lem
          (called gateway broker budget max_invalid_reasks run_id task attempt l answer.0 answer.1)
          answer.0.error answer.0.response
          (record {
            within = record {
              calls = Capped-next budget.max_model_calls l.usage.model_calls call_room;
              steps = Capped-next budget.max_agent_steps l.usage.agent_steps step_room;
              tools = good.within.tools;
            };
            clear = good.clear;
          })

    call_room :
        (usage : BudgetUsage)
        → would_exceed usage budget ≡ false
        → reaches_cap budget.max_model_calls usage.model_calls ≡ false
    unfolding would_exceed
    call_room usage h = ground arith

    pub iterate_lem :
        (l : Locals Env)
        → IsGood l
        → Keeps
            (l.usage.model_calls + 1)
            (l.usage.agent_steps + 1)
            (iterate gateway broker budget max_invalid_reasks run_id task attempt l)
    unfolding iterate
    iterate_lem l good =
        let now = record l { step = l.step + 1 } in
        Keeps-if (l.usage.model_calls + 1) (l.usage.agent_steps + 1) (would_exceed l.usage budget) _
          _ (λ e. plain l _ good refl refl (λ q. ground arith))
          (λ room.
            Keeps-if (l.usage.model_calls + 1) (l.usage.agent_steps + 1)
              (reaches_cap budget.max_agent_steps l.usage.agent_steps) _ _
              (λ e. plain l _ good refl refl (λ q. ground arith))
              (λ e.
                call_model_lem now (record { within = good.within; clear = good.clear })
                  (call_room l.usage room) e))

    -- With a cap used up there is no further call.
    pub iterate_stops :
        (l : Locals Env)
        → (reaches_cap budget.max_model_calls l.usage.model_calls ≡ true)
          ⊎ (reaches_cap budget.max_agent_steps l.usage.agent_steps ≡ true)
        → IsTerminal (iterate gateway broker budget max_invalid_reasks run_id task attempt l)
    unfolding iterate would_exceed
    iterate_stops l h = IsTerminal-if (would_exceed l.usage budget) _ _ tt (λ room.
        IsTerminal-if (reaches_cap budget.max_agent_steps l.usage.agent_steps) _ _ tt
          (λ more. let left = call_room l.usage room in absurd (ground arith)))
