-- ===== src/Executor/Ends.antt =====
-- The loop of fsasm-first/src/fsasm/executor_loop.py comes to an end within its budget.
use fsasm_training_lab.Prelude.{
  Option, ℕ, zero, suc, ◌+◌, ◌<◌, String, ◌≡◌, ◌↔◌, refl, true, some, List, arith, ◌⊎◌, inl, inr,
  subst,
}
use fsasm_training_lab.Models.{RunState, ChildTask}
use fsasm_training_lab.Router.{ModelCallBudget}
use fsasm_training_lab.Retry.{policy_blocked}
use fsasm_training_lab.Executor.{
  ContextBuilder, initial_messages, Gateway, Broker, Locals, AttemptReport, ModelMessage,
  reaches_cap, iterate, run_loop, run, initial_locals,
}
use fsasm_training_lab.Executor.Turn.{
  IsWithinBudget, has_blocked, IsGood, IsGoodReport, Keeps, IsTerminal, iterate_lem, iterate_stops,
  progress_cases,
}

-- The calls, or the steps, that are left are fewer than the fuel.
abbrev HasFuel : {Env : Type 0} → ModelCallBudget → ℕ → Locals Env → Type 0
HasFuel budget fuel l =
    ((cap : ℕ) × (budget.max_model_calls ≡ some cap) × (cap < suc (fuel + l.usage.model_calls)))
    ⊎ ((cap : ℕ) × (budget.max_agent_steps ≡ some cap) × (cap < suc (fuel + l.usage.agent_steps)))

HasFuel-start :
    {Env : Type 0} (budget : ModelCallBudget) (cap fuel : ℕ) (opening : List ModelMessage)
    (env : Env)
    → (budget.max_model_calls ≡ some cap) ⊎ (budget.max_agent_steps ≡ some cap)
    → cap < suc fuel
    → HasFuel budget fuel (initial_locals opening env)
HasFuel-start budget cap fuel opening env (inl e) h = inl (cap, e, omega arith)
HasFuel-start budget cap fuel opening env (inr e) h = inr (cap, e, omega arith)

module _ {Env : Type 0} (budget : ModelCallBudget) (gateway : Gateway Env) (broker : Broker Env)
    (max_invalid_reasks : ℕ) (run_id : String) (task : ChildTask) (attempt : ℕ) where
  HasFuel-spent :
      (l : Locals Env)
      → HasFuel budget 0 l
      → (reaches_cap budget.max_model_calls l.usage.model_calls ≡ true)
        ⊎ (reaches_cap budget.max_agent_steps l.usage.agent_steps ≡ true)
  HasFuel-spent l (inl (cap, e, less)) = inl (rw e (ground arith))
  HasFuel-spent l (inr (cap, e, less)) = inr (rw e (ground arith))

  HasFuel-next :
      (fuel : ℕ) (l next : Locals Env)
      → next.usage.model_calls ≡ l.usage.model_calls + 1
      → next.usage.agent_steps ≡ l.usage.agent_steps + 1
      → HasFuel budget (suc fuel) l
      → HasFuel budget fuel next
  HasFuel-next fuel l next calls steps (inl (cap, e, less)) = inl (cap, e, omega arith)
  HasFuel-next fuel l next calls steps (inr (cap, e, less)) = inr (cap, e, omega arith)

  run_loop_ends :
      (fuel : ℕ) (l : Locals Env)
      → IsGood budget l
      → HasFuel budget fuel l
      → (r : AttemptReport) × (env : Env) × (run_loop gateway broker budget max_invalid_reasks
            run_id task attempt
            (suc fuel)
            l
          ≡ some (r, env))
        × IsGoodReport budget r
  unfolding run_loop
  run_loop_ends zero l good left =
      elim (progress_cases
        (iterate gateway broker budget max_invalid_reasks run_id task attempt l)) [
          | inl (r, env, e) ↦ (
            r,
            env,
            rw (run_loop, e) refl,
            subst (Keeps budget (l.usage.model_calls + 1) (l.usage.agent_steps + 1)) e
                (iterate_lem budget gateway broker max_invalid_reasks run_id task attempt l good),
          )
          | inr (next, e) ↦ absurd (
              subst (IsTerminal budget) e (
                iterate_stops budget gateway broker max_invalid_reasks run_id task attempt l
                  (HasFuel-spent l left)))
        ]
  run_loop_ends (suc fuel) l good left =
      elim (progress_cases
        (iterate gateway broker budget max_invalid_reasks run_id task attempt l)) [
          | inl (r, env, e) ↦ (
            r,
            env,
            rw (run_loop, e) refl,
            subst (Keeps budget (l.usage.model_calls + 1) (l.usage.agent_steps + 1)) e
                (iterate_lem budget gateway broker max_invalid_reasks run_id task attempt l good),
          )
          | inr (next, e) ↦
              let (fine, calls, steps) =
                subst (Keeps budget (l.usage.model_calls + 1) (l.usage.agent_steps + 1)) e (
                  iterate_lem budget gateway broker max_invalid_reasks run_id task attempt l
                    good) in
              let (r, env, runs, is) =
                run_loop_ends fuel next fine (HasFuel-next fuel l next calls steps left) in
              (r, env, rw (run_loop, e) runs, is)
        ]

-- An attempt under a cap on its model calls or its agent steps comes to a terminal outcome, whatever
-- context is built, the model answers and the broker observes: as many iterations as the cap and one more are enough.
-- The outcome has used no more model calls, agent steps and tool calls than their caps, and its
-- reason is POLICY_BLOCKED if and only if one of its observations is blocked.
pub run_ends :
    {Env : Type 0} (gateway : Gateway Env) (broker : Broker Env) (budget : ModelCallBudget)
    (max_invalid_reasks : ℕ) (run_id : String) (task : ChildTask) (attempt cap : ℕ)
    (builder : ContextBuilder Env) (state : RunState) (observed : Option (List String))
    (failure : String) (fuel : ℕ) (env : Env)
    → (budget.max_model_calls ≡ some cap) ⊎ (budget.max_agent_steps ≡ some cap)
    → cap < fuel
    → (r : AttemptReport) × (after : Env) × (run gateway broker budget max_invalid_reasks run_id
          task attempt builder state observed failure fuel env
        ≡ some (r, after))
      × IsWithinBudget budget r.usage
      × ((r.outcome.reason ≡ policy_blocked) ↔ (has_blocked r.outcome.observations ≡ true))
unfolding run
run_ends gateway broker budget max_invalid_reasks run_id task attempt cap builder state observed
      failure zero env capped h =
    absurd (omega arith)
run_ends gateway broker budget max_invalid_reasks run_id task attempt cap builder state observed
      failure (suc fuel) env capped h =
    let built = builder.build state observed failure env in
    let opening = initial_messages built.0 in
    let good : IsGood budget (initial_locals opening built.1) = record {
      within = record {
        calls = λ k e. omega arith;
        steps = λ k e. omega arith;
        tools = λ k e. omega arith;
      };
      clear = refl;
    } in
    let left = HasFuel-start budget cap fuel opening built.1 capped (omega arith) in
    let (r, after, runs, is) =
      run_loop_ends budget gateway broker max_invalid_reasks run_id task attempt fuel
        (initial_locals opening built.1) good left in
    (r, after, runs, is.within, is.policy)
