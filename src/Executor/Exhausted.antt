-- ===== src/Executor/Exhausted.antt =====
-- An attempt on the scripted backend of fsasm-first/src/fsasm/gateway.py ends without any cap: the script is
-- used up, and then the malformed answers are.
use fsasm_training_lab.Prelude.{
  ℕ, zero, suc, ◌+◌, ◌-◌, ◌<◌, ◌≤◌, String, ◌==◌, ◌≡◌, refl, Bool, true, false, not, Option, none,
  some, List, [], ◌∷◌, length, if◌then◌else◌, contains, arith, ◌⊎◌, inl, inr, subst, ltb,
}
use mathlib.Core.List as Lists
use fsasm_training_lab.Models.{RunState, ChildTask}
use fsasm_training_lab.Router.{ModelCallBudget}
use fsasm_training_lab.Retry.{ToolObservation, ModelErrorKind}
use fsasm_training_lab.Executor.{
  ContextBuilder, initial_messages, Gateway, Broker, Locals, Progress, terminal, onward,
  AttemptReport, ToolCall, ModelResponse, tool_call, final_response, escalation_request,
  invalid_response, CheckKind, reaches_cap, would_exceed, after_tool, on_tool_call, on_invalid,
  on_response, on_result, called, call_model, iterate, allowed_tool_names, dispatch_tool,
  dispatch_checks, request_of, run_loop, run, initial_locals, check_kind_of, str_arg,
}
use fsasm_training_lab.Executor.Turn.{progress_cases}
use fsasm_training_lab.Executor.Effects.{Observed-if}
use fsasm_training_lab.Executor.Scripted.{
  bench_builder, Scheduled, ScriptedBackend, Bench, scripted_gateway, bench_broker,
  scripted_generate, next_scheduled,
}

module _ {W : Type 0} (parse : String → ModelResponse) (broker : Broker W)
    (budget : ModelCallBudget) (max_invalid_reasks : ℕ) (run_id : String) (task : ChildTask)
    (attempt : ℕ) where
  abbrev gateway : Gateway (Bench W)
  gateway = scripted_gateway parse broker

  abbrev bench : Broker (Bench W)
  bench = bench_broker parse broker

  abbrev left_of : Bench W → ℕ
  left_of env = length env.backend.responses

  -- The answers that are left, and the malformed ones that are still put up with.
  abbrev patience : Locals (Bench W) → ℕ
  patience l = left_of l.env + (max_invalid_reasks - l.invalid_streak)

  abbrev Spends : ℕ → Progress (Bench W) → Type 0
  Spends n (terminal r env) = Unit
  Spends n (onward l) = patience l < n

  Spends-if :
      (n : ℕ) (b : Bool) (p q : Progress (Bench W))
      → (b ≡ true → Spends n p)
      → (b ≡ false → Spends n q)
      → Spends n (if b then p else q)
  Spends-if n true p q h k = h refl
  Spends-if n false p q h k = k refl

  abbrev Same : ℕ → Bench W → Type 0
  Same n env = left_of env ≡ n

  checks_kept :
      (call : ToolCall) (step : ℕ) (kind : Option CheckKind) (env : Bench W)
      → Same
          (left_of env)
          (dispatch_checks gateway bench budget max_invalid_reasks run_id task attempt call step
            kind env).1
  unfolding bench_broker
  checks_kept call step none env = refl
  checks_kept call step (some kind) env = refl

  dispatch_kept :
      (call : ToolCall) (step : ℕ) (env : Bench W)
      → Same
          (left_of env)
          (dispatch_tool gateway bench budget max_invalid_reasks run_id task attempt call step
            env).1
  unfolding dispatch_tool bench_broker
  dispatch_kept call step env =
      let go = Observed-if gateway bench run_id task attempt (Same (left_of env)) in
      go (call.name == "read_file") _ _ (λ e. refl)
        (λ _.
          go (call.name == "apply_patch") _ _ (λ e. refl)
            (λ _.
              go (call.name == "search_code") _ _ (λ e. refl)
                (λ _.
                  go (call.name == "list_files") _ _ (λ e. refl)
                    (λ _.
                      go (call.name == "run_checks") _ _
                        (λ e. checks_kept call step (check_kind_of (str_arg call "kind" "")) env)
                        (λ _. refl)))))

  after_tool-Spends :
      (n : ℕ) (l : Locals (Bench W)) (call : ToolCall) (obs : ToolObservation)
      → patience l < n
      → Spends n (after_tool gateway bench budget max_invalid_reasks run_id task attempt l call obs)
  unfolding after_tool
  after_tool-Spends n l call obs h = Spends-if n obs.blocked _ _ (λ e. tt) (λ e. h)

  on_tool_call-Spends :
      (n : ℕ) (l : Locals (Bench W)) (call : ToolCall)
      → patience l < n
      → Spends n (on_tool_call gateway bench budget max_invalid_reasks run_id task attempt l call)
  unfolding on_tool_call
  on_tool_call-Spends n l call h =
      Spends-if n (reaches_cap budget.max_tool_calls l.usage.tool_calls) _ _ (λ e. tt)
        (λ room.
          Spends-if n
            (not (
              contains
                (allowed_tool_names gateway bench budget max_invalid_reasks run_id task attempt)
                call.name))
            _ _ (λ e. tt)
            (λ e.
              after_tool-Spends n _ call _
                (let same = dispatch_kept call l.step l.env in omega (arith, same))))

  on_invalid-Spends :
      (n : ℕ) (l : Locals (Bench W)) (raw reason : String)
      → patience l ≤ n
      → Spends n
          (on_invalid gateway bench budget max_invalid_reasks run_id task attempt l raw reason)
  unfolding on_invalid
  on_invalid-Spends n l raw reason h =
      Spends-if n (ltb max_invalid_reasks (l.invalid_streak + 1)) _ _ (λ e. tt) (λ e. ground arith)

  on_result-Spends :
      (n : ℕ) (l : Locals (Bench W)) (error : Option ModelErrorKind) (r : ModelResponse)
      → patience l < n
      → Spends n (on_result gateway bench budget max_invalid_reasks run_id task attempt l error r)
  unfolding on_result on_response
  on_result-Spends n l (some error) r h = tt
  on_result-Spends n l none (tool_call call) h = on_tool_call-Spends n l call h
  on_result-Spends n l none (final_response content) h = tt
  on_result-Spends n l none (escalation_request request) h = tt
  on_result-Spends n l none (invalid_response raw reason) h =
      on_invalid-Spends n l raw reason (omega arith)

  malformed-Spends :
      (n : ℕ) (l : Locals (Bench W)) (raw reason : String) (error : Option ModelErrorKind)
      (r : ModelResponse)
      → error ≡ none
      → r ≡ invalid_response raw reason
      → patience l ≤ n
      → Spends n (on_result gateway bench budget max_invalid_reasks run_id task attempt l error r)
  unfolding on_result on_response
  malformed-Spends n l raw reason error r e q h = rw (e, q) (on_invalid-Spends n l raw reason h)

  -- A call takes the next answer, or the script is empty and the answer is malformed.
  taken :
      (backend : ScriptedBackend) (script : List Scheduled)
      → (length (next_scheduled parse backend script).1.responses < length script)
        ⊎ ((length (next_scheduled parse backend script).1.responses ≡ length backend.responses)
            × ((next_scheduled parse backend script).0.error ≡ none)
            × ((next_scheduled parse backend script).0.response
                ≡ invalid_response "" "scripted backend exhausted (no scheduled response)"))
  taken backend [] = inr (refl, refl, refl)
  taken backend (item ∷ rest) = inl (omega arith)

  call_model-Spends :
      (l : Locals (Bench W))
      → Spends
          (patience l)
          (call_model gateway bench budget max_invalid_reasks run_id task attempt l)
  unfolding call_model called scripted_gateway scripted_generate
  call_model-Spends l =
      let request = request_of gateway bench budget max_invalid_reasks run_id task attempt l in
      let noted = record l.env.backend { calls = Lists.◌++◌ l.env.backend.calls (request ∷ []) } in
      let answer = gateway.generate request l.env in
      let later =
        called gateway bench budget max_invalid_reasks run_id task attempt l answer.0 answer.1 in
      elim (taken noted l.env.backend.responses) [
        | inl less ↦
            on_result-Spends (patience l) later answer.0.error answer.0.response
              (omega (arith, less))
        | inr (same, fine, malformed) ↦
            malformed-Spends (patience l) later ""
              "scripted backend exhausted (no scheduled response)" answer.0.error answer.0.response
              fine malformed (omega (arith, same))
      ]

  iterate-Spends :
      (l : Locals (Bench W))
      → Spends (patience l) (iterate gateway bench budget max_invalid_reasks run_id task attempt l)
  unfolding iterate
  iterate-Spends l =
      Spends-if (patience l) (would_exceed l.usage budget) _ _ (λ e. tt)
        (λ room.
          Spends-if (patience l) (reaches_cap budget.max_agent_steps l.usage.agent_steps) _ _
            (λ e. tt) (λ e. call_model-Spends (record l { step = l.step + 1 })))

  run_loop_exhausts :
      (fuel : ℕ) (l : Locals (Bench W))
      → patience l < fuel
      → (r : AttemptReport) × (after : Bench W) × (run_loop gateway bench budget max_invalid_reasks
            run_id task attempt fuel l
          ≡ some (r, after))
  unfolding run_loop
  run_loop_exhausts zero l h = absurd (omega arith)
  run_loop_exhausts (suc fuel) l h =
      elim (progress_cases
        (iterate gateway bench budget max_invalid_reasks run_id task attempt l)) [
          | inl (r, env, e) ↦ (r, env, rw (run_loop, e) refl)
          | inr (next, e) ↦
              let less = subst (Spends (patience l)) e (iterate-Spends l) in
              let (r, after, runs) = run_loop_exhausts fuel next (omega arith) in
              (r, after, rw (run_loop, e) runs)
        ]

-- On the scripted backend an attempt comes to a terminal outcome under any budget, also one without
-- a cap, whatever context is built and the broker observes: no more iterations are needed than the script has answers,
-- the limit of malformed answers, and one.
pub scripted_run_ends :
    {W : Type 0} (parse : String → ModelResponse) (broker : Broker W) (budget : ModelCallBudget)
    (max_invalid_reasks : ℕ) (run_id : String) (task : ChildTask) (attempt : ℕ)
    (builder : ContextBuilder W) (state : RunState) (observed : Option (List String))
    (failure : String) (fuel : ℕ) (env : Bench W)
    → length env.backend.responses + max_invalid_reasks < fuel
    → (r : AttemptReport) × (after : Bench W) × (run
          (scripted_gateway parse broker)
          (bench_broker parse broker)
          budget
          max_invalid_reasks
          run_id
          task
          attempt
          (bench_builder parse broker builder)
          state
          observed
          failure
          fuel
          env
        ≡ some (r, after))
unfolding run bench_builder
scripted_run_ends parse broker budget max_invalid_reasks run_id task attempt builder state observed
      failure fuel env h =
    let built = builder.build state observed failure env.world in
    run_loop_exhausts parse broker budget max_invalid_reasks run_id task attempt fuel
      (initial_locals (initial_messages built.0)
        (record { backend = env.backend; world = built.1 }))
      (omega arith)
