-- ===== src/Executor/Effects.antt =====
-- What an attempt of fsasm-first/src/fsasm/executor_loop.py can do to the world: building the
-- context, calls of the model, and calls of the broker with a tool that the task allows.
use fsasm_training_lab.Prelude.{
  ℕ, zero, suc, ◌+◌, String, ◌==◌, ◌≡◌, refl, Bool, true, false, not, Option, none, some, List, [],
  ◌∷◌, filter, if◌then◌else◌, contains, arith, inl, inr, sym, subst, ltb, ==→≡, ◌∙◌,
}
use fsasm_training_lab.Models.{ChildTask, RunState}
use fsasm_training_lab.Router.{ModelCallBudget}
use fsasm_training_lab.Retry.{ToolObservation, ModelErrorKind}
use fsasm_training_lab.Executor.{
  ContextBuilder, initial_messages, Gateway, Broker, Locals, Progress, terminal, onward,
  AttemptReport, ModelRequest, ToolCall, ModelResponse, tool_call, final_response,
  escalation_request, invalid_response, CheckKind, reaches_cap, would_exceed, after_tool,
  on_tool_call, on_invalid, on_response, on_result, called, call_model, iterate, allowed_tool_names,
  declared_tools, dispatch_tool, dispatch_checks, request_of, run_loop, run, initial_locals,
  check_kind_of, str_arg,
}
use fsasm_training_lab.Executor.Turn.{progress_cases}

contains-filter :
    (p : String → Bool) (xs : List String) (x : String)
    → contains (filter p xs) x ≡ true
    → contains xs x ≡ true
unfolding contains
contains-filter p [] x h = h
contains-filter p (y ∷ ys) x h = ground (arith, contains-filter p ys x)

module _ {Env : Type 0} (gateway : Gateway Env) (broker : Broker Env) (run_id : String)
    (task : ChildTask) (attempt : ℕ) (P : Env → Type 0) where
  -- A property of the world that everything done for this attempt keeps: building the context from the
  -- state, calling the model, and calling the broker with a tool that the task allows. The four
  -- operations on files are asked for the files of the task; a check is given none.
  pub record IsKept (builder : ContextBuilder Env) (state : RunState) : Type 0 where
    pub context :
        (observed : Option (List String)) (failure : String) (env : Env)
        → P env
        → P (builder.build state observed failure env).1
    pub model : (request : ModelRequest) (env : Env) → P env → P (gateway.generate request env).1
    pub read_file :
        contains task.allowed_tools "read_file" ≡ true
        → (step : ℕ) (path : String) (env : Env) → P env
        → P (broker.read_file run_id task.task_id attempt step path task.allowed_files env).1
    pub apply_patch :
        contains task.allowed_tools "apply_patch" ≡ true
        → (step : ℕ) (path content : String) (env : Env) → P env
        → P
            (broker.apply_patch run_id task.task_id attempt step path content task.allowed_files
              env).1
    pub search_code :
        contains task.allowed_tools "search_code" ≡ true
        → (step : ℕ) (needle pattern : String) (env : Env) → P env
        → P
            (broker.search_code run_id task.task_id attempt step needle task.allowed_files pattern
              env).1
    pub list_files :
        contains task.allowed_tools "list_files" ≡ true
        → (step : ℕ) (pattern : String) (env : Env) → P env
        → P (broker.list_files run_id task.task_id attempt step pattern task.allowed_files env).1
    pub run_checks :
        contains task.allowed_tools "run_checks" ≡ true
        → (step : ℕ) (kind : CheckKind) (args : List String) (env : Env) → P env
        → P (broker.run_checks run_id task.task_id attempt step kind args env).1

  pub Observed-if :
      (b : Bool) (p q : ToolObservation × Env)
      → (b ≡ true → P p.1)
      → (b ≡ false → P q.1)
      → P (if b then p else q).1
  Observed-if true p q h k = h refl
  Observed-if false p q h k = k refl

  abbrev Leaves : Progress Env → Type 0
  Leaves (terminal r env) = P env
  Leaves (onward l) = P l.env

  Leaves-if :
      (b : Bool) (p q : Progress Env)
      → (b ≡ true → Leaves p)
      → (b ≡ false → Leaves q)
      → Leaves (if b then p else q)
  Leaves-if true p q h k = h refl
  Leaves-if false p q h k = k refl

  module _ (builder : ContextBuilder Env) (state : RunState) (kept : IsKept builder state)
      (budget : ModelCallBudget) (max_invalid_reasks : ℕ) where
    allowed_by :
        (call : ToolCall) (name : String)
        → contains task.allowed_tools call.name ≡ true
        → (call.name == name) ≡ true
        → contains task.allowed_tools name ≡ true
    allowed_by call name h e =
        subst (λ n. contains task.allowed_tools n ≡ true) (==→≡ call.name name e) h

    checks_lem :
        (call : ToolCall) (step : ℕ) (kind : Option CheckKind) (env : Env)
        → contains task.allowed_tools "run_checks" ≡ true
        → P env
        → P
            (dispatch_checks gateway broker budget max_invalid_reasks run_id task attempt call step
              kind env).1
    checks_lem call step none env h p = p
    checks_lem call step (some kind) env h p = kept.run_checks h step kind _ env p

    dispatch_tool_lem :
        (call : ToolCall) (step : ℕ) (env : Env)
        → contains task.allowed_tools call.name ≡ true
        → P env
        → P
            (dispatch_tool gateway broker budget max_invalid_reasks run_id task attempt call step
              env).1
    unfolding dispatch_tool
    dispatch_tool_lem call step env h p =
        Observed-if (call.name == "read_file") _ _
          (λ e. kept.read_file (allowed_by call "read_file" h e) step _ env p)
          (λ _.
            Observed-if (call.name == "apply_patch") _ _
              (λ e. kept.apply_patch (allowed_by call "apply_patch" h e) step _ _ env p)
              (λ _.
                Observed-if (call.name == "search_code") _ _
                  (λ e. kept.search_code (allowed_by call "search_code" h e) step _ _ env p)
                  (λ _.
                    Observed-if (call.name == "list_files") _ _
                      (λ e. kept.list_files (allowed_by call "list_files" h e) step _ env p)
                      (λ _.
                        Observed-if (call.name == "run_checks") _ _
                          (λ e.
                            checks_lem call step (check_kind_of (str_arg call "kind" "")) env
                              (allowed_by call "run_checks" h e) p)
                          (λ _. p)))))

    after_tool_lem :
        (l : Locals Env) (call : ToolCall) (obs : ToolObservation)
        → P l.env
        → Leaves
            (after_tool gateway broker budget max_invalid_reasks run_id task attempt l call obs)
    unfolding after_tool
    after_tool_lem l call obs p = Leaves-if obs.blocked _ _ (λ e. p) (λ e. p)

    on_tool_call_lem :
        (l : Locals Env) (call : ToolCall)
        → P l.env
        → Leaves (on_tool_call gateway broker budget max_invalid_reasks run_id task attempt l call)
    unfolding on_tool_call allowed_tool_names
    on_tool_call_lem l call p =
        Leaves-if (reaches_cap budget.max_tool_calls l.usage.tool_calls) _ _ (λ e. p)
          (λ room.
            Leaves-if
              (not (
                contains
                  (allowed_tool_names gateway broker budget max_invalid_reasks run_id task attempt)
                  call.name))
              _ _ (λ e. p)
              (λ e. after_tool_lem _ call _ (
                dispatch_tool_lem call l.step l.env
                  (contains-filter (contains declared_tools) task.allowed_tools call.name
                    (ground arith))
                  p)))

    on_result_lem :
        (l : Locals Env) (error : Option ModelErrorKind) (response : ModelResponse)
        → P l.env
        → Leaves (
            on_result gateway broker budget max_invalid_reasks run_id task attempt l error response)
    unfolding on_result on_response on_invalid
    on_result_lem l (some error) response p = p
    on_result_lem l none (tool_call call) p = on_tool_call_lem l call p
    on_result_lem l none (final_response content) p = p
    on_result_lem l none (escalation_request request) p = p
    on_result_lem l none (invalid_response raw reason) p =
        Leaves-if (ltb max_invalid_reasks (l.invalid_streak + 1)) _ _ (λ e. p) (λ e. p)

    iterate_lem :
        (l : Locals Env)
        → P l.env
        → Leaves (iterate gateway broker budget max_invalid_reasks run_id task attempt l)
    unfolding iterate call_model called
    iterate_lem l p =
        let now = record l { step = l.step + 1 } in
        let request = request_of gateway broker budget max_invalid_reasks run_id task attempt now in
        let answer = gateway.generate request l.env in
        Leaves-if (would_exceed l.usage budget) _ _ (λ e. p)
          (λ room.
            Leaves-if (reaches_cap budget.max_agent_steps l.usage.agent_steps) _ _ (λ e. p)
              (λ e.
                on_result_lem
                  (called gateway broker budget max_invalid_reasks run_id task attempt now answer.0
                    answer.1)
                  answer.0.error answer.0.response (kept.model request l.env p)))

    run_loop_lem :
        (fuel : ℕ) (l : Locals Env) (r : AttemptReport) (after : Env)
        → P l.env
        → run_loop gateway broker budget max_invalid_reasks run_id task attempt fuel l
          ≡ some (r, after)
        → P after
    unfolding run_loop
    run_loop_lem zero l r after p h = cc
    run_loop_lem (suc fuel) l r after p h =
        elim (progress_cases
          (iterate gateway broker budget max_invalid_reasks run_id task attempt l)) [
            | inl (r', env, e) ↦
                let left = subst Leaves e (iterate_lem l p) in
                let is : run_loop gateway broker budget max_invalid_reasks run_id task attempt
                      (suc fuel) l
                    ≡ some (r', env) =
                  rw (run_loop, e) refl in
                let same : env ≡ after = ground arith in subst P same left
            | inr (next, e) ↦
                let is : run_loop gateway broker budget max_invalid_reasks run_id task attempt
                      (suc fuel) l
                    ≡ run_loop gateway broker budget max_invalid_reasks run_id task attempt fuel
                        next =
                  rw (run_loop, e) refl in
                run_loop_lem fuel next r after (subst Leaves e (iterate_lem l p)) (sym is ∙ h)
          ]

-- An attempt touches the world by building its context, by calls of the model, and by calls of the
-- broker with a tool that the task allows, where reading, patching, searching and listing are asked for
-- the files that the task allows, and a check for no files: a property of the world that all of these
-- keep holds after the attempt if it held before, whatever tools the model names.
pub run_effects_allowed :
    {Env : Type 0} (gateway : Gateway Env) (broker : Broker Env) (budget : ModelCallBudget)
    (max_invalid_reasks : ℕ) (run_id : String) (task : ChildTask) (attempt : ℕ)
    (builder : ContextBuilder Env) (state : RunState) (observed : Option (List String))
    (failure : String) (fuel : ℕ) (env : Env) (P : Env → Type 0) (r : AttemptReport) (after : Env)
    → IsKept gateway broker run_id task attempt P builder state
    → P env
    → run gateway broker budget max_invalid_reasks run_id task attempt builder state observed
        failure fuel env
      ≡ some (r, after)
    → P after
unfolding run
run_effects_allowed gateway broker budget max_invalid_reasks run_id task attempt builder state
      observed failure fuel env P r after kept before runs =
    let built = builder.build state observed failure env in
    run_loop_lem gateway broker run_id task attempt P builder state kept budget max_invalid_reasks
      fuel (initial_locals (initial_messages built.0) built.1) r after
      (kept.context observed failure env before) runs
