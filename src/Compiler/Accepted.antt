-- ===== src/Compiler/Accepted.antt =====
-- Which proposals `compile_plan` of fsasm-first/src/fsasm/task_compiler.py accepts, and what its plans are.
use fsasm_training_lab.Prelude.{
  ℕ, suc, ◌≤◌, ◌<◌, String, ◌≡◌, ◌≢◌, ◌↔◌, refl, true, false, Option, none, some, List, [], ◌∷◌,
  All, length, arith, ◌⊎◌, inl, inr, Bool-cases, subst, ok, err,
}
use fsasm_training_lab.Models.{ChildTask, TaskStatus, Plan}
use fsasm_training_lab.Domain.Coherent.Preserved.{IsFresh}
use fsasm_training_lab.PlanCheck.{validate_plan}
use fsasm_training_lab.PlanCheck.Accepted.{IsWellFormed, validate_plan_iff}
use fsasm_training_lab.Compiler.{
  TaskProposal, PlannerProposal, RunConstraints, GoalInput, CompileError, generate_run_id,
  compile_plan, new_plan, no_tasks, is_oversized, empty_proposal, plan_size_overflow,
}
use fsasm_training_lab.Compiler.Compiled.{
  FitsFrom, RefusedFrom, RefusedFrom-misfits, CompiledFrom, compile_tasks_cases,
}
use fsasm_training_lab.Compiler.Graph.{
  CompiledFrom-Unique, CompiledFrom-known, CompiledFrom-acyclic,
}

-- What intake allows: some tasks, no more than the cap, each within its limits at its position.
pub record IsAdmissible (constraints : RunConstraints) (ps : List TaskProposal) : Type 0 where
  pub nonempty : ps ≢ []
  pub bounded : (cap : ℕ) → constraints.max_tasks ≡ some cap → length ps ≤ cap
  pub fits : FitsFrom constraints 1 ps

-- Why a proposal is refused, with the error: it is empty, it is over the cap, or one of its tasks is
-- the first that does not keep to its limits.
abbrev pub IsRefused : RunConstraints → List TaskProposal → CompileError → Type 0
IsRefused constraints ps e =
    ((e ≡ empty_proposal) × (ps ≡ []))
    ⊎ ((e ≡ plan_size_overflow)
        × (ps ≢ [])
        × (cap : ℕ) × (constraints.max_tasks ≡ some cap)
        × (cap < length ps))
    ⊎ ((ps ≢ [])
        × ((cap : ℕ) → constraints.max_tasks ≡ some cap → length ps ≤ cap)
        × RefusedFrom constraints 1 ps e)

IsRefused-misfits :
    (constraints : RunConstraints) (ps : List TaskProposal) (e : CompileError)
    → IsRefused constraints ps e
    → ¬ (IsAdmissible constraints ps)
IsRefused-misfits constraints ps e (inl h) a = a.nonempty h.1
IsRefused-misfits constraints ps e (inr (inl (q, ne, cap, is, over))) a =
    let small = a.bounded cap is in absurd (ground arith)
IsRefused-misfits constraints ps e (inr (inr (ne, bounded, h))) a =
    RefusedFrom-misfits constraints 1 ps e h a.fits

CompiledFrom-nonempty :
    (constraints : RunConstraints) (run_id : String) (seq : ℕ) (ps : List TaskProposal)
    (ts : List ChildTask)
    → CompiledFrom constraints run_id seq ps ts
    → ps ≢ []
    → ts ≢ []
CompiledFrom-nonempty constraints run_id seq [] ts h ne = absurd (ne refl)
CompiledFrom-nonempty constraints run_id seq (p ∷ ps) (t ∷ ts) h ne = λ e. cc
CompiledFrom-nonempty constraints run_id seq (p ∷ ps) [] h ne = absurd h

CompiledFrom-fits :
    (constraints : RunConstraints) (run_id : String) (seq : ℕ) (ps : List TaskProposal)
    (ts : List ChildTask)
    → CompiledFrom constraints run_id seq ps ts
    → FitsFrom constraints seq ps
CompiledFrom-fits constraints run_id seq [] [] h = tt
CompiledFrom-fits constraints run_id seq (p ∷ ps) (t ∷ ts) (h, hs) =
    (h.fits, CompiledFrom-fits constraints run_id (suc seq) ps ts hs)
CompiledFrom-fits constraints run_id seq [] (t ∷ ts) h = absurd h
CompiledFrom-fits constraints run_id seq (p ∷ ps) [] h = absurd h

CompiledFrom-pending :
    (constraints : RunConstraints) (run_id : String) (seq : ℕ) (ps : List TaskProposal)
    (ts : List ChildTask)
    → CompiledFrom constraints run_id seq ps ts
    → All (λ (t : ChildTask). t.status ≡ TaskStatus.pending) ts
CompiledFrom-pending constraints run_id seq [] [] h = tt
CompiledFrom-pending constraints run_id seq (p ∷ ps) (t ∷ ts) (h, hs) =
    (h.pending, CompiledFrom-pending constraints run_id (suc seq) ps ts hs)
CompiledFrom-pending constraints run_id seq [] (t ∷ ts) h = absurd h
CompiledFrom-pending constraints run_id seq (p ∷ ps) [] h = absurd h

no_tasks_iff : (ps : List TaskProposal) → (no_tasks ps ≡ false) ↔ (ps ≢ [])
no_tasks_iff [] = (λ h. cc, λ h. absurd (h refl))
no_tasks_iff (p ∷ ps) = (λ h e. cc, λ h. refl)

oversized_iff :
    (o : Option ℕ) (n : ℕ) → (is_oversized o n ≡ false) ↔ ((cap : ℕ) → o ≡ some cap → n ≤ cap)
oversized_iff none n = (λ h cap e. cc, λ h. refl)
oversized_iff (some k) n =
    (λ h cap e. let same : k ≡ cap = cc in ground arith, λ h. let small = h k refl in ground arith)

oversized_inv :
    (o : Option ℕ) (n : ℕ) → is_oversized o n ≡ true → (cap : ℕ) × (o ≡ some cap) × (cap < n)
oversized_inv none n h = cc
oversized_inv (some k) n h = (k, refl, ground arith)

no_tasks_inv : (ps : List TaskProposal) → no_tasks ps ≡ true → ps ≡ []
no_tasks_inv [] h = refl
no_tasks_inv (p ∷ ps) h = cc

module _ (uuid4 : String) (input : GoalInput) (proposal : PlannerProposal) where
  abbrev run_id : String
  run_id = generate_run_id uuid4 input

  built_plan :
      (ts : List ChildTask)
      → proposal.tasks ≢ []
      → CompiledFrom input.constraints run_id 1 proposal.tasks ts
      → IsWellFormed (new_plan run_id input.goal ts)
  built_plan ts ne h = record {
    nonempty = CompiledFrom-nonempty input.constraints run_id 1 proposal.tasks ts h ne;
    unique = CompiledFrom-Unique input.constraints run_id 1 proposal.tasks ts h;
    known = CompiledFrom-known input.constraints run_id proposal.tasks ts h;
    acyclic = CompiledFrom-acyclic input.constraints run_id proposal.tasks ts h;
  }

  -- What a plan of the compiler is.
  pub record IsCompiledPlan (plan : Plan) : Type 0 where
    pub owned : plan.run_id ≡ run_id
    pub goal : plan.goal ≡ input.goal
    pub tasks : CompiledFrom input.constraints run_id 1 proposal.tasks plan.tasks
    pub well_formed : IsWellFormed plan
    pub validated : validate_plan plan ≡ ok tt
    pub fresh : IsFresh plan

  compile_plan_cases :
      (IsAdmissible input.constraints proposal.tasks
        × (plan : Plan) × (compile_plan uuid4 input proposal ≡ ok plan)
        × IsCompiledPlan plan)
      ⊎ ((e : CompileError) × (compile_plan uuid4 input proposal ≡ err e)
          × IsRefused input.constraints proposal.tasks e)
  unfolding compile_plan
  compile_plan_cases = elim (Bool-cases (no_tasks proposal.tasks)) [
    | inl e ↦
        inr (empty_proposal, rw (compile_plan, e) refl, inl (refl, no_tasks_inv proposal.tasks e))
    | inr e ↦ elim (Bool-cases (is_oversized input.constraints.max_tasks (length proposal.tasks))) [
      | inl q ↦ inr (
        plan_size_overflow,
        rw (compile_plan, e, q) refl,
        let (cap, is, over) = oversized_inv input.constraints.max_tasks (length proposal.tasks) q in
            inr (inl (refl, (no_tasks_iff proposal.tasks).0 e, cap, is, over)),
      )
      | inr q ↦
          elim (compile_tasks_cases input.constraints run_id (λ n. none) [] 1 proposal.tasks
            (λ n low high. absurd (omega arith)) (λ n low. refl)) [
              | inr (why, fails, bad) ↦ inr (
                why,
                rw (compile_plan, e, q, fails) refl,
                inr (
                    inr (
                      (no_tasks_iff proposal.tasks).0 e,
                      (oversized_iff input.constraints.max_tasks (length proposal.tasks)).0 q,
                      bad,
                    )),
              )
              | inl (ts, done, compiled) ↦
                  let ne = (no_tasks_iff proposal.tasks).0 e in
                  let plan = new_plan run_id input.goal ts in
                  let well = built_plan ts ne compiled in
                  let valid = (validate_plan_iff plan).1 well in
                  inl (
                    record {
                      nonempty = ne;
                      bounded =
                          (oversized_iff input.constraints.max_tasks (length proposal.tasks)).0 q;
                      fits =
                          CompiledFrom-fits input.constraints run_id 1 proposal.tasks ts compiled;
                    },
                    plan,
                    rw (compile_plan, e, q, done, valid) refl,
                    record {
                      owned = refl;
                      goal = refl;
                      tasks = compiled;
                      well_formed = well;
                      validated = valid;
                      fresh = record {
                        unique = well.unique;
                        pending =
                            CompiledFrom-pending input.constraints run_id 1 proposal.tasks ts
                              compiled;
                      };
                    },
                  )
            ]
    ]
  ]

-- A proposal is compiled into a plan if and only if it has a task, no more tasks than the intake
-- cap, and for the task at each position every dependency is an earlier position counted from 1,
-- every proposed file is approved at intake, and the type of verification is one of the runtime's.
-- A proposal that is refused raises the error of its first fault: that it is empty, that it is over
-- the cap, or, for the first task that does not keep to its limits, that a dependency is not an
-- earlier position, else that a file is not approved, else that the type is unknown. So a repeated or
-- unknown sequence and a refused plan never come up.
pub compile_plan_iff :
    (uuid4 : String) (input : GoalInput) (proposal : PlannerProposal)
    → (((plan : Plan) × (compile_plan uuid4 input proposal ≡ ok plan))
        ↔ IsAdmissible input.constraints proposal.tasks)
      × ((e : CompileError)
          → compile_plan uuid4 input proposal ≡ err e
          → IsRefused input.constraints proposal.tasks e)
compile_plan_iff uuid4 input proposal = elim (compile_plan_cases uuid4 input proposal) [
  | inl (a, plan, done, is) ↦ ((λ h. a, λ h. (plan, done)), λ e h. absurd (ground arith))
  | inr (e, fails, bad) ↦ (
    (
      λ h. let q = h.1 in absurd (ground arith),
      λ a. absurd (IsRefused-misfits input.constraints proposal.tasks e bad a),
    ),
    λ e' h.
        let same : e ≡ e' = ground arith in
        subst (IsRefused input.constraints proposal.tasks) same bad,
  )
]

-- A compiled plan has the run's id and the goal of the intake. Its tasks correspond to the
-- proposals one by one: the task at a position has the id of that position, is PENDING and
-- unattempted, depends on the ids of the positions that its proposal names, which are earlier, has
-- the proposed files, all approved, and the approved tools, at most three attempts and no more than
-- the intake cap, and the proposed type of verification. The plan passes its validators: no two
-- tasks have one id, every dependency is there, and none leads back to itself.
pub compile_plan-IsCompiledPlan :
    (uuid4 : String) (input : GoalInput) (proposal : PlannerProposal) (plan : Plan)
    → compile_plan uuid4 input proposal ≡ ok plan
    → IsCompiledPlan uuid4 input proposal plan
compile_plan-IsCompiledPlan uuid4 input proposal plan h =
    elim (compile_plan_cases uuid4 input proposal) [
      | inl (a, made, done, is) ↦
          let same : made ≡ plan = ground arith in
          subst (IsCompiledPlan uuid4 input proposal) same is
      | inr (e, fails, bad) ↦ absurd (ground arith)
    ]
