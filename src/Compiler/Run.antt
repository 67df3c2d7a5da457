-- ===== src/Compiler/Run.antt =====
-- A plan of fsasm-first/src/fsasm/task_compiler.py, driven by `run_plan` of
-- fsasm-first/src/fsasm/runtime.py.
use fsasm_training_lab.Prelude.{
  ℕ, suc, ◌*◌, ◌<◌, ◌≤◌, String, ◌≡◌, ◌≢◌, refl, false, none, List, [], ◌∷◌, all, length, All-map,
  contains, arith, inl, ok,
}
use fsasm_training_lab.Models.{
  ChildTask, TaskStatus, RunStatus, RunState, Plan, task_ids, retry_count_remaining,
}
use fsasm_training_lab.Domain.Coherent.{IsCoherent, TaskOk}
use fsasm_training_lab.Domain.Coherent.Preserved.{IsFresh}
use fsasm_training_lab.Persistence.Disk.{Codec, no_fault}
use fsasm_training_lab.Repository.Commit.{load}
use fsasm_training_lab.Repository.Lifecycle.{new_run_state}
use fsasm_training_lab.Runtime.{World, Session}
use fsasm_training_lab.Runtime.Weight.{weigh, weight}
use fsasm_training_lab.Runtime.Ends.{Finishes, run_plan_ends}
use fsasm_training_lab.Compiler.{
  TaskProposal, PlannerProposal, RunConstraints, GoalInput, generate_run_id, compile_plan,
}
use fsasm_training_lab.Compiler.Compiled.{CompiledFrom}
use fsasm_training_lab.Compiler.Accepted.{compile_plan-IsCompiledPlan}

-- A new run after `RunPlanned`, at its revision.
abbrev pub planned_state : String → String → String → ℕ → Plan → RunState
planned_state created updated goal revision plan =
    record (new_run_state created updated plan.run_id goal plan) {
      status = RunStatus.planned;
      revision = revision;
    }

weight_bounded :
    (constraints : RunConstraints) (run_id : String) (seq : ℕ) (ps : List TaskProposal)
    (ts : List ChildTask)
    → CompiledFrom constraints run_id seq ps ts
    → weigh ts ≤ 4 * length ps
unfolding weigh weight retry_count_remaining
weight_bounded constraints run_id seq [] [] h = omega arith
weight_bounded constraints run_id seq (p ∷ ps) (t ∷ ts) (h, hs) =
    let few = h.few_attempts in
    let rest = weight_bounded constraints run_id (suc seq) ps ts hs in rw h.pending (omega arith)
weight_bounded constraints run_id seq [] (t ∷ ts) h = absurd h
weight_bounded constraints run_id seq (p ∷ ps) [] h = absurd h

planned-IsCoherent :
    (created updated goal : String) (revision : ℕ) (p : Plan)
    → IsFresh p
    → IsCoherent (planned_state created updated goal revision p)
unfolding contains
planned-IsCoherent created updated goal revision p fresh = record {
  own_plan = refl;
  unique = fresh.unique;
  tasks_ok =
      All-map (λ (t : ChildTask). t.status ≡ TaskStatus.pending) (TaskOk none [] [] [])
        (λ t e. record {
          running_active = λ h. ground arith;
          completed_passed = λ h. cc;
          failed_failed = λ h. cc;
          waiting = λ h. cc;
        })
        p.tasks fresh.pending;
  lists_ok = record {
    active_known = refl;
    completed_known = tt;
    failed_known = tt;
    waiting_known = tt;
    waiting_once = tt;
    gate_ok = tt;
    failed_closed = λ h. refl;
    created_idle = λ h. cc;
  };
}

some_open : (ts : List ChildTask) → ts ≢ [] → all (contains []) (task_ids ts) ≡ false
unfolding contains
some_open [] h = absurd (h refl)
some_open (t ∷ ts) h = refl

-- The plan of a compiled proposal with fewer than 250 tasks, as a run that is planned and saved,
-- is taken to its end by `run_plan` with the 1000 iterations of its default, on a disk whose writes
-- succeed and whatever the stub decides.
pub compiled_run_ends :
    (c : Codec) (world : World) (session : Session (c.Text)) (uuid4 : String) (input : GoalInput)
    (proposal : PlannerProposal) (plan : Plan) (created updated : String) (revision : ℕ)
    → ((k : ℕ) → world.fault k ≡ no_fault)
    → compile_plan uuid4 input proposal ≡ ok plan
    → length proposal.tasks < 250
    → load c plan.run_id session.disk ≡ ok (planned_state created updated plan.goal revision plan)
    → Finishes c world 1000 (planned_state created updated plan.goal revision plan) session
compiled_run_ends c world session uuid4 input proposal plan created updated revision writes compiled
      small loaded =
    let is = compile_plan-IsCompiledPlan uuid4 input proposal plan compiled in
    let few =
      weight_bounded input.constraints (generate_run_id uuid4 input) 1 proposal.tasks plan.tasks
        is.tasks in
    run_plan_ends c world 1000 session (planned_state created updated plan.goal revision plan)
      writes loaded (planned-IsCoherent created updated plan.goal revision plan is.fresh) (inl refl)
      refl refl (some_open plan.tasks is.well_formed.nonempty) (omega arith)
