-- ===== src/Runtime/Query.antt =====
-- What the scheduler answers between two turns of `run_plan` in fsasm-first/src/fsasm/runtime.py, and how a
-- run that has ended shows at its tasks.
use fsasm_training_lab.Prelude.{
  String, ◌≡◌, ◌≢◌, refl, true, false, Option, none, some, List, [], ◌∷◌, all, filter, contains,
  arith, ◌⊎◌, inl, inr, ◌∙◌, Bool-cases, Option-cases, All,
}
use fsasm_training_lab.Models.{
  TaskStatus, RunStatus, ChildTask, RunState, Plan, task_ids, GateOccurrence,
}
use fsasm_training_lab.Domain.Register.{tasks_of}
use fsasm_training_lab.Domain.Coherent.{IsCoherent, TaskOk}
use fsasm_training_lab.Scheduler.Order.{sort}
use fsasm_training_lab.Scheduler.Query.{
  ScheduleResult, schedule, schedule_tasks, no_candidate, is_candidate, is_remaining, is_empty,
  first_or, chosen, answer, blocked, all_complete, all_required_tasks_complete,
}
use fsasm_training_lab.Runtime.Round.{Going, Done, Ended, required_ids}

-- What is left to do counts the tasks that are not completed, where no id is failed or waiting.
none_remaining :
    (s : RunState) (ts : List ChildTask)
    → s.failed_task_ids ≡ []
    → s.needs_human_task_ids ≡ []
    → is_empty (filter (is_remaining s) ts) ≡ true
    → all (contains s.completed_task_ids) (task_ids ts) ≡ true
unfolding contains
none_remaining s [] nothing nobody h = refl
none_remaining s (t ∷ ts) nothing nobody h =
    elim (Bool-cases (contains s.completed_task_ids t.task_id)) [
      | inl e ↦ ground (arith, none_remaining s ts nothing nobody)
      | inr e ↦ absurd (ground arith)
    ]

no_candidate_blocked :
    (s : RunState) (ts : List ChildTask)
    → s.failed_task_ids ≡ []
    → s.needs_human_task_ids ≡ []
    → all (contains s.completed_task_ids) (task_ids ts) ≡ false
    → no_candidate s ts ≡ answer blocked
unfolding no_candidate
no_candidate_blocked s ts nothing nobody h = ground (arith, none_remaining s ts nothing nobody)

first_or_cases :
    (r : ScheduleResult) (ts : List ChildTask)
    → ((t : ChildTask) × (first_or r ts ≡ chosen t)) ⊎ (first_or r ts ≡ r)
first_or_cases r [] = inr refl
first_or_cases r (t ∷ ts) = inl (t, refl)

Going-tasks :
    (s : RunState) (p : Plan) → s.plan ≡ some p → Going s → schedule s ≡ schedule_tasks s p.tasks
unfolding schedule all_required_tasks_complete
Going-tasks s p planned g = ground (arith, required_ids s.completed_task_ids p.tasks)

-- Between two turns the scheduler chooses a task or finds the plan blocked.
pub Going-schedule :
    (s : RunState) (p : Plan)
    → s.plan ≡ some p
    → s.failed_task_ids ≡ []
    → Going s
    → ((t : ChildTask) × (schedule s ≡ chosen t)) ⊎ (schedule s ≡ answer blocked)
unfolding schedule_tasks
Going-schedule s p planned nothing g =
    elim (first_or_cases (no_candidate s p.tasks)
      (sort (filter (is_candidate s.completed_task_ids) p.tasks))) [
        | inl (t, e) ↦ inl (t, Going-tasks s p planned g ∙ e)
        | inr e ↦ inr (
            Going-tasks s p planned g
            ∙ e
            ∙ no_candidate_blocked s p.tasks nothing g.nobody (let k = g.open_ids in ground arith))
      ]

pub Done-schedule :
    (s : RunState) (p : Plan) → s.plan ≡ some p → Done s → schedule s ≡ answer all_complete
unfolding schedule
Done-schedule s p planned d = ground arith

all_passed :
    (a : Option String) (xs ys zs : List String) (ts : List ChildTask)
    → all (contains xs) (task_ids ts) ≡ true
    → All (TaskOk a xs ys zs) ts
    → All (λ (t : ChildTask). t.status ≡ TaskStatus.passed) ts
all_passed a xs ys zs [] h k = tt
all_passed a xs ys zs (t ∷ ts) h k =
    (k.0.completed_passed (ground arith), all_passed a xs ys zs ts (ground arith) k.1)

-- How the run ended, read at the status of the outcome and at the tasks.
pub Ended-tasks :
    (s : RunState) (status : RunStatus)
    → status ≡ s.status
    → IsCoherent s
    → Ended s
    → ((status ≡ RunStatus.passed)
        × All (λ (t : ChildTask). t.status ≡ TaskStatus.passed) (tasks_of s))
      ⊎ (status ≡ RunStatus.failed)
      ⊎ ((status ≡ RunStatus.needs_human) × ((g : GateOccurrence) × (s.gate ≡ some g)))
Ended-tasks s status same good (inl (h, k)) = inl (
  same ∙ h,
  all_passed s.active_task_id s.completed_task_ids s.failed_task_ids s.needs_human_task_ids
      (tasks_of s) k good.tasks_ok,
)
Ended-tasks s status same good (inr (inl h)) = inr (inl (same ∙ h))
Ended-tasks s status same good (inr (inr (h, k))) = inr (inr (same ∙ h, k))

pub has_plan : (s : RunState) → s.plan ≢ none → (p : Plan) × (s.plan ≡ some p)
has_plan s ne = elim (Option-cases s.plan) [ inl e ↦ absurd (ne e) | inr r ↦ r ]

pub Going-plan : (s : RunState) → Going s → s.plan ≢ none
Going-plan s g e = let k = g.open_ids in ground arith
