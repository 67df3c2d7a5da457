-- ===== src/PlanCheck/Progress.antt =====
-- The scheduler of fsasm-first/src/fsasm/scheduler.py on a plan that the validators of models.py have accepted.
use fsasm_training_lab.Prelude.{
  String, ◌==◌, ◌≡◌, refl, true, false, some, List, [], ◌∷◌, All, contains, arith, ok, ◌⊎◌, inl,
  inr, Bool-cases, ==_refl,
}
use fsasm_training_lab.Models.{TaskStatus, ChildTask, RunState, Plan, task_ids}
use fsasm_training_lab.Domain.Register.{lookup_task, tasks_of}
use fsasm_training_lab.Domain.Tasks.{All-lookup, lookup-id}
use fsasm_training_lab.Scheduler.Order.{In}
use fsasm_training_lab.Scheduler.Query.{schedule, chosen}
use fsasm_training_lab.Scheduler.Sound.{IsEligible, IsIdle, schedule_progress}
use fsasm_training_lab.PlanCheck.{validate_plan, dependencies_of}
use fsasm_training_lab.PlanCheck.Graph.{DependsOn, ChainsEnd, ends}
use fsasm_training_lab.PlanCheck.Accepted.{
  validate_plan_iff, validated-ChainsEnd, DependenciesKnown-DependsOn,
}

lookup-In :
    (id : String) (ts : List ChildTask) (t : ChildTask) → lookup_task id ts ≡ some t → In t ts
unfolding lookup_task
lookup-In id [] t h = cc
lookup-In id (u ∷ ts) t h = elim (Bool-cases (u.task_id == id)) [
  | inl e ↦ inl (ground arith)
  | inr e ↦ inr (lookup-In id ts t (ground arith))
]

known_found :
    (ts : List ChildTask) (id : String)
    → contains (task_ids ts) id ≡ true
    → (t : ChildTask) × (lookup_task id ts ≡ some t)
unfolding lookup_task contains
known_found [] id h = cc
known_found (t ∷ ts) id h = elim (Bool-cases (t.task_id == id)) [
  | inl e ↦ (t, rw e refl)
  | inr e ↦ let (u, found) = known_found ts id (ground arith) in (u, rw e found)
]

-- Every dependency is completed, or one is not.
dependency_cases :
    (completed ds : List String)
    → All (λ (d : String). contains completed d ≡ true) ds
      ⊎ ((d : String) × (contains ds d ≡ true) × (contains completed d ≡ false))
unfolding contains
dependency_cases completed [] = inl tt
dependency_cases completed (d ∷ ds) = elim (Bool-cases (contains completed d)) [
  | inr e ↦ inr (d, rw (==_refl d) refl, e)
  | inl e ↦ elim (dependency_cases completed ds) [
    | inl rest ↦ inl (e, rest)
    | inr (x, inside, open_) ↦ inr (x, ground arith, open_)
  ]
]

-- A task that is not completed can be attempted: it is PENDING or READY.
abbrev pub IsOpen : List String → ChildTask → Type 0
IsOpen completed t =
    contains completed t.task_id ≡ false
    → (t.status ≡ TaskStatus.pending) ⊎ (t.status ≡ TaskStatus.ready)

module _ (completed : List String) (ts : List ChildTask)
    (known : (x y : String) → DependsOn ts x y → contains (task_ids ts) y ≡ true)
    (attemptable : All (IsOpen completed) ts) where
  -- Back along the dependencies that are not completed there is a task whose dependencies are.
  IsEligible-behind :
      (x : String) (t : ChildTask)
      → ChainsEnd ts x
      → lookup_task x ts ≡ some t
      → contains completed x ≡ false
      → (u : ChildTask) × In u ts × (contains completed u.task_id ≡ false) × IsEligible completed u
  unfolding dependencies_of
  IsEligible-behind x t (ends further_back) found open_ =
      let named = lookup-id x ts t found in
      let still : contains completed t.task_id ≡ false = rw named open_ in
      elim (dependency_cases completed t.dependencies) [
        | inl satisfied ↦ (
          t,
          lookup-In x ts t found,
          still,
          (All-lookup (IsOpen completed) x ts t attemptable found still, satisfied),
        )
        | inr (d, inside, missing) ↦
            let here : DependsOn ts x d = rw (dependencies_of, found) inside in
            let (u, found_d) = known_found ts d (known x d here) in
            IsEligible-behind d u (further_back d here) found_d missing
      ]

first_of : (ts : List ChildTask) (t : ChildTask) → In t ts → contains (task_ids ts) t.task_id ≡ true
unfolding contains
first_of [] t h = absurd h
first_of (u ∷ ts) t (inl same) = rw same (rw (==_refl t.task_id) refl)
first_of (u ∷ ts) t (inr later) = ground (arith, first_of ts t later)

-- On a plan that its validators have accepted, in an idle run in which every task that is not
-- completed is PENDING or READY, `schedule` chooses a task as long as one is not completed: such a
-- run is never BLOCKED.
pub validated_plan_advances :
    (s : RunState) (p : Plan) (t : ChildTask)
    → s.plan ≡ some p
    → validate_plan p ≡ ok tt
    → IsIdle s
    → All (IsOpen s.completed_task_ids) p.tasks
    → In t p.tasks
    → contains s.completed_task_ids t.task_id ≡ false
    → (u : ChildTask) × (schedule s ≡ chosen u)
validated_plan_advances s p t planned valid idle attemptable inside open_ =
    let w = (validate_plan_iff p).0 valid in
    let known = DependenciesKnown-DependsOn (task_ids p.tasks) p.tasks w.known in
    let (first, found) = known_found p.tasks t.task_id (first_of p.tasks t inside) in
    let (u, among, still, eligible) =
      IsEligible-behind s.completed_task_ids p.tasks known attemptable t.task_id first
        (validated-ChainsEnd p valid t.task_id) found open_ in
    let here : In u (tasks_of s) = rw planned among in
    schedule_progress s u idle here still eligible
