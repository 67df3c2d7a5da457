-- ===== src/PlanCheck.antt =====
-- The validators of `Plan` in fsasm-first/src/fsasm/models.py, which run in this order whenever a plan
-- is built: the number of tasks, unique ids, known dependencies, and the depth-first search for a
-- cycle. The search colours ids; an id that the plan does not have has no colour.
pub mod Graph
pub mod Colors
pub mod Search
pub mod Accepted
pub mod Progress
pub mod Stable
use fsasm_training_lab.Prelude.{
  ℕ, zero, suc, String, ◌==◌, Bool, true, false, not, ◌&&◌, Option, none, some, List, [], ◌∷◌,
  length, all, if◌then◌else◌, contains, Result, ok, err, reject_if, ◌>>=◌, ◌>>◌,
}
use fsasm_training_lab.Models.{ChildTask, Plan, task_ids, distinct}
use fsasm_training_lab.Domain.Register.{lookup_task}

pub data PlanError : Type 0 where
  too_few_tasks repeated_ids unknown_dependency dependency_cycle : PlanError
  -- A `KeyError` at `color[nxt]`, and the fuel of the model.
  no_such_key out_of_fuel : PlanError

pub data Color : Type 0 where
  white gray black : Color

abbrev pub Coloring : Type 0
Coloring = String → Option Color

-- `color[node] = c`
abbrev pub paint : String → Color → Coloring → Coloring
paint node c color k = if k == node then some c else color k

-- `adj.get(node, [])`; the ids are unique when the search starts.
unfoldable pub dependencies_of : List ChildTask → String → List String
unfolding lookup_task
dependencies_of ts node = elim (lookup_task node ts) [ none ↦ [] | some t ↦ t.dependencies ]

abbrev pub is_empty_list : List ChildTask → Bool
is_empty_list [] = true
is_empty_list (_ ∷ _) = false

-- The loop over the dependencies of a node, where `go` visits a white one.
unfoldable pub visit_all :
    (String → Coloring → Result PlanError Coloring)
    → List String
    → Coloring
    → Result PlanError Coloring
visit_all go [] color = ok color
visit_all go (nxt ∷ rest) color = elim (color nxt) [
  | none ↦ err no_such_key
  | some white ↦ go nxt color >>= visit_all go rest
  | some gray ↦ err dependency_cycle
  | some black ↦ visit_all go rest color
]

unfoldable pub visit : List ChildTask → ℕ → String → Coloring → Result PlanError Coloring
unfolding visit_all dependencies_of
visit ts zero node color = err out_of_fuel
visit ts (suc fuel) node color = do
  visited ← visit_all (visit ts fuel) (dependencies_of ts node) (paint node gray color)
  ok (paint node black visited)

-- `for tid in adj`
unfoldable pub visit_roots : List ChildTask → ℕ → List String → Coloring → Result PlanError Coloring
unfolding visit
visit_roots ts fuel [] color = ok color
visit_roots ts fuel (tid ∷ rest) color = elim (color tid) [
  | none ↦ err no_such_key
  | some white ↦ visit ts fuel tid color >>= visit_roots ts fuel rest
  | some gray ↦ visit_roots ts fuel rest color
  | some black ↦ visit_roots ts fuel rest color
]

unfoldable pub all_white : List String → Coloring
unfolding contains
all_white ids k = if contains ids k then some white else none

-- A visit goes no deeper than there are tasks.
unfoldable pub find_cycle : List ChildTask → Result PlanError Coloring
unfolding visit_roots all_white
find_cycle ts = visit_roots ts (length ts) (task_ids ts) (all_white (task_ids ts))

unfoldable pub dependencies_exist : List String → List ChildTask → Bool
unfolding contains
dependencies_exist ids = all (λ (t : ChildTask). all (contains ids) t.dependencies)

unfoldable pub validate_plan : Plan → Result PlanError Unit
unfolding find_cycle dependencies_exist
validate_plan plan = do
  reject_if (is_empty_list plan.tasks) too_few_tasks
  reject_if (not (distinct (task_ids plan.tasks))) repeated_ids
  reject_if (not (dependencies_exist (task_ids plan.tasks) plan.tasks)) unknown_dependency
  searched ← find_cycle plan.tasks
  ok tt
