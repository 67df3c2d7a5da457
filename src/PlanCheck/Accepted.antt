-- ===== src/PlanCheck/Accepted.antt =====
-- Which plans the validators of `Plan` in fsasm-first/src/fsasm/models.py accept.
use fsasm_training_lab.Prelude.{
  suc, String, ◌==◌, ◌≡◌, ◌≢◌, ◌↔◌, refl, Bool, true, false, none, List, [], ◌∷◌, length, All, all,
  contains, arith, ◌⊎◌, inl, inr, ==→≡, ==→≢, ==_refl, Bool-cases, Result, ok, err, Option-cases,
  ◌>>=◌, ap,
}
use fsasm_training_lab.Models.{ChildTask, task_ids, Plan, distinct}
use fsasm_training_lab.Domain.Register.{lookup_task}
use fsasm_training_lab.Domain.Tasks.{Unique, All-lookup}
use fsasm_training_lab.Domain.Coherent.Validated.{Unique-distinct}
use fsasm_training_lab.PlanCheck.{
  PlanError, dependency_cycle, Coloring, all_white, dependencies_of, is_empty_list, find_cycle,
  dependencies_exist, validate_plan,
}
use fsasm_training_lab.PlanCheck.Graph.{DependsOn, HasCycle, ChainsEnd, ends, ChainsEnd-acyclic}
use fsasm_training_lab.PlanCheck.Colors.{whites_bounded}
use fsasm_training_lab.PlanCheck.Search.{Searched, visit_roots_lem, All-black}

all_iff : {A : Type 0} (p : A → Bool) (xs : List A) → (all p xs ≡ true) ↔ All (λ x. p x ≡ true) xs
all_iff p [] = (λ h. tt, λ h. refl)
all_iff p (x ∷ xs) =
    (λ h. (ground arith, (all_iff p xs).0 (ground arith)), λ h. ground (arith, (all_iff p xs).1))

apart :
    (id : String) (ts : List ChildTask)
    → contains (task_ids ts) id ≡ false
    → All (λ (u : ChildTask). u.task_id ≢ id) ts
unfolding contains
apart id [] h = tt
apart id (t ∷ ts) h = (==→≢ t.task_id id (ground arith), apart id ts (ground arith))

distinct-Unique : (ts : List ChildTask) → distinct (task_ids ts) ≡ true → Unique ts
distinct-Unique [] h = tt
distinct-Unique (t ∷ ts) h = (apart t.task_id ts (ground arith), distinct-Unique ts (ground arith))

-- Every dependency of a task is a task of the list with these ids.
abbrev pub DependenciesKnown : List String → List ChildTask → Type 0
DependenciesKnown ids ts =
    All (λ (t : ChildTask). All (λ (d : String). contains ids d ≡ true) t.dependencies) ts

dependencies_exist_iff :
    (ids : List String) (ts : List ChildTask)
    → (dependencies_exist ids ts ≡ true) ↔ DependenciesKnown ids ts
unfolding dependencies_exist
dependencies_exist_iff ids [] = (λ h. tt, λ h. refl)
dependencies_exist_iff ids (t ∷ ts) =
    let now = all_iff (contains ids) t.dependencies in
    let later = dependencies_exist_iff ids ts in
    (
      λ h. (now.0 (ground arith), later.0 (ground arith)),
      λ h. ground (arith, now.1 h.0, later.1 h.1),
    )

All-contains :
    (ids ds : List String) (y : String)
    → All (λ (d : String). contains ids d ≡ true) ds
    → contains ds y ≡ true
    → contains ids y ≡ true
unfolding contains
All-contains ids [] y h q = cc
All-contains ids (d ∷ ds) y h q = elim (Bool-cases (d == y)) [
  | inl e ↦ let same = ==→≡ d y e in rw (← same) h.0
  | inr e ↦ All-contains ids ds y h.1 (ground arith)
]

pub DependenciesKnown-DependsOn :
    (ids : List String) (ts : List ChildTask)
    → DependenciesKnown ids ts
    → (x y : String) → DependsOn ts x y
    → contains ids y ≡ true
unfolding dependencies_of contains
DependenciesKnown-DependsOn ids ts known x y d = elim (Option-cases (lookup_task x ts)) [
  | inl e ↦ absurd (ground arith)
  | inr (t, e) ↦
      All-contains ids t.dependencies y
        (All-lookup (λ (t : ChildTask). All (λ (d : String). contains ids d ≡ true) t.dependencies)
          x ts t known e)
        (ground arith)
]

All-known :
    (ids all_ids : List String)
    → ((x : String) → contains ids x ≡ true → contains all_ids x ≡ true)
    → All (λ (k : String). contains all_ids k ≡ true) ids
unfolding contains
All-known [] all_ids h = tt
All-known (i ∷ ids) all_ids h =
    (h i (rw (==_refl i) refl), All-known ids all_ids (λ x q. h x (ground arith)))

length-task_ids : (ts : List ChildTask) → length (task_ids ts) ≡ length ts
length-task_ids [] = refl
length-task_ids (t ∷ ts) = ap suc (length-task_ids ts)

find_cycle_lem :
    (ts : List ChildTask)
    (known : (x y : String) → DependsOn ts x y → contains (task_ids ts) y ≡ true)
    → Searched ts (task_ids ts) known (all_white (task_ids ts)) (task_ids ts) (find_cycle ts)
unfolding find_cycle all_white
find_cycle_lem ts known =
    visit_roots_lem ts (task_ids ts) known (length ts) (task_ids ts) (all_white (task_ids ts))
      (All-known (task_ids ts) (task_ids ts) (λ x q. q))
      (record {
        black_ends = λ k e. absurd (ground arith);
        colored = λ k h e. ground arith;
        shallow =
            omega
              (arith, whites_bounded (task_ids ts) (all_white (task_ids ts)), length-task_ids ts);
      })
      (λ k e. ground arith)

unknown_none :
    (ts : List ChildTask) (x : String) → contains (task_ids ts) x ≡ false → lookup_task x ts ≡ none
unfolding contains lookup_task
unknown_none [] x h = refl
unknown_none (t ∷ ts) x h = ground (arith, unknown_none ts x)

unknown-ChainsEnd :
    (ts : List ChildTask) (x : String) → contains (task_ids ts) x ≡ false → ChainsEnd ts x
unfolding dependencies_of contains
unknown-ChainsEnd ts x h = let gone = unknown_none ts x h in ends (λ y d. absurd (ground arith))

abbrev Outcome : List ChildTask → Type 0
Outcome ts =
    ((c : Coloring) × (find_cycle ts ≡ ok c) × ((x : String) → ChainsEnd ts x))
    ⊎ ((find_cycle ts ≡ err dependency_cycle) × HasCycle ts)

outcome_of :
    (ts : List ChildTask)
    (known : (x y : String) → DependsOn ts x y → contains (task_ids ts) y ≡ true)
    (r : Result PlanError Coloring)
    → find_cycle ts ≡ r
    → Searched ts (task_ids ts) known (all_white (task_ids ts)) (task_ids ts) r
    → Outcome ts
outcome_of ts known (ok c) e (f, done, now) = inl (
  c,
  e,
  λ x. elim (Bool-cases (contains (task_ids ts) x)) [
    | inl q ↦ now x (All-black ts (task_ids ts) known c (task_ids ts) x done q)
    | inr q ↦ unknown-ChainsEnd ts x q
  ],
)
outcome_of ts known (err dependency_cycle) e h = inr (e, h)
outcome_of ts known (err _) e h = absurd h

find_cycle-cases : (ts : List ChildTask) → DependenciesKnown (task_ids ts) ts → Outcome ts
find_cycle-cases ts h =
    let known = DependenciesKnown-DependsOn (task_ids ts) ts h in
    outcome_of ts known (find_cycle ts) refl (find_cycle_lem ts known)

-- What a plan needs to be accepted.
pub record IsWellFormed (p : Plan) : Type 0 where
  pub nonempty : p.tasks ≢ []
  pub unique : Unique p.tasks
  pub known : DependenciesKnown (task_ids p.tasks) p.tasks
  pub acyclic : ¬ (HasCycle p.tasks)

nonempty_iff : (ts : List ChildTask) → (is_empty_list ts ≡ false) ↔ (ts ≢ [])
nonempty_iff [] = (λ h. cc, λ h. absurd (h refl))
nonempty_iff (t ∷ ts) = (λ h e. cc, λ h. refl)

-- The three tests before the search.
passes_tests :
    (p : Plan)
    → p.tasks ≢ []
    → Unique p.tasks
    → DependenciesKnown (task_ids p.tasks) p.tasks
    → validate_plan p ≡ (find_cycle p.tasks >>= λ searched. ok tt)
unfolding validate_plan
passes_tests p nonempty unique known =
    rw
      (
        (nonempty_iff p.tasks).1 nonempty,
        Unique-distinct p.tasks unique,
        (dependencies_exist_iff (task_ids p.tasks) p.tasks).1 known,
      )
      refl

tests_passed :
    (p : Plan)
    → validate_plan p ≡ ok tt
    → (p.tasks ≢ []) × Unique p.tasks × DependenciesKnown (task_ids p.tasks) p.tasks
unfolding validate_plan
tests_passed p h = (
  (nonempty_iff p.tasks).0 (ground arith),
  distinct-Unique p.tasks (ground arith),
  (dependencies_exist_iff (task_ids p.tasks) p.tasks).0 (ground arith),
)

-- A plan is accepted if and only if it has a task, no two of its tasks have one id, every
-- dependency is the id of one of its tasks, and no task depends on itself through one or more steps.
pub validate_plan_iff : (p : Plan) → (validate_plan p ≡ ok tt) ↔ IsWellFormed p
validate_plan_iff p = (
  (λ h.
      let (nonempty, unique, known) = tests_passed p h in
      record {
        nonempty = nonempty;
        unique = unique;
        known = known;
        acyclic = elim (find_cycle-cases p.tasks known) [
          | inl (c, e, all_end) ↦ ChainsEnd-acyclic p.tasks all_end
          | inr (e, has) ↦ let q = passes_tests p nonempty unique known in absurd (ground arith)
        ];
      }),
  λ w. elim (find_cycle-cases p.tasks w.known) [
    | inl (c, e, all_end) ↦ rw (passes_tests p w.nonempty w.unique w.known, e) refl
    | inr (e, has) ↦ absurd (w.acyclic has)
  ],
)

-- In an accepted plan every chain of dependencies ends, from every id.
pub validated-ChainsEnd : (p : Plan) → validate_plan p ≡ ok tt → (x : String) → ChainsEnd p.tasks x
validated-ChainsEnd p h =
    let (nonempty, unique, known) = tests_passed p h in
    elim (find_cycle-cases p.tasks known) [
      | inl (c, e, all_end) ↦ all_end
      | inr (e, has) ↦ let q = passes_tests p nonempty unique known in absurd (ground arith)
    ]

-- A plan of which the validators have passed every test before the search is accepted or has a
-- cycle: the search meets no unknown id and returns within as many levels as the plan has tasks.
pub search_returns :
    (p : Plan)
    → p.tasks ≢ []
    → Unique p.tasks
    → DependenciesKnown (task_ids p.tasks) p.tasks
    → (validate_plan p ≡ ok tt) ⊎ ((validate_plan p ≡ err dependency_cycle) × HasCycle p.tasks)
search_returns p nonempty unique known = elim (find_cycle-cases p.tasks known) [
  | inl (c, e, all_end) ↦ inl (rw (passes_tests p nonempty unique known, e) refl)
  | inr (e, has) ↦ inr (rw (passes_tests p nonempty unique known, e) refl, has)
]
