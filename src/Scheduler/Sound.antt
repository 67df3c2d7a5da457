-- ===== src/Scheduler/Sound.antt =====
-- What an answer of `schedule` of fsasm-first/src/fsasm/scheduler.py says of the run.
use fsasm_training_lab.Prelude.{
  String, ◌≡◌, ◌≢◌, ◌↔◌, refl, Bool, true, false, none, List, [], ◌∷◌, all, filter, contains, arith,
  All, All-map, ◌⊎◌, inl, inr, Bool-cases,
}
use fsasm_training_lab.Models.{TaskStatus, RunStatus, ChildTask, RunState}
use fsasm_training_lab.Domain.Register.{tasks_of}
use fsasm_training_lab.Scheduler.Order.{sort, In, In-sort, IsLeast, sort-IsLeast, key_le}
use fsasm_training_lab.Scheduler.Query.{
  schedule, schedule_tasks, is_candidate, no_candidate, chosen, first_or,
  all_required_tasks_complete,
}

-- PENDING or READY, with every dependency PASSED according to the run.
abbrev pub IsEligible : List String → ChildTask → Type 0
IsEligible completed t =
    ((t.status ≡ TaskStatus.pending) ⊎ (t.status ≡ TaskStatus.ready))
    × All (λ d. contains completed d ≡ true) t.dependencies

-- A run that waits for nothing and is not over.
abbrev pub IsIdle : RunState → Type 0
IsIdle s =
    (s.active_task_id ≡ none)
    × (s.status ≢ RunStatus.needs_human)
    × (s.status ≢ RunStatus.passed)
    × (s.status ≢ RunStatus.failed)

satisfied→All :
    (completed xs : List String)
    → all (contains completed) xs ≡ true
    → All (λ d. contains completed d ≡ true) xs
satisfied→All completed [] h = tt
satisfied→All completed (x ∷ xs) h = (ground arith, satisfied→All completed xs (ground arith))

All→satisfied :
    (completed xs : List String)
    → All (λ d. contains completed d ≡ true) xs
    → all (contains completed) xs ≡ true
All→satisfied completed [] h = refl
All→satisfied completed (x ∷ xs) h = ground (arith, All→satisfied completed xs h.1)

pub candidate_iff :
    (completed : List String) (t : ChildTask)
    → (is_candidate completed t ≡ true) ↔ IsEligible completed t
unfolding is_candidate
candidate_iff completed t = (
  λ h. (ground arith, satisfied→All completed t.dependencies (ground arith)),
  λ h. let deps = All→satisfied completed t.dependencies h.1 in ground arith,
)

In-filter :
    (p : ChildTask → Bool) (t : ChildTask) (ts : List ChildTask)
    → In t (filter p ts)
    → In t ts × (p t ≡ true)
In-filter p t [] h = absurd h
In-filter p t (u ∷ us) h = elim (Bool-cases (p u)) [
  | inr e ↦ let (i, q) = In-filter p t us (rw e at h) in (inr i, q)
  | inl e ↦ elim (rw e at h) [
    | inl same ↦ (inl same, rw (← same) e)
    | inr later ↦ let (i, q) = In-filter p t us later in (inr i, q)
  ]
]

All-filter :
    (P : ChildTask → Type 0) (p : ChildTask → Bool) (ts : List ChildTask)
    → All P (filter p ts)
    → All (λ t. p t ≡ true → P t) ts
All-filter P p [] h = tt
All-filter P p (t ∷ ts) h = elim (Bool-cases (p t)) [
  | inl e ↦ let k = rw e at h in (λ _. k.0, All-filter P p ts k.1)
  | inr e ↦ (λ q. cc, All-filter P p ts (rw e at h))
]

not_chosen : (s : RunState) (ts : List ChildTask) (t : ChildTask) → no_candidate s ts ≢ chosen t
unfolding no_candidate
not_chosen s ts t h = ground arith

-- The candidate, out of the sorted list of candidates.
picked :
    (s : RunState) (ts cs : List ChildTask) (t : ChildTask)
    → first_or (no_candidate s ts) cs ≡ chosen t
    → (rest : List ChildTask) × (cs ≡ t ∷ rest)
picked s ts [] t h = absurd (not_chosen s ts t h)
picked s ts (c ∷ cs) t h = (cs, ground arith)

pub tasks_sound :
    (s : RunState) (ts : List ChildTask) (t : ChildTask)
    → schedule_tasks s ts ≡ chosen t
    → In t ts
      × IsEligible s.completed_task_ids t
      × All (λ u. (key_le t u ≡ true) ⊎ (¬ (IsEligible s.completed_task_ids u))) ts
unfolding schedule_tasks
tasks_sound s ts t h =
    let test = is_candidate s.completed_task_ids in
    let (rest, sorted) = picked s ts (sort (filter test ts)) t h in
    let (inside, eligible) =
      In-filter test t ts (In-sort t (filter test ts) (rw sorted (inl refl))) in
    let least = rw sorted at (sort-IsLeast (filter test ts)) in
    (
      inside,
      (candidate_iff s.completed_task_ids t).0 eligible,
      All-map _ _
          (λ u k. elim (Bool-cases (test u)) [
            | inl e ↦ inl (k e)
            | inr ne ↦ inr (λ e. let both = (candidate_iff s.completed_task_ids u).1 e in cc)
          ])
          ts (All-filter (λ u. key_le t u ≡ true) test ts least),
    )

-- The guards before the candidates are looked at.
schedule_inv :
    (s : RunState) (t : ChildTask)
    → schedule s ≡ chosen t
    → IsIdle s × (schedule_tasks s (tasks_of s) ≡ chosen t)
unfolding schedule
schedule_inv s t h = ground arith

-- If `schedule` chooses a task, then the run has no active task, is at no gate and not over; the
-- task is in the plan, PENDING or READY, with every dependency completed; and its key, the sequence
-- and then the id, is the least among the tasks of the plan of which this holds.
pub schedule_sound :
    (s : RunState) (t : ChildTask)
    → schedule s ≡ chosen t
    → IsIdle s
      × In t (tasks_of s)
      × IsEligible s.completed_task_ids t
      × All (λ u. (key_le t u ≡ true) ⊎ (¬ (IsEligible s.completed_task_ids u))) (tasks_of s)
schedule_sound s t h =
    let (idle, chosen_there) = schedule_inv s t h in
    let (inside, eligible, least) = tasks_sound s (tasks_of s) t chosen_there in
    (idle, inside, eligible, least)

filter-has :
    (p : ChildTask → Bool) (u : ChildTask) (ts : List ChildTask)
    → In u ts
    → p u ≡ true
    → filter p ts ≢ []
filter-has p u [] i e h = i
filter-has p u (t ∷ ts) i e h = elim (Bool-cases (p t)) [
  | inl q ↦ let k = rw q at h in cc
  | inr q ↦ elim i [
    | inl same ↦ let r = rw (← same) at e in cc
    | inr later ↦ filter-has p u ts later e (rw q at h)
  ]
]

sorted_first :
    (s : RunState) (ts cs : List ChildTask)
    → cs ≢ []
    → (t : ChildTask) × (first_or (no_candidate s ts) (sort cs) ≡ chosen t)
unfolding sort
sorted_first s ts [] ne = absurd (ne refl)
sorted_first s ts (c ∷ cs) ne =
    first_chosen (sort (c ∷ cs)) (λ e. IsLeast-cons (sort-IsLeast (c ∷ cs)) e)
  where
    IsLeast-cons : IsLeast (sort (c ∷ cs)) (c ∷ cs) → sort (c ∷ cs) ≢ []
    IsLeast-cons k e = let k' = rw e at k in cc

    first_chosen :
        (xs : List ChildTask)
        → xs ≢ []
        → (t : ChildTask) × (first_or (no_candidate s ts) xs ≡ chosen t)
    first_chosen [] ne' = absurd (ne' refl)
    first_chosen (x ∷ xs) ne' = (x, refl)

not_complete :
    (ids : List String) (u : ChildTask) (ts : List ChildTask)
    → In u ts
    → contains ids u.task_id ≡ false
    → all (λ (t : ChildTask). contains ids t.task_id) ts ≡ false
not_complete ids u [] i h = absurd i
not_complete ids u (t ∷ ts) (inl same) h = rw (same, h)
not_complete ids u (t ∷ ts) (inr later) h = ground (arith, not_complete ids u ts later h)

-- In an idle run, whenever some task of the plan is PENDING or READY, not yet completed, and has
-- every dependency completed, `schedule` chooses a task: it answers neither BLOCKED nor ALL_COMPLETE.
pub schedule_progress :
    (s : RunState) (u : ChildTask)
    → IsIdle s
    → In u (tasks_of s)
    → contains s.completed_task_ids u.task_id ≡ false
    → IsEligible s.completed_task_ids u
    → (t : ChildTask) × (schedule s ≡ chosen t)
unfolding schedule
schedule_progress s u idle inside open_ eligible =
    let test = is_candidate s.completed_task_ids in
    let has =
      filter-has test u (tasks_of s) inside ((candidate_iff s.completed_task_ids u).1 eligible) in
    let (t, e) = sorted_first s (tasks_of s) (filter test (tasks_of s)) has in
    let more = not_complete s.completed_task_ids u (tasks_of s) inside open_ in
    (t, unfold schedule_tasks all_required_tasks_complete in ground arith)
