-- ===== src/Compiler/Graph.antt =====
-- The tasks that fsasm-first/src/fsasm/task_compiler.py makes have unique ids, and dependencies that
-- are known and form no cycle.
use fsasm_training_lab.Prelude.{
  ℕ, zero, suc, ◌+◌, ◌<◌, ◌≤◌, String, ◌==◌, ◌≡◌, ◌≢◌, refl, true, some, List, [], ◌∷◌, All, map,
  length, contains, arith, inl, inr, ◌∙◌, Bool-cases, Option-cases, sym, subst, ap, ==→≡, ≡→==,
  nat_eq,
}
use fsasm_training_lab.Models.{ChildTask, task_id_for, task_ids}
use fsasm_training_lab.Domain.Register.{lookup_task}
use fsasm_training_lab.Domain.Tasks.{Unique, lookup-id}
use fsasm_training_lab.PlanCheck.{dependencies_of}
use fsasm_training_lab.PlanCheck.Graph.{DependsOn, HasCycle, ChainsEnd, ends, ChainsEnd-acyclic}
use fsasm_training_lab.PlanCheck.Accepted.{DependenciesKnown}
use fsasm_training_lab.Compiler.{ℤ, pos, negsuc, TaskProposal, RunConstraints}
use fsasm_training_lab.Compiler.Ids.{task_id_for-injective}
use fsasm_training_lab.Compiler.Compiled.{IsEarlier, dependency_id, IsCompiled, CompiledFrom}

module _ (constraints : RunConstraints) (run_id : String) where
  later_apart :
      (m seq : ℕ) (ps : List TaskProposal) (ts : List ChildTask)
      → CompiledFrom constraints run_id seq ps ts
      → m < seq
      → All (λ (u : ChildTask). u.task_id ≢ task_id_for run_id m) ts
  later_apart m seq [] [] h less = tt
  later_apart m seq (p ∷ ps) (t ∷ ts) (h, hs) less = (
    (λ e. let same = task_id_for-injective run_id seq m (sym h.named ∙ e) in omega arith),
    later_apart m (suc seq) ps ts hs (omega arith),
  )
  later_apart m seq [] (t ∷ ts) h less = absurd h
  later_apart m seq (p ∷ ps) [] h less = absurd h

  pub CompiledFrom-Unique :
      (seq : ℕ) (ps : List TaskProposal) (ts : List ChildTask)
      → CompiledFrom constraints run_id seq ps ts
      → Unique ts
  CompiledFrom-Unique seq [] [] h = tt
  CompiledFrom-Unique seq (p ∷ ps) (t ∷ ts) (h, hs) = (
    subst (λ k. All (λ (u : ChildTask). u.task_id ≢ k) ts) (sym h.named)
        (later_apart seq (suc seq) ps ts hs (omega arith)),
    CompiledFrom-Unique (suc seq) ps ts hs,
  )
  CompiledFrom-Unique seq [] (t ∷ ts) h = absurd h
  CompiledFrom-Unique seq (p ∷ ps) [] h = absurd h

  id_present :
      (n seq : ℕ) (ps : List TaskProposal) (ts : List ChildTask)
      → CompiledFrom constraints run_id seq ps ts
      → seq ≤ n
      → n < seq + length ts
      → contains (task_ids ts) (task_id_for run_id n) ≡ true
  unfolding contains
  id_present n seq [] [] h low high = absurd (omega arith)
  id_present n seq (p ∷ ps) (t ∷ ts) (h, hs) low high = elim (Bool-cases (nat_eq n seq)) [
    | inl e ↦
        let same : n ≡ seq = ground arith in
        let first =
          ≡→== t.task_id (task_id_for run_id n) (h.named ∙ ap (task_id_for run_id) (sym same)) in
        rw first refl
    | inr e ↦
        let later = id_present n (suc seq) ps ts hs (ground arith) (omega arith) in ground arith
  ]
  id_present n seq [] (t ∷ ts) h low high = absurd h
  id_present n seq (p ∷ ps) [] h low high = absurd h

  names_known :
      (ids : List String) (seq : ℕ) (ds : List ℤ)
      → ((n : ℕ) → 1 ≤ n → n < seq → contains ids (task_id_for run_id n) ≡ true)
      → All (IsEarlier seq) ds
      → All (λ (d : String). contains ids d ≡ true) (map (dependency_id run_id) ds)
  names_known ids seq [] known h = tt
  names_known ids seq (pos n ∷ ds) known (h, hs) =
      (known n h.0 h.1, names_known ids seq ds known hs)
  names_known ids seq (negsuc n ∷ ds) known (h, hs) = absurd h

  dependencies_known :
      (ids : List String) (seq : ℕ) (ps : List TaskProposal) (ts : List ChildTask)
      → CompiledFrom constraints run_id seq ps ts
      → ((n : ℕ) → 1 ≤ n → n < seq + length ts → contains ids (task_id_for run_id n) ≡ true)
      → DependenciesKnown ids ts
  dependencies_known ids seq [] [] h known = tt
  dependencies_known ids seq (p ∷ ps) (t ∷ ts) (h, hs) known = (
    subst (All (λ (d : String). contains ids d ≡ true)) (sym h.depends) (
        names_known ids seq p.dependencies (λ n low high. known n low (omega arith))
          h.fits.earlier),
    dependencies_known ids (suc seq) ps ts hs (λ n low high. known n low (omega arith)),
  )
  dependencies_known ids seq [] (t ∷ ts) h known = absurd h
  dependencies_known ids seq (p ∷ ps) [] h known = absurd h

  pub CompiledFrom-known :
      (ps : List TaskProposal) (ts : List ChildTask)
      → CompiledFrom constraints run_id 1 ps ts
      → DependenciesKnown (task_ids ts) ts
  CompiledFrom-known ps ts h =
      dependencies_known (task_ids ts) 1 ps ts h (λ n low high. id_present n 1 ps ts h low high)

  IsCompiled-at :
      (x : String) (t : ChildTask) (seq : ℕ) (ps : List TaskProposal) (ts : List ChildTask)
      → CompiledFrom constraints run_id seq ps ts
      → lookup_task x ts ≡ some t
      → (n : ℕ) × (p : TaskProposal) × IsCompiled constraints run_id n p t
  unfolding lookup_task
  IsCompiled-at x t seq [] [] h found = cc
  IsCompiled-at x t seq (p ∷ ps) (u ∷ ts) (h, hs) found = elim (Bool-cases (u.task_id == x)) [
    | inl e ↦
        let same : u ≡ t = ground arith in
        (seq, p, subst (IsCompiled constraints run_id seq p) same h)
    | inr e ↦ IsCompiled-at x t (suc seq) ps ts hs (ground arith)
  ]
  IsCompiled-at x t seq [] (u ∷ ts) h found = absurd h
  IsCompiled-at x t seq (p ∷ ps) [] h found = absurd h

  earlier_name :
      (seq : ℕ) (y : String) (ds : List ℤ)
      → All (IsEarlier seq) ds
      → contains (map (dependency_id run_id) ds) y ≡ true
      → (m : ℕ) × (m < seq) × (y ≡ task_id_for run_id m)
  unfolding contains
  earlier_name seq y [] h q = cc
  earlier_name seq y (negsuc n ∷ ds) (h, hs) q = absurd h
  earlier_name seq y (pos n ∷ ds) (h, hs) q = elim (Bool-cases (task_id_for run_id n == y)) [
    | inl e ↦ (n, h.1, sym (==→≡ (task_id_for run_id n) y e))
    | inr e ↦ earlier_name seq y ds hs (ground arith)
  ]

  module _ (ps : List TaskProposal) (ts : List ChildTask)
      (compiled : CompiledFrom constraints run_id 1 ps ts) where
    step_back :
        (n : ℕ) (y : String)
        → DependsOn ts (task_id_for run_id n) y
        → (m : ℕ) × (m < n) × (y ≡ task_id_for run_id m)
    unfolding dependencies_of contains
    step_back n y d = elim (Option-cases (lookup_task (task_id_for run_id n) ts)) [
      | inl e ↦ absurd (ground arith)
      | inr (t, e) ↦
          let (k, p, c) = IsCompiled-at (task_id_for run_id n) t 1 ps ts compiled e in
          let same : k ≡ n =
            task_id_for-injective run_id k n
              (sym c.named ∙ lookup-id (task_id_for run_id n) ts t e) in
          let here : contains t.dependencies y ≡ true = ground arith in
          let (m, less, is) =
            earlier_name k y p.dependencies c.fits.earlier
              (subst (λ ds. contains ds y ≡ true) c.depends here) in
          (m, omega arith, is)
    ]

    chains_below : (b n : ℕ) → n < b → ChainsEnd ts (task_id_for run_id n)
    chains_below zero n h = absurd (omega arith)
    chains_below (suc b) n h = ends (λ y d.
        let (m, less, is) = step_back n y d in
        subst (ChainsEnd ts) (sym is) (chains_below b m (omega arith)))

    chains_end : (x : String) → ChainsEnd ts x
    unfolding dependencies_of contains
    chains_end x = elim (Option-cases (lookup_task x ts)) [
      | inl e ↦ ends (λ y d. absurd (ground arith))
      | inr (t, e) ↦
          let (k, p, c) = IsCompiled-at x t 1 ps ts compiled e in
          subst (ChainsEnd ts) (sym c.named ∙ lookup-id x ts t e)
            (chains_below (suc k) k (omega arith))
    ]

    pub CompiledFrom-acyclic : ¬ (HasCycle ts)
    CompiledFrom-acyclic = ChainsEnd-acyclic ts chains_end
