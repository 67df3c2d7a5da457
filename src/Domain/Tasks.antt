-- ===== src/Domain/Tasks.antt =====
-- Reads and writes of one task of a list: what a write through `_find_task` of
-- fsasm-first/src/fsasm/domain.py changes, and what it leaves alone.
use fsasm_training_lab.Prelude.{
  String, ◌==◌, ◌≡◌, ◌≢◌, refl, true, some, List, [], ◌∷◌, All, arith, eq_iff, ==→≡, ==→≢, subst,
  sym, ap, ◌∙◌, Bool-cases, inl, inr,
}
use fsasm_training_lab.Models.{ChildTask, task_ids}
use fsasm_training_lab.Domain.Register.{lookup_task, update_task, has_task}

-- No two tasks have one id.
abbrev pub Unique : List ChildTask → Type 0
Unique [] = Unit
Unique (t ∷ ts) = All (λ (u : ChildTask). u.task_id ≢ t.task_id) ts × Unique ts

-- A write that does not touch the id.
abbrev pub KeepsId : (ChildTask → ChildTask) → Type 0
KeepsId f = (t : ChildTask) → (f t).task_id ≡ t.task_id

pub lookup-id :
    (id : String) (ts : List ChildTask) (t : ChildTask)
    → lookup_task id ts ≡ some t
    → t.task_id ≡ id
unfolding lookup_task
lookup-id id [] t h = cc
lookup-id id (u ∷ ts) t h = elim (Bool-cases (u.task_id == id)) [
  | inl e ↦ ground (arith, ==→≡ u.task_id id e)
  | inr e ↦ lookup-id id ts t (ground arith)
]

pub lookup-has_task :
    (id : String) (ts : List ChildTask) (t : ChildTask)
    → lookup_task id ts ≡ some t
    → has_task ts id ≡ true
unfolding lookup_task
lookup-has_task id [] t h = cc
lookup-has_task id (u ∷ ts) t h = ground (arith, lookup-has_task id ts t)

module _ (f : ChildTask → ChildTask) (keeps : KeepsId f) where
  pub task_ids-update :
      (id : String) (ts : List ChildTask) → task_ids (update_task id f ts) ≡ task_ids ts
  unfolding update_task
  task_ids-update id [] = refl
  task_ids-update id (u ∷ ts) = ground (arith, task_ids-update id ts, keeps u)

  pub lookup-update_self :
      (id : String) (ts : List ChildTask) (t : ChildTask)
      → lookup_task id ts ≡ some t
      → lookup_task id (update_task id f ts) ≡ some (f t)
  unfolding lookup_task update_task
  lookup-update_self id [] t h = cc
  lookup-update_self id (u ∷ ts) t h = ground (arith, lookup-update_self id ts t, keeps u)

  pub lookup-update_ne :
      (id j : String) (ts : List ChildTask)
      → id ≢ j
      → lookup_task j (update_task id f ts) ≡ lookup_task j ts
  unfolding lookup_task update_task
  lookup-update_ne id j [] h = refl
  lookup-update_ne id j (u ∷ ts) h =
      ground (arith, lookup-update_ne id j ts h, keeps u, eq_iff u.task_id id, eq_iff u.task_id j)

pub All-lookup :
    (P : ChildTask → Type 0) (id : String) (ts : List ChildTask) (t : ChildTask)
    → All P ts
    → lookup_task id ts ≡ some t
    → P t
unfolding lookup_task
All-lookup P id [] t h e = cc
All-lookup P id (u ∷ ts) t h e = elim (Bool-cases (u.task_id == id)) [
  | inl q ↦ let same : u ≡ t = ground arith in rw (← same) h.0
  | inr q ↦ All-lookup P id ts t h.1 (ground arith)
]

-- A write at an id, in a list with unique ids, seen from a predicate of every task.
module _ {P Q : ChildTask → Type 0} (id : String) (f : ChildTask → ChildTask) (task : ChildTask)
    (others : (t : ChildTask) → t.task_id ≢ id → P t → Q t) (written : Q (f task)) where
  All-others :
      (ts : List ChildTask) → All (λ (u : ChildTask). u.task_id ≢ id) ts → All P ts → All Q ts
  All-others [] ne h = tt
  All-others (t ∷ ts) ne h = (others t ne.0 h.0, All-others ts ne.1 h.1)

  pub All-update :
      (ts : List ChildTask)
      → Unique ts
      → lookup_task id ts ≡ some task
      → All P ts
      → All Q (update_task id f ts)
  unfolding update_task lookup_task
  All-update [] uniq found h = tt
  All-update (t ∷ ts) uniq found h = elim (Bool-cases (t.task_id == id)) [
    | inl e ↦
        let same = ==→≡ t.task_id id e in
        let apart = subst (λ k. All (λ (u : ChildTask). u.task_id ≢ k) ts) same uniq.0 in
        let it : t ≡ task = ground arith in rw e (rw (ap f it) written, All-others ts apart h.1)
    | inr e ↦ rw e (others t (==→≢ t.task_id id e) h.0, All-update ts uniq.1 (ground arith) h.1)
  ]

All-ne-update :
    (id : String) (f : ChildTask → ChildTask) (k : String) (ts : List ChildTask)
    → KeepsId f
    → All (λ (u : ChildTask). u.task_id ≢ k) ts
    → All (λ (u : ChildTask). u.task_id ≢ k) (update_task id f ts)
unfolding update_task
All-ne-update id f k [] keeps h = tt
All-ne-update id f k (t ∷ ts) keeps h = elim (Bool-cases (t.task_id == id)) [
  | inl e ↦ rw e ((λ q. h.0 (sym (keeps t) ∙ q)), h.1)
  | inr e ↦ rw e (h.0, All-ne-update id f k ts keeps h.1)
]

pub Unique-update :
    (id : String) (f : ChildTask → ChildTask) (ts : List ChildTask)
    → KeepsId f
    → Unique ts
    → Unique (update_task id f ts)
unfolding update_task
Unique-update id f [] keeps u = tt
Unique-update id f (t ∷ ts) keeps u = elim (Bool-cases (t.task_id == id)) [
  | inl e ↦ rw e (subst (λ k. All (λ (u : ChildTask). u.task_id ≢ k) ts) (sym (keeps t)) u.0, u.1)
  | inr e ↦ rw e (All-ne-update id f t.task_id ts keeps u.0, Unique-update id f ts keeps u.1)
]
