-- ===== src/PlanCheck/Stable.antt =====
-- The validators of `Plan` in fsasm-first/src/fsasm/models.py after a write to one task.
use fsasm_training_lab.Prelude.{
  String, ◌==◌, ◌≡◌, ◌≢◌, refl, true, List, [], ◌∷◌, All, contains, arith, ok, subst, sym,
  Bool-cases, inl, inr,
}
use fsasm_training_lab.Models.{ChildTask, Plan, task_ids}
use fsasm_training_lab.Domain.Register.{lookup_task, update_task}
use fsasm_training_lab.Domain.Tasks.{KeepsId, Unique-update, task_ids-update}
use fsasm_training_lab.PlanCheck.{dependencies_of, validate_plan}
use fsasm_training_lab.PlanCheck.Graph.{DependsOn, Reaches, HasCycle, stay, onward, cycle}
use fsasm_training_lab.PlanCheck.Accepted.{DependenciesKnown, validate_plan_iff}

abbrev pub KeepsDependencies : (ChildTask → ChildTask) → Type 0
KeepsDependencies f = (t : ChildTask) → (f t).dependencies ≡ t.dependencies

module _ (ts us : List ChildTask)
    (carry : (x y : String) → DependsOn ts x y → DependsOn us x y) where
  Reaches-carry : {x y : String} → Reaches ts x y → Reaches us x y
  Reaches-carry stay = stay
  Reaches-carry (onward d r) = onward (carry _ _ d) (Reaches-carry r)

  HasCycle-carry : HasCycle ts → HasCycle us
  HasCycle-carry (cycle r d) = cycle (Reaches-carry r) (carry _ _ d)

module _ (id : String) (f : ChildTask → ChildTask) (keeps : KeepsId f)
    (same : KeepsDependencies f) where
  dependencies_of-update :
      (ts : List ChildTask) (x : String)
      → dependencies_of (update_task id f ts) x ≡ dependencies_of ts x
  unfolding dependencies_of lookup_task update_task
  dependencies_of-update [] x = refl
  dependencies_of-update (t ∷ ts) x = ground (arith, dependencies_of-update ts x, keeps t, same t)

  DependenciesKnown-update :
      (ids : List String) (ts : List ChildTask)
      → DependenciesKnown ids ts
      → DependenciesKnown ids (update_task id f ts)
  unfolding update_task
  DependenciesKnown-update ids [] h = tt
  DependenciesKnown-update ids (t ∷ ts) h = elim (Bool-cases (t.task_id == id)) [
    | inl e ↦ rw e (subst (All (λ (d : String). contains ids d ≡ true)) (sym (same t)) h.0, h.1)
    | inr e ↦ rw e (h.0, DependenciesKnown-update ids ts h.1)
  ]

  nonempty-update : (ts : List ChildTask) → ts ≢ [] → update_task id f ts ≢ []
  unfolding update_task
  nonempty-update [] h = absurd (h refl)
  nonempty-update (t ∷ ts) h = elim (Bool-cases (t.task_id == id)) [
    | inl e ↦ rw e (λ q. cc)
    | inr e ↦ rw e (λ q. cc)
  ]

  -- A write that keeps the id and the dependencies of its task keeps a plan acceptable.
  pub validate_plan-update :
      (p : Plan)
      → validate_plan p ≡ ok tt
      → validate_plan (record p { tasks = update_task id f p.tasks }) ≡ ok tt
  validate_plan-update p h =
      let w = (validate_plan_iff p).0 h in
      let after = record p { tasks = update_task id f p.tasks } in
      (validate_plan_iff after).1 (record {
        nonempty = nonempty-update p.tasks w.nonempty;
        unique = Unique-update id f p.tasks keeps w.unique;
        known =
            subst (λ ids. DependenciesKnown ids (update_task id f p.tasks))
              (sym (task_ids-update f keeps id p.tasks))
              (DependenciesKnown-update (task_ids p.tasks) p.tasks w.known);
        acyclic = λ c. w.acyclic (
            HasCycle-carry (update_task id f p.tasks) p.tasks
              (λ x y d. subst (λ ds. contains ds y ≡ true) (dependencies_of-update p.tasks x) d) c);
      })
