-- ===== src/Domain/Coherent/Validated.antt =====
-- A coherent snapshot is one that the validators of fsasm-first/src/fsasm/models.py accept.
use fsasm_training_lab.Prelude.{
  String, ◌==◌, ◌≡◌, ◌≢◌, refl, true, false, Option, none, some, List, [], ◌∷◌, arith, ok, All, all,
  All-map, contains, Bool-cases, inl, inr, ==→≡, sym, subst, ◌∙◌, ≡→==, ≢→==, ==_refl,
}
use fsasm_training_lab.Models.{
  TaskStatus, RunStatus, ChildTask, RunState, Plan, GateOccurrence, validate_gate,
  validate_register, validate_with_plan, task_ids, distinct, overlap, validate_run_state,
}
use fsasm_training_lab.Domain.Tasks.{Unique, All-lookup}
use fsasm_training_lab.Domain.Register.{lookup_task, tasks_of, plan_tasks}
use fsasm_training_lab.Domain.Coherent.{Known, IsCoherent, GateOk, OwnPlan, ids_of}
use fsasm_training_lab.Domain.Coherent.Tasks.{TaskOkOf}

absent :
    (k : String) (ts : List ChildTask)
    → All (λ (u : ChildTask). u.task_id ≢ k) ts
    → contains (task_ids ts) k ≡ false
unfolding contains
absent k [] h = refl
absent k (t ∷ ts) h = ground (arith, ≢→== t.task_id k h.0, absent k ts h.1)

pub Unique-distinct : (ts : List ChildTask) → Unique ts → distinct (task_ids ts) ≡ true
Unique-distinct [] u = refl
Unique-distinct (t ∷ ts) u = ground (arith, absent t.task_id ts u.0, Unique-distinct ts u.1)

Known-all : (ids xs : List String) → Known ids xs → all (contains ids) xs ≡ true
Known-all ids [] k = refl
Known-all ids (x ∷ xs) k = ground (arith, Known-all ids xs k.1)

known_task :
    (x : String) (ts : List ChildTask)
    → contains (task_ids ts) x ≡ true
    → (t : ChildTask) × (lookup_task x ts ≡ some t) × (t.task_id ≡ x)
unfolding contains lookup_task
known_task x [] h = cc
known_task x (t ∷ ts) h = elim (Bool-cases (t.task_id == x)) [
  | inl e ↦ (t, rw e, ==→≡ t.task_id x e)
  | inr e ↦ let (u, found, own) = known_task x ts (ground arith) in (u, rw e found, own)
]

weaken : (y : String) (ids xs : List String) → Known ids xs → Known (y ∷ ids) xs
unfolding contains
weaken y ids [] k = tt
weaken y ids (x ∷ xs) k = (ground arith, weaken y ids xs k.1)

Known-self : (xs : List String) → Known xs xs
unfolding contains
Known-self [] = tt
Known-self (x ∷ xs) = (ground (arith, ==_refl x), weaken x xs xs (Known-self xs))

-- Two lists of known ids that put a task into different statuses have no id in common.
module _ (ts : List ChildTask) (a b : TaskStatus) (apart : a ≢ b) (xs ys : List String)
    (is_a : All (λ (t : ChildTask). contains xs t.task_id ≡ true → t.status ≡ a) ts)
    (is_b : All (λ (t : ChildTask). contains ys t.task_id ≡ true → t.status ≡ b) ts) where
  disjoint_at :
      (z : String) → contains (task_ids ts) z ≡ true → contains xs z ≡ true → contains ys z ≡ false
  disjoint_at z known inside = elim (Bool-cases (contains ys z)) [
    | inr e ↦ e
    | inl e ↦
        let (t, found, own) = known_task z ts known in
        let as_a =
          All-lookup (λ (u : ChildTask). contains xs u.task_id ≡ true → u.status ≡ a) z ts t is_a
            found (rw own inside) in
        let as_b =
          All-lookup (λ (u : ChildTask). contains ys u.task_id ≡ true → u.status ≡ b) z ts t is_b
            found (rw own e) in
        absurd (apart (sym as_a ∙ as_b))
  ]

  disjoint : (zs : List String) → Known (task_ids ts) zs → Known xs zs → overlap zs ys ≡ false
  disjoint [] k sub = refl
  disjoint (z ∷ zs) k sub = rw (disjoint_at z k.0 sub.0) (disjoint zs k.1 sub.1)

gate_valid :
    (status : RunStatus) (waiting : List String) (gate : Option GateOccurrence)
    → GateOk status waiting gate
    → validate_gate status waiting gate ≡ ok tt
gate_valid status waiting none k = refl
gate_valid status waiting (some gate) k = ground arith

with_plan_ok :
    (s : RunState) (o : Option Plan)
    → OwnPlan s.run_id o
    → ((p : Plan) → o ≡ some p → validate_register s (task_ids p.tasks) ≡ ok tt)
    → validate_with_plan s o ≡ ok tt
with_plan_ok s none own valid = refl
with_plan_ok s (some p) own valid = rw (≡→== p.run_id s.run_id own) (valid p refl)

register_ok : (s : RunState) → IsCoherent s → validate_register s (ids_of s) ≡ ok tt
register_ok s c =
    let ts = tasks_of s in
    let l = c.lists_ok in
    let done = s.completed_task_ids in
    let failed = s.failed_task_ids in
    let waiting = s.needs_human_task_ids in
    let as_passed = All-map (TaskOkOf s) _ (λ t k. k.completed_passed) ts c.tasks_ok in
    let as_failed = All-map (TaskOkOf s) _ (λ t k. k.failed_failed) ts c.tasks_ok in
    let as_waiting = All-map (TaskOkOf s) _ (λ t k. k.waiting) ts c.tasks_ok in
    let unique = Unique-distinct ts c.unique in
    let k1 = Known-all (ids_of s) done l.completed_known in
    let k2 = Known-all (ids_of s) failed l.failed_known in
    let k3 = Known-all (ids_of s) waiting l.waiting_known in
    let d1 =
      disjoint ts TaskStatus.passed TaskStatus.failed (λ e. cc) done failed as_passed as_failed done
        l.completed_known (Known-self done) in
    let d2 =
      disjoint ts TaskStatus.passed TaskStatus.needs_human (λ e. cc) done waiting as_passed
        as_waiting done l.completed_known (Known-self done) in
    let d3 =
      disjoint ts TaskStatus.failed TaskStatus.needs_human (λ e. cc) failed waiting as_failed
        as_waiting failed l.failed_known (Known-self failed) in
    rw (unique, l.active_known, k1, k2, k3, d1, d2, d3)
      (gate_valid s.status waiting s.gate l.gate_ok)

pub IsCoherent-validates : (s : RunState) → IsCoherent s → validate_run_state s ≡ ok tt
unfolding validate_run_state
IsCoherent-validates s c =
    with_plan_ok s s.plan c.own_plan (λ p e.
      subst (λ o. validate_register s (task_ids (plan_tasks o)) ≡ ok tt) e (register_ok s c))
