-- ===== src/Domain/Coherent/Ids.antt =====
-- The id lists of the register through an event of fsasm-first/src/fsasm/domain.py: every id that
-- they hold stays the id of a task.
use fsasm_training_lab.Prelude.{
  String, ◌==◌, ◌≡◌, true, some, List, [], ◌∷◌, ◌++◌, arith, contains, append_once, remove,
  Bool-cases, inl, inr,
}
use fsasm_training_lab.Models.{ChildTask, task_ids}
use fsasm_training_lab.Domain.Register.{lookup_task}
use fsasm_training_lab.Domain.Coherent.{Known}

pub Known-append_once :
    (ids xs : List String) (t : String)
    → contains ids t ≡ true
    → Known ids xs
    → Known ids (append_once xs t)
unfolding append_once
Known-append_once ids xs t h k = elim (Bool-cases (contains xs t)) [
  | inl e ↦ rw e k
  | inr e ↦ rw e (snoc xs k)
]
  where
    snoc : (ys : List String) → Known ids ys → Known ids (ys ++ t ∷ [])
    snoc [] k' = (h, tt)
    snoc (y ∷ ys) k' = (k'.0, snoc ys k'.1)

pub Known-remove : (ids xs : List String) (t : String) → Known ids xs → Known ids (remove xs t)
unfolding remove
Known-remove ids [] t k = tt
Known-remove ids (x ∷ xs) t k = elim (Bool-cases (x == t)) [
  | inl e ↦ rw e k.1
  | inr e ↦ rw e (k.0, Known-remove ids xs t k.1)
]

pub lookup-known :
    (t : String) (ts : List ChildTask) (task : ChildTask)
    → lookup_task t ts ≡ some task
    → contains (task_ids ts) t ≡ true
unfolding lookup_task contains
lookup-known t [] task h = cc
lookup-known t (u ∷ ts) task h = ground (arith, lookup-known t ts task)
