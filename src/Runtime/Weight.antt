-- ===== src/Runtime/Weight.antt =====
-- How much work a plan has left for the driver of fsasm-first/src/fsasm/runtime.py: for each task the
-- attempts that it has left, and one more until it has passed.
use fsasm_training_lab.Prelude.{
  ℕ, ◌+◌, ◌<◌, ◌≤◌, String, ◌==◌, ◌≡◌, ◌≢◌, true, some, List, [], ◌∷◌, if◌then◌else◌, arith,
  Bool-cases, inl, inr,
}
use fsasm_training_lab.Models.{
  TaskStatus, task_status_eq, ChildTask, retry_count_remaining, can_retry,
}
use fsasm_training_lab.Domain.Register.{lookup_task, update_task, set_status}
use fsasm_training_lab.Domain.Apply.{start_attempt, set_refs}

unfoldable pub weight : ChildTask → ℕ
unfolding retry_count_remaining
weight t = retry_count_remaining t + (if task_status_eq t.status TaskStatus.passed then 0 else 1)

unfoldable pub weigh : List ChildTask → ℕ
weigh [] = 0
weigh (t ∷ ts) = weight t + weigh ts

-- A write at an id changes the weight of that task.
pub weigh-update :
    (id : String) (f : ChildTask → ChildTask) (ts : List ChildTask) (t : ChildTask)
    → lookup_task id ts ≡ some t
    → weigh (update_task id f ts) + weight t ≡ weigh ts + weight (f t)
unfolding weigh lookup_task update_task
weigh-update id f [] t h = cc
weigh-update id f (u ∷ ts) t h = elim (Bool-cases (u.task_id == id)) [
  | inl e ↦ let same : u ≡ t = ground arith in rw e (rw same (omega arith))
  | inr e ↦
      let later : lookup_task id ts ≡ some t = ground arith in
      rw e (omega (arith, weigh-update id f ts t later))
]

-- An attempt that starts may use up the last one; passing ends the task.
pub weight-start :
    (t : ChildTask) → t.status ≡ TaskStatus.ready → weight (start_attempt t) ≤ weight t
unfolding weight
weight-start t h = ground arith

pub weight-readied :
    (t : ChildTask)
    → t.status ≢ TaskStatus.passed
    → weight (set_status TaskStatus.ready t) ≡ weight t
unfolding weight
weight-readied t h = ground arith

pub weight-evidenced : (refs : List String) (t : ChildTask) → weight (set_refs refs t) ≡ weight t
unfolding weight
weight-evidenced refs t = ground arith

pub weight-passed :
    (t : ChildTask)
    → t.status ≡ TaskStatus.running
    → weight (set_status TaskStatus.passed t) < weight t
unfolding weight
weight-passed t h = ground arith

pub weight-failed :
    (t : ChildTask)
    → t.status ≡ TaskStatus.running
    → weight (set_status TaskStatus.failed t) ≡ weight t
unfolding weight
weight-failed t h = ground arith

-- A started attempt that leaves another one has used one up.
pub weight-spent :
    (t : ChildTask)
    → t.status ≡ TaskStatus.ready
    → can_retry (start_attempt t) ≡ true
    → weight (start_attempt t) < weight t
unfolding weight can_retry
weight-spent t h k = ground arith
