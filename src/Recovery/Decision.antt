-- ===== src/Recovery/Decision.antt =====
-- The decisions of `reconcile_attempt` of fsasm-first/src/fsasm/recovery.py.
use fsasm_training_lab.Prelude.{
  String, ◌≡◌, ◌≢◌, ◌↔◌, ◌⊎◌, inl, inr, Option, none, some, [], arith, eq_iff, Option-cases,
  nat_eq_iff, refl,
}
use fsasm_training_lab.Models.{TaskStatus, RunStatus, ChildTask, RunState}
use fsasm_training_lab.Domain.Register.{tasks_of, lookup_task}
use fsasm_training_lab.Recovery.{
  before_effect, effect_applied, ReconcileDecision, verify, stop, OperationBinding, reconcile,
  reconcile_task, reconcile_running, reconcile_attempt,
}

-- The attempt of the binding is the one that is running in the snapshot of a run that is not over.
abbrev pub IsOpen : RunState → OperationBinding → Type 0
IsOpen s b =
    (s.run_id ≡ b.run_id)
    × (s.status ≢ RunStatus.passed)
    × (s.status ≢ RunStatus.failed)
    × ((task : ChildTask) × (lookup_task b.task_id (tasks_of s) ≡ some task)
        × (task.status ≡ TaskStatus.running)
        × (task.attempt ≡ b.attempt))

-- There is something for the verifier to look at: a nonempty artifact, and beyond the bare effect
-- the evidence that it was recorded under.
abbrev pub IsUsable : OperationBinding → Option String → Type 0
IsUsable b observed =
    (b.checkpoint ≢ before_effect)
    × ((content : String) × (observed ≡ some content) × (content ≢ ""))
    × ((b.checkpoint ≡ effect_applied) ⊎ (b.evidence_refs ≢ []))

IsOpen-of :
    (s : RunState) (b : OperationBinding) (observed : Option String)
    → (reconcile s b observed).0 ≢ stop
    → IsOpen s b
unfolding reconcile reconcile_task reconcile_running
IsOpen-of s b observed h = elim (Option-cases (lookup_task b.task_id (tasks_of s))) [
  | inl e ↦ absurd (h (ground arith))
  | inr (task, e) ↦ ground (arith, eq_iff s.run_id b.run_id, nat_eq_iff task.attempt b.attempt)
]

decision_cases : (d : ReconcileDecision) → (d ≡ stop) ⊎ (d ≢ stop)
decision_cases d = ground arith

IsUsable-of :
    (s : RunState) (b : OperationBinding) (observed : Option String)
    → (reconcile s b observed).0 ≡ verify
    → IsUsable b observed
unfolding reconcile reconcile_task reconcile_running
IsUsable-of s b none h = elim (Option-cases (lookup_task b.task_id (tasks_of s))) [
  | inl e ↦ ground arith
  | inr (task, e) ↦ ground arith
]
IsUsable-of s b (some content) h = elim (Option-cases (lookup_task b.task_id (tasks_of s))) [
  | inl e ↦ ground arith
  | inr (task, e) ↦ (ground arith, (content, refl, ground (arith, eq_iff content "")), ground arith)
]

verify_if :
    (s : RunState) (b : OperationBinding) (observed : Option String)
    → IsOpen s b
    → IsUsable b observed
    → (reconcile s b observed).0 ≡ verify
unfolding reconcile reconcile_task reconcile_running
verify_if s b observed (run, np, nf, (task, found, running, att)) (nb, (content, there, ne), refs) =
    ground (arith, eq_iff s.run_id b.run_id, nat_eq_iff task.attempt b.attempt, eq_iff content "")

retry_if :
    (s : RunState) (b : OperationBinding) (observed : Option String)
    → IsOpen s b
    → (reconcile s b observed).0 ≢ stop
unfolding reconcile reconcile_task reconcile_running
retry_if s b observed (run, np, nf, (task, found, running, att)) =
    ground (arith, eq_iff s.run_id b.run_id, nat_eq_iff task.attempt b.attempt)

-- `reconcile_attempt` asks for verification exactly when the binding's attempt is running in the
-- snapshot of its own unfinished run and there is a nonempty artifact for it, with evidence unless
-- the checkpoint is the bare effect.
pub reconcile_verify_iff :
    (s : RunState) (b : OperationBinding) (observed : Option String)
    → ((reconcile_attempt s b observed).decision ≡ verify) ↔ (IsOpen s b × IsUsable b observed)
unfolding reconcile_attempt
reconcile_verify_iff s b observed = (
  λ h. (IsOpen-of s b observed (λ q. cc), IsUsable-of s b observed h),
  λ (o, u). verify_if s b observed o u,
)

-- It stops exactly when the snapshot already owns the outcome: no artifact and no checkpoint makes a
-- stale attempt run again, and none stops an attempt that is still running.
pub reconcile_stop_iff :
    (s : RunState) (b : OperationBinding) (observed : Option String)
    → ((reconcile_attempt s b observed).decision ≡ stop) ↔ (¬ (IsOpen s b))
unfolding reconcile_attempt
reconcile_stop_iff s b observed = (
  λ h o. retry_if s b observed o h,
  λ closed. elim (decision_cases (reconcile s b observed).0) [
    | inl h ↦ h
    | inr ne ↦ absurd (closed (IsOpen-of s b observed ne))
  ],
)
