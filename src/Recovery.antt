-- ===== src/Recovery.antt =====
-- fsasm-first/src/fsasm/recovery.py: what to do about an attempt that was interrupted.
pub mod Decision
use fsasm_training_lab.Prelude.{
  ℕ, String, ◌==◌, Bool, true, false, not, ◌&&◌, ◌||◌, Option, none, some, List, [], ◌∷◌,
  if◌then◌else◌, nat_eq,
}
use fsasm_training_lab.Models.{
  TaskStatus, RunStatus, task_status_eq, run_status_eq, ChildTask, RunState,
}
use fsasm_training_lab.Domain.Register.{tasks_of, lookup_task}

pub data RecoveryCheckpoint : Type 0 where
  before_effect effect_applied evidence_persisted committed : RecoveryCheckpoint

pub data ReconcileDecision : Type 0 where
  verify retry stop : ReconcileDecision

pub record OperationBinding : Type 0 where
  pub run_id : String
  pub task_id : String
  pub attempt : ℕ
  pub operation_id : String
  pub artifact_id : String
  pub artifact_path : String
  pub checkpoint : RecoveryCheckpoint
  pub evidence_refs : List String
  pub transport_error : Bool

-- The reason of a report, without its wording.
pub data ReconcileReason : Type 0 where
  foreign_run run_is_terminal task_not_in_plan snapshot_owns_outcome : ReconcileReason
  transport_before_effect no_effect_applied effect_never_landed no_real_effect no_evidence_bound :
      ReconcileReason
  real_effect real_effect_and_evidence : ReconcileReason

pub record ReconcileReport : Type 0 where
  pub decision : ReconcileDecision
  pub binding : OperationBinding
  pub reason : ReconcileReason
  pub observed_artifact : Option String

-- `observed_artifact is not None and len(observed_artifact) > 0`
abbrev pub effect_present : Option String → Bool
effect_present none = false
effect_present (some content) = not (content == "")

abbrev pub is_nonempty : List String → Bool
is_nonempty [] = false
is_nonempty (_ ∷ _) = true

-- The decision on an attempt that is still running in the snapshot.
unfoldable pub reconcile_running :
    OperationBinding → Option String → ReconcileDecision × ReconcileReason
reconcile_running binding observed = elim binding.checkpoint [
  | before_effect ↦
      if binding.transport_error
      then (ReconcileDecision.retry, transport_before_effect)
      else (ReconcileDecision.retry, no_effect_applied)
  | effect_applied ↦
      if effect_present observed
      then (verify, real_effect)
      else (ReconcileDecision.retry, effect_never_landed)
  | _ ↦
      if not (effect_present observed)
      then (ReconcileDecision.retry, no_real_effect)
      else if not (is_nonempty binding.evidence_refs)
      then (ReconcileDecision.retry, no_evidence_bound)
      else (verify, real_effect_and_evidence)
]

-- The decision on the task that the snapshot has, if it has it.
unfoldable pub reconcile_task :
    Option ChildTask → OperationBinding → Option String → ReconcileDecision × ReconcileReason
unfolding reconcile_running
reconcile_task none binding observed = (stop, task_not_in_plan)
reconcile_task (some task) binding observed =
    if not (task_status_eq task.status TaskStatus.running)
      || not (nat_eq task.attempt binding.attempt)
    then (stop, snapshot_owns_outcome)
    else reconcile_running binding observed

unfoldable pub reconcile :
    RunState → OperationBinding → Option String → ReconcileDecision × ReconcileReason
unfolding reconcile_task
reconcile state binding observed =
    if not (state.run_id == binding.run_id)
    then (stop, foreign_run)
    else if run_status_eq state.status RunStatus.passed
        || run_status_eq state.status RunStatus.failed
    then (stop, run_is_terminal)
    else reconcile_task (lookup_task binding.task_id (tasks_of state)) binding observed

-- Every report carries the binding and the artifact that it was made from.
unfoldable pub reconcile_attempt : RunState → OperationBinding → Option String → ReconcileReport
unfolding reconcile
reconcile_attempt state binding observed_artifact =
    let (decision, reason) = reconcile state binding observed_artifact in
    record {
      decision = decision;
      binding = binding;
      reason = reason;
      observed_artifact = observed_artifact;
    }
