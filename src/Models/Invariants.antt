-- ===== src/Models/Invariants.antt =====
-- The validators `validate_plan_run_id_match` and `validate_register_invariants` of
-- fsasm-first/src/fsasm/models.py, which run whenever a snapshot is built from its fields.
use fsasm_training_lab.Prelude.{
  String, ◌==◌, Bool, true, not, ◌&&◌, ◌||◌, Option, none, some, List, [], ◌∷◌, map, all, any,
  contains, Result, ok, ◌>>◌, reject_if,
}
use fsasm_training_lab.Models.Status.{RunStatus, run_status_eq}
use fsasm_training_lab.Models.Task.{ChildTask, Plan}
use fsasm_training_lab.Models.Run.{RunState, GateOccurrence}

-- The `ValueError`s, in the order of the `raise` statements.
pub data Violation : Type 0 where
  foreign_plan duplicate_ids unknown_active : Violation
  unknown_completed unknown_failed unknown_needs_human : Violation
  completed_and_failed needs_human_and_terminal : Violation
  gate_without_status gate_without_task : Violation

abbrev pub task_ids : List ChildTask → List String
task_ids = map (λ (t : ChildTask). t.task_id)

-- `len(ids) == len(set(ids))`
abbrev pub distinct : List String → Bool
distinct [] = true
distinct (x ∷ xs) = not (contains xs x) && distinct xs

-- `bool(a & b)` of two sets
abbrev pub overlap : List String → List String → Bool
overlap xs ys = any (contains ys) xs

abbrev pub active_in : Option String → List String → Bool
active_in none ids = true
active_in (some active) ids = contains ids active

abbrev pub validate_gate : RunStatus → List String → Option GateOccurrence → Result Violation Unit
validate_gate status needs_human none = ok tt
validate_gate status needs_human (some gate) = do
  reject_if (not (run_status_eq status RunStatus.needs_human)) gate_without_status
  reject_if (not (contains needs_human gate.task_id)) gate_without_task

abbrev pub validate_register : RunState → List String → Result Violation Unit
validate_register state ids = do
  reject_if (not (distinct ids)) duplicate_ids
  reject_if (not (active_in state.active_task_id ids)) unknown_active
  reject_if (not (all (contains ids) state.completed_task_ids)) unknown_completed
  reject_if (not (all (contains ids) state.failed_task_ids)) unknown_failed
  reject_if (not (all (contains ids) state.needs_human_task_ids)) unknown_needs_human
  reject_if (overlap state.completed_task_ids state.failed_task_ids) completed_and_failed
  reject_if
      (overlap state.completed_task_ids state.needs_human_task_ids
        || overlap state.failed_task_ids state.needs_human_task_ids)
      needs_human_and_terminal
  validate_gate state.status state.needs_human_task_ids state.gate

abbrev pub validate_with_plan : RunState → Option Plan → Result Violation Unit
validate_with_plan state none = ok tt
validate_with_plan state (some plan) = do
  reject_if (not (plan.run_id == state.run_id)) foreign_plan
  validate_register state (task_ids plan.tasks)

-- Both validators; without a plan there is nothing that they check.
unfoldable pub validate_run_state : RunState → Result Violation Unit
validate_run_state state = validate_with_plan state state.plan
