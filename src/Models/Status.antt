-- ===== src/Models/Status.antt =====
-- The enumerations of fsasm-first/src/fsasm/models.py, with the equality that Python's `==`, `is`
-- and `in` use on their members.
use fsasm_training_lab.Prelude.{◌≡◌, ◌↔◌, Bool, true, false, ◌||◌, List, [], ◌∷◌, arith}

pub data TaskStatus : Type 0 where
  pending ready running passed failed blocked needs_human : TaskStatus

pub data RunStatus : Type 0 where
  created planned running passed failed needs_human : RunStatus

pub data VerificationResultStatus : Type 0 where
  pass fail : VerificationResultStatus

pub data VerificationType : Type 0 where
  schema exists count custom : VerificationType

pub data HumanDecisionAction : Type 0 where
  retry_once abort : HumanDecisionAction

abbrev pub task_status_eq : TaskStatus → TaskStatus → Bool
task_status_eq TaskStatus.pending TaskStatus.pending = true
task_status_eq TaskStatus.ready TaskStatus.ready = true
task_status_eq TaskStatus.running TaskStatus.running = true
task_status_eq TaskStatus.passed TaskStatus.passed = true
task_status_eq TaskStatus.failed TaskStatus.failed = true
task_status_eq TaskStatus.blocked TaskStatus.blocked = true
task_status_eq TaskStatus.needs_human TaskStatus.needs_human = true
task_status_eq _ _ = false

abbrev pub run_status_eq : RunStatus → RunStatus → Bool
run_status_eq RunStatus.created RunStatus.created = true
run_status_eq RunStatus.planned RunStatus.planned = true
run_status_eq RunStatus.running RunStatus.running = true
run_status_eq RunStatus.passed RunStatus.passed = true
run_status_eq RunStatus.failed RunStatus.failed = true
run_status_eq RunStatus.needs_human RunStatus.needs_human = true
run_status_eq _ _ = false

-- `status in {…}`
abbrev pub task_status_in : TaskStatus → List TaskStatus → Bool
task_status_in s [] = false
task_status_in s (x ∷ xs) = task_status_eq s x || task_status_in s xs

abbrev pub run_status_in : RunStatus → List RunStatus → Bool
run_status_in s [] = false
run_status_in s (x ∷ xs) = run_status_eq s x || run_status_in s xs

pub task_status_eq_iff : (a b : TaskStatus) → (task_status_eq a b ≡ true) ↔ (a ≡ b)
task_status_eq_iff a b = ground arith

pub run_status_eq_iff : (a b : RunStatus) → (run_status_eq a b ≡ true) ↔ (a ≡ b)
run_status_eq_iff a b = ground arith
