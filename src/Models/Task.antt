-- ===== src/Models/Task.antt =====
-- `ChildTask`, `TaskBudget`, `VerificationSpec` and `Plan` of fsasm-first/src/fsasm/models.py.
use fsasm_training_lab.Prelude.{ℕ, ◌-◌, String, Option, List, Bool, ltb}
use fsasm_training_lab.Models.Status.{TaskStatus, VerificationType}

pub record VerificationSpec : Type 0 where
  pub type : VerificationType
  pub expected : String

pub record TaskBudget : Type 0 where
  pub max_agent_steps : Option ℕ
  pub max_model_calls : Option ℕ
  pub max_tool_calls : Option ℕ
  pub max_attempts : Option ℕ

pub record ChildTask : Type 0 where
  pub task_id : String
  pub parent_id : Option String
  pub sequence : ℕ
  pub title : String
  pub description : String
  pub status : TaskStatus
  pub dependencies : List String
  pub constraints : List String
  pub allowed_files : List String
  pub allowed_tools : List String
  pub verification : VerificationSpec
  pub expected_evidence : List String
  pub attempt : ℕ
  pub max_attempts : ℕ
  pub accepted_evidence_refs : List String
  pub budget : Option TaskBudget

unfoldable pub can_retry : ChildTask → Bool
can_retry task = ltb task.attempt task.max_attempts

-- `max(0, max_attempts - attempt)`: subtraction of natural numbers stops at 0
unfoldable pub retry_count_remaining : ChildTask → ℕ
retry_count_remaining task = task.max_attempts - task.attempt

pub record Plan : Type 0 where
  pub plan_id : String
  pub run_id : String
  pub goal : String
  pub tasks : List ChildTask
