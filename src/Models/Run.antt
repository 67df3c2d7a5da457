-- ===== src/Models/Run.antt =====
-- `RunState`, `GateOccurrence` and `RunBudget` of fsasm-first/src/fsasm/models.py. A timestamp is a
-- text; what writes one takes the clock's reading as an argument.
use fsasm_training_lab.Prelude.{ℕ, String, Option, List, Bool}
use fsasm_training_lab.Models.Status.{RunStatus, HumanDecisionAction}
use fsasm_training_lab.Models.Task.{Plan}

pub record RunBudget : Type 0 where
  pub max_attempts_per_task : Option ℕ
  pub max_agent_steps : Option ℕ
  pub max_model_calls : Option ℕ
  pub max_tool_calls : Option ℕ
  pub max_escalations : Option ℕ

pub record GateOccurrence : Type 0 where
  pub gate_id : String
  pub task_id : String
  pub attempt : ℕ
  pub accepted_decision_id : Option String
  pub accepted_action : Option HumanDecisionAction
  pub applied : Bool

pub record RunState : Type 0 where
  pub run_id : String
  pub goal : String
  pub status : RunStatus
  pub schema_version : ℕ
  pub revision : ℕ
  pub plan : Option Plan
  pub active_task_id : Option String
  pub completed_task_ids : List String
  pub failed_task_ids : List String
  pub needs_human_task_ids : List String
  pub gate : Option GateOccurrence
  pub budget : Option RunBudget
  pub created_at : String
  pub updated_at : String

unfoldable pub touch : String → RunState → RunState
touch now state = record state { updated_at = now }
