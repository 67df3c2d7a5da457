-- ===== src/Domain/Events.antt =====
-- The domain events of fsasm-first/src/fsasm/domain.py and the exceptions that applying one raises.
-- Each constructor carries the run that the event is bound to first.
use fsasm_training_lab.Prelude.{ℕ, String, Bool, Option, none, some, List, Result}
use fsasm_training_lab.Models.{HumanDecisionAction, Plan}

pub data DomainEvent : Type 0 where
  run_planned : String → Plan → DomainEvent
  run_started : String → DomainEvent
  task_readied task_activated task_blocked task_unblocked : String → String → DomainEvent
  evidence_accepted : String → String → List String → DomainEvent
  task_verification_passed task_verification_failed : String → String → Bool → DomainEvent
  task_retried : String → String → DomainEvent
  task_escalated : String → String → ℕ → DomainEvent
  human_gate_decision_applied :
      (run_id task_id gate_id decision_id : String)
      → HumanDecisionAction
      → ℕ
      → Option ℕ
      → DomainEvent
  run_completed : String → Bool → DomainEvent
  run_failed : String → DomainEvent

abbrev pub event_run_id : DomainEvent → String
event_run_id (run_planned r _) = r
event_run_id (run_started r) = r
event_run_id (task_readied r _) = r
event_run_id (task_activated r _) = r
event_run_id (task_blocked r _) = r
event_run_id (task_unblocked r _) = r
event_run_id (evidence_accepted r _ _) = r
event_run_id (task_verification_passed r _ _) = r
event_run_id (task_verification_failed r _ _) = r
event_run_id (task_retried r _) = r
event_run_id (task_escalated r _ _) = r
event_run_id (human_gate_decision_applied r _ _ _ _ _ _) = r
event_run_id (run_completed r _) = r
event_run_id (run_failed r) = r

-- `getattr(event, "task_id", None)`
abbrev pub event_task_id : DomainEvent → Option String
event_task_id (run_planned _ _) = none
event_task_id (run_started _) = none
event_task_id (task_readied _ t) = some t
event_task_id (task_activated _ t) = some t
event_task_id (task_blocked _ t) = some t
event_task_id (task_unblocked _ t) = some t
event_task_id (evidence_accepted _ t _) = some t
event_task_id (task_verification_passed _ t _) = some t
event_task_id (task_verification_failed _ t _) = some t
event_task_id (task_retried _ t) = some t
event_task_id (task_escalated _ t _) = some t
event_task_id (human_gate_decision_applied _ t _ _ _ _ _) = some t
event_task_id (run_completed _ _) = none
event_task_id (run_failed _) = none

-- The `reason` of an `InvalidTransitionError`, in the order of the `raise` statements.
pub data Reason : Type 0 where
  foreign_run no_plan unknown_task task_not_allowed run_not_allowed foreign_plan : Reason
  another_active unverified_pass no_evidence unverified_fail budget_remains : Reason
  not_at_gate wrong_gate stale_gate duplicate_decision contradictory_decision : Reason
  missing_limit unverified_run_pass : Reason

-- `unreachable` is the `AssertionError` of `_find_task`.
pub data DomainError : Type 0 where
  invalid_transition : (entity_id : String) → Reason → DomainError
  retry_exhausted : (task_id : String) (max_attempts current_attempt : ℕ) → DomainError
  unreachable : DomainError

abbrev pub Outcome : Type 0 → Type 0
Outcome A = Result DomainError A
