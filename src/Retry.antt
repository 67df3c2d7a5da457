-- ===== src/Retry.antt =====
-- fsasm-first/src/fsasm/retry.py: what happens after one attempt of the executor. The budget of
-- transport retries is passed along. An exit code is the text that `str` prints of it, and the
-- feedback is built without a broker, as `classify_attempt` builds it.
pub mod Verdict
pub mod Applied
use Prim.Native.String.{◌++◌}
use fsasm_training_lab.Prelude.{
  ℕ, ◌+◌, String, ◌==◌, Bool, true, false, not, Option, none, some, List, [], ◌∷◌, map,
  if◌then◌else◌, ltb,
}
use fsasm_training_lab.Models.{ChildTask, can_retry, VerificationResultStatus}

-- `ExecutorOutcomeReason` of fsasm-first/src/fsasm/model_types.py
pub data ExecutorOutcomeReason : Type 0 where
  completed needs_information escalation_requested step_limit_reached tool_error policy_blocked :
      ExecutorOutcomeReason

abbrev pub reason_value : ExecutorOutcomeReason → String
reason_value completed = "completed"
reason_value needs_information = "needs_information"
reason_value escalation_requested = "escalation_requested"
reason_value step_limit_reached = "step_limit_reached"
reason_value tool_error = "tool_error"
reason_value policy_blocked = "policy_blocked"

-- `ToolOperationKind` of fsasm-first/src/fsasm/models.py
pub data ToolOperationKind : Type 0 where
  list_files read_file search_code apply_patch inspect_changes run_checks : ToolOperationKind

abbrev pub kind_value : ToolOperationKind → String
kind_value list_files = "list_files"
kind_value read_file = "read_file"
kind_value search_code = "search_code"
kind_value apply_patch = "apply_patch"
kind_value inspect_changes = "inspect_changes"
kind_value run_checks = "run_checks"

-- `ToolObservation` of fsasm-first/src/fsasm/models.py without its process timings; `is_done` is its `ok`.
pub record ToolObservation : Type 0 where
  pub operation_id : String
  pub kind : ToolOperationKind
  pub is_done : Bool
  pub blocked : Bool
  pub reason : String
  pub artifact_path : Option String
  pub content : String
  pub diff : Option String
  pub matches : List String
  pub exit_code : Option String
  pub stdout : String
  pub stderr : String
  pub timed_out : Bool

-- `ModelErrorKind` of fsasm-first/src/fsasm/model_types.py
pub data ModelErrorKind : Type 0 where
  timeout rate_limited unavailable bad_request authentication protocol_error unknown :
      ModelErrorKind

-- What the classifier reads of an `ExecutorAttemptOutcome` and of a `VerificationResult`.
pub record ExecutorAttemptOutcome : Type 0 where
  pub reason : ExecutorOutcomeReason
  pub observations : List ToolObservation
  pub transport_error : Option ModelErrorKind

pub record VerificationResult : Type 0 where
  pub status : VerificationResultStatus
  pub message : String

pub data RetryDecision : Type 0 where
  transport_retry merytoryczna_retry escalate stop : RetryDecision

pub record RetryVerdict : Type 0 where
  pub decision : RetryDecision
  pub prior_observations : List String
  pub prior_verification : String
  pub transport_retries : ℕ

pub record TransportRetryBudget : Type 0 where
  pub max_transport_retries : ℕ
  pub used : ℕ

abbrev pub has_transport_retry : TransportRetryBudget → Bool
has_transport_retry budget = ltb budget.used budget.max_transport_retries

abbrev pub consume : TransportRetryBudget → TransportRetryBudget
consume budget = record budget { used = budget.used + 1 }

abbrev pub on_path : Option String → String
on_path none = ""
on_path (some path) = if path == "" then "" else " on " ++ path

abbrev pub with_exit : Option String → String
with_exit none = ""
with_exit (some code) = " (exit " ++ code ++ ")"

unfoldable pub observed : ToolObservation → String
observed obs =
    if obs.blocked
    then "prior tool " ++ kind_value obs.kind ++ " BLOCKED: " ++ obs.reason
    else if not obs.is_done
    then "prior tool " ++ kind_value obs.kind ++ " ERROR: " ++ obs.reason
    else "prior tool "
      ++ kind_value obs.kind
      ++ " OK"
      ++ on_path obs.artifact_path
      ++ with_exit obs.exit_code

abbrev pub status_value : VerificationResultStatus → String
status_value VerificationResultStatus.pass = "PASS"
status_value VerificationResultStatus.fail = "FAIL"

abbrev pub verified_as : ExecutorOutcomeReason → Option VerificationResult → String
verified_as reason none = "prior attempt terminated: " ++ reason_value reason
verified_as reason (some result) =
    if result.message == ""
    then "prior verification " ++ status_value result.status
    else "prior verification " ++ status_value result.status ++ ": " ++ result.message

unfoldable pub build_retry_feedback :
    ExecutorAttemptOutcome → Option VerificationResult → List String × String
unfolding observed
build_retry_feedback outcome result =
    (map observed outcome.observations, verified_as outcome.reason result)

abbrev pub plain : RetryDecision → ℕ → RetryVerdict
plain decision retries = record {
  decision = decision;
  prior_observations = [];
  prior_verification = "";
  transport_retries = retries;
}

-- A new attempt with the feedback of this one while the task has attempts left, or the gate.
unfoldable pub again_or_escalate :
    ExecutorAttemptOutcome → Option VerificationResult → ChildTask → RetryVerdict
unfolding can_retry build_retry_feedback
again_or_escalate outcome result task =
    if can_retry task
    then record {
      decision = merytoryczna_retry;
      prior_observations = (build_retry_feedback outcome result).0;
      prior_verification = (build_retry_feedback outcome result).1;
      transport_retries = 0;
    }
    else plain escalate 0

abbrev pub is_fail : Option VerificationResult → Bool
is_fail none = false
is_fail (some result) = elim result.status [
  | VerificationResultStatus.pass ↦ false
  | VerificationResultStatus.fail ↦ true
]

abbrev pub is_transport : ExecutorOutcomeReason → Option ModelErrorKind → Bool
is_transport tool_error (some _) = true
is_transport _ _ = false

abbrev pub is_terminal : ExecutorOutcomeReason → Bool
is_terminal completed = true
is_terminal escalation_requested = true
is_terminal policy_blocked = true
is_terminal _ = false

unfoldable pub classify_attempt :
    ExecutorAttemptOutcome
    → ChildTask
    → TransportRetryBudget
    → Option VerificationResult
    → RetryVerdict × TransportRetryBudget
unfolding again_or_escalate
classify_attempt outcome task budget result =
    if is_fail result
    then (again_or_escalate outcome result task, budget)
    else if is_transport outcome.reason outcome.transport_error
    then (if has_transport_retry budget
        then (plain transport_retry (budget.used + 1), consume budget)
        else (plain escalate budget.used, budget))
    else if is_terminal outcome.reason
    then (plain stop 0, budget)
    else (again_or_escalate outcome result task, budget)
