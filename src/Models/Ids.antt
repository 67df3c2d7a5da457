-- ===== src/Models/Ids.antt =====
-- The identity helpers at the end of fsasm-first/src/fsasm/models.py.
use Prim.Native.String.{◌++◌}
use fsasm_training_lab.Prelude.{
  ℕ, zero, suc, ◌+◌, ◌/◌, ◌%◌, String, ◌≡◌, refl, ltb, nat_eq, if◌then◌else◌,
}
use fsasm_training_lab.Models.Status.{HumanDecisionAction, retry_once, abort}

abbrev pub digit : ℕ → String
digit d =
    if nat_eq d 0
    then "0"
    else if nat_eq d 1
    then "1"
    else if nat_eq d 2
    then "2"
    else if nat_eq d 3
    then "3"
    else if nat_eq d 4
    then "4"
    else if nat_eq d 5
    then "5"
    else if nat_eq d 6
    then "6"
    else if nat_eq d 7
    then "7"
    else if nat_eq d 8
    then "8"
    else "9"

-- The decimal digits of `n`; a call on `n` needs less fuel than `n + 1`.
unfoldable pub decimal_from : ℕ → ℕ → String
decimal_from zero n = ""
decimal_from (suc fuel) n =
    let front = decimal_from fuel (n / 10) in if ltb n 10 then digit n else front ++ digit (n % 10)

-- `str(n)`, as an f-string writes an `int`
unfoldable pub decimal : ℕ → String
unfolding decimal_from
decimal n = decimal_from (n + 1) n

unfoldable pub task_id_for : String → ℕ → String
task_id_for run_id sequence = "TASK-" ++ run_id ++ "-" ++ decimal sequence

unfoldable pub parent_id_for : String → String
parent_id_for run_id = "PARENT-" ++ run_id

unfoldable pub operation_id_for : String → String → ℕ → ℕ → String
operation_id_for run_id task_id attempt step =
    "op-" ++ run_id ++ "-" ++ task_id ++ "-attempt-" ++ decimal attempt ++ "-step-" ++ decimal step

unfoldable pub artifact_id_for : String → String → ℕ → String
artifact_id_for run_id task_id attempt =
    "artifact-" ++ run_id ++ "-" ++ task_id ++ "-attempt-" ++ decimal attempt

unfoldable pub evidence_id_for : String → String → ℕ → String → String
evidence_id_for run_id task_id attempt kind =
    "evidence-" ++ run_id ++ "-" ++ task_id ++ "-attempt-" ++ decimal attempt ++ "-" ++ kind

unfoldable pub gate_id_for : String → String → ℕ → String
gate_id_for run_id task_id attempt =
    "gate-" ++ run_id ++ "-" ++ task_id ++ "-attempt-" ++ decimal attempt

-- `action.value`
abbrev pub action_value : HumanDecisionAction → String
action_value retry_once = "RETRY_ONCE"
action_value abort = "ABORT"

unfoldable pub decision_id_for : String → String → String → HumanDecisionAction → String
decision_id_for run_id task_id gate_id action =
    "decision-" ++ run_id ++ "-" ++ task_id ++ "-" ++ gate_id ++ "-" ++ action_value action

-- An identifier as the workflow computes it.
gate_id_run : gate_id_for "r" "TASK-r-1" 12 ≡ "gate-r-TASK-r-1-attempt-12"
unfolding gate_id_for decimal
gate_id_run = refl
