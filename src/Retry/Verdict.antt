-- ===== src/Retry/Verdict.antt =====
-- The decisions of `classify_attempt` of fsasm-first/src/fsasm/retry.py.
use fsasm_training_lab.Prelude.{
  ℕ, ◌-◌, ◌<◌, ◌≤◌, ◌≡◌, ◌≢◌, ◌↔◌, ◌⊎◌, true, false, Option, none, List, [], ◌∷◌, arith, suc,
}
use fsasm_training_lab.Models.{ChildTask, can_retry}
use fsasm_training_lab.Retry.{
  ExecutorAttemptOutcome, VerificationResult, transport_retry, merytoryczna_retry,
  TransportRetryBudget, is_fail, is_transport, is_terminal, consume, again_or_escalate,
  classify_attempt,
}

-- A failure of the work itself: a verification that failed, or an attempt that ended without being
-- done, blocked, handed on or cut off by the transport.
abbrev IsWorkFailure : ExecutorAttemptOutcome → Option VerificationResult → Type 0
IsWorkFailure outcome result =
    (is_fail result ≡ true)
    ⊎ ((is_transport outcome.reason outcome.transport_error ≡ false)
        × (is_terminal outcome.reason ≡ false))

-- A new task attempt is asked for exactly after a failure of the work, while the task has attempts
-- left; a transport error on its own never asks for one.
merytoryczna_retry_iff :
    (outcome : ExecutorAttemptOutcome) (task : ChildTask) (budget : TransportRetryBudget)
    (result : Option VerificationResult)
    → ((classify_attempt outcome task budget result).0.decision ≡ merytoryczna_retry)
      ↔ (IsWorkFailure outcome result × (task.attempt < task.max_attempts))
unfolding classify_attempt again_or_escalate can_retry
merytoryczna_retry_iff outcome task budget result = ground arith

-- The same attempt is run again exactly after a transport error without a failed verification, while
-- the transport budget lasts; that, and nothing else, uses one unit of the budget.
transport_retry_iff :
    (outcome : ExecutorAttemptOutcome) (task : ChildTask) (budget : TransportRetryBudget)
    (result : Option VerificationResult)
    → (((classify_attempt outcome task budget result).0.decision ≡ transport_retry) ↔ (
        (is_fail result ≡ false)
        × (is_transport outcome.reason outcome.transport_error ≡ true)
        × (budget.used < budget.max_transport_retries)))
      × ((((classify_attempt outcome task budget result).0.decision ≡ transport_retry)
            × ((classify_attempt outcome task budget result).1 ≡ consume budget))
          ⊎ (((classify_attempt outcome task budget result).0.decision ≢ transport_retry)
              × ((classify_attempt outcome task budget result).1 ≡ budget)))
unfolding classify_attempt again_or_escalate can_retry
transport_retry_iff outcome task budget result = ground arith

-- The attempts of one task whose backend keeps failing in the transport: the decision on each of
-- them, with the budget that the one before left.
unfoldable pub rerun : ChildTask → List ExecutorAttemptOutcome → TransportRetryBudget → ℕ
unfolding classify_attempt
rerun task [] budget = 0
rerun task (outcome ∷ rest) budget =
    let (verdict, left) = classify_attempt outcome task budget none in
    let more = rerun task rest left in elim verdict.decision [ transport_retry ↦ suc more | _ ↦ 0 ]

-- However many attempts end in a transport error, no more of them are run again than the budget has
-- left.
pub transport_retries_bounded :
    (task : ChildTask) (outcomes : List ExecutorAttemptOutcome) (budget : TransportRetryBudget)
    → rerun task outcomes budget ≤ budget.max_transport_retries - budget.used
unfolding rerun classify_attempt again_or_escalate can_retry
transport_retries_bounded task [] budget = ground arith
transport_retries_bounded task (outcome ∷ rest) budget =
    ground (arith, transport_retries_bounded task rest (consume budget))
