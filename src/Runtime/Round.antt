-- ===== src/Runtime/Round.antt =====
-- One turn of the loop of `run_plan` in fsasm-first/src/fsasm/runtime.py.
use fsasm_training_lab.Prelude.{
  ℕ, ◌<◌, String, ◌≡◌, ◌≢◌, refl, Bool, true, false, none, some, List, [], ◌∷◌, all, contains,
  arith, ok, ◌⊎◌, inl, inr, sym, ◌∙◌, Bool-cases, Option-cases, ==_refl,
}
use fsasm_training_lab.Models.{
  TaskStatus, RunStatus, ChildTask, RunState, Plan, task_ids, can_retry, GateOccurrence,
}
use fsasm_training_lab.Domain.Events.{
  evidence_accepted, task_verification_passed, task_retried, task_escalated,
}
use fsasm_training_lab.Domain.Register.{
  tasks_of, lookup_task, modify_task, set_status, all_required_tasks_complete,
}
use fsasm_training_lab.Domain.Apply.{set_refs, pass_task, open_gate, no_refs}
use fsasm_training_lab.Domain.Effect.{Effect, Found}
use fsasm_training_lab.Domain.Effect.Agrees.{has_refs}
use fsasm_training_lab.Domain.Gate.{escalated_state}
use fsasm_training_lab.Persistence.Disk.{Codec, no_fault}
use fsasm_training_lab.Repository.Laws.{committed_state}
use fsasm_training_lab.Runtime.{
  World, Session, Turn, again, finished, outcome, step, find_task_in, record_pass,
  retry_or_escalate, retry_exhausted,
}
use fsasm_training_lab.Runtime.Weight.{weigh, weight-readied, weight-evidenced, weight-passed}
use fsasm_training_lab.Runtime.Step.{Held, task_step}

-- The run between two turns: no task is active, some task is open, and nobody is waited for.
pub record Going (s : RunState) : Type 0 where
  pub running : s.status ≡ RunStatus.running
  pub idle : s.active_task_id ≡ none
  pub open_ids : all (contains s.completed_task_ids) (task_ids (tasks_of s)) ≡ false
  pub nobody : s.needs_human_task_ids ≡ []

-- The run while the task `id` is being attempted.
pub record Working (id : String) (s : RunState) : Type 0 where
  pub running : s.status ≡ RunStatus.running
  pub active : s.active_task_id ≡ some id
  pub open_ids : all (contains s.completed_task_ids) (task_ids (tasks_of s)) ≡ false
  pub nobody : s.needs_human_task_ids ≡ []

-- The run after its last task has passed.
pub record Done (s : RunState) : Type 0 where
  pub passed : s.status ≡ RunStatus.passed
  pub planned : s.plan ≢ none
  pub idle : s.active_task_id ≡ none
  pub complete : all (contains s.completed_task_ids) (task_ids (tasks_of s)) ≡ true

-- How a driven run ends: PASSED with every task completed, FAILED, or at an open gate.
abbrev pub Ended : RunState → Type 0
Ended s =
    ((s.status ≡ RunStatus.passed)
      × (all (contains s.completed_task_ids) (task_ids (tasks_of s)) ≡ true))
    ⊎ (s.status ≡ RunStatus.failed)
    ⊎ ((s.status ≡ RunStatus.needs_human) × ((g : GateOccurrence) × (s.gate ≡ some g)))

restamped_Working :
    (now : String) (revision : ℕ) (id : String) (n : RunState)
    → Working id n
    → Working id (committed_state now revision n)
restamped_Working now revision id n w = record {
  running = w.running;
  active = w.active;
  open_ids = w.open_ids;
  nobody = w.nobody;
}

pub required_ids :
    (completed : List String) (ts : List ChildTask)
    → all (λ (t : ChildTask). contains completed t.task_id) ts
      ≡ all (contains completed) (task_ids ts)
required_ids completed [] = refl
required_ids completed (t ∷ ts) = ground (arith, required_ids completed ts)

pub complete_iff :
    (s : RunState) (p : Plan)
    → s.plan ≡ some p
    → all_required_tasks_complete s ≡ all (contains s.completed_task_ids) (task_ids (tasks_of s))
unfolding all_required_tasks_complete
complete_iff s p h = ground (arith, required_ids s.completed_task_ids p.tasks)

pub Found-plan :
    (s : RunState) (id : String) (t : ChildTask) → Found s id t → (p : Plan) × (s.plan ≡ some p)
unfolding lookup_task
Found-plan s id t h = elim (Option-cases s.plan) [ inl e ↦ absurd (ground arith) | inr r ↦ r ]

module _ (c : Codec) (world : World) (writes : (k : ℕ) → world.fault k ≡ no_fault)
    (run_id : String) where
  open c use {Text}

  pub finds :
      (session : Session Text) (s : RunState) (id : String) (t : ChildTask)
      → Found s id t
      → find_task_in c world s id session ≡ (ok t, session)
  unfolding find_task_in
  finds session s id t found = rw found

  -- A turn that goes on: the state is held, the run is between two turns or done, and less is left.
  abbrev pub GoesOn : Session Text → RunState → RunState → Type 0
  GoesOn after s s' =
      Held c run_id after s' × (Going s' ⊎ Done s') × (weigh (tasks_of s') < weigh (tasks_of s))

  -- What a turn that ended without a pass has led to, where `left` tells that an attempt is left.
  abbrev pub TurnOk : Session Text → ℕ → Bool → Turn → Type 0
  TurnOk after before left (again s') =
      Held c run_id after s' × Going s' × (left ≡ true) × (weigh (tasks_of s') ≡ before)
  TurnOk after before left (finished o) =
      Held c run_id after o.state × (Ended o.state × (o.status ≡ o.state.status))

  -- `TaskVerificationPassed` for an attempt with accepted evidence.
  passes :
      (session : Session Text) (s : RunState) (id : String) (t : ChildTask)
      → Held c run_id session s
      → Working id s
      → Found s id t
      → t.status ≡ TaskStatus.running
      → no_refs t.accepted_evidence_refs ≡ false
      → (s' : RunState) × (after : Session Text) × (step c world run_id s.revision
            (task_verification_passed run_id id true)
            session
          ≡ (ok s', after))
        × GoesOn after s s'
  passes session s id t held w found running refs =
      elim (Bool-cases (all_required_tasks_complete (pass_task id s))) [
        | inr more ↦
            let (now, after, done, kept, found', less, ids) =
              task_step c world writes run_id session s (pass_task id s)
                (task_verification_passed run_id id true) id t held
                (Effect.passed run_id id t found running
                  ((has_refs t.accepted_evidence_refs).0 refs) more)
                refl refl found (inr (inl w.running)) in
            let (p, planned) = Found-plan (pass_task id s) id _ found' in
            (
              committed_state now s.revision (pass_task id s),
              after,
              done,
              (
                kept,
                inl (record {
                  running = w.running;
                  idle = rw w.active (rw (==_refl id));
                  open_ids = sym (complete_iff (pass_task id s) p planned) ∙ more;
                  nobody = w.nobody;
                }),
                omega (arith, weight-passed t running),
              ),
            )
        | inl last ↦
            let n = record (pass_task id s) { status = RunStatus.passed } in
            let (now, after, done, kept, found', less, ids) =
              task_step c world writes run_id session s n (task_verification_passed run_id id true)
                id t held
                (Effect.passed_last run_id id t found running
                  ((has_refs t.accepted_evidence_refs).0 refs) last w.running)
                refl refl found (inr (inl w.running)) in
            let (p, planned) = Found-plan (pass_task id s) id _ found' in
            (
              committed_state now s.revision n,
              after,
              done,
              (
                kept,
                inr (record {
                  passed = refl;
                  planned = λ q. ground arith;
                  idle = rw w.active (rw (==_refl id));
                  complete = sym (complete_iff (pass_task id s) p planned) ∙ last;
                }),
                omega (arith, weight-passed t running),
              ),
            )
      ]

  pub record_pass_lem :
      (session : Session Text) (s : RunState) (id : String) (t : ChildTask) (ref : String)
      (refs : List String)
      → Held c run_id session s
      → Working id s
      → Found s id t
      → t.status ≡ TaskStatus.running
      → (s' : RunState) × (after : Session Text) × (record_pass c world run_id s id
            (ref ∷ refs)
            session
          ≡ (ok (again s'), after))
        × GoesOn after s s'
  unfolding record_pass
  record_pass_lem session s id t ref refs held w found running =
      let n1 = modify_task id (set_refs (ref ∷ refs)) s in
      let (now1, session1, done1, held1, found1, weight1, ids1) =
        task_step c world writes run_id session s n1 (evidence_accepted run_id id (ref ∷ refs)) id t
          held (Effect.evidenced run_id id (ref ∷ refs) t found) refl refl found
          (inr (inl w.running)) in
      let still : Working id n1 = record {
        running = w.running;
        active = w.active;
        open_ids = rw ids1 w.open_ids;
        nobody = w.nobody;
      } in
      let (s', after, done2, (kept, next, less)) =
        passes session1 (committed_state now1 s.revision n1) id (set_refs (ref ∷ refs) t) held1
          (restamped_Working now1 s.revision id n1 still) found1 running refl in
      (s', after, rw (done1, done2), (kept, next, omega (arith, weight-evidenced (ref ∷ refs) t)))

  -- `TaskRetried`, or `TaskEscalated` where the attempts are used up.
  pub retry_or_escalate_lem :
      (session : Session Text) (s : RunState) (id : String) (t : ChildTask)
      → Held c run_id session s
      → Going s
      → Found s id t
      → t.status ≡ TaskStatus.failed
      → (turn : Turn) × (after : Session Text) × (retry_or_escalate c world run_id s id t session
          ≡ (ok turn, after))
        × TurnOk after (weigh (tasks_of s)) (can_retry t) turn
  unfolding retry_or_escalate
  retry_or_escalate_lem session s id t held g found failed = elim (Bool-cases (can_retry t)) [
    | inl more ↦
        let n = modify_task id (set_status TaskStatus.ready) s in
        let (now, after, done, kept, found', same, ids) =
          task_step c world writes run_id session s n (task_retried run_id id) id t held
            (Effect.retried run_id id t found (ground arith) more) refl refl found
            (inr (inl g.running)) in
        (
          again (committed_state now s.revision n),
          after,
          rw (more, done),
          (
            kept,
            record {
              running = g.running;
              idle = g.idle;
              open_ids = rw ids g.open_ids;
              nobody = g.nobody;
            },
            more,
            omega (arith, weight-readied t (ground arith)),
          ),
        )
    | inr spent ↦
        let n = escalated_state s id t.attempt in
        let (now, after, done, kept, found', same, ids) =
          task_step c world writes run_id session s n (task_escalated run_id id t.attempt) id t held
            (Effect.escalated run_id id t.attempt t found failed spent) refl refl found
            (inl g.running) in
        (
          finished (outcome (committed_state now s.revision n) retry_exhausted),
          after,
          rw (spent, done),
          (kept, (inr (inr (rw g.running refl, (open_gate s id t.attempt, refl))), refl)),
        )
  ]
