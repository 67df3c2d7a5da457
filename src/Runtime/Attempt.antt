-- ===== src/Runtime/Attempt.antt =====
-- A task taken through one attempt by `run_plan` of fsasm-first/src/fsasm/runtime.py, and what the
-- scheduler answers between two turns.
use fsasm_training_lab.Prelude.{
  ℕ, ◌<◌, ◌≤◌, String, ◌≡◌, refl, Bool, true, false, some, [], arith, ok, ◌⊎◌, inl, inr, Bool-cases,
  ==_refl, subst, if◌then◌else◌,
}
use fsasm_training_lab.Models.{TaskStatus, RunStatus, run_status_eq, ChildTask, RunState, can_retry}
use fsasm_training_lab.Domain.Events.{task_readied, task_activated, task_verification_failed}
use fsasm_training_lab.Domain.Register.{tasks_of, modify_task, set_status}
use fsasm_training_lab.Domain.Apply.{start_attempt, clear_active}
use fsasm_training_lab.Domain.Effect.{Effect, Found}
use fsasm_training_lab.Persistence.Disk.{Codec, no_fault}
use fsasm_training_lab.Repository.Laws.{committed_state}
use fsasm_training_lab.Runtime.{
  World, Session, Turn, again, finished, ready_if_pending, record_fail, attempt_task, run_task,
  stub_evidence_id,
}
use fsasm_training_lab.Runtime.Weight.{
  weigh, weight-start, weight-readied, weight-failed, weight-spent,
}
use fsasm_training_lab.Runtime.Step.{Held, task_step}
use fsasm_training_lab.Runtime.Round.{
  Going, Working, Done, Ended, finds, TurnOk, record_pass_lem, retry_or_escalate_lem,
}

module _ (c : Codec) (world : World) (writes : (k : ℕ) → world.fault k ≡ no_fault)
    (run_id : String) where
  open c use {Text}

  record_fail_lem :
      (session : Session Text) (s : RunState) (id : String) (t : ChildTask)
      → Held c run_id session s
      → Working id s
      → Found s id t
      → t.status ≡ TaskStatus.running
      → (turn : Turn) × (after : Session Text) × (record_fail c world run_id s id session
          ≡ (ok turn, after))
        × TurnOk c world writes run_id after (weigh (tasks_of s)) (can_retry t) turn
  unfolding record_fail can_retry
  record_fail_lem session s id t held w found running =
      let n = record (modify_task id (set_status TaskStatus.failed) s) {
        active_task_id = clear_active s.active_task_id id;
      } in
      let (now, session1, done, held1, found1, same, ids) =
        task_step c world writes run_id session s n (task_verification_failed run_id id false) id t
          held (Effect.failed run_id id t found running) refl refl found (inr (inl w.running)) in
      let s1 = committed_state now s.revision n in
      let going : Going s1 = record {
        running = w.running;
        idle = rw w.active (rw (==_refl id));
        open_ids = rw ids w.open_ids;
        nobody = w.nobody;
      } in
      let equal : weigh (tasks_of n) ≡ weigh (tasks_of s) =
        omega (arith, weight-failed t running) in
      let (turn, after, done2, ends) =
        retry_or_escalate_lem c world writes run_id session1 s1 id (set_status TaskStatus.failed t)
          held1 going found1 refl in
      (
        turn,
        after,
        rw (
          done,
          finds c world writes run_id session1 s1 id (set_status TaskStatus.failed t) found1,
          done2,
        ),
        subst (λ w. TurnOk c world writes run_id after w (can_retry t) turn) equal ends,
      )

  -- A turn that goes on leaves less than `before`.
  abbrev pub Ends : Session Text → ℕ → Turn → Type 0
  Ends after before (again s') =
      Held c run_id after s' × (Going s' ⊎ Done s') × (weigh (tasks_of s') < before)
  Ends after before (finished o) =
      Held c run_id after o.state × (Ended o.state × (o.status ≡ o.state.status))

  below :
      (after : Session Text) (w before : ℕ) (left : Bool) (turn : Turn)
      → w ≤ before
      → (left ≡ true → w < before)
      → TurnOk c world writes run_id after w left turn
      → Ends after before turn
  below after w before left (again s') h k ok_turn =
      (ok_turn.0, inl ok_turn.1, ground (arith, k ok_turn.2))
  below after w before left (finished o) h k ok_turn = ok_turn

  attempt_task_lem :
      (session : Session Text) (s : RunState) (id : String) (t : ChildTask) (before : ℕ)
      → Held c run_id session s
      → Working id s
      → Found s id t
      → t.status ≡ TaskStatus.running
      → weigh (tasks_of s) ≤ before
      → (can_retry t ≡ true → weigh (tasks_of s) < before)
      → (turn : Turn) × (after : Session Text) × (attempt_task c world run_id s id t session
          ≡ (ok turn, after))
        × Ends after before turn
  unfolding attempt_task
  attempt_task_lem session s id t before held w found running most spent =
      elim (Bool-cases (world.should_pass id t.attempt)) [
        | inl pass ↦
            let (s', after, done, (kept, next, less)) =
              record_pass_lem c world writes run_id session s id t
                (stub_evidence_id run_id id t.attempt) [] held w found running in
            (again s', after, rw (pass, done), (kept, next, omega arith))
        | inr fail ↦
            let (turn, after, done, ends) = record_fail_lem session s id t held w found running in
            (
              turn,
              after,
              rw (fail, done),
              below after (weigh (tasks_of s)) before (can_retry t) turn most spent ends,
            )
      ]

  readied_lem :
      (session : Session Text) (s : RunState) (id : String) (t : ChildTask)
      → Held c run_id session s
      → Going s
      → Found s id t
      → (t.status ≡ TaskStatus.pending) ⊎ (t.status ≡ TaskStatus.ready)
      → (s1 : RunState) × (after : Session Text) × (t1 : ChildTask) × (ready_if_pending c world
            run_id s id t session
          ≡ (ok s1, after))
        × Held c run_id after s1
        × Going s1
        × Found s1 id t1
        × (t1.status ≡ TaskStatus.ready)
        × (weigh (tasks_of s1) ≡ weigh (tasks_of s))
  unfolding ready_if_pending
  readied_lem session s id t held g found (inr ready) =
      (s, session, t, rw ready refl, held, g, found, ready, refl)
  readied_lem session s id t held g found (inl pending) =
      let n = modify_task id (set_status TaskStatus.ready) s in
      let (now, after, done, kept, found', same, ids) =
        task_step c world writes run_id session s n (task_readied run_id id) id t held
          (Effect.readied run_id id t found (ground arith)) refl refl found (inr (inl g.running)) in
      (
        committed_state now s.revision n,
        after,
        set_status TaskStatus.ready t,
        rw (pending, done),
        kept,
        record {
          running = g.running;
          idle = g.idle;
          open_ids = rw ids g.open_ids;
          nobody = g.nobody;
        },
        found',
        refl,
        omega (arith, weight-readied t (ground arith)),
      )

  pub run_task_lem :
      (session : Session Text) (s : RunState) (id : String) (t : ChildTask)
      → Held c run_id session s
      → Going s
      → Found s id t
      → (t.status ≡ TaskStatus.pending) ⊎ (t.status ≡ TaskStatus.ready)
      → (turn : Turn) × (after : Session Text) × (run_task c world run_id s id session
          ≡ (ok turn, after))
        × Ends after (weigh (tasks_of s)) turn
  unfolding run_task
  run_task_lem session s id t held g found may =
      let (s1, session1, t1, done1, held1, g1, found1, ready, same1) =
        readied_lem session s id t held g found may in
      let n = record (modify_task id start_attempt s1) {
        active_task_id = some id;
        status = if run_status_eq s1.status RunStatus.planned then RunStatus.running else s1.status;
      } in
      let (now, session2, done2, held2, found2, same2, ids) =
        task_step c world writes run_id session1 s1 n (task_activated run_id id) id t1 held1
          (Effect.activated run_id id t1 found1 ready (inl g1.idle)) refl refl found1
          (inr (inl g1.running)) in
      let s2 = committed_state now s1.revision n in
      let working : Working id s2 = record {
        running = rw g1.running refl;
        active = refl;
        open_ids = rw ids g1.open_ids;
        nobody = g1.nobody;
      } in
      let (turn, after, done3, ends) =
        attempt_task_lem session2 s2 id (start_attempt t1) (weigh (tasks_of s)) held2 working found2
          refl (omega (arith, weight-start t1 ready))
          (λ more. omega (arith, weight-spent t1 ready more)) in
      (
        turn,
        after,
        rw (
          finds c world writes run_id session s id t found,
          done1,
          done2,
          finds c world writes run_id session2 s2 id (start_attempt t1) found2,
          done3,
        ),
        ends,
      )
