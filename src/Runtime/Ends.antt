-- ===== src/Runtime/Ends.antt =====
-- `run_plan` of fsasm-first/src/fsasm/runtime.py comes to an end.
use fsasm_training_lab.Prelude.{
  ℕ, zero, suc, ◌<◌, String, ◌≡◌, refl, false, none, some, [], all, contains, arith, Result, ok,
  ◌⊎◌, inl, inr, subst, All,
}
use fsasm_training_lab.Models.{
  TaskStatus, RunStatus, ChildTask, RunState, Plan, task_ids, GateOccurrence,
}
use fsasm_training_lab.Domain.Events.{DomainEvent, run_started}
use fsasm_training_lab.Domain.Register.{tasks_of}
use fsasm_training_lab.Domain.Effect.{Effect}
use fsasm_training_lab.Domain.Coherent.{IsCoherent}
use fsasm_training_lab.Persistence.Disk.{Codec, no_fault}
use fsasm_training_lab.Repository.Commit.{load}
use fsasm_training_lab.Repository.Laws.{committed_state}
use fsasm_training_lab.Scheduler.Query.{schedule}
use fsasm_training_lab.Scheduler.Sound.{schedule_sound}
use fsasm_training_lab.Scheduler.Activates.{In-lookup}
use fsasm_training_lab.Runtime.{
  World, Session, RuntimeError, Turn, again, finished, RuntimeOutcome, outcome, act_on, fail_run,
  drive, start_if_planned, run_plan, plan_blocked, tasks_complete,
}
use fsasm_training_lab.Runtime.Weight.{weigh}
use fsasm_training_lab.Runtime.Step.{Held, step-Held}
use fsasm_training_lab.Runtime.Round.{Going, Done, Ended}
use fsasm_training_lab.Runtime.Attempt.{Ends, run_task_lem}
use fsasm_training_lab.Runtime.Query.{
  Going-schedule, Done-schedule, Ended-tasks, has_plan, Going-plan,
}

module _ (c : Codec) (world : World) (writes : (k : ℕ) → world.fault k ≡ no_fault)
    (run_id : String) where
  open c use {Text}

  turn_cases :
      (turn : Turn)
      → ((o : RuntimeOutcome) × (turn ≡ finished o)) ⊎ ((s : RunState) × (turn ≡ again s))
  turn_cases (finished o) = inl (o, refl)
  turn_cases (again s) = inr (s, refl)

  act_on_lem :
      (session : Session Text) (s : RunState) (p : Plan)
      → Held c run_id session s
      → s.plan ≡ some p
      → Going s
      → (turn : Turn) × (after : Session Text) × (act_on c world run_id s (schedule s) session
          ≡ (ok turn, after))
        × Ends c world writes run_id after (weigh (tasks_of s)) turn
  unfolding act_on fail_run
  act_on_lem session s p held planned g =
      elim (Going-schedule s p planned (held.coherent.lists_ok.failed_closed (λ q. ground arith))
        g) [
          | inl (t, picks) ↦
              let (idle, inside, eligible, least) = schedule_sound s t picks in
              let found = In-lookup t (tasks_of s) held.coherent.unique inside in
              let (turn, after, done, ends) =
                run_task_lem c world writes run_id session s t.task_id t held g found eligible.0 in
              (turn, after, rw (picks, done), ends)
          | inr stuck ↦
              let n = record s { status = RunStatus.failed } in
              let (now, after, done, kept) =
                step-Held c world writes run_id session s n (DomainEvent.run_failed run_id) held
                  (Effect.run_failed run_id g.running) refl tt (λ r q e. cc) in
              (
                finished (outcome (committed_state now s.revision n) plan_blocked),
                after,
                rw (stuck, done),
                (kept, (inr (inl refl), refl)),
              )
        ]

  -- The loop, from a state between two turns or after the last one.
  drive_lem :
      (n : ℕ) (session : Session Text) (s : RunState)
      → Held c run_id session s
      → Going s ⊎ Done s
      → weigh (tasks_of s) < n
      → (o : RuntimeOutcome) × (after : Session Text) × (drive c world n run_id s session
          ≡ (ok o, after))
        × Held c run_id after o.state
        × Ended o.state
        × (o.status ≡ o.state.status)
  unfolding drive act_on
  drive_lem zero session s held at h = absurd (omega arith)
  drive_lem (suc n) session s held (inr d) h =
      let (p, planned) = has_plan s d.planned in
      (
        outcome s tasks_complete,
        session,
        rw (Done-schedule s p planned d),
        held,
        inl (d.passed, d.complete),
        refl,
      )
  drive_lem (suc n) session s held (inl g) h =
      let (p, planned) = has_plan s (Going-plan s g) in
      let (turn, after, done, ends) = act_on_lem session s p held planned g in
      elim (turn_cases turn) [
        | inl (o, e) ↦
            let ended = subst (Ends c world writes run_id after (weigh (tasks_of s))) e ends in
            (o, after, rw (done, e), ended.0, ended.1.0, ended.1.1)
        | inr (s', e) ↦
            let (kept, at, less) =
              subst (Ends c world writes run_id after (weigh (tasks_of s))) e ends in
            let (o, last, runs, held', ended, same) = drive_lem n after s' kept at (omega arith) in
            (o, last, rw (done, e) runs, held', ended, same)
      ]

  started_plan :
      (n : ℕ) (session session1 : Session Text) (s s1 : RunState) (p : Plan)
      (r : Result RuntimeError RuntimeOutcome × Session Text)
      → start_if_planned c world s session ≡ (ok s1, session1)
      → s1.status ≡ RunStatus.running
      → s1.plan ≡ some p
      → drive c world n s.run_id s1 session1 ≡ r
      → run_plan c world n s session ≡ r
  unfolding run_plan
  started_plan n session session1 s s1 p r starts running planned runs =
      rw (starts, running, planned) runs

-- `run_plan` returns, the state it returns is the snapshot that is left on disk and is coherent, and
-- it is PASSED with every task PASSED, FAILED, or at an open gate.
abbrev pub Finishes : (c : Codec) → World → ℕ → RunState → Session (c.Text) → Type 0
Finishes c world n s session =
    (o : RuntimeOutcome) × (after : Session (c.Text)) × (run_plan c world n s session
      ≡ (ok o, after))
    × (load c s.run_id after.disk ≡ ok o.state)
    × IsCoherent o.state
    × (o.status ≡ o.state.status)
    × (((o.status ≡ RunStatus.passed)
          × All (λ (t : ChildTask). t.status ≡ TaskStatus.passed) (tasks_of o.state))
        ⊎ (o.status ≡ RunStatus.failed)
        ⊎ ((o.status ≡ RunStatus.needs_human) × ((g : GateOccurrence) × (o.state.gate ≡ some g))))

-- From a PLANNED or RUNNING snapshot on disk that is coherent, has no active task, no waiting one
-- and at least one that is not completed, on a disk whose writes succeed, `run_plan` returns within
-- its iterations if there are more of them than the plan has work left (for each task its attempts
-- left, and one until it has passed), whatever the stub decides. The state it returns is the
-- snapshot that is left on disk, is coherent, and is PASSED with every task PASSED, FAILED, or at
-- an open gate.
pub run_plan_ends :
    (c : Codec) (world : World) (n : ℕ) (session : Session (c.Text)) (s : RunState)
    → ((k : ℕ) → world.fault k ≡ no_fault)
    → load c s.run_id session.disk ≡ ok s
    → IsCoherent s
    → (s.status ≡ RunStatus.planned) ⊎ (s.status ≡ RunStatus.running)
    → s.active_task_id ≡ none
    → s.needs_human_task_ids ≡ []
    → all (contains s.completed_task_ids) (task_ids (tasks_of s)) ≡ false
    → weigh (tasks_of s) < n
    → Finishes c world n s session
unfolding start_if_planned
run_plan_ends c world n session s writes loaded good (inr running) idle nobody left enough =
    let held : Held c s.run_id session s = record {
      loaded = loaded;
      own = refl;
      coherent = good;
    } in
    let g : Going s = record { running = running; idle = idle; open_ids = left; nobody = nobody } in
    let (p, planned) = has_plan s (Going-plan s g) in
    let (o, after, runs, kept, ended, same) =
      drive_lem c world writes s.run_id n session s held (inl g) enough in
    (
      o,
      after,
      started_plan c world writes s.run_id n session session s s p (ok o, after) (rw running refl)
          running planned runs,
      kept.loaded,
      kept.coherent,
      same,
      Ended-tasks o.state o.status same kept.coherent ended,
    )
run_plan_ends c world n session s writes loaded good (inl planned) idle nobody left enough =
    let held : Held c s.run_id session s = record {
      loaded = loaded;
      own = refl;
      coherent = good;
    } in
    let m = record s { status = RunStatus.running } in
    let (now, session1, done, held1) =
      step-Held c world writes s.run_id session s m (run_started s.run_id) held
        (Effect.started s.run_id planned) refl tt (λ r q e. cc) in
    let s1 = committed_state now s.revision m in
    let g : Going s1 = record { running = refl; idle = idle; open_ids = left; nobody = nobody } in
    let (p, has) = has_plan s1 (Going-plan s1 g) in
    let (o, after, runs, kept, ended, same) =
      drive_lem c world writes s.run_id n session1 s1 held1 (inl g) enough in
    (
      o,
      after,
      started_plan c world writes s.run_id n session session1 s s1 p (ok o, after) (rw planned done)
          refl has runs,
      kept.loaded,
      kept.coherent,
      same,
      Ended-tasks o.state o.status same kept.coherent ended,
    )
