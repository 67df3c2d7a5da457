-- ===== src/Examples/Scheduler.antt =====
-- The theorems on fsasm-first/src/fsasm/scheduler.py at the sample run.
use fsasm_training_lab.Prelude.{
  ◌≡◌, ◌⊎◌, inl, inr, refl, true, false, some, [], ◌∷◌, ok, All, contains,
}
use fsasm_training_lab.Models.{TaskStatus, ChildTask, RunState}
use fsasm_training_lab.Domain.Events.{task_activated, task_readied}
use fsasm_training_lab.Domain.Register.{tasks_of}
use fsasm_training_lab.Domain.Apply.{apply_event}
use fsasm_training_lab.Scheduler.Order.{In, key_le, sort, insert}
use fsasm_training_lab.Scheduler.Query.{
  chosen, answer, busy, schedule, schedule_tasks, is_candidate, dependencies_satisfied,
  no_candidate, all_required_tasks_complete,
}
use fsasm_training_lab.Scheduler.Sound.{IsEligible, IsIdle, schedule_sound, schedule_progress}
use fsasm_training_lab.Scheduler.Activates.{scheduled_task_starts}
use fsasm_training_lab.Examples.Runs.{task_one, task_two, passed_run, ready_run}
use fsasm_training_lab.Examples.Domain.{two-Unique}

first_chosen : schedule ready_run ≡ chosen (task_one TaskStatus.ready 0 [])
unfolding schedule schedule_tasks is_candidate dependencies_satisfied no_candidate sort insert
    key_le contains all_required_tasks_complete
first_chosen = refl

-- The first task has passed, so the second one is next.
second_chosen : schedule passed_run ≡ chosen task_two
unfolding schedule schedule_tasks is_candidate dependencies_satisfied no_candidate sort insert
    key_le contains all_required_tasks_complete
second_chosen = refl

passed-IsIdle : IsIdle passed_run
passed-IsIdle = (refl, λ h. cc, λ h. cc, λ h. cc)

second-IsEligible : IsEligible ("TASK-r-1" ∷ []) task_two
unfolding contains
second-IsEligible = (inl refl, (refl, tt))

second_open : contains ("TASK-r-1" ∷ []) "TASK-r-2" ≡ false
unfolding contains
second_open = refl

schedule_sound_example :
    IsIdle passed_run
    × In task_two (tasks_of passed_run)
    × IsEligible ("TASK-r-1" ∷ []) task_two
    × All
        (λ u. (key_le task_two u ≡ true) ⊎ (¬ (IsEligible ("TASK-r-1" ∷ []) u)))
        (tasks_of passed_run)
schedule_sound_example = schedule_sound passed_run task_two second_chosen

schedule_progress_example : (t : ChildTask) × (schedule passed_run ≡ chosen t)
schedule_progress_example =
    schedule_progress passed_run task_two passed-IsIdle (inr (inl refl)) second_open
      second-IsEligible

scheduled_task_starts_example :
    (s1 : RunState) × (s2 : RunState) × (((task_two.status ≡ TaskStatus.ready) × (s1 ≡ passed_run))
      ⊎ ((task_two.status ≡ TaskStatus.pending)
          × (apply_event passed_run (task_readied "r" "TASK-r-2") ≡ ok s1)))
    × (apply_event s1 (task_activated s1.run_id "TASK-r-2") ≡ ok s2)
    × (s2.active_task_id ≡ some "TASK-r-2")
    × (schedule s2 ≡ answer busy)
scheduled_task_starts_example =
    scheduled_task_starts passed_run task_two
      (two-Unique (task_one TaskStatus.passed 1 ("evidence-1" ∷ [])) refl) second_chosen
