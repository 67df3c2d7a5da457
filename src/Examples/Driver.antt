-- ===== src/Examples/Driver.antt =====
-- The theorem on `run_plan` of fsasm-first/src/fsasm/runtime.py at a sample plan of two tasks.
use fsasm_training_lab.Prelude.{◌≡◌, refl, true, none, some, [], ok, arith, contains, inl}
use fsasm_training_lab.Models.{TaskStatus, validate_run_state, retry_count_remaining}
use fsasm_training_lab.Domain.Register.{tasks_of}
use fsasm_training_lab.Domain.Coherent.{IsCoherent}
use fsasm_training_lab.Domain.Register.{lookup_task}
use fsasm_training_lab.Persistence.Goal.{goal_not_blank, strip, trim_start, trim_end}
use fsasm_training_lab.Persistence.Restored.{constructed, restored}
use fsasm_training_lab.PlanCheck.{
  validate_plan, find_cycle, visit_roots, visit, visit_all, all_white, dependencies_of,
  dependencies_exist,
}
use fsasm_training_lab.Persistence.Identifier.{
  validate_identifier, rstrip, lstrip, stem, is_reserved,
}
use fsasm_training_lab.Persistence.Disk.{Disk, no_fault}
use fsasm_training_lab.Persistence.Snapshot.{get_run_dir}
use fsasm_training_lab.Repository.Commit.{load}
use fsasm_training_lab.Runtime.{World, Session}
use fsasm_training_lab.Runtime.Weight.{weigh, weight}
use fsasm_training_lab.Runtime.Ends.{Finishes, run_plan_ends}
use fsasm_training_lab.Examples.Runs.{task_one, planned_run}
use fsasm_training_lab.Examples.Domain.{two-Unique}
use fsasm_training_lab.Examples.Disk.{File, state_text, identity_codec}

-- The stub lets every attempt pass.
abbrev pub calm : World
calm = record { should_pass = λ task attempt. true; clock = λ k. "t"; fault = λ k. no_fault }

abbrev planned_disk : Disk File
planned_disk run_id =
    some (record { marker = true; state_file = some (state_text planned_run); plan_file = none })

abbrev at_start : Session File
at_start = record { disk = planned_disk; events = [] }

planned_loads : load identity_codec "r" planned_disk ≡ ok planned_run
unfolding load get_run_dir validate_identifier rstrip lstrip is_reserved stem validate_run_state
    contains restored constructed goal_not_blank strip trim_start trim_end validate_plan find_cycle
    visit_roots visit visit_all all_white dependencies_of dependencies_exist lookup_task
planned_loads = refl

planned-IsCoherent : IsCoherent planned_run
unfolding contains
planned-IsCoherent = record {
  own_plan = refl;
  unique = two-Unique (task_one TaskStatus.pending 0 []) refl;
  tasks_ok = (
    record {
      running_active = λ h. cc;
      completed_passed = λ h. cc;
      failed_failed = λ h. cc;
      waiting = λ h. cc;
    },
    (
      record {
        running_active = λ h. cc;
        completed_passed = λ h. cc;
        failed_failed = λ h. cc;
        waiting = λ h. cc;
      },
      tt,
    ),
  );
  lists_ok = record {
    active_known = refl;
    completed_known = tt;
    failed_known = tt;
    waiting_known = tt;
    waiting_once = tt;
    gate_ok = tt;
    failed_closed = λ h. refl;
    created_idle = λ h. cc;
  };
}

work_left : weigh (tasks_of planned_run) ≡ 4
unfolding weigh weight retry_count_remaining
work_left = refl

run_plan_ends_example : Finishes identity_codec calm 1000 planned_run at_start
unfolding contains
run_plan_ends_example =
    run_plan_ends identity_codec calm 1000 at_start planned_run (λ k. refl) planned_loads
      planned-IsCoherent (inl refl) refl refl refl (rw work_left (omega arith))
