-- ===== src/Examples/Disk.antt =====
-- The theorems on fsasm-first/src/fsasm/persistence.py, state_repository.py and
-- runtime_lifecycle.py at a sample disk.
use fsasm_training_lab.Prelude.{
  ◌+◌, ◌≤◌, ◌≡◌, ◌≢◌, ◌↔◌, ◌⊎◌, inl, refl, true, false, String, Option, none, some, [], ok, err,
  codes, length, all, ==→≢, contains, append_once,
}
use fsasm_training_lab.Models.{TaskStatus, Plan, RunState, validate_run_state, gate_id_for, decimal}
use fsasm_training_lab.Domain.Apply.{apply_event}
use fsasm_training_lab.Domain.Register.{lookup_task, update_task}
use fsasm_training_lab.Domain.Coherent.{IsCoherent}
use fsasm_training_lab.Persistence.Goal.{goal_not_blank, strip, trim_start, trim_end}
use fsasm_training_lab.Persistence.Restored.{constructed, restored}
use fsasm_training_lab.PlanCheck.{
  validate_plan, find_cycle, visit_roots, visit, visit_all, all_white, dependencies_of,
  dependencies_exist,
}
use fsasm_training_lab.Persistence.Identifier.{
  validate_identifier, rstrip, lstrip, stem, is_allowed, is_reserved, max_identifier_length,
}
use fsasm_training_lab.Persistence.Accepted.{validate_identifier_iff}
use fsasm_training_lab.Persistence.Disk.{
  Codec, RunDir, Disk, no_fault, plan_write, PersistenceError, stale_revision,
}
use fsasm_training_lab.Persistence.Snapshot.{get_run_dir, recover_run, state_file_of}
use fsasm_training_lab.Repository.Commit.{load, advance}
use fsasm_training_lab.Repository.Lifecycle.{new_run_state, start_new, resume}
use fsasm_training_lab.Repository.Laws.{committed_state}
use fsasm_training_lab.Repository.Revisions.{no_lost_update, IsCoherent-advance, advance_is_atomic}
use fsasm_training_lab.Repository.Recovery.{
  plan_file_of, start_new_never_overwrites, start_new-resume, recover_run_repairs,
}
use fsasm_training_lab.Examples.Runs.{task_one, plan_of, failed_run, waiting_run, escalation}
use fsasm_training_lab.Examples.Domain.{failed-IsCoherent, no_plan_in}

-- A file that holds the value itself.
pub data File : Type 0 where
  state_text : RunState → File
  plan_text : Plan → File

abbrev read_state_text : File → Option RunState
read_state_text (state_text s) = some s
read_state_text (plan_text p) = none

abbrev read_plan_text : File → Option Plan
read_plan_text (state_text s) = none
read_plan_text (plan_text p) = some p

abbrev pub identity_codec : Codec
identity_codec = record {
  Text = File;
  dump_state = state_text;
  read_state = read_state_text;
  dump_plan = plan_text;
  read_plan = read_plan_text;
  read-dump_state = λ s. refl;
  read-dump_plan = λ p. refl;
}

abbrev fresh_plan : Plan
fresh_plan = plan_of (task_one TaskStatus.pending 0 [])

abbrev empty_disk : Disk File
empty_disk run_id = none

abbrev failed_dir : RunDir File
failed_dir = record { marker = true; state_file = some (state_text failed_run); plan_file = none }

abbrev failed_disk : Disk File
failed_disk run_id = some failed_dir

abbrev waiting_saved : RunState
waiting_saved = record waiting_run { revision = 4; updated_at = "t4" }

started :
    (start_new identity_codec no_fault "t0" "t1" "t2" "r" " Two files" fresh_plan empty_disk).0
    ≡ ok (new_run_state "t0" "t2" "r" "Two files" fresh_plan)
unfolding start_new validate_identifier rstrip lstrip is_reserved stem validate_run_state contains
    restored constructed goal_not_blank strip trim_start trim_end validate_plan find_cycle
    visit_roots visit visit_all all_white dependencies_of dependencies_exist lookup_task
started = refl

failed_loads : load identity_codec "r" failed_disk ≡ ok failed_run
unfolding load get_run_dir validate_identifier rstrip lstrip is_reserved stem validate_run_state
    contains restored constructed goal_not_blank strip trim_start trim_end validate_plan find_cycle
    visit_roots visit visit_all all_white dependencies_of dependencies_exist lookup_task
failed_loads = refl

escalated : (advance identity_codec no_fault "t4" "r" 3 escalation failed_disk).0 ≡ ok waiting_saved
unfolding advance get_run_dir validate_identifier rstrip lstrip is_reserved stem validate_run_state
    contains apply_event lookup_task update_task append_once gate_id_for decimal restored
    constructed goal_not_blank strip trim_start trim_end validate_plan find_cycle visit_roots visit
    visit_all all_white dependencies_of dependencies_exist
escalated = refl

saved_valid : validate_run_state waiting_saved ≡ ok tt
unfolding validate_run_state contains
saved_valid = refl

recovered : (recover_run identity_codec no_fault "r" failed_disk).0 ≡ ok failed_run
unfolding recover_run get_run_dir validate_identifier rstrip lstrip is_reserved stem
    validate_run_state contains restored constructed goal_not_blank strip trim_start trim_end
    validate_plan find_cycle visit_roots visit visit_all all_white dependencies_of
    dependencies_exist lookup_task
recovered = refl

validate_identifier_iff_example : (validate_identifier "run-1" ≡ ok tt) ↔ (
    (codes "run-1" ≢ [])
    × (all is_allowed (codes "run-1") ≡ true)
    × (length (codes "run-1") ≤ max_identifier_length)
    × (is_reserved (codes "run-1") ≡ false))
validate_identifier_iff_example = validate_identifier_iff "run-1"

no_lost_update_example :
    advance identity_codec no_fault "t5" "r" 3 escalation
      (advance identity_codec no_fault "t4" "r" 3 escalation failed_disk).1
    ≡ (
      err (stale_revision 3 (3 + 1)),
      (advance identity_codec no_fault "t4" "r" 3 escalation failed_disk).1,
    )
no_lost_update_example =
    no_lost_update identity_codec no_fault no_fault "t4" "t5" "r" 3 escalation escalation
      failed_disk waiting_saved escalated
      (λ r p q. absurd (no_plan_in escalation "TASK-r-1" refl r p q)) saved_valid

IsCoherent-advance_example :
    (load identity_codec "r" (advance identity_codec no_fault "t4" "r" 3 escalation failed_disk).1
      ≡ ok waiting_saved)
    × IsCoherent waiting_saved
IsCoherent-advance_example =
    IsCoherent-advance identity_codec no_fault "t4" "r" 3 escalation failed_disk failed_run
      waiting_saved failed_loads failed-IsCoherent (inl refl)
      (λ r p q. absurd (no_plan_in escalation "TASK-r-1" refl r p q))
      (λ r p q. absurd (no_plan_in escalation "TASK-r-1" refl r p q)) escalated

advance_is_atomic_example :
    ((advance identity_codec plan_write "t4" "r" 3 escalation failed_disk).1 "s" ≡ failed_disk "s")
    × (((advance identity_codec plan_write "t4" "r" 3 escalation failed_disk).1 "r"
          ≡ failed_disk "r")
        ⊎ ((s : RunState) × (n : RunState) × (load identity_codec "r" failed_disk ≡ ok s)
            × (s.revision ≡ 3)
            × (apply_event s escalation ≡ ok n)
            × (state_file_of identity_codec
                  ((advance identity_codec plan_write "t4" "r" 3 escalation failed_disk).1 "r")
                ≡ some (state_text (committed_state "t4" 3 n)))))
advance_is_atomic_example =
    advance_is_atomic identity_codec plan_write "t4" "r" 3 escalation failed_disk "s"
      (==→≢ "r" "s" refl)

start_new_never_overwrites_example :
    (e : PersistenceError) × (start_new identity_codec no_fault "t0" "t1" "t2" "r" " Two files"
        fresh_plan failed_disk
      ≡ (err e, failed_disk))
start_new_never_overwrites_example =
    start_new_never_overwrites identity_codec no_fault "t0" "t1" "t2" "r" " Two files" fresh_plan
      failed_disk failed_dir refl

fresh_accepted : validate_plan fresh_plan ≡ ok tt
unfolding validate_plan find_cycle visit_roots visit visit_all all_white dependencies_of
    dependencies_exist lookup_task contains
fresh_accepted = refl

-- The goal is given with a space before it.
start_new-resume_example :
    (empty_disk "r" ≡ none)
    × (strip " Two files" ≢ "")
    × (new_run_state "t0" "t2" "r" "Two files" fresh_plan
        ≡ new_run_state "t0" "t2" "r" (strip " Two files") fresh_plan)
    × (resume identity_codec "r"
          (start_new identity_codec no_fault "t0" "t1" "t2" "r" " Two files" fresh_plan
            empty_disk).1
        ≡ ok (new_run_state "t0" "t2" "r" "Two files" fresh_plan, 0))
    × ((j : String)
        → "r" ≢ j
        → (start_new identity_codec no_fault "t0" "t1" "t2" "r" " Two files" fresh_plan
              empty_disk).1
            j
          ≡ empty_disk j)
start_new-resume_example =
    start_new-resume identity_codec no_fault "t0" "t1" "t2" "r" " Two files" fresh_plan empty_disk
      (new_run_state "t0" "t2" "r" "Two files" fresh_plan) fresh_accepted started

recover_run_repairs_example :
    (load identity_codec "r" failed_disk ≡ ok failed_run)
    × (plan_file_of ((recover_run identity_codec no_fault "r" failed_disk).1 "r")
        ≡ some (plan_text (plan_of (task_one TaskStatus.failed 1 []))))
    × ((recover_run identity_codec no_fault "r"
          (recover_run identity_codec no_fault "r" failed_disk).1).0
        ≡ ok failed_run)
recover_run_repairs_example =
    recover_run_repairs identity_codec "r" failed_disk failed_run
      (plan_of (task_one TaskStatus.failed 1 [])) recovered refl
