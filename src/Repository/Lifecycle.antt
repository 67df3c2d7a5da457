-- ===== src/Repository/Lifecycle.antt =====
-- `RuntimeLifecycle` of fsasm-first/src/fsasm/runtime_lifecycle.py.
use fsasm_training_lab.Prelude.{ℕ, String, ◌==◌, none, some, [], if◌then◌else◌, ok, err, ◌>>=◌}
use fsasm_training_lab.Models.{RunStatus, Plan, RunState}
use fsasm_training_lab.Persistence.Restored.{constructed}
use fsasm_training_lab.Persistence.Disk.{Codec, Disk, Fault, plan_mismatch, Answer}
use fsasm_training_lab.Persistence.Snapshot.{create_run}
use fsasm_training_lab.Repository.Commit.{init_snapshot, load, checked}

-- The fields of `RunState(run_id=run_id, goal=goal, plan=plan)`, with the defaults of the model: each of
-- the two timestamps is a reading of the clock of its own.
abbrev pub new_run_state : String → String → String → String → Plan → RunState
new_run_state created updated run_id goal plan = record {
  run_id = run_id;
  goal = goal;
  status = RunStatus.created;
  schema_version = 1;
  revision = 0;
  plan = some plan;
  active_task_id = none;
  completed_task_ids = [];
  failed_task_ids = [];
  needs_human_task_ids = [];
  gate = none;
  budget = none;
  created_at = created;
  updated_at = updated;
}

module _ (c : Codec) where
  open c use {Text}

  abbrev pub after_creation :
      Answer Unit × Disk Text
      → (Disk Text → Answer RunState × Disk Text)
      → Answer RunState × Disk Text
  after_creation (ok _, disk) next = next disk
  after_creation (err e, disk) next = (err e, disk)

  -- The constructor of the model strips the goal and runs its validators; the directory is there by
  -- then.
  abbrev pub init_valid : Fault → String → RunState → Disk Text → Answer RunState × Disk Text
  init_valid fault now state disk =
      checked c (constructed state) disk λ initial. init_snapshot c fault now initial disk

  unfoldable pub start_new :
      Fault
      → (created updated now : String) → String
      → String
      → Plan
      → Disk Text
      → Answer RunState × Disk Text
  unfolding create_run init_snapshot constructed
  start_new fault created updated now run_id goal plan disk =
      if plan.run_id == run_id
      then after_creation (create_run c fault run_id disk)
          (init_valid fault now (new_run_state created updated run_id goal plan))
      else (err plan_mismatch, disk)

  unfoldable pub resume : String → Disk Text → Answer (RunState × ℕ)
  unfolding load
  resume run_id disk = do state ← load c run_id disk; ok (state, state.revision)
