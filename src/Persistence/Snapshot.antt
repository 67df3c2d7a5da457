-- ===== src/Persistence/Snapshot.antt =====
-- The run-creation boundary and the authoritative snapshot of
-- fsasm-first/src/fsasm/persistence.py. An operation that writes returns the disk that it leaves
-- beside its result, also where it raises.
use fsasm_training_lab.Prelude.{
  String, Bool, true, false, not, Option, none, some, if◌then◌else◌, Result, ok, err, ◌>>=◌, ◌>>◌,
  reject_if,
}
use fsasm_training_lab.Models.{Plan, RunState}
use fsasm_training_lab.Persistence.Identifier.{Rejection, validate_identifier}
use fsasm_training_lab.Persistence.Restored.{restored}
use fsasm_training_lab.Persistence.Disk.{
  Codec, RunDir, Disk, write_dir, Fault, marker_write, state_write, plan_write, invalid_identifier,
  run_already_exists, not_initialized, snapshot_missing, corrupt, write_failed, Answer,
}

abbrev pub as_identifier : Result Rejection Unit → Answer Unit
as_identifier (ok _) = ok tt
as_identifier (err r) = err (invalid_identifier r)

-- `_get_run_dir`, for the identifiers that it refuses
unfoldable pub get_run_dir : String → Answer Unit
get_run_dir run_id = as_identifier (validate_identifier run_id)

abbrev pub is_marked : {T : Type 0} → Option (RunDir T) → Bool
is_marked none = false
is_marked (some dir) = dir.marker

abbrev pub exists : {T : Type 0} → Option T → Bool
exists none = false
exists (some _) = true

module _ (c : Codec) where
  open c use {Text, dump_state, read_state, dump_plan}

  -- The fields that the files of a new directory have: none is there yet.
  abbrev pub fresh_dir : RunDir Text
  fresh_dir = record { marker = true; state_file = none; plan_file = none }

  -- The marker goes into the new directory; if that fails the directory is removed again.
  unfoldable pub create_run : Fault → String → Disk Text → Answer Unit × Disk Text
  create_run fault run_id disk = elim (get_run_dir run_id) [
    | err e ↦ (err e, disk)
    | ok _ ↦ if exists (disk run_id) then (err run_already_exists, disk) else elim fault [
      | marker_write ↦ (err write_failed, disk)
      | _ ↦ (ok tt, write_dir disk run_id fresh_dir)
    ]
  ]

  unfoldable pub is_run_initialized : String → Disk Text → Answer Bool
  is_run_initialized run_id disk = do get_run_dir run_id; ok (is_marked (disk run_id))

  -- An exception of a validator is reported as a corrupt snapshot.
  abbrev pub as_read : Answer RunState → Answer (Option RunState)
  as_read (ok s) = ok (some s)
  as_read (err _) = err corrupt

  abbrev pub parsed : Option RunState → Answer (Option RunState)
  parsed none = err corrupt
  parsed (some s) = as_read (restored s)

  abbrev pub read_file : Option Text → Answer (Option RunState)
  read_file none = ok none
  read_file (some text) = parsed (read_state text)

  abbrev pub state_file_of : Option (RunDir Text) → Option Text
  state_file_of none = none
  state_file_of (some dir) = dir.state_file

  -- `RunState(**json.load(f))` runs the validators of the model, those of its plan included.
  unfoldable pub load_run_state : String → Disk Text → Answer (Option RunState)
  load_run_state run_id disk = do get_run_dir run_id; read_file (state_file_of (disk run_id))

  -- A directory that is not there is made by the write (`mkdir(parents=True)`), with no marker.
  abbrev pub dir_or_new : Option (RunDir Text) → RunDir Text
  dir_or_new none = record { marker = false; state_file = none; plan_file = none }
  dir_or_new (some dir) = dir

  abbrev pub write_state : RunState → Disk Text → Disk Text
  write_state state disk =
      write_dir disk state.run_id
        (record (dir_or_new (disk state.run_id)) { state_file = some (dump_state state) })

  abbrev pub write_plan : String → Plan → Disk Text → Disk Text
  write_plan run_id plan disk =
      write_dir disk run_id
        (record (dir_or_new (disk run_id)) { plan_file = some (dump_plan plan) })

  -- `plan.json` after the snapshot: a failure here leaves the snapshot written.
  abbrev pub write_derived : Fault → String → Option Plan → Disk Text → Answer Unit × Disk Text
  write_derived fault run_id none disk = (ok tt, disk)
  write_derived plan_write run_id (some plan) disk = (err write_failed, disk)
  write_derived _ run_id (some plan) disk = (ok tt, write_plan run_id plan disk)

  unfoldable pub commit_run_state : Fault → RunState → Disk Text → Answer Unit × Disk Text
  commit_run_state fault state disk = elim (get_run_dir state.run_id) [
    | err e ↦ (err e, disk)
    | ok _ ↦ elim fault [
      | state_write ↦ (err write_failed, disk)
      | other ↦ write_derived other state.run_id state.plan (write_state state disk)
    ]
  ]

  abbrev pub require_state : Option RunState → Answer RunState
  require_state none = err snapshot_missing
  require_state (some state) = ok state

  -- The state that `recover_run` returns, before it repairs the derived view.
  unfoldable pub recoverable : String → Disk Text → Answer RunState
  unfolding is_run_initialized load_run_state
  recoverable run_id disk = do
    get_run_dir run_id
    marked ← is_run_initialized run_id disk
    reject_if (not marked) not_initialized
    found ← load_run_state run_id disk
    require_state found

  abbrev pub repaired : RunState → Answer Unit × Disk Text → Answer RunState × Disk Text
  repaired state (ok _, disk) = (ok state, disk)
  repaired state (err e, disk) = (err e, disk)

  unfoldable pub recover_run : Fault → String → Disk Text → Answer RunState × Disk Text
  unfolding recoverable
  recover_run fault run_id disk = elim (recoverable run_id disk) [
    | err e ↦ (err e, disk)
    | ok state ↦ repaired state (write_derived fault run_id state.plan disk)
  ]
