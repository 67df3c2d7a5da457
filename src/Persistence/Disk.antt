-- ===== src/Persistence/Disk.antt =====
-- The run directories that fsasm-first/src/fsasm/persistence.py keeps, and the exceptions of the
-- persistence layer. A file is written by a rename of a finished temporary file, so it holds the old
-- text or the new one. There are no symbolic links below the runs directory.
use fsasm_training_lab.Prelude.{ℕ, String, ◌==◌, ◌≡◌, Bool, Option, some, if◌then◌else◌, Result}
use fsasm_training_lab.Models.{Plan, RunState, Violation}
use fsasm_training_lab.Domain.Events.{DomainError}
use fsasm_training_lab.Persistence.Identifier.{Rejection}

-- JSON and the field types of pydantic, which are not part of the repository: what `model_dump` and
-- `json.dump` write, and what `json.load` and the field types read, before the validators run.
pub record Codec : Type 1 where
  pub Text : Type 0
  pub dump_state : RunState → Text
  pub read_state : Text → Option RunState
  pub dump_plan : Plan → Text
  pub read_plan : Text → Option Plan
  pub read-dump_state : (s : RunState) → read_state (dump_state s) ≡ some s
  pub read-dump_plan : (p : Plan) → read_plan (dump_plan p) ≡ some p

-- `<run_id>/`: the reservation marker, `state.json` and `plan.json`
pub record RunDir (Text : Type 0) : Type 0 where
  pub marker : Bool
  pub state_file : Option Text
  pub plan_file : Option Text

abbrev pub Disk : Type 0 → Type 0
Disk Text = String → Option (RunDir Text)

abbrev pub write_dir {ℓ} : {D : Type ℓ} → (String → Option D) → String → D → String → Option D
write_dir disk run_id dir j = if run_id == j then some dir else disk j

-- Which write fails, if one does; a crash there leaves what was written before it.
pub data Fault : Type 0 where
  no_fault marker_write state_write plan_write : Fault

pub data PersistenceError : Type 0 where
  invalid_identifier : Rejection → PersistenceError
  run_already_exists not_initialized snapshot_missing snapshot_exists corrupt : PersistenceError
  write_failed run_id_mismatch plan_mismatch blank_goal : PersistenceError
  stale_revision : (expected actual : ℕ) → PersistenceError
  invalid_state : Violation → PersistenceError
  domain_error : DomainError → PersistenceError

abbrev pub Answer : Type 0 → Type 0
Answer A = Result PersistenceError A
