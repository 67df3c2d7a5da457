-- ===== src/Repository/Commit.antt =====
-- `StateRepository` of fsasm-first/src/fsasm/state_repository.py. `now` is the clock's reading that
-- `touch` writes, and `fault` says which of the writes fails.
use fsasm_training_lab.Prelude.{
  ℕ, ◌+◌, String, ◌==◌, Bool, not, nat_eq, ok, err, ◌>>=◌, ◌>>◌, reject_if,
}
use fsasm_training_lab.Models.{RunState, touch}
use fsasm_training_lab.Domain.Events.{DomainEvent, Outcome}
use fsasm_training_lab.Domain.Apply.{apply_event}
use fsasm_training_lab.Persistence.Disk.{
  Codec, Disk, Fault, not_initialized, snapshot_exists, run_id_mismatch, stale_revision,
  domain_error, Answer,
}
use fsasm_training_lab.Persistence.Snapshot.{
  get_run_dir, exists, state_file_of, is_run_initialized, load_run_state, commit_run_state,
  require_state,
}

abbrev pub as_domain : Outcome RunState → Answer RunState
as_domain (ok s) = ok s
as_domain (err e) = err (domain_error e)

module _ (c : Codec) where
  open c use {Text}

  -- `_get_state_path(run_id).exists()`
  unfoldable pub has_snapshot : String → Disk Text → Answer Bool
  unfolding get_run_dir
  has_snapshot run_id disk = do get_run_dir run_id; ok (exists (state_file_of c (disk run_id)))

  unfoldable pub require_initialized : String → Disk Text → Answer Unit
  unfolding is_run_initialized
  require_initialized run_id disk = do
    marked ← is_run_initialized c run_id disk
    reject_if (not marked) not_initialized

  -- What `commit_run_state` wrote, as the result of the operation that called it.
  abbrev pub committed_as : RunState → Answer Unit × Disk Text → Answer RunState × Disk Text
  committed_as state (ok _, disk) = (ok state, disk)
  committed_as state (err e, disk) = (err e, disk)

  -- Go on with the checked value, or leave the disk as it is.
  abbrev pub checked :
      {A : Type 0}
      → Answer A
      → Disk Text
      → (A → Answer RunState × Disk Text)
      → Answer RunState × Disk Text
  checked (ok a) disk next = next a
  checked (err e) disk next = (err e, disk)

  unfoldable pub can_init : RunState → Disk Text → Answer Unit
  unfolding require_initialized has_snapshot
  can_init state disk = do
    require_initialized state.run_id disk
    present ← has_snapshot state.run_id disk
    reject_if present snapshot_exists

  unfoldable pub init_snapshot : Fault → String → RunState → Disk Text → Answer RunState × Disk Text
  unfolding can_init commit_run_state touch
  init_snapshot fault now state disk = checked (can_init state disk) disk λ _.
      let initial = touch now (record state { revision = 0 }) in
      committed_as initial (commit_run_state c fault initial disk)

  unfoldable pub load : String → Disk Text → Answer RunState
  unfolding require_initialized load_run_state
  load run_id disk = do
    require_initialized run_id disk
    found ← load_run_state c run_id disk
    require_state c found

  -- The guards of `commit_snapshot`, which give the revision on disk.
  unfoldable pub may_commit : String → ℕ → RunState → Disk Text → Answer ℕ
  unfolding require_initialized load_run_state
  may_commit run_id expected next_state disk = do
    reject_if (not (run_id == next_state.run_id)) run_id_mismatch
    require_initialized run_id disk
    found ← load_run_state c run_id disk
    current ← require_state c found
    reject_if (not (nat_eq current.revision expected)) (stale_revision expected current.revision)
    ok current.revision

  unfoldable pub commit_snapshot :
      Fault → String → String → ℕ → RunState → Disk Text → Answer RunState × Disk Text
  unfolding may_commit commit_run_state touch
  commit_snapshot fault now run_id expected next_state disk =
      checked (may_commit run_id expected next_state disk) disk λ actual.
        let committed = touch now (record next_state { revision = actual + 1 }) in
        committed_as committed (commit_run_state c fault committed disk)

  -- load → `apply_event`, before the commit
  unfoldable pub next_of : String → ℕ → DomainEvent → Disk Text → Answer RunState
  unfolding load
  next_of run_id expected event disk = do
    current ← load run_id disk
    reject_if (not (nat_eq current.revision expected)) (stale_revision expected current.revision)
    as_domain (apply_event current event)

  unfoldable pub advance :
      Fault → String → String → ℕ → DomainEvent → Disk Text → Answer RunState × Disk Text
  unfolding next_of commit_snapshot
  advance fault now run_id expected event disk =
      checked (next_of run_id expected event disk) disk
        λ next_state. commit_snapshot fault now run_id expected next_state disk
