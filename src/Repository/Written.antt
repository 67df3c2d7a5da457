-- ===== src/Repository/Written.antt =====
-- What a commit leaves on the disk, and what is read back from it: fsasm-first/src/fsasm/persistence.py
-- below fsasm-first/src/fsasm/state_repository.py.
use fsasm_training_lab.Prelude.{String, ◌≡◌, ◌≢◌, true, Option, some, ok, arith, ==_refl, ◌⊎◌, ≢→==}
use fsasm_training_lab.Models.{RunState}
use fsasm_training_lab.Persistence.Restored.{restored}
use fsasm_training_lab.Persistence.Disk.{Codec, Disk, write_dir, Fault}
use fsasm_training_lab.Persistence.Snapshot.{
  get_run_dir, is_marked, state_file_of, is_run_initialized, load_run_state, commit_run_state,
}
use fsasm_training_lab.Repository.Commit.{load, require_initialized}

pub write_self :
    {D : Type 0} (disk : String → Option D) (r : String) (d : D) → write_dir disk r d r ≡ some d
write_self disk r d = ground (arith, ==_refl r)

pub write_other :
    {D : Type 0} (disk : String → Option D) (r : String) (d : D) (j : String)
    → r ≢ j
    → write_dir disk r d j ≡ disk j
write_other disk r d j ne = ground (arith, ≢→== r j ne)

module _ (c : Codec) where
  open c use {Text, dump_state}

  pub load_inv :
      (run_id : String) (disk : Disk Text) (s : RunState)
      → load c run_id disk ≡ ok s
      → (get_run_dir run_id ≡ ok tt) × (is_marked (disk run_id) ≡ true)
  unfolding load require_initialized is_run_initialized load_run_state
  load_inv run_id disk s h = ground arith

  pub load_from :
      (run_id : String) (disk : Disk Text) (s : RunState)
      → get_run_dir run_id ≡ ok tt
      → is_marked (disk run_id) ≡ true
      → state_file_of c (disk run_id) ≡ some (dump_state s)
      → restored s ≡ ok s
      → load c run_id disk ≡ ok s
  unfolding load require_initialized is_run_initialized load_run_state
  load_from run_id disk s dir marked file valid = ground (arith, c.read-dump_state s)

  -- What the snapshot's file and the marker of a directory are after a commit.
  pub commit_run_state_self :
      (fault : Fault) (s : RunState) (disk : Disk Text)
      → (commit_run_state c fault s disk).0 ≡ ok tt
      → (state_file_of c ((commit_run_state c fault s disk).1 s.run_id) ≡ some (dump_state s))
        × (is_marked ((commit_run_state c fault s disk).1 s.run_id) ≡ is_marked (disk s.run_id))
  unfolding commit_run_state
  commit_run_state_self fault s disk h = ground (arith, ==_refl s.run_id)

  pub commit_run_state-other :
      (fault : Fault) (s : RunState) (disk : Disk Text) (j : String)
      → s.run_id ≢ j
      → (commit_run_state c fault s disk).1 j ≡ disk j
  unfolding commit_run_state
  commit_run_state-other fault s disk j ne = ground (arith, ≢→== s.run_id j ne)

  pub commit_run_state-file :
      (fault : Fault) (s : RunState) (disk : Disk Text)
      → ((commit_run_state c fault s disk).1 s.run_id ≡ disk s.run_id)
        ⊎ (state_file_of c ((commit_run_state c fault s disk).1 s.run_id) ≡ some (dump_state s))
  unfolding commit_run_state
  commit_run_state-file fault s disk = ground (arith, ==_refl s.run_id)
