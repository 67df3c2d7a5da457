-- ===== src/Repository/Recovery.antt =====
-- Creating a run, resuming it and recovering it: `start_new` and `resume` of
-- fsasm-first/src/fsasm/runtime_lifecycle.py, `recover_run` of fsasm-first/src/fsasm/persistence.py.
use fsasm_training_lab.Prelude.{
  String, ◌==◌, ◌≡◌, ◌≢◌, Option, none, some, ok, err, arith, ==_refl, ==→≢, false, sym, ap, ◌∙◌,
  inl, inr, Option-cases, Bool-cases, Result-cases,
}
use fsasm_training_lab.Models.{RunState, Plan, validate_run_state}
use fsasm_training_lab.Repository.Written.{
  write_self, write_other, load_from, commit_run_state_self, commit_run_state-other,
}
use fsasm_training_lab.Persistence.Disk.{
  Codec, RunDir, Disk, write_dir, Fault, no_fault, PersistenceError, run_already_exists,
  plan_mismatch, Answer,
}
use fsasm_training_lab.Persistence.Snapshot.{
  get_run_dir, create_run, is_run_initialized, load_run_state, commit_run_state, recoverable,
  recover_run, fresh_dir, is_marked,
}
use fsasm_training_lab.Repository.Commit.{
  load, require_initialized, has_snapshot, can_init, init_snapshot,
}
use fsasm_training_lab.PlanCheck.{validate_plan}
use fsasm_training_lab.Persistence.Goal.{strip, strip-strip}
use fsasm_training_lab.Persistence.Restored.{
  constructed, restored, constructed_inv, IsStorable-restored,
}
use fsasm_training_lab.Repository.Lifecycle.{new_run_state, start_new, resume}

abbrev pub plan_file_of : {T : Type 0} → Option (RunDir T) → Option T
plan_file_of none = none
plan_file_of (some dir) = dir.plan_file

module _ (c : Codec) where
  open c use {Text, dump_state, dump_plan}

  -- A run whose directory exists is never started anew: the call raises, and the disk stays as it is,
  -- whichever write would fail.
  pub start_new_never_overwrites :
      (fault : Fault) (created updated now run_id goal : String) (plan : Plan) (disk : Disk Text)
      (dir : RunDir Text)
      → disk run_id ≡ some dir
      → (e : PersistenceError) × (start_new c fault created updated now run_id goal plan disk
          ≡ (err e, disk))
  unfolding start_new create_run
  start_new_never_overwrites fault created updated now run_id goal plan disk dir h =
      elim (Bool-cases (plan.run_id == run_id)) [
        | inr other ↦ (plan_mismatch, ground arith)
        | inl own ↦ elim (Result-cases (get_run_dir run_id)) [
          | inl (e, bad) ↦ (e, ground arith)
          | inr (u, good) ↦ (run_already_exists, ground arith)
        ]
      ]

  -- What an accepted start has left, and made.
  started_inv :
      (fault : Fault) (created updated now run_id goal : String) (plan : Plan) (disk : Disk Text)
      (s : RunState)
      → (start_new c fault created updated now run_id goal plan disk).0 ≡ ok s
      → (initial : RunState) × (disk run_id ≡ none)
        × (get_run_dir run_id ≡ ok tt)
        × (constructed (new_run_state created updated run_id goal plan) ≡ ok initial)
        × (start_new c fault created updated now run_id goal plan disk
            ≡ init_snapshot c fault now initial (write_dir disk run_id (fresh_dir c)))
  unfolding start_new create_run init_snapshot can_init require_initialized is_run_initialized
      has_snapshot commit_run_state
  started_inv fault created updated now run_id goal plan disk s h =
      ground (arith, ==_refl run_id, Option-cases (disk run_id))

  -- What an accepted initial snapshot is, and what it leaves.
  initial_written :
      (fault : Fault) (now : String) (initial : RunState) (disk : Disk Text) (s : RunState)
      → (init_snapshot c fault now initial disk).0 ≡ ok s
      → (s ≡ record initial { revision = 0; updated_at = now })
        × ((commit_run_state c fault s disk).0 ≡ ok tt)
        × ((init_snapshot c fault now initial disk).1 ≡ (commit_run_state c fault s disk).1)
  unfolding init_snapshot can_init require_initialized is_run_initialized has_snapshot
      commit_run_state
  initial_written fault now initial disk s h = ground arith

  fresh_restored :
      (created updated now run_id goal : String) (plan : Plan)
      → validate_plan plan ≡ ok tt
      → (strip goal == "") ≡ false
      → validate_run_state (new_run_state created updated run_id goal plan) ≡ ok tt
      → restored (new_run_state created now run_id (strip goal) plan)
        ≡ ok (new_run_state created now run_id (strip goal) plan)
  unfolding validate_run_state
  fresh_restored created updated now run_id goal plan valid named accepted =
      IsStorable-restored (new_run_state created now run_id (strip goal) plan)
        (record { stripped = strip-strip goal; named = named; plan_valid = valid }) accepted

  resume_from :
      (run_id : String) (disk : Disk Text) (s : RunState)
      → load c run_id disk ≡ ok s
      → resume c run_id disk ≡ ok (s, s.revision)
  unfolding resume
  resume_from run_id disk s h = ground arith

  -- A new run starts only where there is no directory, in its own directory only, with a goal that is
  -- not blank once stripped, at revision 0, in CREATED and with its plan; when the plan has passed its
  -- validators, `resume` then reads the same state back.
  pub start_new-resume :
      (fault : Fault) (created updated now run_id goal : String) (plan : Plan) (disk : Disk Text)
      (s : RunState)
      → validate_plan plan ≡ ok tt
      → (start_new c fault created updated now run_id goal plan disk).0 ≡ ok s
      → (disk run_id ≡ none)
        × (strip goal ≢ "")
        × (s ≡ new_run_state created now run_id (strip goal) plan)
        × (resume c run_id (start_new c fault created updated now run_id goal plan disk).1
            ≡ ok (s, 0))
        × ((j : String)
            → run_id ≢ j
            → (start_new c fault created updated now run_id goal plan disk).1 j ≡ disk j)
  start_new-resume fault created updated now run_id goal plan disk s valid h =
      let t = new_run_state created now run_id (strip goal) plan in
      let fresh = write_dir disk run_id (fresh_dir c) in
      let (initial, nobody, dir, made, whole) =
        started_inv fault created updated now run_id goal plan disk s h in
      let (is, named, accepted) =
        constructed_inv (new_run_state created updated run_id goal plan) initial made in
      let begun : (init_snapshot c fault now initial fresh).0 ≡ ok s =
        ap (λ (p : Answer RunState × Disk Text). p.0) (sym whole) ∙ h in
      let (made_of, done, written) = initial_written fault now initial fresh s begun in
      let same : s ≡ t =
        made_of ∙ ap (λ (x : RunState). record x { revision = 0; updated_at = now }) is in
      let left : (start_new c fault created updated now run_id goal plan disk).1
          ≡ (commit_run_state c fault t fresh).1 =
        ap (λ (p : Answer RunState × Disk Text). p.1) whole
        ∙ written
        ∙ ap (λ x. (commit_run_state c fault x fresh).1) same in
      let (file, marker) =
        commit_run_state_self c fault t fresh
          (ap (λ x. (commit_run_state c fault x fresh).0) (sym same) ∙ done) in
      let marked = marker ∙ ap is_marked (write_self disk run_id (fresh_dir c)) in
      let again =
        load_from c run_id (commit_run_state c fault t fresh).1 t dir marked file
          (fresh_restored created updated now run_id goal plan valid named accepted) in
      (
        nobody,
        ==→≢ (strip goal) "" named,
        same,
        rw (left, same) (resume_from run_id (commit_run_state c fault t fresh).1 t again),
        λ j ne.
            ap (λ (d : Disk Text). d j) left
            ∙ commit_run_state-other c fault t fresh j ne
            ∙ write_other disk run_id (fresh_dir c) j ne,
      )

  -- When no write fails and the snapshot has a plan, `recover_run` returns what `load` reads and rewrites
  -- the derived plan file from it; the snapshot stays, so recovering again gives the same answer.
  pub recover_run_repairs :
      (run_id : String) (disk : Disk Text) (s : RunState) (p : Plan)
      → (recover_run c no_fault run_id disk).0 ≡ ok s
      → s.plan ≡ some p
      → (load c run_id disk ≡ ok s)
        × (plan_file_of ((recover_run c no_fault run_id disk).1 run_id) ≡ some (dump_plan p))
        × ((recover_run c no_fault run_id (recover_run c no_fault run_id disk).1).0 ≡ ok s)
  unfolding recover_run recoverable load require_initialized is_run_initialized load_run_state
  recover_run_repairs run_id disk s p h hp =
      ground (arith, ==_refl run_id, Option-cases (disk run_id))
