-- ===== src/Repository/Laws.antt =====
-- What one call of `advance` of fsasm-first/src/fsasm/state_repository.py does to the disk.
use fsasm_training_lab.Prelude.{
  ℕ, ◌+◌, String, ◌≡◌, refl, ok, err, arith, eq_iff, ◌⊎◌, inl, inr, ◌∙◌, sym, ap,
}
use fsasm_training_lab.Models.{RunState}
use fsasm_training_lab.Domain.Events.{DomainEvent}
use fsasm_training_lab.Domain.Apply.{apply_event}
use fsasm_training_lab.Persistence.Disk.{Codec, Disk, Fault, PersistenceError, Answer}
use fsasm_training_lab.Persistence.Snapshot.{commit_run_state}
use fsasm_training_lab.Repository.Commit.{
  load, next_of, may_commit, commit_snapshot, advance, checked, committed_as,
}

-- The snapshot that a commit writes.
abbrev pub committed_state : String → ℕ → RunState → RunState
committed_state now expected next_state = record next_state {
  revision = expected + 1;
  updated_at = now;
}

module _ (c : Codec) where
  open c use {Text}

  next_of_inv :
      (run_id : String) (expected : ℕ) (event : DomainEvent) (disk : Disk Text) (n : RunState)
      → next_of c run_id expected event disk ≡ ok n
      → (s : RunState) × (load c run_id disk ≡ ok s)
        × (s.revision ≡ expected)
        × (apply_event s event ≡ ok n)
  unfolding next_of
  next_of_inv run_id expected event disk n h = ground arith

  may_commit_inv :
      (run_id : String) (expected : ℕ) (n : RunState) (disk : Disk Text) (actual : ℕ)
      → may_commit c run_id expected n disk ≡ ok actual
      → (run_id ≡ n.run_id) × (actual ≡ expected)
  unfolding may_commit
  may_commit_inv run_id expected n disk actual h = ground (arith, eq_iff run_id n.run_id)

  checked_inv :
      {A : Type 0} (m : Answer A) (disk : Disk Text) (f : A → Answer RunState × Disk Text)
      (s' : RunState)
      → (checked c m disk f).0 ≡ ok s'
      → (a : A) × (m ≡ ok a) × (checked c m disk f ≡ f a)
  checked_inv (ok a) disk f s' h = (a, refl, refl)
  checked_inv (err e) disk f s' h = cc

  -- An accepted advance, taken apart.
  pub advance_inv :
      (fault : Fault) (now run_id : String) (expected : ℕ) (event : DomainEvent) (disk : Disk Text)
      (s' : RunState)
      → (advance c fault now run_id expected event disk).0 ≡ ok s'
      → (s : RunState) × (n : RunState) × (load c run_id disk ≡ ok s)
        × (s.revision ≡ expected)
        × (apply_event s event ≡ ok n)
        × (n.run_id ≡ run_id)
        × (advance c fault now run_id expected event disk
            ≡ committed_as c
                (committed_state now expected n)
                (commit_run_state c fault (committed_state now expected n) disk))
  unfolding advance commit_snapshot
  advance_inv fault now run_id expected event disk s' h =
      let (n, next, e1) = checked_inv (next_of c run_id expected event disk) disk _ s' h in
      let (s, loaded, rev, step) = next_of_inv run_id expected event disk n next in
      let (actual, may, e2) =
        checked_inv (may_commit c run_id expected n disk) disk _ s'
          (ap (λ (p : Answer RunState × Disk Text). p.0) (sym e1) ∙ h) in
      let (own, same) = may_commit_inv run_id expected n disk actual may in
      (s, n, loaded, rev, step, sym own, e1 ∙ (rw same at e2))

  checked_cases :
      {A : Type 0} (m : Answer A) (disk : Disk Text) (f : A → Answer RunState × Disk Text)
      → ((e : PersistenceError) × (checked c m disk f ≡ (err e, disk)))
        ⊎ ((a : A) × (m ≡ ok a) × (checked c m disk f ≡ f a))
  checked_cases (ok a) disk f = inr (a, refl, refl)
  checked_cases (err e) disk f = inl (e, refl)

  -- Any advance: refused with the disk as it is, or a commit of the event's result.
  pub advance_cases :
      (fault : Fault) (now run_id : String) (expected : ℕ) (event : DomainEvent) (disk : Disk Text)
      → ((e : PersistenceError) × (advance c fault now run_id expected event disk ≡ (err e, disk)))
        ⊎ ((s : RunState) × (n : RunState) × (load c run_id disk ≡ ok s)
            × (s.revision ≡ expected)
            × (apply_event s event ≡ ok n)
            × (n.run_id ≡ run_id)
            × (advance c fault now run_id expected event disk
                ≡ committed_as c
                    (committed_state now expected n)
                    (commit_run_state c fault (committed_state now expected n) disk)))
  unfolding advance commit_snapshot
  advance_cases fault now run_id expected event disk =
      elim (checked_cases (next_of c run_id expected event disk) disk
        (λ n. commit_snapshot c fault now run_id expected n disk)) [
          | inl (e, h) ↦ inl (e, h)
          | inr (n, next, e1) ↦
              let (s, loaded, rev, step) = next_of_inv run_id expected event disk n next in
              elim (checked_cases (may_commit c run_id expected n disk) disk (λ actual.
                committed_as c (committed_state now actual n)
                  (commit_run_state c fault (committed_state now actual n) disk))) [
                    | inl (e, h) ↦ inl (e, e1 ∙ h)
                    | inr (actual, may, e2) ↦
                        let (own, same) = may_commit_inv run_id expected n disk actual may in
                        inr (s, n, loaded, rev, step, sym own, e1 ∙ (rw same at e2))
                  ]
        ]
