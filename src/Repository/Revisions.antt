-- ===== src/Repository/Revisions.antt =====
-- The revisions of one run under `advance` of fsasm-first/src/fsasm/state_repository.py.
use fsasm_training_lab.Prelude.{
  ℕ, ◌+◌, String, ◌≡◌, ◌≢◌, refl, some, ok, err, arith, ◌⊎◌, inl, inr, ◌∙◌, sym, ap, nat_eq_iff,
  subst,
}
use fsasm_training_lab.Models.{RunState, validate_run_state, Plan}
use fsasm_training_lab.Domain.Events.{DomainEvent, run_planned}
use fsasm_training_lab.Domain.Apply.{apply_event}
use fsasm_training_lab.Domain.Coherent.{IsCoherent}
use fsasm_training_lab.Domain.Coherent.Lists.{InPhase}
use fsasm_training_lab.Domain.Coherent.Preserved.{IsFresh, apply_event-IsCoherent}
use fsasm_training_lab.Domain.Coherent.Validated.{IsCoherent-validates}
use fsasm_training_lab.Persistence.Disk.{Codec, Disk, Fault, Answer, stale_revision}
use fsasm_training_lab.Persistence.Snapshot.{commit_run_state, state_file_of, is_marked}
use fsasm_training_lab.Repository.Commit.{load, next_of, advance, committed_as}
use fsasm_training_lab.Repository.Laws.{committed_state, advance_inv, advance_cases}
use fsasm_training_lab.Persistence.Restored.{IsStorable, IsStorable-restored}
use fsasm_training_lab.Repository.Storable.{PlansValid, apply_event-IsStorable, load-IsStorable}
use fsasm_training_lab.Repository.Written.{
  load_inv, load_from, commit_run_state_self, commit_run_state-other, commit_run_state-file,
}

committed_as_inv :
    (c : Codec) (s s' : RunState) (p : Answer Unit × Disk (c.Text))
    → (committed_as c s p).0 ≡ ok s'
    → (p.0 ≡ ok tt) × (s ≡ s') × (committed_as c s p ≡ (ok s, p.1))
committed_as_inv c s s' (ok tt, d) h = ground arith
committed_as_inv c s s' (err e, d) h = cc

committed_as_disk :
    (c : Codec) (s : RunState) (p : Answer Unit × Disk (c.Text)) → (committed_as c s p).1 ≡ p.1
committed_as_disk c s (ok tt, d) = refl
committed_as_disk c s (err e, d) = refl

-- The revision and the timestamp are not part of what coherence is about.
restamped :
    (now : String) (expected : ℕ) (n : RunState)
    → IsCoherent n
    → IsCoherent (committed_state now expected n)
restamped now expected n k = record {
  own_plan = k.own_plan;
  unique = k.unique;
  tasks_ok = k.tasks_ok;
  lists_ok = record {
    active_known = k.lists_ok.active_known;
    completed_known = k.lists_ok.completed_known;
    failed_known = k.lists_ok.failed_known;
    waiting_known = k.lists_ok.waiting_known;
    waiting_once = k.lists_ok.waiting_once;
    gate_ok = k.lists_ok.gate_ok;
    failed_closed = k.lists_ok.failed_closed;
    created_idle = k.lists_ok.created_idle;
  };
}

module _ (c : Codec) where
  open c use {Text, dump_state}

  -- The disk after an accepted advance, and the state it returns.
  accepted :
      (fault : Fault) (now run_id : String) (expected : ℕ) (event : DomainEvent) (disk : Disk Text)
      (s' : RunState)
      → (advance c fault now run_id expected event disk).0 ≡ ok s'
      → (s : RunState) × (n : RunState) × (load c run_id disk ≡ ok s)
        × (s.revision ≡ expected)
        × (apply_event s event ≡ ok n)
        × (s' ≡ committed_state now expected n)
        × (s'.run_id ≡ run_id)
        × ((commit_run_state c fault s' disk).0 ≡ ok tt)
        × ((advance c fault now run_id expected event disk).1
            ≡ (commit_run_state c fault s' disk).1)
  accepted fault now run_id expected event disk s' h =
      let (s, n, loaded, rev, step, own, e) =
        advance_inv c fault now run_id expected event disk s' h in
      let (done, same, whole) =
        committed_as_inv c (committed_state now expected n) s' _
          (ap (λ (p : Answer RunState × Disk Text). p.0) (sym e) ∙ h) in
      (
        s,
        n,
        loaded,
        rev,
        step,
        sym same,
        ap (λ (x : RunState). x.run_id) (sym same) ∙ own,
        subst (λ x. (commit_run_state c fault x disk).0 ≡ ok tt) same done,
        ap (λ (p : Answer RunState × Disk Text). p.1) (e ∙ whole)
            ∙ ap (λ x. (commit_run_state c fault x disk).1) same,
      )

  -- An accepted advance returns a state that is one revision ahead and carries the clock's reading;
  -- if its validators accept it, `load` reads the same state back from the disk that it leaves.
  pub accepted_advance_reloads :
      (fault : Fault) (now run_id : String) (expected : ℕ) (event : DomainEvent) (disk : Disk Text)
      (s' : RunState)
      → (advance c fault now run_id expected event disk).0 ≡ ok s'
      → PlansValid event
      → validate_run_state s' ≡ ok tt
      → (s'.revision ≡ expected + 1)
        × (s'.updated_at ≡ now)
        × (load c run_id (advance c fault now run_id expected event disk).1 ≡ ok s')
  accepted_advance_reloads fault now run_id expected event disk s' h plans valid =
      let (s, n, loaded, rev, step, is, own, done, left) =
        accepted fault now run_id expected event disk s' h in
      let (dir, marked) = load_inv c run_id disk s loaded in
      let (file, same) = commit_run_state_self c fault s' disk done in
      let storable =
        apply_event-IsStorable now expected s event n step plans
          (load-IsStorable c run_id disk s loaded) in
      (
        ap (λ (x : RunState). x.revision) is,
        ap (λ (x : RunState). x.updated_at) is,
        load_from c run_id _ s' dir
            (ap is_marked (ap (λ (d : Disk Text). d run_id) left)
              ∙ subst (λ r. is_marked ((commit_run_state c fault s' disk).1 r) ≡ is_marked (disk r))
                  own same
              ∙ marked)
            (ap (state_file_of c) (ap (λ (d : Disk Text). d run_id) left)
              ∙ subst
                  (λ r.
                    state_file_of c ((commit_run_state c fault s' disk).1 r) ≡ some (dump_state s'))
                  own file)
            (IsStorable-restored s' (subst IsStorable (sym is) storable) valid),
      )

  -- An advance that expects another revision than the one on disk is refused as stale, and leaves
  -- the disk as it is.
  pub stale_advance :
      (fault : Fault) (now run_id : String) (expected : ℕ) (event : DomainEvent) (disk : Disk Text)
      (s : RunState)
      → load c run_id disk ≡ ok s
      → s.revision ≢ expected
      → advance c fault now run_id expected event disk
        ≡ (err (stale_revision expected s.revision), disk)
  unfolding advance next_of
  stale_advance fault now run_id expected event disk s loaded ne =
      ground (arith, nat_eq_iff s.revision expected)

  -- Of two advances that expect the same revision the second is refused: once the first is accepted
  -- with a state that its validators accept (and a plan that passes its own, if the event sets one),
  -- the second is stale and writes nothing.
  pub no_lost_update :
      (fault fault' : Fault) (now now' run_id : String) (expected : ℕ) (event event' : DomainEvent)
      (disk : Disk Text) (s' : RunState)
      → (advance c fault now run_id expected event disk).0 ≡ ok s'
      → PlansValid event
      → validate_run_state s' ≡ ok tt
      → advance c fault' now' run_id expected event'
          (advance c fault now run_id expected event disk).1
        ≡ (
          err (stale_revision expected (expected + 1)),
          (advance c fault now run_id expected event disk).1,
        )
  no_lost_update fault fault' now now' run_id expected event event' disk s' h plans valid =
      let (rev, at, loaded) =
        accepted_advance_reloads fault now run_id expected event disk s' h plans valid in
      stale_advance fault' now' run_id expected event' _ s' loaded (ground arith)
      ∙ ap
          (λ v.
            (err (stale_revision expected v), (advance c fault now run_id expected event disk).1))
          rev

  -- From a coherent snapshot on disk, an accepted advance with an event sent in its phase (and, if it
  -- sets a plan, a fresh one that passes the plan's validators) leaves a snapshot that is coherent and
  -- loads again: the reader strips the goal and runs the validators of the plan and of the state, and
  -- returns the very state that the advance returned.
  pub IsCoherent-advance :
      (fault : Fault) (now run_id : String) (expected : ℕ) (event : DomainEvent) (disk : Disk Text)
      (s s' : RunState)
      → load c run_id disk ≡ ok s
      → IsCoherent s
      → InPhase event s.status
      → ((r : String) (p : Plan) → event ≡ run_planned r p → IsFresh p)
      → PlansValid event
      → (advance c fault now run_id expected event disk).0 ≡ ok s'
      → (load c run_id (advance c fault now run_id expected event disk).1 ≡ ok s') × IsCoherent s'
  IsCoherent-advance fault now run_id expected event disk s s' loaded good phase fresh plans h =
      let (s0, n, loaded0, rev, step, is, own, done, left) =
        accepted fault now run_id expected event disk s' h in
      let same : s0 ≡ s = ground arith in
      let kept : IsCoherent s' = subst IsCoherent (sym is) (
        restamped now expected n (
          apply_event-IsCoherent s event n (subst (λ x. apply_event x event ≡ ok n) same step) phase
            fresh good)) in
      let (rev', at, again) =
        accepted_advance_reloads fault now run_id expected event disk s' h plans
          (IsCoherent-validates s' kept) in
      (again, kept)

  -- Whichever write fails, an advance leaves the directory of another run `j` as it was, and its own
  -- run's directory as it was or with the snapshot of what the event makes of the loaded state, one
  -- revision on.
  pub advance_is_atomic :
      (fault : Fault) (now run_id : String) (expected : ℕ) (event : DomainEvent) (disk : Disk Text)
      (j : String)
      → run_id ≢ j
      → ((advance c fault now run_id expected event disk).1 j ≡ disk j)
        × (((advance c fault now run_id expected event disk).1 run_id ≡ disk run_id)
            ⊎ ((s : RunState) × (n : RunState) × (load c run_id disk ≡ ok s)
                × (s.revision ≡ expected)
                × (apply_event s event ≡ ok n)
                × (state_file_of c ((advance c fault now run_id expected event disk).1 run_id)
                    ≡ some (dump_state (committed_state now expected n)))))
  advance_is_atomic fault now run_id expected event disk j ne =
      elim (advance_cases c fault now run_id expected event disk) [
        | inl (e, h) ↦ (ground arith, inl (ground arith))
        | inr (s, n, loaded, rev, step, own, h) ↦
            let s1 : RunState = committed_state now expected n in
            let left =
              ap (λ (p : Answer RunState × Disk Text). p.1) h
              ∙ committed_as_disk c s1 (commit_run_state c fault s1 disk) in
            (
              ap (λ (d : Disk Text). d j) left
                  ∙ commit_run_state-other c fault s1 disk j (λ q. ne (sym own ∙ q)),
              elim (commit_run_state-file c fault s1 disk) [
                | inl same ↦ inl (
                    ap (λ (d : Disk Text). d run_id) left
                    ∙ subst (λ r. (commit_run_state c fault s1 disk).1 r ≡ disk r) own same)
                | inr file ↦ inr (
                  s,
                  n,
                  loaded,
                  rev,
                  step,
                  ap (λ (d : Disk Text). state_file_of c (d run_id)) left
                      ∙ subst
                          (λ r.
                            state_file_of c ((commit_run_state c fault s1 disk).1 r)
                            ≡ some (dump_state s1))
                          own file,
                )
              ],
            )
      ]
