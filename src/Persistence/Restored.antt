-- ===== src/Persistence/Restored.antt =====
-- What the constructor of `RunState` of fsasm-first/src/fsasm/models.py does with its fields, once they
-- have their types: it strips the goal and refuses a blank one, and runs the validators of the model.
-- A plan that it reads as data runs its own validators first; a `Plan` that it is handed has run them.
use fsasm_training_lab.Prelude.{
  ◌≡◌, refl, Option, none, some, ok, err, Result, ◌>>=◌, ◌>>◌, arith, ap, ◌∙◌, ◌==◌, false,
}
use fsasm_training_lab.Models.{Plan, RunState, Violation, validate_run_state}
use fsasm_training_lab.PlanCheck.{PlanError, validate_plan}
use fsasm_training_lab.Persistence.Disk.{Answer, invalid_state, corrupt}
use fsasm_training_lab.Persistence.Goal.{strip, goal_not_blank, strip-strip}

abbrev pub as_valid : Result Violation Unit → Answer Unit
as_valid (ok _) = ok tt
as_valid (err v) = err (invalid_state v)

-- `RunState(…)`
unfoldable pub constructed : RunState → Answer RunState
unfolding goal_not_blank validate_run_state
constructed s = do
  goal ← goal_not_blank s.goal
  as_valid (validate_run_state s)
  ok (record s { goal = goal })

-- The validators of `Plan`, for a plan that is read as data.
abbrev pub plan_read : Option Plan → Result PlanError Unit
plan_read none = ok tt
plan_read (some plan) = validate_plan plan

-- `RunState(**data)`
unfoldable pub restored : RunState → Answer RunState
unfolding validate_plan constructed
restored s = elim (plan_read s.plan) [ err _ ↦ err corrupt | ok _ ↦ constructed s ]

-- What a snapshot needs to be read back as it is.
pub record IsStorable (s : RunState) : Type 0 where
  pub stripped : strip s.goal ≡ s.goal
  pub named : (s.goal == "") ≡ false
  pub plan_valid : plan_read s.plan ≡ ok tt

restored_if : (s : RunState) → plan_read s.plan ≡ ok tt → restored s ≡ constructed s
unfolding restored
restored_if s h = ground arith

constructed_if :
    (s : RunState)
    → strip s.goal ≡ s.goal
    → (s.goal == "") ≡ false
    → validate_run_state s ≡ ok tt
    → constructed s ≡ ok s
unfolding constructed goal_not_blank
constructed_if s stripped named valid = rw (stripped, named, valid) refl

pub IsStorable-restored :
    (s : RunState) → IsStorable s → validate_run_state s ≡ ok tt → restored s ≡ ok s
IsStorable-restored s w valid =
    restored_if s w.plan_valid ∙ constructed_if s w.stripped w.named valid

-- What the constructor returns has a stripped goal that is not blank, and is else what it was given.
pub constructed_inv :
    (s s' : RunState)
    → constructed s ≡ ok s'
    → (s' ≡ record s { goal = strip s.goal })
      × ((strip s.goal == "") ≡ false)
      × (validate_run_state s ≡ ok tt)
unfolding constructed goal_not_blank
constructed_inv s s' h = ground arith

restored_inv :
    (s s' : RunState) → restored s ≡ ok s' → (plan_read s.plan ≡ ok tt) × (constructed s ≡ ok s')
unfolding restored
restored_inv s s' h = ground arith

-- What a reader returns is read back as it is.
pub restored-IsStorable : (s s' : RunState) → restored s ≡ ok s' → IsStorable s'
restored-IsStorable s s' h =
    let (plan_ok, made) = restored_inv s s' h in
    let (is, named, valid) = constructed_inv s s' made in
    let goal_is : s'.goal ≡ strip s.goal = ap (λ (x : RunState). x.goal) is in
    let plan_is : s'.plan ≡ s.plan = ap (λ (x : RunState). x.plan) is in
    record {
      stripped = rw goal_is (strip-strip s.goal);
      named = rw goal_is named;
      plan_valid = rw plan_is plan_ok;
    }
