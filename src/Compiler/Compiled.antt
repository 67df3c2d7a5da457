-- ===== src/Compiler/Compiled.antt =====
-- What the loop of `compile_plan` in fsasm-first/src/fsasm/task_compiler.py makes of each proposal, or
-- why it refuses it.
use fsasm_training_lab.Prelude.{
  ℕ, suc, ◌<◌, ◌≤◌, String, ◌≡◌, ◌≢◌, ◌↔◌, refl, true, false, Option, none, some, List, [], ◌∷◌,
  All, map, contains, nat_eq, arith, ◌⊎◌, inl, inr, Bool-cases, Option-cases, ok, err,
}
use fsasm_training_lab.Models.{TaskStatus, ChildTask, task_id_for, VerificationSpec}
use fsasm_training_lab.Compiler.{
  ℤ, pos, negsuc, TaskProposal, RunConstraints, CompileError, subset, verification_type_of,
  coerce_verification, is_earlier, SequenceMap, enter, id_at, resolve, capped_attempts, new_task,
  compile_task, is_seen, compile_tasks, invalid_dependency, privilege_extension,
  unknown_verification_type,
}

-- A dependency names an earlier position, counted from 1.
abbrev pub IsEarlier : ℕ → ℤ → Type 0
IsEarlier seq (pos n) = (1 ≤ n) × (n < seq)
IsEarlier seq (negsuc n) = ⊥

abbrev pub IsWithin : List String → List String → Type 0
IsWithin allowed xs = All (λ (x : String). contains allowed x ≡ true) xs

-- What a proposal at a position must keep to.
pub record Fits (constraints : RunConstraints) (seq : ℕ) (p : TaskProposal) : Type 0 where
  pub earlier : All (IsEarlier seq) p.dependencies
  pub within : IsWithin constraints.allowed_files p.allowed_files
  pub verifiable : verification_type_of p.verification_type ≢ none

abbrev pub FitsFrom : RunConstraints → ℕ → List TaskProposal → Type 0
FitsFrom constraints seq [] = Unit
FitsFrom constraints seq (p ∷ ps) = Fits constraints seq p × FitsFrom constraints (suc seq) ps

-- Why a proposal at a position is refused, with the error: the first of these that holds.
abbrev pub Refused : RunConstraints → ℕ → TaskProposal → CompileError → Type 0
Refused constraints seq p invalid_dependency = ¬ (All (IsEarlier seq) p.dependencies)
Refused constraints seq p privilege_extension =
    All (IsEarlier seq) p.dependencies × ¬ (IsWithin constraints.allowed_files p.allowed_files)
Refused constraints seq p unknown_verification_type =
    All (IsEarlier seq) p.dependencies
    × IsWithin constraints.allowed_files p.allowed_files
    × (verification_type_of p.verification_type ≡ none)
Refused constraints seq p _ = ⊥

-- The first proposal that does not keep to its limits is refused with the error; those before it fit.
abbrev pub RefusedFrom : RunConstraints → ℕ → List TaskProposal → CompileError → Type 0
RefusedFrom constraints seq [] e = ⊥
RefusedFrom constraints seq (p ∷ ps) e =
    Refused constraints seq p e ⊎ (Fits constraints seq p × RefusedFrom constraints (suc seq) ps e)

Refused-misfits :
    (constraints : RunConstraints) (seq : ℕ) (p : TaskProposal) (e : CompileError)
    → Refused constraints seq p e
    → ¬ (Fits constraints seq p)
Refused-misfits constraints seq p invalid_dependency h f = h f.earlier
Refused-misfits constraints seq p privilege_extension h f = h.1 f.within
Refused-misfits constraints seq p unknown_verification_type (a, b, h) f = f.verifiable h
Refused-misfits constraints seq p _ h f = absurd h

pub RefusedFrom-misfits :
    (constraints : RunConstraints) (seq : ℕ) (ps : List TaskProposal) (e : CompileError)
    → RefusedFrom constraints seq ps e
    → ¬ (FitsFrom constraints seq ps)
RefusedFrom-misfits constraints seq [] e h f = h
RefusedFrom-misfits constraints seq (p ∷ ps) e (inl h) f = Refused-misfits constraints seq p e h f.0
RefusedFrom-misfits constraints seq (p ∷ ps) e (inr h) f =
    RefusedFrom-misfits constraints (suc seq) ps e h.1 f.1

abbrev pub dependency_id : String → ℤ → String
dependency_id run_id (pos n) = task_id_for run_id n
dependency_id run_id (negsuc n) = ""

-- The task that a proposal becomes.
pub record IsCompiled (constraints : RunConstraints) (run_id : String) (seq : ℕ) (p : TaskProposal)
    (t : ChildTask) : Type 0 where
  pub fits : Fits constraints seq p
  pub named : t.task_id ≡ task_id_for run_id seq
  pub pending : t.status ≡ TaskStatus.pending
  pub unstarted : t.attempt ≡ 0
  pub depends : t.dependencies ≡ map (dependency_id run_id) p.dependencies
  pub files : t.allowed_files ≡ p.allowed_files
  pub tools : t.allowed_tools ≡ constraints.allowed_tools
  pub few_attempts : t.max_attempts ≤ 3
  pub capped : (cap : ℕ) → constraints.max_attempts_per_task ≡ some cap → t.max_attempts ≤ cap
  pub verified : verification_type_of p.verification_type ≡ some t.verification.type

abbrev pub CompiledFrom : RunConstraints → String → ℕ → List TaskProposal → List ChildTask → Type 0
CompiledFrom constraints run_id seq [] [] = Unit
CompiledFrom constraints run_id seq (p ∷ ps) (t ∷ ts) =
    IsCompiled constraints run_id seq p t × CompiledFrom constraints run_id (suc seq) ps ts
CompiledFrom constraints run_id seq _ _ = ⊥

-- The map has the id of every earlier position.
abbrev pub Entered : String → ℕ → SequenceMap → Type 0
Entered run_id seq ids = (n : ℕ) → 1 ≤ n → n < seq → ids n ≡ some (task_id_for run_id n)

subset_lem : (allowed xs : List String) → (subset xs allowed ≡ true) ↔ IsWithin allowed xs
unfolding subset contains
subset_lem allowed [] = (λ h. tt, λ h. refl)
subset_lem allowed (x ∷ []) = (λ h. (ground arith, tt), λ h. ground arith)
subset_lem allowed (x ∷ y ∷ ys) =
    let rest = subset_lem allowed (y ∷ ys) in
    (λ h. (ground arith, rest.0 (ground arith)), λ h. ground (arith, rest.1 h.1))

is_earlier_iff : (seq : ℕ) (d : ℤ) → (is_earlier seq d ≡ true) ↔ IsEarlier seq d
is_earlier_iff seq (pos n) = ground arith
is_earlier_iff seq (negsuc n) = (λ h. cc, λ h. absurd h)

id_at_lem :
    (run_id : String) (ids : SequenceMap) (seq : ℕ) (d : ℤ)
    → Entered run_id seq ids
    → IsEarlier seq d
    → id_at ids d ≡ ok (dependency_id run_id d)
id_at_lem run_id ids seq (pos n) e h = rw (id_at, e n h.0 h.1) refl
id_at_lem run_id ids seq (negsuc n) e h = absurd h

resolve_cases :
    (run_id : String) (ids : SequenceMap) (seq : ℕ) (ds : List ℤ)
    → Entered run_id seq ids
    → (All (IsEarlier seq) ds × (resolve ids seq ds ≡ ok (map (dependency_id run_id) ds)))
      ⊎ ((resolve ids seq ds ≡ err invalid_dependency) × ¬ (All (IsEarlier seq) ds))
unfolding resolve
resolve_cases run_id ids seq [] e = inl (tt, refl)
resolve_cases run_id ids seq (d ∷ ds) e = elim (Bool-cases (is_earlier seq d)) [
  | inl q ↦
      let now = (is_earlier_iff seq d).0 q in
      let at = id_at_lem run_id ids seq d e now in
      elim (resolve_cases run_id ids seq ds e) [
        | inl (all_earlier, done) ↦ inl ((now, all_earlier), rw (resolve, q, at, done) refl)
        | inr (fails, bad) ↦ inr (rw (resolve, q, at, fails) refl, λ h. bad h.1)
      ]
  | inr q ↦ inr (rw (resolve, q) refl, λ h. let k = (is_earlier_iff seq d).1 h.0 in ground arith)
]

few_lem : (o : Option ℕ) → capped_attempts o ≤ 3
few_lem none = omega arith
few_lem (some cap) = omega arith

capped_lem : (o : Option ℕ) (cap : ℕ) → o ≡ some cap → capped_attempts o ≤ cap
capped_lem none cap h = cc
capped_lem (some n) cap h = let same : n ≡ cap = cc in omega arith

-- Nothing was seen at this position or after it.
abbrev pub SeenBefore : ℕ → List ℕ → Type 0
SeenBefore seq seen = (n : ℕ) → seq ≤ n → is_seen seen n ≡ false

Entered-enter :
    (run_id : String) (seq : ℕ) (ids : SequenceMap)
    → Entered run_id seq ids
    → Entered run_id (suc seq) (enter seq (task_id_for run_id seq) ids)
Entered-enter run_id seq ids e n low high = elim (Bool-cases (nat_eq n seq)) [
  | inl q ↦ let same : n ≡ seq = ground arith in rw (q, same) refl
  | inr q ↦ rw q (e n low (ground arith))
]

module _ (constraints : RunConstraints) (run_id : String) where
  new_task-IsCompiled :
      (seq : ℕ) (p : TaskProposal) (v : VerificationSpec)
      → Fits constraints seq p
      → verification_type_of p.verification_type ≡ some v.type
      → IsCompiled constraints run_id seq p
          (new_task constraints run_id seq p (map (dependency_id run_id) p.dependencies) v)
  unfolding new_task
  new_task-IsCompiled seq p v fits known = record {
    fits = fits;
    named = refl;
    pending = refl;
    unstarted = refl;
    depends = refl;
    files = refl;
    tools = refl;
    few_attempts = few_lem constraints.max_attempts_per_task;
    capped = λ cap e. capped_lem constraints.max_attempts_per_task cap e;
    verified = known;
  }

  coerce_cases :
      (p : TaskProposal)
      → ((v : VerificationSpec) × (coerce_verification p ≡ ok v)
          × (verification_type_of p.verification_type ≡ some v.type))
        ⊎ ((coerce_verification p ≡ err unknown_verification_type)
            × (verification_type_of p.verification_type ≡ none))
  unfolding coerce_verification
  coerce_cases p = elim (Option-cases (verification_type_of p.verification_type)) [
    | inl e ↦ inr (rw (coerce_verification, e) refl, e)
    | inr (type, e) ↦ inl (
      record { type = type; expected = p.verification_expected },
      rw (coerce_verification, e) refl,
      e,
    )
  ]

  compile_task_cases :
      (ids : SequenceMap) (seq : ℕ) (p : TaskProposal)
      → Entered run_id seq ids
      → ((t : ChildTask) × (compile_task constraints run_id ids seq p ≡ ok t)
          × IsCompiled constraints run_id seq p t)
        ⊎ ((e : CompileError) × (compile_task constraints run_id ids seq p ≡ err e)
            × Refused constraints seq p e)
  unfolding compile_task
  compile_task_cases ids seq p entered =
      elim (resolve_cases run_id ids seq p.dependencies entered) [
        | inr (fails, bad) ↦ inr (invalid_dependency, rw (compile_task, fails) refl, bad)
        | inl (earlier, done) ↦
            elim (Bool-cases (subset p.allowed_files constraints.allowed_files)) [
              | inr q ↦ inr (
                privilege_extension,
                rw (compile_task, done, q) refl,
                (
                  earlier,
                  λ w.
                      let k = (subset_lem constraints.allowed_files p.allowed_files).1 w in
                      ground arith,
                ),
              )
              | inl q ↦ elim (coerce_cases p) [
                | inr (fails, unknown) ↦ inr (
                  unknown_verification_type,
                  rw (compile_task, done, q, fails) refl,
                  (earlier, (subset_lem constraints.allowed_files p.allowed_files).0 q, unknown),
                )
                | inl (v, coerced, known) ↦ inl (
                  new_task constraints run_id seq p (map (dependency_id run_id) p.dependencies) v,
                  rw (compile_task, done, q, coerced) refl,
                  new_task-IsCompiled seq p v
                      (record {
                        earlier = earlier;
                        within = (subset_lem constraints.allowed_files p.allowed_files).0 q;
                        verifiable = λ n. ground arith;
                      })
                      known,
                )
              ]
            ]
      ]

  pub compile_tasks_cases :
      (ids : SequenceMap) (seen : List ℕ) (seq : ℕ) (ps : List TaskProposal)
      → Entered run_id seq ids
      → SeenBefore seq seen
      → ((ts : List ChildTask) × (compile_tasks constraints run_id ids seen seq ps ≡ ok ts)
          × CompiledFrom constraints run_id seq ps ts)
        ⊎ ((e : CompileError) × (compile_tasks constraints run_id ids seen seq ps ≡ err e)
            × RefusedFrom constraints seq ps e)
  unfolding compile_tasks
  compile_tasks_cases ids seen seq [] entered fresh = inl ([], refl, tt)
  compile_tasks_cases ids seen seq (p ∷ ps) entered fresh =
      let now = enter seq (task_id_for run_id seq) ids in
      let entered_now = Entered-enter run_id seq ids entered in
      let new = fresh seq (omega arith) in
      elim (compile_task_cases now seq p (λ n low high. entered_now n low (omega arith))) [
        | inr (e, fails, bad) ↦ inr (e, rw (compile_tasks, new, fails) refl, inl bad)
        | inl (t, done, compiled) ↦
            elim (compile_tasks_cases now (seq ∷ seen) (suc seq) ps entered_now
              (λ n h. ground (arith, fresh n))) [
                | inr (e, fails, bad) ↦
                    inr (e, rw (compile_tasks, new, done, fails) refl, inr (compiled.fits, bad))
                | inl (ts, rest, all_compiled) ↦
                    inl (t ∷ ts, rw (compile_tasks, new, done, rest) refl, (compiled, all_compiled))
              ]
      ]
