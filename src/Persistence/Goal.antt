-- ===== src/Persistence/Goal.antt =====
-- The goal of a `RunState` of fsasm-first/src/fsasm/models.py: `str.strip` and `goal_not_blank`.
use Prim.Native.Char.{code}
use fsasm_training_lab.Prelude.{
  String, ◌==◌, ◌≡◌, refl, false, ◌&&◌, if◌then◌else◌, all, codes, ok, err, ◌∙◌, ap, Bool-cases,
  inl, inr,
}
use fsasm_training_lab.Persistence.Identifier.{is_space}
use fsasm_training_lab.Persistence.Disk.{Answer, blank_goal}

-- `str.lstrip` and `str.rstrip`
unfoldable pub trim_start : String → String
trim_start String.[] = String.[]
trim_start (String.◌∷◌ c s) =
    let rest = trim_start s in if is_space (code c) then rest else String.◌∷◌ c s

unfoldable pub trim_end : String → String
trim_end String.[] = String.[]
trim_end (String.◌∷◌ c s) =
    let rest = trim_end s in
    if is_space (code c) && all is_space (codes s) then String.[] else String.◌∷◌ c rest

unfoldable pub strip : String → String
unfolding trim_start trim_end
strip s = trim_end (trim_start s)

-- The validator `goal_not_blank`, which returns the goal without its surrounding space.
unfoldable pub goal_not_blank : String → Answer String
unfolding strip
goal_not_blank goal = if strip goal == "" then err blank_goal else ok (strip goal)

-- The text does not begin with a space.
abbrev Begins : String → Type 0
Begins String.[] = Unit
Begins (String.◌∷◌ c s) = is_space (code c) ≡ false

trim_start-Begins : (s : String) → Begins (trim_start s)
unfolding trim_start
trim_start-Begins String.[] = tt
trim_start-Begins (String.◌∷◌ c s) = elim (Bool-cases (is_space (code c))) [
  | inl e ↦ rw (trim_start, e) (trim_start-Begins s)
  | inr e ↦ rw (trim_start, e) e
]

trim_end-Begins : (s : String) → Begins s → Begins (trim_end s)
unfolding trim_end
trim_end-Begins String.[] h = tt
trim_end-Begins (String.◌∷◌ c s) h = rw (trim_end, h) h

Begins-trim_start : (s : String) → Begins s → trim_start s ≡ s
unfolding trim_start
Begins-trim_start String.[] h = refl
Begins-trim_start (String.◌∷◌ c s) h = rw (trim_start, h) refl

all-trim_end : (s : String) → all is_space (codes (trim_end s)) ≡ all is_space (codes s)
unfolding trim_end
all-trim_end String.[] = refl
all-trim_end (String.◌∷◌ c s) = elim (Bool-cases (is_space (code c) && all is_space (codes s))) [
  | inl e ↦ rw (trim_end, e) refl
  | inr e ↦ rw (trim_end, e) (rw (all-trim_end s) e)
]

trim_end-trim_end : (s : String) → trim_end (trim_end s) ≡ trim_end s
unfolding trim_end
trim_end-trim_end String.[] = refl
trim_end-trim_end (String.◌∷◌ c s) =
    elim (Bool-cases (is_space (code c) && all is_space (codes s))) [
      | inl e ↦ rw (trim_end, e) refl
      | inr e ↦
          rw (trim_end, e)
            (rw (trim_end, all-trim_end s, e) (ap (String.◌∷◌ c) (trim_end-trim_end s)))
    ]

-- Stripping once is enough.
pub strip-strip : (s : String) → strip (strip s) ≡ strip s
unfolding strip
strip-strip s =
    ap trim_end (
      Begins-trim_start (trim_end (trim_start s))
        (trim_end-Begins (trim_start s) (trim_start-Begins s)))
    ∙ trim_end-trim_end (trim_start s)
