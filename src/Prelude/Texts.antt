-- ===== src/Prelude/Texts.antt =====
-- Lists of texts as Python uses them: `in`, `append` once, `remove`.
use Prim.Native.Nat.{ℕ}
use Prim.Native.Char.{code}
use Prim.Native.String.{String}
use mathlib.Core.Path.{◌≡◌, refl}
use mathlib.Core.Logic.{◌≢◌, inl, inr}
use mathlib.Core.Bool.{Bool, true, false, ◌||◌}
use mathlib.Core.List.{List, [], ◌∷◌, ◌++◌}
use native.Mathlib.Omega.{arith}
use text.Mathlib.Text.{◌==◌}
use text.Mathlib.TextEquality.{eq_iff}
use fsasm_training_lab.Prelude.Tests.{if◌then◌else◌, Bool-cases}

-- The code points of a text.
abbrev pub codes : String → List ℕ
codes String.[] = []
codes (String.◌∷◌ c s) = code c ∷ codes s

pub ==_refl : (s : String) → (s == s) ≡ true
==_refl s = (eq_iff s s).1 refl

pub ==→≡ : (s t : String) → (s == t) ≡ true → s ≡ t
==→≡ s t = (eq_iff s t).0

pub ≡→== : (s t : String) → s ≡ t → (s == t) ≡ true
≡→== s t = (eq_iff s t).1

pub ≢→== : (s t : String) → s ≢ t → (s == t) ≡ false
≢→== s t h = elim (Bool-cases (s == t)) [ inl e ↦ absurd (h (==→≡ s t e)) | inr e ↦ e ]

pub ==→≢ : (s t : String) → (s == t) ≡ false → s ≢ t
==→≢ s t h e = let same = ≡→== s t e in cc

-- `s in xs`
unfoldable pub contains : List String → String → Bool
contains [] s = false
contains (x ∷ xs) s = x == s || contains xs s

-- `if s not in xs: xs.append(s)`
unfoldable pub append_once : List String → String → List String
unfolding contains
append_once xs s = if contains xs s then xs else xs ++ s ∷ []

-- `xs.remove(s)`, which removes the first occurrence
unfoldable pub remove : List String → String → List String
remove [] s = []
remove (x ∷ xs) s = let rest = remove xs s in if x == s then xs else x ∷ rest

pub contains-append :
    (xs ys : List String) (s : String) → contains (xs ++ ys) s ≡ (contains xs s || contains ys s)
unfolding contains
contains-append [] ys s = refl
contains-append (x ∷ xs) ys s = ground (arith, contains-append xs ys s)

pub contains-append_once :
    (xs : List String) (s t : String) → contains (append_once xs s) t ≡ (s == t || contains xs t)
unfolding append_once
contains-append_once xs s t = ground (arith, contains-append xs (s ∷ []) t, eq_iff s t)

-- No text stands twice.
abbrev pub NoDup : List String → Type 0
NoDup [] = Unit
NoDup (x ∷ xs) = (contains xs x ≡ false) × NoDup xs

pub contains-remove :
    (xs : List String) (s t : String)
    → NoDup xs
    → contains (remove xs s) t ≡ (if s == t then false else contains xs t)
unfolding remove contains
contains-remove [] s t h = ground arith
contains-remove (x ∷ xs) s t h =
    ground (arith, contains-remove xs s t h.1, eq_iff s t, eq_iff x s, eq_iff x t)

pub NoDup-remove : (xs : List String) (s : String) → NoDup xs → NoDup (remove xs s)
unfolding remove
NoDup-remove [] s h = tt
NoDup-remove (x ∷ xs) s h = elim (Bool-cases (x == s)) [
  | inl e ↦ rw e h.1
  | inr e ↦ rw e (rw (contains-remove xs s x h.1) (ground arith), NoDup-remove xs s h.1)
]

NoDup-snoc :
    (xs : List String) (s : String) → NoDup xs → contains xs s ≡ false → NoDup (xs ++ s ∷ [])
unfolding contains
NoDup-snoc [] s h k = (refl, tt)
NoDup-snoc (x ∷ xs) s h k = (
  ground (arith, contains-append xs (s ∷ []) x, eq_iff s x, eq_iff x s),
  NoDup-snoc xs s h.1 (ground arith),
)

pub NoDup-append_once : (xs : List String) (s : String) → NoDup xs → NoDup (append_once xs s)
unfolding append_once
NoDup-append_once xs s h = elim (Bool-cases (contains xs s)) [
  | inl e ↦ rw e h
  | inr e ↦ rw e (NoDup-snoc xs s h e)
]
