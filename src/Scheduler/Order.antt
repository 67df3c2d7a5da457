-- ===== src/Scheduler/Order.antt =====
-- `candidates.sort(key=lambda t: (t.sequence, t.task_id))` of fsasm-first/src/fsasm/scheduler.py:
-- Python's order of tuples and of texts (by code points), and its stable sort.
use fsasm_training_lab.Prelude.{
  ℕ, ◌≡◌, refl, Bool, true, false, ◌&&◌, ◌||◌, List, [], ◌∷◌, All, All-map, ltb, nat_eq, codes,
  if◌then◌else◌, arith, ◌⊎◌, inl, inr, Bool-cases,
}
use fsasm_training_lab.Models.{ChildTask}

unfoldable pub lex_le : List ℕ → List ℕ → Bool
lex_le [] ys = true
lex_le (x ∷ xs) [] = false
lex_le (x ∷ xs) (y ∷ ys) = ltb x y || (nat_eq x y && lex_le xs ys)

unfoldable pub key_le : ChildTask → ChildTask → Bool
key_le t u =
    ltb t.sequence u.sequence
    || (nat_eq t.sequence u.sequence && lex_le (codes t.task_id) (codes u.task_id))

-- An equal key goes before those that are there, and the list is built from its end: stable.
unfoldable pub insert : ChildTask → List ChildTask → List ChildTask
insert t [] = t ∷ []
insert t (u ∷ us) = let rest = insert t us in if key_le t u then t ∷ u ∷ us else u ∷ rest

unfoldable pub sort : List ChildTask → List ChildTask
unfolding insert
sort [] = []
sort (t ∷ ts) = insert t (sort ts)

lex_le_trans : (xs ys zs : List ℕ) → lex_le xs ys ≡ true → lex_le ys zs ≡ true → lex_le xs zs ≡ true
unfolding lex_le
lex_le_trans [] ys zs h k = refl
lex_le_trans (x ∷ xs) [] zs h k = cc
lex_le_trans (x ∷ xs) (y ∷ ys) [] h k = cc
lex_le_trans (x ∷ xs) (y ∷ ys) (z ∷ zs) h k = ground (arith, lex_le_trans xs ys zs)

lex_le_total : (xs ys : List ℕ) → lex_le xs ys ≡ false → lex_le ys xs ≡ true
unfolding lex_le
lex_le_total [] ys h = cc
lex_le_total (x ∷ xs) [] h = refl
lex_le_total (x ∷ xs) (y ∷ ys) h = ground (arith, lex_le_total xs ys)

lex_le_refl : (xs : List ℕ) → lex_le xs xs ≡ true
unfolding lex_le
lex_le_refl [] = refl
lex_le_refl (x ∷ xs) = ground (arith, lex_le_refl xs)

pub key_le_trans : (t u v : ChildTask) → key_le t u ≡ true → key_le u v ≡ true → key_le t v ≡ true
unfolding key_le
key_le_trans t u v h k =
    ground (arith, lex_le_trans (codes t.task_id) (codes u.task_id) (codes v.task_id))

key_le_total : (t u : ChildTask) → key_le t u ≡ false → key_le u t ≡ true
unfolding key_le
key_le_total t u h = ground (arith, lex_le_total (codes t.task_id) (codes u.task_id))

key_le_refl : (t : ChildTask) → key_le t t ≡ true
unfolding key_le
key_le_refl t = ground (arith, lex_le_refl (codes t.task_id))

-- A task stands in the list.
abbrev pub In : ChildTask → List ChildTask → Type 0
In t [] = ⊥
In t (u ∷ us) = (u ≡ t) ⊎ In t us

In-insert : (x t : ChildTask) (us : List ChildTask) → In x (insert t us) → (t ≡ x) ⊎ In x us
unfolding insert
In-insert x t [] h = h
In-insert x t (u ∷ us) h = elim (Bool-cases (key_le t u)) [
  | inl e ↦ rw e at h
  | inr e ↦ elim (rw e at h) [
    | inl p ↦ inr (inl p)
    | inr p ↦ elim (In-insert x t us p) [ inl q ↦ inl q | inr q ↦ inr (inr q) ]
  ]
]

pub In-sort : (x : ChildTask) (ts : List ChildTask) → In x (sort ts) → In x ts
unfolding sort
In-sort x [] h = h
In-sort x (t ∷ ts) h = elim (In-insert x t (sort ts) h) [
  | inl p ↦ inl p
  | inr p ↦ inr (In-sort x ts p)
]

-- What the first of a sorted list is.
abbrev pub IsLeast : List ChildTask → List ChildTask → Type 0
IsLeast [] ts = ts ≡ []
IsLeast (t ∷ _) ts = All (λ u. key_le t u ≡ true) ts

insert-IsLeast :
    (t : ChildTask) (us ts : List ChildTask) → IsLeast us ts → IsLeast (insert t us) (t ∷ ts)
unfolding insert
insert-IsLeast t [] ts h = (key_le_refl t, rw h tt)
insert-IsLeast t (u ∷ us) ts h = elim (Bool-cases (key_le t u)) [
  | inl e ↦ rw e (key_le_refl t, All-map _ _ (λ v k. key_le_trans t u v e k) ts h)
  | inr e ↦ rw e (key_le_total t u e, h)
]

pub sort-IsLeast : (ts : List ChildTask) → IsLeast (sort ts) ts
unfolding sort
sort-IsLeast [] = refl
sort-IsLeast (t ∷ ts) = insert-IsLeast t (sort ts) ts (sort-IsLeast ts)
