-- ===== src/PlanCheck/Colors.antt =====
-- How the colours change in the search for a cycle of fsasm-first/src/fsasm/models.py, and how many
-- white ids are left, which bounds its depth.
use fsasm_training_lab.Prelude.{
  ℕ, ◌+◌, ◌<◌, ◌≤◌, String, ◌==◌, ◌≡◌, refl, true, Option, none, some, List, [], ◌∷◌, length,
  contains, arith, ◌⊎◌, inl, inr, ◌∙◌, ==→≡, Bool-cases, sym,
}
use fsasm_training_lab.PlanCheck.{Color, white, gray, black, Coloring, paint}

-- A visit that returns has turned some white ids black, and nothing else.
abbrev pub Blackens : Coloring → Coloring → Type 0
Blackens c c' = (k : String) → (c' k ≡ c k) ⊎ ((c k ≡ some white) × (c' k ≡ some black))

pub Blackens-trans : {c c1 c2 : Coloring} → Blackens c c1 → Blackens c1 c2 → Blackens c c2
Blackens-trans f g k = elim (f k) [
  | inl e ↦ elim (g k) [ inl q ↦ inl (q ∙ e) | inr (a, b) ↦ inr (sym e ∙ a, b) ]
  | inr (a, b) ↦ elim (g k) [ inl q ↦ inr (a, q ∙ b) | inr (a', b') ↦ inr (a, b') ]
]

pub Blackens-black :
    (c c' : Coloring) (k : String) → Blackens c c' → c k ≡ some black → c' k ≡ some black
Blackens-black c c' k f h = elim (f k) [ inl e ↦ e ∙ h | inr r ↦ r.1 ]

pub Blackens-none : (c c' : Coloring) (k : String) → Blackens c c' → c' k ≡ none → c k ≡ none
Blackens-none c c' k f h = elim (f k) [ inl e ↦ sym e ∙ h | inr r ↦ absurd (let q = r.1 in cc) ]

pub Blackens-gray :
    (c c' : Coloring) (k : String) → Blackens c c' → c' k ≡ some gray → c k ≡ some gray
Blackens-gray c c' k f h = elim (f k) [
  | inl e ↦ sym e ∙ h
  | inr r ↦ absurd (let q = r.1 in ground arith)
]

pub Blackens-white :
    (c c' : Coloring) (k : String) → Blackens c c' → c' k ≡ some white → c k ≡ some white
Blackens-white c c' k f h = elim (f k) [ inl e ↦ sym e ∙ h | inr r ↦ r.0 ]

-- A white id is painted gray, its dependencies are visited, and it is painted black.
pub Blackens-painted :
    (c c' : Coloring) (node : String)
    → c node ≡ some white
    → Blackens (paint node gray c) c'
    → Blackens c (paint node black c')
Blackens-painted c c' node at f k = elim (Bool-cases (k == node)) [
  | inl e ↦ let same = ==→≡ k node e in inr (rw same at, rw e refl)
  | inr e ↦ elim (f k) [
    | inl q ↦ inl (ground arith)
    | inr (a, b) ↦ inr (ground arith, ground arith)
  ]
]

abbrev pub is_white : Option Color → ℕ
is_white (some white) = 1
is_white _ = 0

unfoldable pub whites : List String → Coloring → ℕ
whites [] c = 0
whites (k ∷ ks) c = is_white (c k) + whites ks c

pub whites_le : (ks : List String) (c c' : Coloring) → Blackens c c' → whites ks c' ≤ whites ks c
unfolding whites
whites_le [] c c' f = omega arith
whites_le (k ∷ ks) c c' f = elim (f k) [
  | inl e ↦ rw e (omega (arith, whites_le ks c c' f))
  | inr (a, b) ↦ rw b (omega (arith, whites_le ks c c' f))
]

paint_le :
    (node : String) (ks : List String) (c : Coloring) → whites ks (paint node gray c) ≤ whites ks c
unfolding whites
paint_le node [] c = omega arith
paint_le node (k ∷ ks) c = elim (Bool-cases (k == node)) [
  | inl e ↦ rw e (omega (arith, paint_le node ks c))
  | inr e ↦ rw e (omega (arith, paint_le node ks c))
]

pub paint_lt :
    (node : String) (ks : List String) (c : Coloring)
    → contains ks node ≡ true
    → c node ≡ some white
    → whites ks (paint node gray c) < whites ks c
unfolding whites contains
paint_lt node [] c h at = cc
paint_lt node (k ∷ ks) c h at = elim (Bool-cases (k == node)) [
  | inl e ↦ let same = ==→≡ k node e in rw e (rw (same, at) (omega (arith, paint_le node ks c)))
  | inr e ↦
      let later : contains ks node ≡ true = ground arith in
      rw e (omega (arith, paint_lt node ks c later at))
]

at_most_one : (o : Option Color) → is_white o ≤ 1
at_most_one (some white) = omega arith
at_most_one none = omega arith
at_most_one (some gray) = omega arith
at_most_one (some black) = omega arith

pub whites_bounded : (ks : List String) (c : Coloring) → whites ks c ≤ length ks
unfolding whites
whites_bounded [] c = omega arith
whites_bounded (k ∷ ks) c = omega (arith, whites_bounded ks c, at_most_one (c k))

pub color_cases :
    (o : Option Color) → (o ≡ none) ⊎ (o ≡ some white) ⊎ (o ≡ some gray) ⊎ (o ≡ some black)
color_cases none = inl refl
color_cases (some white) = inr (inl refl)
color_cases (some gray) = inr (inr (inl refl))
color_cases (some black) = inr (inr (inr refl))
