-- ===== src/PlanCheck/Search.antt =====
-- What a visit of the search of fsasm-first/src/fsasm/models.py comes to: it turns ids black from
-- which every chain of dependencies ends, or it has met a cycle.
use fsasm_training_lab.Prelude.{
  ℕ, zero, suc, ◌≤◌, String, ◌==◌, ◌≡◌, ◌≢◌, refl, true, none, some, List, [], ◌∷◌, All, contains,
  arith, inl, inr, ==→≡, ==_refl, Bool-cases, sym, subst, Result, ok, err, ◌>>=◌,
}
use fsasm_training_lab.Models.{ChildTask}
use fsasm_training_lab.PlanCheck.{
  PlanError, dependency_cycle, white, gray, black, Coloring, paint, dependencies_of, visit_all,
  visit, visit_roots,
}
use fsasm_training_lab.PlanCheck.Graph.{
  DependsOn, Reaches, stay, further, HasCycle, cycle, ChainsEnd, ends,
}
use fsasm_training_lab.PlanCheck.Colors.{
  Blackens, Blackens-trans, Blackens-black, Blackens-none, Blackens-gray, Blackens-painted, whites,
  whites_le, paint_lt, color_cases,
}

module _ (ts : List ChildTask) (ids : List String)
    (known : (x y : String) → DependsOn ts x y → contains ids y ≡ true) where
  abbrev BlackEnds : Coloring → Type 0
  BlackEnds c = (k : String) → c k ≡ some black → ChainsEnd ts k

  abbrev GrayReaches : Coloring → String → Type 0
  GrayReaches c node = (k : String) → c k ≡ some gray → Reaches ts k node

  abbrev Colored : Coloring → Type 0
  Colored c = (k : String) → contains ids k ≡ true → c k ≢ none

  pub record IsGood (fuel : ℕ) (c : Coloring) : Type 0 where
    pub black_ends : BlackEnds c
    pub colored : Colored c
    pub shallow : whites ids c ≤ fuel

  abbrev pub Searched : Coloring → List String → Result PlanError Coloring → Type 0
  Searched c nodes (ok c') =
      Blackens c c' × All (λ (k : String). c' k ≡ some black) nodes × BlackEnds c'
  Searched c nodes (err dependency_cycle) = HasCycle ts
  Searched c nodes (err _) = ⊥

  abbrev Visits : ℕ → (String → Coloring → Result PlanError Coloring) → Type 0
  Visits fuel go =
      (node : String) (c : Coloring)
      → c node ≡ some white
      → contains ids node ≡ true
      → IsGood fuel c
      → GrayReaches c node
      → Searched c (node ∷ []) (go node c)

  IsGood-later :
      (fuel : ℕ) (c c' : Coloring) → Blackens c c' → BlackEnds c' → IsGood fuel c → IsGood fuel c'
  IsGood-later fuel c c' f ends_now good = record {
    black_ends = ends_now;
    colored = λ k h e. good.colored k h (Blackens-none c c' k f e);
    shallow = let k = good.shallow in omega (arith, whites_le ids c c' f);
  }

  Searched-more :
      (c c1 : Coloring) (node : String) (rest : List String) (r : Result PlanError Coloring)
      → Blackens c c1
      → c1 node ≡ some black
      → Searched c1 rest r
      → Searched c (node ∷ rest) r
  Searched-more c c1 node rest (ok c') f done (g, all_done, now) =
      (Blackens-trans f g, (Blackens-black c1 c' node g done, all_done), now)
  Searched-more c c1 node rest (err dependency_cycle) f done h = h
  Searched-more c c1 node rest (err _) f done h = absurd h

  Searched-bind :
      (c : Coloring) (node : String) (rest : List String) (r : Result PlanError Coloring)
      (next : Coloring → Result PlanError Coloring)
      → Searched c (node ∷ []) r
      → ((c1 : Coloring) → Blackens c c1 → BlackEnds c1 → Searched c1 rest (next c1))
      → Searched c (node ∷ rest) (r >>= next)
  Searched-bind c node rest (ok c1) next (f, done, now) more =
      Searched-more c c1 node rest (next c1) f done.0 (more c1 f now)
  Searched-bind c node rest (err dependency_cycle) next h more = h
  Searched-bind c node rest (err _) next h more = absurd h

  visit_all_lem :
      (fuel : ℕ) (go : String → Coloring → Result PlanError Coloring) (node : String)
      (rest : List String) (c : Coloring)
      → Visits fuel go
      → All (DependsOn ts node) rest
      → IsGood fuel c
      → GrayReaches c node
      → Searched c rest (visit_all go rest c)
  unfolding visit_all
  visit_all_lem fuel go node [] c goes deps good reach = ((λ k. inl refl), tt, good.black_ends)
  visit_all_lem fuel go node (nxt ∷ rest) c goes deps good reach =
      let there = known node nxt deps.0 in
      let result = Searched c (nxt ∷ rest) in
      elim (color_cases (c nxt)) [
        | inl e ↦ absurd (good.colored nxt there e)
        | inr (inl e) ↦
            let is : visit_all go (nxt ∷ rest) c ≡ (go nxt c >>= visit_all go rest) =
              rw (visit_all, e) refl in
            subst result (sym is) (
              Searched-bind c nxt rest (go nxt c) (visit_all go rest)
                (goes nxt c e there good (λ k g. further ts (reach k g) deps.0))
                (λ c1 f now.
                  visit_all_lem fuel go node rest c1 goes deps.1 (IsGood-later fuel c c1 f now good)
                    (λ k g. reach k (Blackens-gray c c1 k f g))))
        | inr (inr (inl e)) ↦
            let is : visit_all go (nxt ∷ rest) c ≡ err dependency_cycle = rw (visit_all, e) refl in
            subst result (sym is) (cycle (reach nxt e) deps.0)
        | inr (inr (inr e)) ↦
            let is : visit_all go (nxt ∷ rest) c ≡ visit_all go rest c = rw (visit_all, e) refl in
            subst result (sym is) (
              Searched-more c c nxt rest (visit_all go rest c) (λ k. inl refl) e
                (visit_all_lem fuel go node rest c goes deps.1 good reach))
      ]

  All-depend :
      (node : String) (ds : List String)
      → ((y : String) → contains ds y ≡ true → DependsOn ts node y)
      → All (DependsOn ts node) ds
  unfolding contains
  All-depend node [] h = tt
  All-depend node (d ∷ ds) h =
      (h d (rw (==_refl d) refl), All-depend node ds (λ y q. h y (ground arith)))

  pub All-black :
      (c : Coloring) (ds : List String) (y : String)
      → All (λ (k : String). c k ≡ some black) ds
      → contains ds y ≡ true
      → c y ≡ some black
  unfolding contains
  All-black c [] y h q = cc
  All-black c (d ∷ ds) y h q = elim (Bool-cases (d == y)) [
    | inl e ↦ let same = ==→≡ d y e in rw (← same) h.0
    | inr e ↦ All-black c ds y h.1 (ground arith)
  ]

  paint-IsGood :
      (fuel : ℕ) (c : Coloring) (node : String)
      → c node ≡ some white
      → contains ids node ≡ true
      → IsGood (suc fuel) c
      → IsGood fuel (paint node gray c)
  paint-IsGood fuel c node at there good = record {
    black_ends = λ k e. elim (Bool-cases (k == node)) [
      | inl q ↦ absurd (ground arith)
      | inr q ↦ good.black_ends k (ground arith)
    ];
    colored = λ k h e. elim (Bool-cases (k == node)) [
      | inl q ↦ ground arith
      | inr q ↦ good.colored k h (ground arith)
    ];
    shallow = let k = good.shallow in omega (arith, paint_lt node ids c there at);
  }

  paint-GrayReaches :
      (c : Coloring) (node : String) → GrayReaches c node → GrayReaches (paint node gray c) node
  paint-GrayReaches c node reach k g = elim (Bool-cases (k == node)) [
    | inl q ↦ subst (λ x. Reaches ts x node) (sym (==→≡ k node q)) stay
    | inr q ↦ reach k (ground arith)
  ]

  close :
      (c : Coloring) (node : String) (r : Result PlanError Coloring)
      → c node ≡ some white
      → Searched (paint node gray c) (dependencies_of ts node) r
      → Searched c (node ∷ []) (r >>= λ c1. ok (paint node black c1))
  close c node (ok c1) at (f, done, now) = (
    Blackens-painted c c1 node at f,
    (rw (==_refl node) refl, tt),
    λ k e. elim (Bool-cases (k == node)) [
      | inl q ↦
          subst (ChainsEnd ts) (sym (==→≡ k node q))
            (ends (λ y d. now y (All-black c1 (dependencies_of ts node) y done d)))
      | inr q ↦ now k (ground arith)
    ],
  )
  close c node (err dependency_cycle) at h = h
  close c node (err _) at h = absurd h

  visit_lem : (fuel : ℕ) → Visits fuel (visit ts fuel)
  unfolding visit
  visit_lem zero node c at there good reach =
      absurd (let k = good.shallow in omega (arith, paint_lt node ids c there at))
  visit_lem (suc fuel) node c at there good reach =
      close c node (visit_all (visit ts fuel) (dependencies_of ts node) (paint node gray c)) at (
        visit_all_lem fuel (visit ts fuel) node (dependencies_of ts node) (paint node gray c)
          (visit_lem fuel) (All-depend node (dependencies_of ts node) (λ y q. q))
          (paint-IsGood fuel c node at there good) (paint-GrayReaches c node reach))

  -- Between two roots no id is gray.
  pub visit_roots_lem :
      (fuel : ℕ) (roots : List String) (c : Coloring)
      → All (λ (k : String). contains ids k ≡ true) roots
      → IsGood fuel c
      → ((k : String) → c k ≢ some gray)
      → Searched c roots (visit_roots ts fuel roots c)
  unfolding visit_roots
  visit_roots_lem fuel [] c there good clear = ((λ k. inl refl), tt, good.black_ends)
  visit_roots_lem fuel (tid ∷ rest) c there good clear =
      let result = Searched c (tid ∷ rest) in
      elim (color_cases (c tid)) [
        | inl e ↦ absurd (good.colored tid there.0 e)
        | inr (inl e) ↦
            let is : visit_roots ts fuel (tid ∷ rest) c
                ≡ (visit ts fuel tid c >>= visit_roots ts fuel rest) =
              rw (visit_roots, e) refl in
            subst result (sym is) (
              Searched-bind c tid rest (visit ts fuel tid c) (visit_roots ts fuel rest)
                (visit_lem fuel tid c e there.0 good (λ k g. absurd (clear k g)))
                (λ c1 f now.
                  visit_roots_lem fuel rest c1 there.1 (IsGood-later fuel c c1 f now good)
                    (λ k g. clear k (Blackens-gray c c1 k f g))))
        | inr (inr (inl e)) ↦ absurd (clear tid e)
        | inr (inr (inr e)) ↦
            let is : visit_roots ts fuel (tid ∷ rest) c ≡ visit_roots ts fuel rest c =
              rw (visit_roots, e) refl in
            subst result (sym is) (
              Searched-more c c tid rest (visit_roots ts fuel rest c) (λ k. inl refl) e
                (visit_roots_lem fuel rest c there.1 good clear))
      ]
