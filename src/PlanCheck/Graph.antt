-- ===== src/PlanCheck/Graph.antt =====
-- The graph of the dependencies of a plan (`Plan` of fsasm-first/src/fsasm/models.py), without the
-- search: what a cycle is, and when every chain of dependencies comes to an end.
use fsasm_training_lab.Prelude.{String, ◌≡◌, true, List, contains}
use fsasm_training_lab.Models.{ChildTask}
use fsasm_training_lab.PlanCheck.{dependencies_of}

module _ (ts : List ChildTask) where
  abbrev pub DependsOn : String → String → Type 0
  DependsOn x y = contains (dependencies_of ts x) y ≡ true

  -- Some steps of dependency, or none.
  pub data Reaches : String → String → Type 0 where
    stay : {x : String} → Reaches x x
    onward : {x y z : String} → DependsOn x y → Reaches y z → Reaches x z

  -- A way back to the start, of one step at least.
  pub data HasCycle : Type 0 where
    cycle : {x y : String} → Reaches x y → DependsOn y x → HasCycle

  -- Every chain of dependencies from here ends.
  pub data ChainsEnd : String → Type 0 where
    ends : {x : String} → ((y : String) → DependsOn x y → ChainsEnd y) → ChainsEnd x

  -- One more step at the end.
  pub further : {x y z : String} → Reaches x y → DependsOn y z → Reaches x z
  further stay d = onward d stay
  further (onward e r) d = onward e (further r d)

  no_way_back : {x : String} → ChainsEnd x → {y : String} → Reaches x y → ¬ (DependsOn y x)
  no_way_back (ends f) stay d = no_way_back (f _ d) stay d
  no_way_back (ends f) (onward e r) d = no_way_back (f _ e) (further r d) e

  pub ChainsEnd-acyclic : ((x : String) → ChainsEnd x) → ¬ HasCycle
  ChainsEnd-acyclic all_end (cycle {x} r d) = no_way_back (all_end x) r d
