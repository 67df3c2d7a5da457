-- ===== src/Examples/Routing.antt =====
-- The theorems on fsasm-first/src/fsasm/router.py at sample requests.
use fsasm_training_lab.Prelude.{String, ◌≡◌, ◌≢◌, refl, true, Option, none, some, List, [], ◌∷◌}
use fsasm_training_lab.Router.{
  ModelCallBudget, EscalationRequest, consult_route, handover_route, RouterConfig, RouterState,
  new_router_state, route, route_handover, route_consultation, resolve_target, apply_decision,
}
use fsasm_training_lab.Router.Limits.{Request, NoHandover, serve, no_ping_pong}

abbrev no_caps : ModelCallBudget
no_caps = record {
  max_model_calls = none;
  max_tool_calls = none;
  max_agent_steps = none;
  max_tokens = none;
  max_cost = none;
  max_time_ms = none;
}

abbrev config : RouterConfig
config = record {
  max_escalations_per_run = 3;
  max_handovers_per_task = 2;
  max_consultations_per_task = 2;
  allow_consultation = true;
  allow_handover = true;
  allowed_consultation_targets = "api_a" ∷ "api_b" ∷ [];
  allowed_handover_targets = "api_a" ∷ "api_b" ∷ [];
  max_escalation_cost = some 8;
  consultation_budget = no_caps;
  handover_budget = no_caps;
}

abbrev ask : String → Option String → EscalationRequest
ask kind target = record { kind = kind; reason = "stuck"; target = target }

-- Requests as a backend writes them that uses lower case only.
abbrev normal : String → String
normal s = s

abbrev handed_over : RouterState
handed_over = record new_router_state {
  current_owner = "api_a";
  escalations_this_run = 1;
  handovers_this_task = 1;
  escalation_cost = 5;
  last_handover_from = some "local";
  last_handover_to = some "api_a";
}

first_handover :
    route normal config (some (ask "handover" none)) new_router_state (some ("src/a.py" ∷ []))
    ≡ handover_route "api_a" "local" ("src/a.py" ∷ []) no_caps
unfolding route route_handover resolve_target
first_handover = refl

first_consultation :
    route normal config (some (ask "consultation" (some "api_b"))) handed_over none
    ≡ consult_route "api_b" "api_a" no_caps
unfolding route route_consultation resolve_target
first_consultation = refl

abbrev requests : List Request
requests =
    record { escalation = some (ask "handover" none); scope = none; cost = 5 }
    ∷ record { escalation = some (ask "consultation" (some "api_b")); scope = none; cost = 1 }
    ∷ []

-- A consultation stands between the two handovers.
abbrev between : List Request
between =
    record { escalation = some (ask "consultation" (some "api_b")); scope = none; cost = 1 } ∷ []

abbrev held : RouterState
held =
    apply_decision
      (route normal config (some (ask "handover" none)) new_router_state (some ("src/a.py" ∷ [])))
      new_router_state 5

consulted_between : NoHandover normal config between held
unfolding route route_handover route_consultation resolve_target apply_decision
consulted_between = (refl, tt)

second_handover :
    route normal config
      (some (ask "handover" (some "api_b")))
      (serve normal config between held)
      none
    ≡ handover_route "api_b" "api_a" [] no_caps
unfolding serve route route_handover route_consultation resolve_target apply_decision
second_handover = refl

no_ping_pong_example :
    (◌≡◌ {A = String} "local" "local")
    × (◌≡◌ {A = String} "api_a" "api_a")
    × (◌≢◌ {A = String} "api_b" "api_a")
    × (◌≢◌ {A = String} "api_b" "local")
no_ping_pong_example =
    no_ping_pong normal config (ask "handover" none) (ask "handover" (some "api_b"))
      new_router_state (some ("src/a.py" ∷ [])) none 5 between "api_a" "local" "api_b" "api_a"
      ("src/a.py" ∷ []) [] no_caps no_caps first_handover consulted_between second_handover
