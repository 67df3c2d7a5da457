-- ===== src/Router.antt =====
-- fsasm-first/src/fsasm/router.py: where a model's request for help goes. `normal` is
-- `s.strip().lower()`, the case mapping of Unicode. A set of role names is the list that `sorted`
-- gives of it, and a cost is a number of the smallest unit in which costs are counted.
pub mod Decided
pub mod Limits
use fsasm_training_lab.Prelude.{
  ℕ, ◌+◌, String, ◌==◌, Bool, true, false, not, ◌&&◌, Option, none, some, List, [], ◌∷◌,
  if◌then◌else◌, leb, contains,
}

-- `ModelCallBudget` of fsasm-first/src/fsasm/model_types.py
pub record ModelCallBudget : Type 0 where
  pub max_model_calls : Option ℕ
  pub max_tool_calls : Option ℕ
  pub max_agent_steps : Option ℕ
  pub max_tokens : Option ℕ
  pub max_cost : Option ℕ
  pub max_time_ms : Option ℕ

-- `EscalationRequest` of fsasm-first/src/fsasm/model_types.py
pub record EscalationRequest : Type 0 where
  pub kind : String
  pub reason : String
  pub target : Option String

-- Why a request is rejected or goes to the gate, without the wording.
pub data RouteReason : Type 0 where
  escalations_exhausted cost_exhausted consultations_exhausted handovers_exhausted : RouteReason
  disallowed_by_policy target_not_allowed to_current_owner back_to_previous unknown_kind :
      RouteReason

pub data RouterDecision : Type 0 where
  local_route : (owner : String) → RouterDecision
  consult_route : (target_role owner : String) → ModelCallBudget → RouterDecision
  handover_route :
      (target_role previous_owner : String) → List String → ModelCallBudget → RouterDecision
  route_to_gate : RouteReason → RouterDecision
  route_rejected : RouteReason → (owner : String) → RouterDecision

pub record RouterConfig : Type 0 where
  pub max_escalations_per_run : ℕ
  pub max_handovers_per_task : ℕ
  pub max_consultations_per_task : ℕ
  pub allow_consultation : Bool
  pub allow_handover : Bool
  pub allowed_consultation_targets : List String
  pub allowed_handover_targets : List String
  pub max_escalation_cost : Option ℕ
  pub consultation_budget : ModelCallBudget
  pub handover_budget : ModelCallBudget

pub record RouterState : Type 0 where
  pub current_owner : String
  pub escalations_this_run : ℕ
  pub handovers_this_task : ℕ
  pub consultations_this_task : ℕ
  pub escalation_cost : ℕ
  pub last_handover_from : Option String
  pub last_handover_to : Option String

-- `RouterState()`
abbrev pub new_router_state : RouterState
new_router_state = record {
  current_owner = "local";
  escalations_this_run = 0;
  handovers_this_task = 0;
  consultations_this_task = 0;
  escalation_cost = 0;
  last_handover_from = none;
  last_handover_to = none;
}

-- `max is not None and used >= max`
abbrev pub is_exhausted : Option ℕ → ℕ → Bool
is_exhausted none used = false
is_exhausted (some most) used = leb most used

-- The first entry that is not the current owner.
unfoldable pub first_other : String → List String → Option String
first_other owner [] = none
first_other owner (cand ∷ rest) =
    let found = first_other owner rest in if cand == owner then found else some cand

unfoldable pub resolve_target : Option String → List String → RouterState → Option String
unfolding first_other contains
resolve_target (some target) allowed state = if contains allowed target then some target else none
resolve_target none allowed state = first_other state.current_owner allowed

abbrev pub scope_or_empty : Option (List String) → List String
scope_or_empty none = []
scope_or_empty (some scope) = scope

abbrev pub consult : RouterConfig → RouterState → Option String → RouterDecision
consult config state none = route_rejected target_not_allowed state.current_owner
consult config state (some target) =
    consult_route target state.current_owner config.consultation_budget

unfoldable pub route_consultation : RouterConfig → RouterState → Option String → RouterDecision
unfolding resolve_target
route_consultation config state target =
    if not config.allow_consultation
    then route_rejected disallowed_by_policy state.current_owner
    else if leb config.max_consultations_per_task state.consultations_this_task
    then route_to_gate consultations_exhausted
    else consult config state (resolve_target target config.allowed_consultation_targets state)

-- `target == state.last_handover_from`
abbrev pub is_named : Option String → String → Bool
is_named none target = false
is_named (some role) target = target == role

abbrev pub handover :
    RouterConfig → RouterState → Option (List String) → Option String → RouterDecision
handover config state scope none = route_rejected target_not_allowed state.current_owner
handover config state scope (some target) =
    if target == state.current_owner
    then route_rejected to_current_owner state.current_owner
    else if is_named state.last_handover_from target
    then route_rejected back_to_previous state.current_owner
    else handover_route target state.current_owner (scope_or_empty scope) config.handover_budget

unfoldable pub route_handover :
    RouterConfig → RouterState → Option String → Option (List String) → RouterDecision
unfolding resolve_target
route_handover config state target scope =
    if not config.allow_handover
    then route_rejected disallowed_by_policy state.current_owner
    else if leb config.max_handovers_per_task state.handovers_this_task
    then route_to_gate handovers_exhausted
    else handover config state scope (resolve_target target config.allowed_handover_targets state)

module _ (normal : String → String) where
  -- `(escalation.target or "").strip().lower() or None`
  abbrev pub target_text : Option String → String
  target_text none = normal ""
  target_text (some target) = normal target

  abbrev pub named_target : Option String → Option String
  named_target target = if target_text target == "" then none else some (target_text target)

  unfoldable pub route :
      RouterConfig → Option EscalationRequest → RouterState → Option (List String) → RouterDecision
  unfolding route_consultation route_handover
  route config none state current_scope = local_route state.current_owner
  route config (some escalation) state current_scope =
      if leb config.max_escalations_per_run state.escalations_this_run
      then route_to_gate escalations_exhausted
      else if is_exhausted config.max_escalation_cost state.escalation_cost
      then route_to_gate cost_exhausted
      else if normal escalation.kind == "consultation"
      then route_consultation config state (named_target escalation.target)
      else if normal escalation.kind == "handover"
      then route_handover config state (named_target escalation.target) current_scope
      else route_rejected unknown_kind state.current_owner

unfoldable pub apply_decision : RouterDecision → RouterState → ℕ → RouterState
apply_decision (consult_route target owner budget) state cost = record {
  current_owner = owner;
  escalations_this_run = state.escalations_this_run + 1;
  handovers_this_task = state.handovers_this_task;
  consultations_this_task = state.consultations_this_task + 1;
  escalation_cost = state.escalation_cost + cost;
  last_handover_from = state.last_handover_from;
  last_handover_to = state.last_handover_to;
}
apply_decision (handover_route target previous scope budget) state cost = record {
  current_owner = target;
  escalations_this_run = state.escalations_this_run + 1;
  handovers_this_task = state.handovers_this_task + 1;
  consultations_this_task = state.consultations_this_task;
  escalation_cost = state.escalation_cost + cost;
  last_handover_from = some previous;
  last_handover_to = some target;
}
apply_decision (local_route owner) state cost = state
apply_decision (route_to_gate reason) state cost = state
apply_decision (route_rejected reason owner) state cost = state
