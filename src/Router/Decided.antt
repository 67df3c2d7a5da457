-- ===== src/Router/Decided.antt =====
-- What a decision of `ModelRouter.route` (fsasm-first/src/fsasm/router.py) guarantees.
use fsasm_training_lab.Prelude.{
  ◌<◌, String, ◌≡◌, ◌≢◌, ◌⊎◌, inr, true, false, Option, none, some, List, [], ◌∷◌, arith, contains,
  eq_iff, ==_refl,
}
use fsasm_training_lab.Router.{
  ModelCallBudget, EscalationRequest, consult_route, handover_route, RouterConfig, RouterState,
  first_other, resolve_target, scope_or_empty, route_consultation, route_handover, named_target,
  route, is_exhausted,
}

first_other-allowed :
    (owner : String) (allowed : List String) (t : String)
    → first_other owner allowed ≡ some t
    → (contains allowed t ≡ true) × (t ≢ owner)
unfolding first_other contains
first_other-allowed owner [] t h = cc
first_other-allowed owner (cand ∷ rest) t h =
    ground (arith, first_other-allowed owner rest t, eq_iff cand owner, ==_refl t)

resolve_target-allowed :
    (target : Option String) (allowed : List String) (s : RouterState) (t : String)
    → resolve_target target allowed s ≡ some t
    → contains allowed t ≡ true
unfolding resolve_target
resolve_target-allowed none allowed s t h = (first_other-allowed s.current_owner allowed t h).0
resolve_target-allowed (some u) allowed s t h = ground arith

resolve_target-named :
    (target : Option String) (allowed : List String) (s : RouterState) (t : String)
    → resolve_target target allowed s ≡ some t
    → (target ≡ some t) ⊎ (t ≢ s.current_owner)
unfolding resolve_target
resolve_target-named none allowed s t h = inr (first_other-allowed s.current_owner allowed t h).1
resolve_target-named (some u) allowed s t h = ground arith

module _ (normal : String → String) where
  -- A handover goes to an allowed role that is neither the current owner nor the role that the task
  -- last came from, with the scope that the task has and the budget of the configuration, and only
  -- within every limit.
  pub handover_is_allowed :
      (config : RouterConfig) (e : EscalationRequest) (s : RouterState)
      (scope : Option (List String)) (target previous : String) (given : List String)
      (budget : ModelCallBudget)
      → route normal config (some e) s scope ≡ handover_route target previous given budget
      → (contains config.allowed_handover_targets target ≡ true)
        × (target ≢ s.current_owner)
        × (s.last_handover_from ≢ some target)
        × (previous ≡ s.current_owner)
        × (given ≡ scope_or_empty scope)
        × (budget ≡ config.handover_budget)
        × (s.escalations_this_run < config.max_escalations_per_run)
        × (s.handovers_this_task < config.max_handovers_per_task)
        × (is_exhausted config.max_escalation_cost s.escalation_cost ≡ false)
  unfolding route route_consultation route_handover
  handover_is_allowed config e s scope target previous given budget h = ground (
    arith,
    resolve_target-allowed (named_target normal e.target) config.allowed_handover_targets s target,
    eq_iff target s.current_owner,
    ==_refl target,
  )

  -- A consultation goes to an allowed role and leaves the owner as it is, within every limit; if the
  -- request names no role, the one consulted is not the owner.
  pub consultation_is_allowed :
      (config : RouterConfig) (e : EscalationRequest) (s : RouterState)
      (scope : Option (List String)) (target owner : String) (budget : ModelCallBudget)
      → route normal config (some e) s scope ≡ consult_route target owner budget
      → (contains config.allowed_consultation_targets target ≡ true)
        × (owner ≡ s.current_owner)
        × (budget ≡ config.consultation_budget)
        × (s.escalations_this_run < config.max_escalations_per_run)
        × (s.consultations_this_task < config.max_consultations_per_task)
        × (is_exhausted config.max_escalation_cost s.escalation_cost ≡ false)
        × ((named_target normal e.target ≡ some target) ⊎ (target ≢ s.current_owner))
  unfolding route route_consultation route_handover
  consultation_is_allowed config e s scope target owner budget h = ground (
    arith,
    resolve_target-allowed (named_target normal e.target) config.allowed_consultation_targets s
        target,
    resolve_target-named (named_target normal e.target) config.allowed_consultation_targets s
        target,
  )
