-- ===== src/Router/Limits.antt =====
-- A run of requests through `ModelRouter.route` and `apply_decision` of
-- fsasm-first/src/fsasm/router.py.
use fsasm_training_lab.Prelude.{
  ℕ, ◌+◌, ◌≤◌, ◌<◌, String, ◌≡◌, ◌≢◌, refl, Bool, true, false, Option, none, some, List, [], ◌∷◌,
  arith, Option-cases, ◌∙◌, ap, inl, inr, sym,
}
use fsasm_training_lab.Router.{
  ModelCallBudget, EscalationRequest, RouterDecision, local_route, consult_route, handover_route,
  route_to_gate, route_rejected, RouterConfig, RouterState, route, apply_decision,
}
use fsasm_training_lab.Router.Decided.{handover_is_allowed, consultation_is_allowed}

-- What one step of the driver asks of the router, and what the answer will have cost.
pub record Request : Type 0 where
  pub escalation : Option EscalationRequest
  pub scope : Option (List String)
  pub cost : ℕ

-- The counters are within their limits. The price of a request is known only when it has been served,
-- so the cost is under the cap and the price of one request, the largest.
pub record WithinLimits (config : RouterConfig) (largest : ℕ) (s : RouterState) : Type 0 where
  pub escalations : s.escalations_this_run ≤ config.max_escalations_per_run
  pub handovers : s.handovers_this_task ≤ config.max_handovers_per_task
  pub consultations : s.consultations_this_task ≤ config.max_consultations_per_task
  pub cost : (cap : ℕ) → config.max_escalation_cost ≡ some cap → s.escalation_cost < cap + largest

abbrev pub is_handover : RouterDecision → Bool
is_handover (handover_route _ _ _ _) = true
is_handover _ = false

module _ (normal : String → String) where
  -- Each request is routed in the state that the one before it left.
  unfoldable pub serve : RouterConfig → List Request → RouterState → RouterState
  serve config [] s = s
  serve config (r ∷ rest) s =
      serve config rest (apply_decision (route normal config r.escalation s r.scope) s r.cost)

  local_only :
      (config : RouterConfig) (s : RouterState) (scope : Option (List String)) (d : RouterDecision)
      → route normal config none s scope ≡ d
      → ((o : String) → local_route o ≢ d)
      → ⊥
  unfolding route
  local_only config s scope d h ne = ne s.current_owner h

  gated :
      (config : RouterConfig) (r : Request) (s : RouterState)
      → config.max_escalations_per_run ≤ s.escalations_this_run
      → apply_decision (route normal config r.escalation s r.scope) s r.cost ≡ s
  unfolding apply_decision route
  gated config r s full = elim (Option-cases r.escalation) [
    | inl absent ↦ ground arith
    | inr (e, is) ↦ ground arith
  ]

  -- Once the escalations of the run are used up, no further sequence of requests changes the router:
  -- the owner stays, and nothing more is consulted, handed over or spent.
  pub exhausted_router_stands :
      (config : RouterConfig) (rs : List Request) (s : RouterState)
      → config.max_escalations_per_run ≤ s.escalations_this_run
      → serve config rs s ≡ s
  unfolding serve
  exhausted_router_stands config [] s full = refl
  exhausted_router_stands config (r ∷ rest) s full =
      ap (serve config rest) (gated config r s full) ∙ exhausted_router_stands config rest s full

  -- None of these requests, each routed in the state that the one before it left, is a handover.
  abbrev pub NoHandover : RouterConfig → List Request → RouterState → Type 0
  NoHandover config [] s = Unit
  NoHandover config (r ∷ rest) s =
      (is_handover (route normal config r.escalation s r.scope) ≡ false)
      × NoHandover config rest
          (apply_decision (route normal config r.escalation s r.scope) s r.cost)

  step_stays :
      (config : RouterConfig) (r : Request) (s : RouterState) (d : RouterDecision)
      → route normal config r.escalation s r.scope ≡ d
      → is_handover d ≡ false
      → let s' = apply_decision d s r.cost in
        (s'.current_owner ≡ s.current_owner) × (s'.last_handover_from ≡ s.last_handover_from)
  unfolding apply_decision
  step_stays config r s (local_route owner) h n = (refl, refl)
  step_stays config r s (route_to_gate reason) h n = (refl, refl)
  step_stays config r s (route_rejected reason owner) h n = (refl, refl)
  step_stays config r s (handover_route target previous scope budget) h n = cc
  step_stays config r s (consult_route target owner budget) h n = elim (Option-cases r.escalation) [
    | inl absent ↦
        absurd (
          local_only config s r.scope (consult_route target owner budget) (rw absent at h)
            (λ o. cc))
    | inr (e, is) ↦
        let allowed =
          consultation_is_allowed normal config e s r.scope target owner budget (rw is at h) in
        (allowed.1, refl)
  ]

  serve_stays :
      (config : RouterConfig) (rs : List Request) (s : RouterState)
      → NoHandover config rs s
      → ((serve config rs s).current_owner ≡ s.current_owner)
        × ((serve config rs s).last_handover_from ≡ s.last_handover_from)
  unfolding serve
  serve_stays config [] s n = (refl, refl)
  serve_stays config (r ∷ rest) s n =
      let now = step_stays config r s (route normal config r.escalation s r.scope) refl n.0 in
      let later = serve_stays config rest _ n.1 in (later.0 ∙ now.0, later.1 ∙ now.1)

  next_handover :
      (config : RouterConfig) (e : EscalationRequest) (s : RouterState)
      (scope : Option (List String)) (owner from target previous : String) (given : List String)
      (budget : ModelCallBudget)
      → s.current_owner ≡ owner
      → s.last_handover_from ≡ some from
      → route normal config (some e) s scope ≡ handover_route target previous given budget
      → (previous ≡ owner) × (target ≢ owner) × (target ≢ from)
  next_handover config e s scope owner from target previous given budget held came h =
      let (a, b, c, d, g1, g2, g3, g4, g5) =
        handover_is_allowed normal config e s scope target previous given budget h in
      (d ∙ held, λ q. b (q ∙ sym held), λ q. c (came ∙ ap some (sym q)))

  -- After a handover, and any sequence of requests that are no handovers, the next handover starts from
  -- the role that received the task, and goes neither to it nor back to the role that gave it away.
  pub no_ping_pong :
      (config : RouterConfig) (e e2 : EscalationRequest) (s : RouterState)
      (scope scope2 : Option (List String)) (cost : ℕ) (between : List Request)
      (target previous target2 previous2 : String) (given given2 : List String)
      (budget budget2 : ModelCallBudget)
      → route normal config (some e) s scope ≡ handover_route target previous given budget
      → let held = apply_decision (route normal config (some e) s scope) s cost in
        NoHandover config between held
        → route normal config (some e2) (serve config between held) scope2
          ≡ handover_route target2 previous2 given2 budget2
        → (previous ≡ s.current_owner)
          × (previous2 ≡ target)
          × (target2 ≢ target)
          × (target2 ≢ previous)
  unfolding apply_decision
  no_ping_pong config e e2 s scope scope2 cost between target previous target2 previous2 given
        given2 budget budget2 h none_between h2 =
      let held = apply_decision (route normal config (some e) s scope) s cost in
      let (a, b, c, from, g1, g2, g3, g4, g5) =
        handover_is_allowed normal config e s scope target previous given budget h in
      let (owner, came) = serve_stays config between held none_between in
      let owned : held.current_owner ≡ target = rw h refl in
      let given_by : held.last_handover_from ≡ some previous = rw h refl in
      let (start, onward, not_back) =
        next_handover config e2 (serve config between held) scope2 target previous target2 previous2
          given2 budget2 (owner ∙ owned) (came ∙ given_by) h2 in
      (from, start, onward, not_back)
