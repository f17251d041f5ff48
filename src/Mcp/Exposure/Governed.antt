-- ===== src/Mcp/Exposure/Governed.antt =====
-- What is true of the flows that are exposed.
use chain_weaver.Common.{
  String, Bool, true, false, Option, none, some, List, [], ◌∷◌, ◌≡◌, refl, subst, inl, inr, arith,
  ◌&&◌, not, All, map, contains, Bool-cases,
}
use chain_weaver.Contracts.Levels.{SideEffectLevel, ToolSafetyContract}
use chain_weaver.Governance.{lifecycle_in}
use chain_weaver.Mcp.Readiness.{level_in, side_effects_over_ceiling}
use chain_weaver.Mcp.Exposure.{
  ServedFlow, ServedTool, Exposure, Exposed, nothing_exposed, resolve_flow_safety, Exclusion,
  is_owned, safety_exclusion, implicit_exclusion_reason, mcp_name, add_level, register_flow_tool,
  is_forced, unless_excluded, expose_flow, expose_flows, expose_found, flows_to_expose,
  register_all_flows,
}

-- The names are all different.
abbrev pub AllDifferent : List String → Type 0
AllDifferent [] = Unit
AllDifferent (name ∷ names) = (contains name names ≡ false) × AllDifferent names

module _ (settings : Exposure) where
  -- The safety is known, with side effects that are allowed, and needs no approval unless that is
  -- allowed.
  abbrev pub IsSafe : Option ToolSafetyContract → Type 0
  IsSafe none = ⊥
  IsSafe (some safety) =
      (level_in safety.side_effects settings.allowed_side_effects ≡ true)
      × ((safety.requires_approval && not settings.allow_requires_approval) ≡ false)

  -- What the governance filters ask of a flow with its safety.
  pub record IsGoverned (flow : ServedFlow) (safety : Option ToolSafetyContract) : Type 0 where
    pub lifecycle : lifecycle_in flow.governance.lifecycle settings.allowed_lifecycles ≡ true
    pub owner : is_owned settings flow.governance.owner ≡ true
    pub safe : IsSafe safety

  safety_exclusion-IsSafe :
      (safety : Option ToolSafetyContract) → safety_exclusion settings safety ≡ none → IsSafe safety
  unfolding safety_exclusion
  safety_exclusion-IsSafe none e = ground (arith, e)
  safety_exclusion-IsSafe (some safety) e =
      elim (Bool-cases (level_in safety.side_effects settings.allowed_side_effects)) [
        | inl within ↦
            elim (Bool-cases (safety.requires_approval && not settings.allow_requires_approval)) [
              | inl asks ↦ ground (arith, simp (within, asks) at e)
              | inr free ↦ (within, free)
            ]
        | inr beyond ↦ ground (arith, simp beyond at e)
      ]

  implicit_exclusion_reason-IsGoverned :
      (flow : ServedFlow) (safety : Option ToolSafetyContract)
      → implicit_exclusion_reason settings flow safety ≡ none
      → IsGoverned flow safety
  unfolding implicit_exclusion_reason
  implicit_exclusion_reason-IsGoverned flow safety e =
      elim (Bool-cases (lifecycle_in flow.governance.lifecycle settings.allowed_lifecycles)) [
        | inl current ↦ elim (Bool-cases (is_owned settings flow.governance.owner)) [
          | inl owned ↦ record {
            lifecycle = current;
            owner = owned;
            safe = safety_exclusion-IsSafe safety (simp (current, owned) at e);
          }
          | inr foreign ↦ ground (arith, simp (current, foreign) at e)
        ]
        | inr outdated ↦ ground (arith, simp outdated at e)
      ]

  module _ (get_tool : String → Option ServedTool) where
    -- An exposed tool stands for a flow that the filters let pass, under its name and with the safety
    -- that is resolved for it.
    abbrev pub IsServed : String × (ServedFlow × Option ToolSafetyContract) → Type 0
    IsServed (name, (flow, safety)) =
        (name ≡ mcp_name settings flow)
        × (safety ≡ resolve_flow_safety get_tool flow)
        × IsGoverned flow safety

    -- Every tool stands for a flow that the filters let pass, no name is there twice, and the side
    -- effects that the readiness check is given are all allowed.
    pub record IsExposure (exposed : Exposed) : Type 0 where
      pub served : All IsServed exposed.tools
      pub different : AllDifferent (map (λ tool. tool.0) exposed.tools)
      pub within :
          side_effects_over_ceiling settings.allowed_side_effects exposed.side_effects ≡ false

    abbrev OnExposed : Option Exposed → Type 0
    OnExposed none = Unit
    OnExposed (some exposed) = IsExposure exposed

    add_level-within :
        (safety : Option ToolSafetyContract) (levels : List SideEffectLevel)
        → IsSafe safety
        → side_effects_over_ceiling settings.allowed_side_effects levels ≡ false
        → side_effects_over_ceiling settings.allowed_side_effects (add_level settings safety levels)
          ≡ false
    unfolding side_effects_over_ceiling
    add_level-within none levels safe within = ground (arith, safe)
    add_level-within (some safety) levels (inside, free) within = simp (inside, within) refl

    register_flow_tool-OnExposed :
        (flow : ServedFlow) (exposed : Exposed)
        → IsGoverned flow (resolve_flow_safety get_tool flow)
        → IsExposure exposed
        → OnExposed (register_flow_tool settings flow (resolve_flow_safety get_tool flow) exposed)
    unfolding register_flow_tool
    register_flow_tool-OnExposed flow exposed governed fine =
        elim (Bool-cases (contains (mcp_name settings flow) (map (λ tool. tool.0) exposed.tools))) [
          | inl there ↦ simp there tt
          | inr new ↦ simp new (record {
            served = ((refl, refl, governed), fine.served);
            different = (new, fine.different);
            within =
                add_level-within (resolve_flow_safety get_tool flow) exposed.side_effects
                  governed.safe fine.within;
          })
        ]

    unless_excluded-OnExposed :
        (reason : Option Exclusion) (flow : ServedFlow) (exposed : Exposed)
        → implicit_exclusion_reason settings flow (resolve_flow_safety get_tool flow) ≡ reason
        → IsExposure exposed
        → OnExposed
            (unless_excluded settings reason flow (resolve_flow_safety get_tool flow) exposed)
    unfolding unless_excluded
    unless_excluded-OnExposed none flow exposed e fine =
        register_flow_tool-OnExposed flow exposed (implicit_exclusion_reason-IsGoverned flow _ e)
          fine
    unless_excluded-OnExposed (some reason) flow exposed e fine = fine

    expose_flows-OnExposed :
        (flows : List ServedFlow) (exposed : Option Exposed)
        → is_forced settings ≡ false
        → OnExposed exposed
        → OnExposed (expose_flows settings get_tool flows exposed)
    unfolding expose_flows expose_flow
    expose_flows-OnExposed flows none free fine = tt
    expose_flows-OnExposed [] (some exposed) free fine = fine
    expose_flows-OnExposed (flow ∷ flows) (some exposed) free fine =
        expose_flows-OnExposed flows _ free
          (simp free (unless_excluded-OnExposed _ flow exposed refl fine))

    expose_found-OnExposed :
        (flows : Option (List ServedFlow))
        → is_forced settings ≡ false
        → OnExposed (expose_found settings get_tool flows)
    unfolding side_effects_over_ceiling
    expose_found-OnExposed none free = tt
    expose_found-OnExposed (some flows) free =
        expose_flows-OnExposed flows (some nothing_exposed) free
          (record { served = tt; different = tt; within = refl })

    -- A server that does not force its flows exposes only flows that its governance filters let pass,
    -- named explicitly or not: each tool has the name of its flow and the safety that is resolved for
    -- it, which is known; no two tools share a name; and the readiness check of a profile with the
    -- same ceiling finds no side effects above it.
    pub register_all_flows-IsExposure :
        (newer : String → String → Bool) (active : List ServedFlow)
        (get_flow : String → Option ServedFlow) (exposed : Exposed)
        → is_forced settings ≡ false
        → register_all_flows settings newer active get_flow get_tool ≡ some exposed
        → IsExposure exposed
    unfolding register_all_flows
    register_all_flows-IsExposure newer active get_flow exposed free e =
        subst OnExposed e
          (expose_found-OnExposed (flows_to_expose settings newer active get_flow) free)
