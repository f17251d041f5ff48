-- ===== src/Mcp/Exposure.antt =====
-- Which flows FlowServer of chainweaver/mcp/server.py exposes, and under which names.
pub mod Governed
use chain_weaver.Common.{
  ℕ, String, Bool, true, false, Option, none, some, List, [], ◌∷◌, ◌++◌, ◌==◌, ◌&&◌, not, contains,
  if◌then◌else◌, map,
}
use Prim.Native.String.{◌++◌ as append}
use chain_weaver.Dict.{Dict, lookup, insert}
use chain_weaver.Contracts.Levels.{SideEffectLevel, ToolSafetyContract}
use chain_weaver.Contracts.Build.{Built, contract, review_conflict, read_only_conflict}
use chain_weaver.Contracts.Merge.{merge_safety}
use chain_weaver.Governance.{FlowLifecycle, lifecycle_in, FlowGovernance}
use chain_weaver.Mcp.Readiness.{level_in}

-- What the server reads of a flow and of a tool. A step without a tool has no name.
pub record ServedFlow : Type 0 where
  pub name : String
  pub version : String
  pub governance : FlowGovernance
  pub safety : Option ToolSafetyContract
  pub tool_names : List (Option String)

pub record ServedTool : Type 0 where
  pub safety_declared : Bool
  pub safety : ToolSafetyContract

-- The settings of FlowServer that decide on exposure.
pub record Exposure : Type 0 where
  pub flow_names : Option (List String)
  pub server_prefix : String
  pub force_expose : Bool
  pub allowed_lifecycles : List FlowLifecycle
  pub allowed_side_effects : List SideEffectLevel
  pub owners : Option (List String)
  pub allow_requires_approval : Bool

-- The flows that are registered as tools, each with its tool's name and safety, and
-- `_exposed_side_effects`.
pub record Exposed : Type 0 where
  pub tools : List (String × (ServedFlow × Option ToolSafetyContract))
  pub side_effects : List SideEffectLevel

abbrev pub nothing_exposed : Exposed
nothing_exposed = record { tools = []; side_effects = [] }

-- A merge of contracts raises nothing.
abbrev pub built : Built → Option ToolSafetyContract
built (contract c) = some c
built review_conflict = none
built read_only_conflict = none

abbrev pub add_safety :
    Option ToolSafetyContract → Option (List ToolSafetyContract) → Option (List ToolSafetyContract)
add_safety none rest = none
add_safety (some safety) none = none
add_safety (some safety) (some rest) = some (safety ∷ rest)

abbrev pub declared : Option ServedTool → Option ToolSafetyContract
declared none = none
declared (some tool) = if tool.safety_declared then some tool.safety else none

abbrev pub tool_safety : (String → Option ServedTool) → Option String → Option ToolSafetyContract
tool_safety get_tool none = none
tool_safety get_tool (some name) = declared (get_tool name)

-- The loop over the steps; `none` where one has no declared safety.
unfoldable pub step_safeties :
    (String → Option ServedTool) → List (Option String) → Option (List ToolSafetyContract)
step_safeties get_tool [] = some []
step_safeties get_tool (name ∷ names) =
    add_safety (tool_safety get_tool name) (step_safeties get_tool names)

unfoldable pub merged_safety : Option (List ToolSafetyContract) → Option ToolSafetyContract
merged_safety none = none
merged_safety (some []) = none
merged_safety (some (c ∷ cs)) = built (merge_safety (c ∷ cs) none)

unfoldable pub explicit_or :
    Option ToolSafetyContract → Option ToolSafetyContract → Option ToolSafetyContract
explicit_or none derived = derived
explicit_or (some safety) derived = some safety

-- `_resolve_flow_safety`
unfoldable pub resolve_flow_safety :
    (String → Option ServedTool) → ServedFlow → Option ToolSafetyContract
unfolding step_safeties merged_safety explicit_or
resolve_flow_safety get_tool flow =
    explicit_or flow.safety (merged_safety (step_safeties get_tool flow.tool_names))

-- `latest_active` over the active flows; `newer` is the order of packaging's versions.
unfoldable pub latest_of :
    (String → String → Bool) → Dict ServedFlow → List ServedFlow → Dict ServedFlow
latest_of newer latest [] = latest
latest_of newer latest (flow ∷ flows) =
    let latest' : Dict ServedFlow = elim (lookup flow.name latest) [
      | none ↦ insert flow.name flow latest
      | some current ↦
          if newer flow.version current.version then insert flow.name flow latest else latest
    ] in
    latest_of newer latest' flows

-- Why a flow is left out, by the reasons of `_implicit_exclusion_reason` in their order.
pub data Exclusion : Type 0 where
  lifecycle_excluded owner_excluded safety_unknown side_effects_excluded approval_required :
      Exclusion

module _ (settings : Exposure) where
  abbrev pub is_owned : Option String → Bool
  is_owned owner = elim settings.owners [
    | none ↦ true
    | some owners ↦ (elim owner [ none ↦ false | some name ↦ contains name owners ])
  ]

  unfoldable pub safety_exclusion : Option ToolSafetyContract → Option Exclusion
  safety_exclusion none = some safety_unknown
  safety_exclusion (some safety) =
      if not (level_in safety.side_effects settings.allowed_side_effects)
      then some side_effects_excluded
      else if safety.requires_approval && not settings.allow_requires_approval
      then some approval_required
      else none

  -- `_implicit_exclusion_reason`
  unfoldable pub implicit_exclusion_reason :
      ServedFlow → Option ToolSafetyContract → Option Exclusion
  unfolding safety_exclusion
  implicit_exclusion_reason flow safety =
      if not (lifecycle_in flow.governance.lifecycle settings.allowed_lifecycles)
      then some lifecycle_excluded
      else if not (is_owned flow.governance.owner)
      then some owner_excluded
      else safety_exclusion safety

  abbrev pub mcp_name : ServedFlow → String
  mcp_name flow =
      if settings.server_prefix == ""
      then flow.name
      else append settings.server_prefix (append "__" flow.name)

  abbrev pub add_level : Option ToolSafetyContract → List SideEffectLevel → List SideEffectLevel
  add_level none levels = levels
  add_level (some safety) levels = safety.side_effects ∷ levels

  -- `_register_flow`; `none` is ValueError for a name that is there.
  unfoldable pub register_flow_tool :
      ServedFlow → Option ToolSafetyContract → Exposed → Option Exposed
  register_flow_tool flow safety exposed =
      if contains (mcp_name flow) (map (λ tool. tool.0) exposed.tools)
      then none
      else some (record {
        tools = (mcp_name flow, (flow, safety)) ∷ exposed.tools;
        side_effects = add_level safety exposed.side_effects;
      })

  -- `forced`
  abbrev pub is_forced : Bool
  is_forced = elim settings.flow_names [ none ↦ false | some names ↦ settings.force_expose ]

  unfoldable pub unless_excluded :
      Option Exclusion → ServedFlow → Option ToolSafetyContract → Exposed → Option Exposed
  unfolding register_flow_tool
  unless_excluded none flow safety exposed = register_flow_tool flow safety exposed
  unless_excluded (some reason) flow safety exposed = some exposed

  -- The body of `for flow in flows`.
  unfoldable pub expose_flow : ServedFlow → Option ToolSafetyContract → Exposed → Option Exposed
  unfolding unless_excluded implicit_exclusion_reason
  expose_flow flow safety exposed =
      if is_forced
      then register_flow_tool flow safety exposed
      else unless_excluded (implicit_exclusion_reason flow safety) flow safety exposed

  unfoldable pub expose_flows :
      (String → Option ServedTool) → List ServedFlow → Option Exposed → Option Exposed
  unfolding expose_flow resolve_flow_safety
  expose_flows get_tool flows none = none
  expose_flows get_tool [] (some exposed) = some exposed
  expose_flows get_tool (flow ∷ flows) (some exposed) =
      expose_flows get_tool flows (expose_flow flow (resolve_flow_safety get_tool flow) exposed)

  abbrev add_found : Option ServedFlow → Option (List ServedFlow) → Option (List ServedFlow)
  add_found none rest = none
  add_found (some flow) none = none
  add_found (some flow) (some rest) = some (flow ∷ rest)

  -- `[registry.get_flow(flow_name) for ...]`; `none` is FlowNotFoundError.
  unfoldable pub found_flows : (String → Option ServedFlow) → List String → Option (List ServedFlow)
  found_flows get_flow [] = some []
  found_flows get_flow (name ∷ names) = add_found (get_flow name) (found_flows get_flow names)

  unfoldable pub flows_to_expose :
      (newer : String → String → Bool)
      → (active : List ServedFlow) → (String → Option ServedFlow)
      → Option (List ServedFlow)
  unfolding found_flows latest_of
  flows_to_expose newer active get_flow = elim settings.flow_names [
    | none ↦ some (map (λ item. item.1) (latest_of newer [] active))
    | some names ↦ found_flows get_flow names
  ]

  abbrev pub expose_found : (String → Option ServedTool) → Option (List ServedFlow) → Option Exposed
  expose_found get_tool none = none
  expose_found get_tool (some flows) = expose_flows get_tool flows (some nothing_exposed)

  -- `_register_all_flows`, given the registry's active flows and lookup.
  unfoldable pub register_all_flows :
      (newer : String → String → Bool)
      → (active : List ServedFlow) → (String → Option ServedFlow)
      → (String → Option ServedTool)
      → Option Exposed
  unfolding flows_to_expose expose_flows
  register_all_flows newer active get_flow get_tool =
      expose_found get_tool (flows_to_expose newer active get_flow)
