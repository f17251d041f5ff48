-- ===== src/Registry/Mark.antt =====
-- What the replacement of a tool does to the flows: `register_tool` and `_handle_schema_drift` of
-- chainweaver/executor.py, over `list_flows` of chainweaver/registry.py. A tool stands as its schema
-- hash. `sorted` is Python's.
pub mod Marked
pub mod Listed
pub mod Replaced
pub mod Keyed
use chain_weaver.Common.{
  String, Bool, true, false, Option, none, some, List, [], ◌∷◌, ◌==◌, ◌&&◌, not, any, if◌then◌else◌,
}
use chain_weaver.Dict.{lookup, insert}
use chain_weaver.PairDict.{Key, PairDict, find}
use chain_weaver.Registry.{
  FlowStatus, active_status, needs_review, disabled, AnyFlow, Versions, Registry, Outcome, raises,
  gives, load_flow, update_flow_state,
}
use chain_weaver.Registry.Drift.{Hashes, recorded}

abbrev pub keys_of : PairDict AnyFlow → List Key
keys_of [] = []
keys_of ((key, flow) ∷ flows) = key ∷ keys_of flows

-- The value of a FlowStatus.
abbrev pub status_value : FlowStatus → String
status_value active_status = "active"
status_value needs_review = "needs_review"
status_value disabled = "disabled"

abbrev pub has_status : FlowStatus → FlowStatus → Bool
has_status status other = status_value other == status_value status

abbrev pub fits_status : Option FlowStatus → FlowStatus → Bool
fits_status none status = true
fits_status (some wanted) status = has_status wanted status

abbrev pub is_excluded : Option (List FlowStatus) → FlowStatus → Bool
is_excluded none status = false
is_excluded (some excluded) status = any (λ e. has_status e status) excluded

module _ (status : Option FlowStatus) (exclude_status : Option (List FlowStatus)) where
  abbrev pub add_flow : Outcome AnyFlow → Outcome (List AnyFlow) → Outcome (List AnyFlow)
  add_flow (raises e) rest = raises e
  add_flow (gives flow) (raises e) = raises e
  add_flow (gives flow) (gives rest) = gives (
      if fits_status status flow.status && not (is_excluded exclude_status flow.status)
      then flow ∷ rest
      else rest)

abbrev pub differs : String → Option String → Bool
differs schema_hash none = false
differs schema_hash (some expected) = not (expected == schema_hash)

-- The flow has recorded another hash of the tool.
unfoldable pub is_stale : String → String → AnyFlow → Bool
is_stale tool_name schema_hash flow =
    differs schema_hash (recorded tool_name flow.tool_schema_hashes)

-- An exception ends the loop.
unfoldable pub unless_raised :
    Outcome AnyFlow → Outcome Unit × Registry → Registry → Outcome Unit × Registry
unless_raised (raises e) rest reg = (raises e, reg)
unless_raised (gives flow) rest reg = rest

unfoldable pub after_marking :
    String → String → Hashes → Outcome Unit × Registry → Outcome Unit × (Hashes × Registry)
after_marking name schema_hash tools (raises e, reg) = (raises e, (tools, reg))
after_marking name schema_hash tools (gives u, reg) =
    (gives tt, (insert name schema_hash tools, reg))

module _ (versions : Versions) where
  unfoldable pub list_from :
      Option FlowStatus
      → Option (List FlowStatus)
      → List Key
      → PairDict AnyFlow
      → Outcome (List AnyFlow)
  list_from status exclude_status [] flows = gives []
  list_from status exclude_status (key ∷ keys) flows =
      add_flow status exclude_status (load_flow versions key.0 (find key flows))
        (list_from status exclude_status keys flows)

  -- The body of the loop of `_handle_schema_drift`.
  unfoldable pub mark_flow : String → String → AnyFlow → Registry → Outcome AnyFlow × Registry
  unfolding is_stale
  mark_flow tool_name schema_hash flow reg =
      if is_stale tool_name schema_hash flow
      then update_flow_state versions flow.name (some flow.version) (some needs_review) none reg
      else (gives flow, reg)

  unfoldable pub mark_each : String → String → List AnyFlow → Registry → Outcome Unit × Registry
  unfolding mark_flow unless_raised
  mark_each tool_name schema_hash [] reg = (gives tt, reg)
  mark_each tool_name schema_hash (flow ∷ flows) reg =
      let out = mark_flow tool_name schema_hash flow reg in
      let rest = mark_each tool_name schema_hash flows out.1 in unless_raised out.0 rest out.1

  module _ (sorted : List Key → List Key) where
    -- `list_flows`
    unfoldable pub list_flows :
        Option FlowStatus → Option (List FlowStatus) → PairDict AnyFlow → Outcome (List AnyFlow)
    unfolding list_from
    list_flows status exclude_status flows =
        list_from status exclude_status (sorted (keys_of flows)) flows

    unfoldable pub mark_listed :
        String → String → Outcome (List AnyFlow) → Registry → Outcome Unit × Registry
    unfolding mark_each
    mark_listed tool_name schema_hash (raises e) reg = (raises e, reg)
    mark_listed tool_name schema_hash (gives flows) reg = mark_each tool_name schema_hash flows reg

    -- `_handle_schema_drift`
    unfoldable pub handle_schema_drift : String → String → Registry → Outcome Unit × Registry
    unfolding mark_listed list_flows
    handle_schema_drift tool_name schema_hash reg =
        mark_listed tool_name schema_hash (list_flows none none reg.flows) reg

    unfoldable pub if_changed : String → String → Option String → Registry → Outcome Unit × Registry
    unfolding handle_schema_drift
    if_changed name schema_hash old reg =
        if differs schema_hash old
        then handle_schema_drift name schema_hash reg
        else (gives tt, reg)

    -- `register_tool`
    unfoldable pub register_tool :
        String → String → Hashes → Registry → Outcome Unit × (Hashes × Registry)
    unfolding if_changed after_marking
    register_tool name schema_hash tools reg =
        after_marking name schema_hash tools (if_changed name schema_hash (lookup name tools) reg)
