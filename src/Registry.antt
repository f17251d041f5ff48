-- ===== src/Registry.antt =====
-- FlowRegistry of chainweaver/registry.py over InMemoryStore of chainweaver/storage.py. The versions
-- are those of packaging: whether a text is one, and whether one is at least another.
pub mod Latest
pub mod Drift
pub mod Mark
mod Tests
use chain_weaver.Common.{
  String, Bool, true, false, Option, none, some, List, [], ◌∷◌, ◌&&◌, not, if◌then◌else◌,
}
use chain_weaver.Dict.{Dict, lookup, insert}
use chain_weaver.PairDict.{Key, PairDict, find, is_found, store}
use chain_weaver.Dag.Levels.{Sorter}
use chain_weaver.Dag.Topology.{DagStep, DagError, validate_dag_topology}

-- FlowStatus
pub data FlowStatus : Type 0 where
  active_status needs_review disabled : FlowStatus

-- What drift detection reads of a step: `tool_name`, and `display_name`, the name of the tool or of
-- the sub-flow.
pub record StepNames : Type 0 where
  pub tool_name : Option String
  pub display_name : String

-- What the registry reads and writes of a flow; only a DAGFlow has DAG steps.
pub record AnyFlow : Type 0 where
  pub name : String
  pub version : String
  pub status : FlowStatus
  pub tool_schema_hashes : Option (Dict String)
  pub step_names : List StepNames
  pub dag_steps : Option (List DagStep)

pub record Versions : Type 0 where
  pub is_version : String → Bool
  pub at_least : String → String → Bool

-- `_flows` of the store and `_latest` of the registry.
pub record Registry : Type 0 where
  pub flows : PairDict AnyFlow
  pub latest : Dict String

abbrev pub empty_registry : Registry
empty_registry = record { flows = []; latest = [] }

-- InvalidFlowVersionError, DAGDefinitionError, FlowAlreadyExistsError and FlowNotFoundError.
pub data RegistryError : Type 0 where
  invalid_flow_version : (name version : String) → RegistryError
  invalid_dag : DagError → RegistryError
  flow_already_exists : (name : String) → RegistryError
  flow_not_registered : (name : String) → RegistryError

-- A call that may raise, with the registry after it.
pub data Outcome (A : Type 0) : Type 0 where
  raises : RegistryError → Outcome A
  gives : A → Outcome A

abbrev pub flow_key : AnyFlow → Key
flow_key flow = (flow.name, flow.version)

-- `InMemoryStore.save_flow`; `none` is FlowAlreadyExistsError.
unfoldable pub save_flow : AnyFlow → Bool → PairDict AnyFlow → Option (PairDict AnyFlow)
save_flow flow overwrite flows =
    if is_found (find (flow_key flow) flows) && not overwrite
    then none
    else some (store (flow_key flow) flow flows)

-- A call that changes the registry.
pub data Call : Type 0 where
  register : Sorter → AnyFlow → Bool → Call
  update_state : String → Option String → Option FlowStatus → Option (Option (Dict String)) → Call

module _ (versions : Versions) where
  abbrev pub is_newer : String → Option String → Bool
  is_newer version none = true
  is_newer version (some current) = versions.at_least version current

  -- `_touch_latest`, of a version that is one. The version that is there has been parsed before.
  unfoldable pub touch_latest : String → String → Dict String → Dict String
  touch_latest name version latest =
      if is_newer version (lookup name latest) then insert name version latest else latest

  -- `__init__`: the pointers are rebuilt from the keys of the store.
  unfoldable pub rebuild_latest : List Key → Dict String → Dict String
  unfolding touch_latest
  rebuild_latest [] latest = latest
  rebuild_latest ((name, version) ∷ keys) latest =
      rebuild_latest keys (touch_latest name version latest)

  unfoldable pub after_save :
      AnyFlow → Option (PairDict AnyFlow) → Registry → Outcome AnyFlow × Registry
  unfolding touch_latest
  after_save flow none reg = (raises (flow_already_exists flow.name), reg)
  after_save flow (some flows) reg = (
    gives flow,
    record { flows = flows; latest = touch_latest flow.name flow.version reg.latest },
  )

  abbrev pub dag_error : Sorter → Option (List DagStep) → Option DagError
  dag_error static_order none = none
  dag_error static_order (some steps) = validate_dag_topology static_order steps

  unfoldable pub unless_invalid :
      Option DagError → Outcome AnyFlow × Registry → Registry → Outcome AnyFlow × Registry
  unless_invalid none after reg = after
  unless_invalid (some e) after reg = (raises (invalid_dag e), reg)

  -- `register_flow`
  unfoldable pub register_flow : Sorter → AnyFlow → Bool → Registry → Outcome AnyFlow × Registry
  unfolding after_save unless_invalid save_flow
  register_flow static_order flow overwrite reg =
      if versions.is_version flow.version
      then unless_invalid (dag_error static_order flow.dag_steps)
          (after_save flow (save_flow flow overwrite reg.flows) reg) reg
      else (raises (invalid_flow_version flow.name flow.version), reg)

  -- `InMemoryStore.load_flow`
  abbrev pub load_flow : String → Option AnyFlow → Outcome AnyFlow
  load_flow name none = raises (flow_not_registered name)
  load_flow name (some flow) = gives flow

  abbrev pub load_version : Registry → String → Option String → Outcome AnyFlow
  load_version reg name none = raises (flow_not_registered name)
  load_version reg name (some version) = load_flow name (find (name, version) reg.flows)

  -- `version`, or the latest one.
  abbrev pub or_latest : Registry → String → Option String → Option String
  or_latest reg name none = lookup name reg.latest
  or_latest reg name (some version) = some version

  -- `get_flow`
  unfoldable pub get_flow : Registry → String → Option String → Outcome AnyFlow
  get_flow reg name version = load_version reg name (or_latest reg name version)

  abbrev pub with_status : Option FlowStatus → AnyFlow → AnyFlow
  with_status none flow = flow
  with_status (some status) flow = record flow { status = status }

  -- `none` is _UNSET.
  abbrev pub with_hashes : Option (Option (Dict String)) → AnyFlow → AnyFlow
  with_hashes none flow = flow
  with_hashes (some hashes) flow = record flow { tool_schema_hashes = hashes }

  abbrev pub is_update : Option FlowStatus → Option (Option (Dict String)) → Bool
  is_update none none = false
  is_update none (some hashes) = true
  is_update (some status) hashes = true

  unfoldable pub update_found :
      Option FlowStatus
      → Option (Option (Dict String))
      → Outcome AnyFlow
      → Registry
      → Outcome AnyFlow × Registry
  unfolding after_save save_flow
  update_found status hashes (raises e) reg = (raises e, reg)
  update_found status hashes (gives flow) reg =
      let new_flow = with_hashes hashes (with_status status flow) in
      if is_update status hashes
      then after_save new_flow (save_flow new_flow true reg.flows) reg
      else (gives flow, reg)

  -- `update_flow_state`
  unfoldable pub update_flow_state :
      String
      → Option String
      → Option FlowStatus
      → Option (Option (Dict String))
      → Registry
      → Outcome AnyFlow × Registry
  unfolding update_found get_flow
  update_flow_state name version status hashes reg =
      update_found status hashes (get_flow reg name version) reg

  unfoldable pub perform : Call → Registry → Outcome AnyFlow × Registry
  unfolding register_flow update_flow_state
  perform (register static_order flow overwrite) reg = register_flow static_order flow overwrite reg
  perform (update_state name version status hashes) reg =
      update_flow_state name version status hashes reg

  -- The registry after calls, whether they raise or not.
  unfoldable pub after_calls : List Call → Registry → Registry
  unfolding perform
  after_calls [] reg = reg
  after_calls (call ∷ calls) reg = after_calls calls (perform call reg).1
