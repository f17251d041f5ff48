-- ===== src/Registry/Drift.antt =====
-- Schema drift: `check_flow_compatibility` of chainweaver/compat.py, and the drift report and its
-- acceptance of chainweaver/executor.py. A registered tool stands as its schema hash.
pub mod Accepted
pub mod Settled
use chain_weaver.Common.{
  ℕ, suc, String, Bool, true, false, Option, none, some, List, [], ◌∷◌, ◌++◌, ◌==◌, if◌then◌else◌,
}
use chain_weaver.Dict.{Dict, lookup, insert}
use chain_weaver.Registry.{
  StepNames, AnyFlow, active_status, needs_review, Versions, Registry, Outcome, raises, gives,
  get_flow, update_flow_state,
}

abbrev pub Hashes : Type 0
Hashes = Dict String

pub data IssueType : Type 0 where
  missing_tool : IssueType
  schema_mismatch : (expected actual : String) → IssueType

pub record CompatibilityIssue : Type 0 where
  pub flow_name : String
  pub step_index : ℕ
  pub tool_name : String
  pub issue_type : IssueType

pub record DriftInfo : Type 0 where
  pub flow_name : String
  pub tool_name : String
  pub expected_hash : String
  pub actual_hash : String

abbrev pub recorded : String → Option Hashes → Option String
recorded tool_name none = none
recorded tool_name (some hashes) = lookup tool_name hashes

module _ (flow_name : String) (tools : Hashes) (hashes : Option Hashes) where
  abbrev issue : ℕ → String → IssueType → CompatibilityIssue
  issue i tool_name issue_type = record {
    flow_name = flow_name;
    step_index = i;
    tool_name = tool_name;
    issue_type = issue_type;
  }

  -- The comparison of a tool's hash with the recorded one, if there is any.
  unfoldable pub mismatch : ℕ → String → (actual : String) → Option String → List CompatibilityIssue
  mismatch i tool_name actual none = []
  mismatch i tool_name actual (some expected) =
      if expected == actual then [] else issue i tool_name (schema_mismatch expected actual) ∷ []

  unfoldable pub step_issues : ℕ → String → Option String → List CompatibilityIssue
  unfolding mismatch
  step_issues i tool_name none = issue i tool_name missing_tool ∷ []
  step_issues i tool_name (some actual) = mismatch i tool_name actual (recorded tool_name hashes)

  abbrev pub tool_issues : ℕ → Option String → List CompatibilityIssue
  tool_issues i none = []
  tool_issues i (some tool_name) = step_issues i tool_name (lookup tool_name tools)

  -- `for idx, step in enumerate(flow.steps)`
  unfoldable pub issues_from : ℕ → List StepNames → List CompatibilityIssue
  unfolding step_issues
  issues_from i [] = []
  issues_from i (step ∷ steps) = tool_issues i step.tool_name ++ issues_from (suc i) steps

unfoldable pub check_flow_compatibility : AnyFlow → Hashes → List CompatibilityIssue
unfolding issues_from
check_flow_compatibility flow tools =
    issues_from flow.name tools flow.tool_schema_hashes 0 flow.step_names

module _ (tools : Hashes) where
  abbrev pub drift_info : String → String → String → Option String → List DriftInfo
  drift_info flow_name tool_name expected none = []
  drift_info flow_name tool_name expected (some actual) =
      if expected == actual
      then []
      else record {
        flow_name = flow_name;
        tool_name = tool_name;
        expected_hash = expected;
        actual_hash = actual;
      }
        ∷ []

  -- `for tool_name, expected_hash in flow.tool_schema_hashes.items()`
  unfoldable pub drift_from : String → Hashes → List DriftInfo
  drift_from flow_name [] = []
  drift_from flow_name ((tool_name, expected) ∷ hashes) =
      drift_info flow_name tool_name expected (lookup tool_name tools)
      ++ drift_from flow_name hashes

  abbrev pub flow_drift : String → Option Hashes → List DriftInfo
  flow_drift flow_name none = []
  flow_drift flow_name (some hashes) = drift_from flow_name hashes

  -- `get_drift_report`, over the flows that `list_flows` gives.
  unfoldable pub get_drift_report : List AnyFlow → List DriftInfo
  unfolding drift_from
  get_drift_report [] = []
  get_drift_report (flow ∷ flows) =
      flow_drift flow.name flow.tool_schema_hashes ++ get_drift_report flows

  abbrev pub add_hash : String → Option String → Hashes → Hashes
  add_hash name none hashes = hashes
  add_hash name (some hash) hashes = insert name hash hashes

  -- The new snapshot of the hashes.
  unfoldable pub new_hashes : Hashes → List StepNames → Hashes
  new_hashes hashes [] = hashes
  new_hashes hashes (step ∷ steps) =
      new_hashes (add_hash step.display_name (lookup step.display_name tools) hashes) steps

  module _ (versions : Versions) where
    unfoldable pub accept_found :
        String → Option String → Outcome AnyFlow → Registry → Outcome AnyFlow × Registry
    unfolding new_hashes
    accept_found name version (raises e) reg = (raises e, reg)
    accept_found name version (gives flow) reg =
        update_flow_state versions name version (some active_status)
          (some (some (new_hashes [] flow.step_names))) reg

    -- `accept_drift`
    unfoldable pub accept_drift : String → Option String → Registry → Outcome AnyFlow × Registry
    unfolding accept_found
    accept_drift name version reg =
        accept_found name version (get_flow versions reg name version) reg
