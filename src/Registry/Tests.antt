-- ===== src/Registry/Tests.antt =====
-- The theorems on the registry and on drift at two versions of a flow, of which the older is
-- registered last.
use chain_weaver.Common.{
  ℕ, String, false, none, some, List, [], ◌∷◌, ◌≡◌, refl, inl, inr, arith, ◌==◌, ◌||◌, leb, ◌↔◌,
  All, Bool-cases, if◌then◌else◌,
}
use chain_weaver.Dict.{lookup, insert}
use chain_weaver.PairDict.{Key, find, store}
use chain_weaver.Dag.Levels.{Sorter}
use chain_weaver.Registry.{
  active_status, needs_review, disabled, AnyFlow, Versions, empty_registry, Call, register,
  update_state, gives, save_flow, touch_latest, after_save, unless_invalid, register_flow, get_flow,
  update_found, update_flow_state, perform, after_calls,
}
use chain_weaver.Registry.Latest.{IsOrdered}
use chain_weaver.Registry.Latest.Calls.{IsNewest, get_flow-IsNewest}
use chain_weaver.Registry.Drift.{Hashes, check_flow_compatibility, accept_drift}
use chain_weaver.Registry.Drift.Accepted.{IsCompatible, check_flow_compatibility_iff}
use chain_weaver.Registry.Mark.{register_tool}
use chain_weaver.Registry.Mark.Listed.{IsSorting}
use chain_weaver.Registry.Mark.Replaced.{IsReplaced, register_tool-IsReplaced}
use chain_weaver.Registry.Drift.Settled.{IsSettled, accept_drift-IsSettled}

abbrev rank : String → ℕ
rank version = if version == "2.0" then 2 else 1

abbrev simple : Versions
simple = record {
  is_version = λ v. (v == "1.0") || (v == "2.0");
  at_least = λ v w. leb (rank w) (rank v);
}

simple-IsOrdered : IsOrdered simple
simple-IsOrdered = record {
  total = λ v w a b. elim (Bool-cases (leb (rank w) (rank v))) [
    | inl le ↦ inl le
    | inr gt ↦ inr (ground (arith, gt))
  ];
  transitive = λ u v w a b. ground (arith, a, b);
}

abbrev version_of : String → AnyFlow
version_of version = record {
  name = "sync";
  version = version;
  status = active_status;
  tool_schema_hashes = none;
  step_names = record { tool_name = some "fetch"; display_name = "fetch" } ∷ [];
  dag_steps = none;
}

abbrev unsorted : Sorter
unsorted graph = some []

abbrev history : List Call
history =
    register unsorted (version_of "2.0") false
    ∷ register unsorted (version_of "1.0") false
    ∷ register unsorted (version_of "1.0") false
    ∷ update_state "sync" (some "1.0") (some disabled) none
    ∷ []

runs :
    get_flow simple (after_calls simple history empty_registry) "sync" none
    ≡ gives (version_of "2.0")
unfolding after_calls perform register_flow update_flow_state update_found get_flow unless_invalid
    after_save touch_latest save_flow find store lookup insert
runs = refl

get_flow-IsNewest_example :
    IsNewest simple simple-IsOrdered
      (after_calls simple history empty_registry)
      "sync"
      (get_flow simple (after_calls simple history empty_registry) "sync" none)
get_flow-IsNewest_example = get_flow-IsNewest simple simple-IsOrdered history "sync"

-- The flow as it has recorded an older hash of its tool.
abbrev drifted : AnyFlow
drifted = record (version_of "1.0") {
  status = needs_review;
  tool_schema_hashes = some (("fetch", "old") ∷ []);
}

abbrev tools_now : Hashes
tools_now = ("fetch", "new") ∷ []

check_flow_compatibility_iff_example :
    (check_flow_compatibility drifted tools_now ≡ [])
    ↔ All
        (λ step. IsCompatible tools_now drifted.tool_schema_hashes step.tool_name)
        drifted.step_names
check_flow_compatibility_iff_example = check_flow_compatibility_iff drifted tools_now

abbrev with_drift : List Call
with_drift = register unsorted drifted false ∷ []

drifted_found :
    get_flow simple (after_calls simple with_drift empty_registry) "sync" none ≡ gives drifted
unfolding after_calls perform register_flow get_flow unless_invalid after_save touch_latest
    save_flow find store lookup insert
drifted_found = refl

accept_drift-IsSettled_example :
    IsSettled tools_now drifted
      (accept_drift tools_now simple "sync" none (after_calls simple with_drift empty_registry))
accept_drift-IsSettled_example =
    accept_drift-IsSettled tools_now simple "sync" none
      (after_calls simple with_drift empty_registry) drifted drifted_found

abbrev as_given : List Key → List Key
as_given keys = keys

as_given-IsSorting : IsSorting as_given
as_given-IsSorting = record { same_elements = λ test keys. refl }

register_tool-IsReplaced_example :
    IsReplaced simple "fetch" "newer" as_given as_given-IsSorting tools_now
      (after_calls simple with_drift empty_registry).flows
      (register_tool simple as_given "fetch" "newer" tools_now
        (after_calls simple with_drift empty_registry))
register_tool-IsReplaced_example =
    register_tool-IsReplaced simple "fetch" "newer" as_given as_given-IsSorting tools_now with_drift
