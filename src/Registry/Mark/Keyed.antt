-- ===== src/Registry/Mark/Keyed.antt =====
-- That the registry keeps each flow under its name and version.
use chain_weaver.Common.{
  String, Bool, true, false, Option, none, some, List, [], ◌∷◌, ◌≡◌, refl, sym, ap, ◌∙◌, inl, inr,
  arith, ◌&&◌, not, Bool-cases, if◌then◌else◌,
}
use chain_weaver.Dict.{Dict}
use chain_weaver.Dag.Levels.{Sorter}
use chain_weaver.Dag.Topology.{DagError}
use chain_weaver.PairDict.{Key, key_eq, PairDict, find, is_found, store}
use chain_weaver.PairDict.Laws.{find-store, key_eq_iff}
use chain_weaver.Registry.{
  FlowStatus, AnyFlow, Versions, Registry, empty_registry, Outcome, raises, gives, flow_key,
  save_flow, after_save, unless_invalid, register_flow, get_flow, is_update, update_found,
  update_flow_state, Call, register, update_state, perform, after_calls,
}
use chain_weaver.Registry.Mark.Marked.{IsKeyed}

store-IsKeyed :
    (flow : AnyFlow) (flows : PairDict AnyFlow)
    → IsKeyed flows
    → IsKeyed (store (flow_key flow) flow flows)
store-IsKeyed flow flows keyed k g found =
    let e = sym (find-store (flow_key flow) k flow flows) ∙ found in
    elim (Bool-cases (key_eq (flow_key flow) k)) [
      | inl same ↦ sym (ap (key_or k) (sym (on same) ∙ e)) ∙ key_eq_iff (flow_key flow) k same
      | inr other ↦ keyed k g (sym (off other) ∙ e)
    ]
  where
    key_or : Key → Option AnyFlow → Key
    key_or j none = j
    key_or j (some h) = flow_key h

    on :
        key_eq (flow_key flow) k ≡ true
        → (if key_eq (flow_key flow) k then some flow else find k flows) ≡ some flow
    on same = simp same refl

    off :
        key_eq (flow_key flow) k ≡ false
        → (if key_eq (flow_key flow) k then some flow else find k flows) ≡ find k flows
    off other = simp other refl

module _ (versions : Versions) where
  after_save-IsKeyed :
      (flow : AnyFlow) (overwrite : Bool) (reg : Registry)
      → IsKeyed reg.flows
      → IsKeyed (after_save versions flow (save_flow flow overwrite reg.flows) reg).1.flows
  unfolding after_save save_flow
  after_save-IsKeyed flow overwrite reg keyed =
      elim (Bool-cases (is_found (find (flow_key flow) reg.flows) && not overwrite)) [
        | inl taken ↦ simp taken keyed
        | inr free ↦ simp free (store-IsKeyed flow reg.flows keyed)
      ]

  unless_invalid-IsKeyed :
      (error : Option DagError) (after : Outcome AnyFlow × Registry) (reg : Registry)
      → IsKeyed reg.flows
      → IsKeyed after.1.flows
      → IsKeyed (unless_invalid versions error after reg).1.flows
  unfolding unless_invalid
  unless_invalid-IsKeyed none after reg keyed keyed' = keyed'
  unless_invalid-IsKeyed (some e) after reg keyed keyed' = keyed

  register_flow-IsKeyed :
      (static_order : Sorter) (flow : AnyFlow) (overwrite : Bool) (reg : Registry)
      → IsKeyed reg.flows
      → IsKeyed (register_flow versions static_order flow overwrite reg).1.flows
  unfolding register_flow
  register_flow-IsKeyed static_order flow overwrite reg keyed =
      elim (Bool-cases (versions.is_version flow.version)) [
        | inl valid ↦
            simp valid
              (unless_invalid-IsKeyed _ _ reg keyed (after_save-IsKeyed flow overwrite reg keyed))
        | inr invalid ↦ simp invalid keyed
      ]

  update_found-IsKeyed :
      (status : Option FlowStatus) (hashes : Option (Option (Dict String)))
      (found : Outcome AnyFlow) (reg : Registry)
      → IsKeyed reg.flows
      → IsKeyed (update_found versions status hashes found reg).1.flows
  unfolding update_found
  update_found-IsKeyed status hashes (raises e) reg keyed = keyed
  update_found-IsKeyed status hashes (gives flow) reg keyed =
      elim (Bool-cases (is_update versions status hashes)) [
        | inl update ↦ simp update (after_save-IsKeyed _ true reg keyed)
        | inr unchanged ↦ simp unchanged keyed
      ]

  perform-IsKeyed :
      (call : Call) (reg : Registry)
      → IsKeyed reg.flows
      → IsKeyed (perform versions call reg).1.flows
  unfolding perform update_flow_state
  perform-IsKeyed (register static_order flow overwrite) reg keyed =
      register_flow-IsKeyed static_order flow overwrite reg keyed
  perform-IsKeyed (update_state name version status hashes) reg keyed =
      update_found-IsKeyed status hashes (get_flow versions reg name version) reg keyed

  pub after_calls-IsKeyed :
      (calls : List Call) (reg : Registry)
      → IsKeyed reg.flows
      → IsKeyed (after_calls versions calls reg).flows
  unfolding after_calls
  after_calls-IsKeyed [] reg keyed = keyed
  after_calls-IsKeyed (call ∷ calls) reg keyed =
      after_calls-IsKeyed calls (perform versions call reg).1 (perform-IsKeyed call reg keyed)

  empty_registry-IsKeyed : IsKeyed empty_registry.flows
  unfolding find
  empty_registry-IsKeyed k flow found = absurd (ground (arith, ap is_found found))

  -- A registry that has only been called, from the empty one on.
  pub called-IsKeyed :
      (calls : List Call) → IsKeyed (after_calls versions calls empty_registry).flows
  called-IsKeyed calls = after_calls-IsKeyed calls empty_registry empty_registry-IsKeyed
