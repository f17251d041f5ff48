-- ===== src/Registry/Latest/Calls.antt =====
-- The calls of a registry keep its latest versions.
use chain_weaver.Common.{
  String, Bool, true, false, Option, none, some, List, [], ◌∷◌, ◌≡◌, refl, sym, ap, subst, ◌∙◌, inl,
  inr, arith, ◌==◌, ◌&&◌, not, eq_iff, eq_refl, Bool-cases, Option-cases,
}
use chain_weaver.Dict.{Dict, lookup}
use chain_weaver.Dict.Laws.{lookup-insert}
use chain_weaver.PairDict.{find, is_found, store}
use chain_weaver.PairDict.Laws.{find-store}
use chain_weaver.Dag.Levels.{Sorter}
use chain_weaver.Dag.Topology.{DagError}
use chain_weaver.Registry.{
  FlowStatus, AnyFlow, Versions, Registry, empty_registry, Outcome, raises, gives,
  flow_not_registered, flow_key, save_flow, is_newer, touch_latest, after_save, unless_invalid,
  register_flow, load_version, get_flow, with_status, with_hashes, is_update, update_found,
  update_flow_state, Call, register, update_state, perform, after_calls,
}
use chain_weaver.Registry.Latest.{IsOrdered, IsLatest, touched, saved, saved-IsLatest}

module _ (versions : Versions) where
  -- The registry's pointers are right for every name.
  abbrev pub IsIndexed : Registry → Type 0
  IsIndexed reg =
      (name : String)
      → IsLatest versions name (lookup name reg.latest) (λ v. find (name, v) reg.flows)

  empty_registry-IsIndexed : IsIndexed empty_registry
  unfolding lookup find
  empty_registry-IsIndexed name = record {
    named = λ v flow e. ground (arith, e);
    newest = λ v flow e. ground (arith, e);
    stored = λ l e. ground (arith, e);
  }

  -- The same property of pointwise equal flows.
  IsLatest-same :
      (name : String) (latest latest' : Option String) (at at' : String → Option AnyFlow)
      → latest ≡ latest'
      → ((v : String) → at v ≡ at' v)
      → IsLatest versions name latest at
      → IsLatest versions name latest' at'
  IsLatest-same name latest latest' at at' same pointwise fine =
      subst {A = Option String × (String → Option AnyFlow)} (λ p. IsLatest versions name p.0 p.1)
        (λ i. (same i, λ v. pointwise v i)) fine

  module _ (ordered : IsOrdered versions) where
    stored-IsIndexed :
        (flow : AnyFlow) (reg : Registry)
        → versions.is_version flow.version ≡ true
        → IsIndexed reg
        → IsIndexed (record {
          flows = store (flow_key flow) flow reg.flows;
          latest = touch_latest versions flow.name flow.version reg.latest;
        })
    unfolding touch_latest
    stored-IsIndexed flow reg valid fine name = elim (Bool-cases (flow.name == name)) [
      | inl same ↦
          subst
            (λ n.
              IsLatest versions n
                (lookup n (touch_latest versions flow.name flow.version reg.latest))
                (λ v. find (n, v) (store (flow_key flow) flow reg.flows)))
            ((eq_iff flow.name name).0 same)
            (IsLatest-same flow.name _ _ _ _ (latest_here flow reg) (flows_here flow reg)
              (saved-IsLatest versions ordered flow valid _ _ (fine flow.name)))
      | inr other ↦
          IsLatest-same name _ _ _ _ (latest_there flow reg name other)
            (flows_there flow reg name other) (fine name)
    ]
      where
        latest_here :
            (flow : AnyFlow) (reg : Registry)
            → touched versions flow.version (lookup flow.name reg.latest)
              ≡ lookup flow.name (touch_latest versions flow.name flow.version reg.latest)
        latest_here flow reg =
            elim (Bool-cases (is_newer versions flow.version (lookup flow.name reg.latest))) [
              | inl newer ↦
                  simp
                    (
                      newer,
                      lookup-insert flow.name flow.name flow.version reg.latest,
                      eq_refl flow.name,
                    )
                    refl
              | inr older ↦ simp older refl
            ]

        flows_here :
            (flow : AnyFlow) (reg : Registry) (v : String)
            → saved versions flow (λ w. find (flow.name, w) reg.flows) v
              ≡ find (flow.name, v) (store (flow_key flow) flow reg.flows)
        flows_here flow reg v =
            simp (find-store (flow_key flow) (flow.name, v) flow reg.flows, eq_refl flow.name) refl

        latest_there :
            (flow : AnyFlow) (reg : Registry) (name : String)
            → (flow.name == name) ≡ false
            → lookup name reg.latest
              ≡ lookup name (touch_latest versions flow.name flow.version reg.latest)
        latest_there flow reg name other =
            elim (Bool-cases (is_newer versions flow.version (lookup flow.name reg.latest))) [
              | inl newer ↦
                  simp (newer, lookup-insert flow.name name flow.version reg.latest, other) refl
              | inr older ↦ simp older refl
            ]

        flows_there :
            (flow : AnyFlow) (reg : Registry) (name : String)
            → (flow.name == name) ≡ false
            → (v : String)
            → find (name, v) reg.flows ≡ find (name, v) (store (flow_key flow) flow reg.flows)
        flows_there flow reg name other v =
            simp (find-store (flow_key flow) (name, v) flow reg.flows, other) refl

    -- The registry after a call.
    abbrev Keeps : Outcome AnyFlow × Registry → Type 0
    Keeps out = IsIndexed out.1

    after_save-IsIndexed :
        (flow : AnyFlow) (overwrite : Bool) (reg : Registry)
        → versions.is_version flow.version ≡ true
        → IsIndexed reg
        → Keeps (after_save versions flow (save_flow flow overwrite reg.flows) reg)
    unfolding after_save save_flow
    after_save-IsIndexed flow overwrite reg valid fine =
        elim (Bool-cases (is_found (find (flow_key flow) reg.flows) && not overwrite)) [
          | inl there ↦ simp there fine
          | inr free ↦ simp free (stored-IsIndexed flow reg valid fine)
        ]

    unless_invalid-IsIndexed :
        (e : Option DagError) (after : Outcome AnyFlow × Registry) (reg : Registry)
        → Keeps after
        → IsIndexed reg
        → Keeps (unless_invalid versions e after reg)
    unfolding unless_invalid
    unless_invalid-IsIndexed none after reg kept fine = kept
    unless_invalid-IsIndexed (some e) after reg kept fine = fine

    register_flow-IsIndexed :
        (static_order : Sorter) (flow : AnyFlow) (overwrite : Bool) (reg : Registry)
        → IsIndexed reg
        → Keeps (register_flow versions static_order flow overwrite reg)
    unfolding register_flow
    register_flow-IsIndexed static_order flow overwrite reg fine =
        elim (Bool-cases (versions.is_version flow.version)) [
          | inl valid ↦ simp valid (
              unless_invalid-IsIndexed _ _ reg (after_save-IsIndexed flow overwrite reg valid fine)
                fine)
          | inr invalid ↦ simp invalid fine
        ]

    -- A flow that is found is one that is stored.
    abbrev IsFound : Registry → Outcome AnyFlow → Type 0
    IsFound reg (raises e) = Unit
    IsFound reg (gives flow) =
        (name : String) × (version : String) × (find (name, version) reg.flows ≡ some flow)

    load_version-IsFound :
        (reg : Registry) (name : String) (version : Option String)
        → IsFound reg (load_version versions reg name version)
    load_version-IsFound reg name none = tt
    load_version-IsFound reg name (some version) =
        elim (Option-cases (find (name, version) reg.flows)) [
          | inl missing ↦ simp missing tt
          | inr (flow, there) ↦ simp there (name, version, there)
        ]

    with_status-version :
        (status : Option FlowStatus) (flow : AnyFlow)
        → (with_status versions status flow).version ≡ flow.version
    with_status-version none flow = refl
    with_status-version (some status) flow = refl

    with_hashes-version :
        (hashes : Option (Option (Dict String))) (flow : AnyFlow)
        → (with_hashes versions hashes flow).version ≡ flow.version
    with_hashes-version none flow = refl
    with_hashes-version (some hashes) flow = refl

    update_found-IsIndexed :
        (status : Option FlowStatus) (hashes : Option (Option (Dict String)))
        (found : Outcome AnyFlow) (reg : Registry)
        → IsFound reg found
        → IsIndexed reg
        → Keeps (update_found versions status hashes found reg)
    unfolding update_found
    update_found-IsIndexed status hashes (raises e) reg there fine = fine
    update_found-IsIndexed status hashes (gives flow) reg (name, version, there) fine =
        let (named, same, valid) = (fine name).named version flow there in
        elim (Bool-cases (is_update versions status hashes)) [
          | inl changes ↦ simp changes (
              after_save-IsIndexed (with_hashes versions hashes (with_status versions status flow))
                true reg
                (subst (λ v. versions.is_version v ≡ true)
                  (sym (
                    with_hashes-version hashes (with_status versions status flow)
                    ∙ with_status-version status flow
                    ∙ same))
                  valid)
                fine)
          | inr nothing ↦ simp nothing fine
        ]

    perform-IsIndexed :
        (call : Call) (reg : Registry) → IsIndexed reg → Keeps (perform versions call reg)
    unfolding perform update_flow_state get_flow
    perform-IsIndexed (register static_order flow overwrite) reg fine =
        register_flow-IsIndexed static_order flow overwrite reg fine
    perform-IsIndexed (update_state name version status hashes) reg fine =
        update_found-IsIndexed status hashes _ reg (load_version-IsFound reg name _) fine

    after_calls-IsIndexed :
        (calls : List Call) (reg : Registry)
        → IsIndexed reg
        → IsIndexed (after_calls versions calls reg)
    unfolding after_calls
    after_calls-IsIndexed [] reg fine = fine
    after_calls-IsIndexed (call ∷ calls) reg fine =
        after_calls-IsIndexed calls _ (perform-IsIndexed call reg fine)

    -- The answer to a lookup without a version: no version of the name is there, or the flow is stored
    -- under the name, and its version is at least every other that is.
    pub data IsNewest (reg : Registry) (name : String) : Outcome AnyFlow → Type 0 where
      none_there :
          ((v : String) → find (name, v) reg.flows ≡ none)
          → IsNewest reg name (raises (flow_not_registered name))
      newest_there :
          (flow : AnyFlow)
          → flow.name ≡ name
          → find (name, flow.version) reg.flows ≡ some flow
          → ((v : String) (other : AnyFlow)
              → find (name, v) reg.flows ≡ some other
              → versions.at_least flow.version v ≡ true)
          → IsNewest reg name (gives flow)

    load_version-IsNewest :
        (reg : Registry) (name : String) (latest : Option String)
        → lookup name reg.latest ≡ latest
        → IsLatest versions name latest (λ v. find (name, v) reg.flows)
        → IsNewest reg name (load_version versions reg name latest)
    load_version-IsNewest reg name none same fine = none_there (λ v.
        elim (Option-cases (find (name, v) reg.flows)) [
          | inl missing ↦ missing
          | inr (flow, there) ↦ let (l, is, le) = fine.newest v flow there in ground (arith, is)
        ])
    load_version-IsNewest reg name (some latest) same fine =
        let (flow, there) = fine.stored latest refl in
        let (named, version, valid) = fine.named latest flow there in
        simp there (
          newest_there flow named
            (subst (λ v. find (name, v) reg.flows ≡ some flow) (sym version) there)
            (λ v other is.
              let (l, e, le) = fine.newest v other is in
              subst (λ w. versions.at_least w v ≡ true) (ap (λ o. out_of o) (sym e) ∙ sym version)
                le))
      where
        out_of : Option String → String
        out_of none = latest
        out_of (some v) = v

    -- Whatever calls a registry has had, whether they raised or not, a lookup without a version finds
    -- the newest version of the name that is registered, and no flow exactly where none is.
    -- The order of versions is assumed to be total and transitive on those that are versions.
    pub get_flow-IsNewest :
        (calls : List Call) (name : String)
        → IsNewest
            (after_calls versions calls empty_registry)
            name
            (get_flow versions (after_calls versions calls empty_registry) name none)
    unfolding get_flow
    get_flow-IsNewest calls name =
        load_version-IsNewest (after_calls versions calls empty_registry) name _ refl
          (after_calls-IsIndexed calls empty_registry empty_registry-IsIndexed name)
