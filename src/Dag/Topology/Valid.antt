-- ===== src/Dag/Topology/Valid.antt =====
-- The four checks of `validate_dag_topology`, one by one.
use chain_weaver.Common.{
  String, true, false, Option, none, some, List, [], ◌∷◌, ◌≡◌, refl, ◌↔◌, inl, inr, arith,
  Bool-cases, map, All, contains, ◌&&◌,
}
use chain_weaver.Dag.Levels.{Sorter}
use chain_weaver.Dag.Topology.{
  DagStep, DagError, or_then, first_duplicate, unknown_in, first_unknown, graph_of, cycle_of,
  dependents, targets, bad_target, first_bad_target, validate_dag_topology,
}

abbrev pub AreNew : List String → List DagStep → Type 0
AreNew seen [] = Unit
AreNew seen (s ∷ steps) = (contains s.step_id seen ≡ false) × AreNew (s.step_id ∷ seen) steps

-- What the four checks come to, in the terms of the code.
pub record IsChecked (static_order : Sorter) (steps : List DagStep) : Type 0 where
  pub unique : AreNew [] steps
  pub closed :
      All (λ s. All (λ d. contains d (map (λ t. t.step_id) steps) ≡ true) s.depends_on) steps
  pub acyclic : (order : List String) × (static_order (graph_of [] steps) ≡ some order)
  pub local :
      All
        (λ s.
          All
            (λ t.
              (contains t (map (λ u. u.step_id) steps) ≡ true)
              × (contains t (dependents steps s.step_id) ≡ true))
            (targets s))
        steps

or_then_iff : (a b : Option DagError) → (or_then a b ≡ none) ↔ ((a ≡ none) × (b ≡ none))
or_then_iff none b = (λ e. (refl, e), λ both. both.1)
or_then_iff (some x) b = (λ e. ground arith, λ both. ground arith)

first_duplicate_iff :
    (seen : List String) (steps : List DagStep)
    → (first_duplicate seen steps ≡ none) ↔ AreNew seen steps
unfolding first_duplicate
first_duplicate_iff seen [] = (λ e. tt, λ t. refl)
first_duplicate_iff seen (s ∷ steps) =
    let (to, from) = first_duplicate_iff (s.step_id ∷ seen) steps in
    elim (Bool-cases (contains s.step_id seen)) [
      | inl twice ↦ (λ e. ground (arith, simp twice at e), λ new. ground (arith, new.0, twice))
      | inr new ↦ (λ e. (new, to (simp new at e)), λ both. simp new (from both.1))
    ]

unknown_in_iff :
    (ids : List String) (step_id : String) (deps : List String)
    → (unknown_in ids step_id deps ≡ none) ↔ All (λ d. contains d ids ≡ true) deps
unfolding unknown_in
unknown_in_iff ids step_id [] = (λ e. tt, λ t. refl)
unknown_in_iff ids step_id (d ∷ deps) =
    let (to, from) = unknown_in_iff ids step_id deps in
    elim (Bool-cases (contains d ids)) [
      | inl known ↦ (λ e. (known, to (simp known at e)), λ both. simp known (from both.1))
      | inr unknown ↦
          (λ e. ground (arith, simp unknown at e), λ both. ground (arith, both.0, unknown))
    ]

first_unknown_iff :
    (ids : List String) (steps : List DagStep)
    → (first_unknown ids steps ≡ none)
      ↔ All (λ s. All (λ d. contains d ids ≡ true) s.depends_on) steps
unfolding first_unknown
first_unknown_iff ids [] = (λ e. tt, λ t. refl)
first_unknown_iff ids (s ∷ steps) =
    let (to, from) = first_unknown_iff ids steps in
    let (to', from') = unknown_in_iff ids s.step_id s.depends_on in
    let (split, join) =
      or_then_iff (unknown_in ids s.step_id s.depends_on) (first_unknown ids steps) in
    (λ e. (to' (split e).0, to (split e).1), λ both. join (from' both.0, from both.1))

bad_target_iff :
    (all : List DagStep) (ids : List String) (step_id : String) (candidates : List String)
    → (bad_target all ids step_id candidates ≡ none)
      ↔ All (λ t. (contains t ids ≡ true) × (contains t (dependents all step_id) ≡ true)) candidates
unfolding bad_target
bad_target_iff all ids step_id [] = (λ e. tt, λ t. refl)
bad_target_iff all ids step_id (t ∷ candidates) =
    let (to, from) = bad_target_iff all ids step_id candidates in
    elim (Bool-cases (contains t ids && contains t (dependents all step_id))) [
      | inl good ↦ (
        λ e. ((ground (arith, good), ground (arith, good)), to (simp good at e)),
        λ both. simp good (from both.1),
      )
      | inr bad ↦
          (λ e. ground (arith, simp bad at e), λ both. ground (arith, both.0.0, both.0.1, bad))
    ]

first_bad_target_iff :
    (all : List DagStep) (ids : List String) (steps : List DagStep)
    → (first_bad_target all ids steps ≡ none)
      ↔ All
          (λ s.
            All
              (λ t. (contains t ids ≡ true) × (contains t (dependents all s.step_id) ≡ true))
              (targets s))
          steps
unfolding first_bad_target
first_bad_target_iff all ids [] = (λ e. tt, λ t. refl)
first_bad_target_iff all ids (s ∷ steps) =
    let (to, from) = first_bad_target_iff all ids steps in
    let (to', from') = bad_target_iff all ids s.step_id (targets s) in
    let (split, join) =
      or_then_iff (bad_target all ids s.step_id (targets s)) (first_bad_target all ids steps) in
    (λ e. (to' (split e).0, to (split e).1), λ both. join (from' both.0, from both.1))

cycle_of_iff :
    (found : Option (List String))
    → (cycle_of found ≡ none) ↔ ((order : List String) × (found ≡ some order))
cycle_of_iff none = (λ e. ground arith, λ p. ground (arith, p.1))
cycle_of_iff (some order) = (λ e. (order, refl), λ p. refl)

pub IsChecked-iff :
    (static_order : Sorter) (steps : List DagStep)
    → (validate_dag_topology static_order steps ≡ none) ↔ IsChecked static_order steps
unfolding validate_dag_topology
IsChecked-iff static_order steps =
    let ids = map (λ s. s.step_id) steps in
    let cyc = cycle_of (static_order (graph_of [] steps)) in
    let bad = first_bad_target steps ids steps in
    let (split1, join1) =
      or_then_iff (first_duplicate [] steps)
        (or_then (first_unknown ids steps) (or_then cyc bad)) in
    let (split2, join2) = or_then_iff (first_unknown ids steps) (or_then cyc bad) in
    let (split3, join3) = or_then_iff cyc bad in
    let (to_u, from_u) = first_duplicate_iff [] steps in
    let (to_k, from_k) = first_unknown_iff ids steps in
    let (to_c, from_c) = cycle_of_iff (static_order (graph_of [] steps)) in
    let (to_b, from_b) = first_bad_target_iff steps ids steps in
    (
      λ e. record {
        unique = to_u (split1 e).0;
        closed = to_k (split2 (split1 e).1).0;
        acyclic = to_c (split3 (split2 (split1 e).1).1).0;
        local = to_b (split3 (split2 (split1 e).1).1).1;
      },
      λ v.
          join1
            (from_u v.unique, join2 (from_k v.closed, join3 (from_c v.acyclic, from_b v.local))),
    )
