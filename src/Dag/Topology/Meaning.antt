-- ===== src/Dag/Topology/Meaning.antt =====
-- Which flows `validate_dag_topology` accepts.
use chain_weaver.Common.{
  String, Bool, true, false, Option, none, some, List, [], ◌∷◌, ◌++◌, ◌≡◌, refl, sym, ap, subst,
  ◌∙◌, ◌↔◌, inl, inr, arith, Bool-cases, map, All, any, contains, ◌==◌, ◌&&◌, ◌||◌, eq_iff,
  append_assoc, append_nil,
}
use chain_weaver.Dict.{insert}
use chain_weaver.Dag.Levels.{Graph, Sorter}
use chain_weaver.Dag.Topology.{
  ConditionalEdge, DagStep, graph_of, default_of, dependents, targets, validate_dag_topology,
}
use chain_weaver.Dag.Topology.Valid.{AreNew, IsChecked-iff}

-- Some step has the identifier `t` and lists `step_id` among those that it depends on.
abbrev pub DependsOn : List DagStep → String → String → Type 0
DependsOn steps t step_id =
    any (λ u. (u.step_id == t) && contains step_id u.depends_on) steps ≡ true

abbrev pub OnDefault : (String → Type 0) → Option String → Type 0
OnDefault P none = Unit
OnDefault P (some t) = P t

abbrev edges_of : List DagStep → Graph
edges_of steps = map (λ s. (s.step_id, s.depends_on)) steps

-- Every identifier is new, every dependency is a step, the sorter finds an order of the graph that has
-- for each step the steps that it depends on, and the target of each conditional edge of a step, and
-- its default if it has one, are steps that depend on it.
pub record IsTopology (static_order : Sorter) (steps : List DagStep) : Type 0 where
  pub unique : AreNew [] steps
  pub closed :
      All (λ s. All (λ d. contains d (map (λ t. t.step_id) steps) ≡ true) s.depends_on) steps
  pub acyclic :
      (order : List String) × (static_order (map (λ s. (s.step_id, s.depends_on)) steps)
        ≡ some order)
  pub edges :
      All (λ s. All (λ edge. DependsOn steps edge.target_step_id s.step_id) s.branches) steps
  pub defaults : All (λ s. OnDefault (λ t. DependsOn steps t s.step_id) s.default_next) steps

has_key : String → Graph → Bool
has_key k [] = false
has_key k ((j, deps) ∷ g) = (j == k) || has_key k g

insert-new :
    (k : String) (deps : List String) (g : Graph)
    → has_key k g ≡ false
    → insert k deps g ≡ g ++ (k, deps) ∷ []
unfolding insert has_key
insert-new k deps [] new = refl
insert-new k deps ((j, w) ∷ g) new =
    let other : (j == k) ≡ false = ground (arith, new) in
    simp other (ap (λ rest. (j, w) ∷ rest) (insert-new k deps g (ground (arith, new))))

has_key-append :
    (k j : String) (deps : List String) (g : Graph)
    → has_key k (g ++ (j, deps) ∷ []) ≡ (has_key k g || (j == k))
unfolding has_key
has_key-append k j deps [] = ground arith
has_key-append k j deps ((i, w) ∷ g) = ground (arith, has_key-append k j deps g)

graph_of-edges_of :
    (seen : List String) (g : Graph) (steps : List DagStep)
    → ((k : String) → contains k seen ≡ false → has_key k g ≡ false)
    → AreNew seen steps
    → graph_of g steps ≡ g ++ edges_of steps
unfolding graph_of
graph_of-edges_of seen g [] covers new = sym (append_nil g)
graph_of-edges_of seen g (s ∷ steps) covers (this, new) =
    ap (λ h. graph_of h steps) (insert-new s.step_id s.depends_on g (covers s.step_id this))
    ∙ graph_of-edges_of (s.step_id ∷ seen) (g ++ (s.step_id, s.depends_on) ∷ []) steps
        (λ k out.
          has_key-append k s.step_id s.depends_on g
          ∙ ground (arith, out, covers k, eq_iff k s.step_id, eq_iff s.step_id k))
        new
    ∙ sym (append_assoc g ((s.step_id, s.depends_on) ∷ []) (edges_of steps))

contains-dependents :
    (t step_id : String) (steps : List DagStep)
    → contains t (dependents steps step_id)
      ≡ any (λ u. (u.step_id == t) && contains step_id u.depends_on) steps
unfolding dependents
contains-dependents t step_id [] = refl
contains-dependents t step_id (s ∷ steps) =
    let rest = contains-dependents t step_id steps in
    elim (Bool-cases (contains step_id s.depends_on)) [
      | inl on ↦ simp on (ground (arith, rest, eq_iff t s.step_id, eq_iff s.step_id t))
      | inr off ↦ simp off (ground (arith, rest))
    ]

depends-known :
    (t step_id : String) (steps : List DagStep)
    → DependsOn steps t step_id
    → contains t (map (λ u. u.step_id) steps) ≡ true
depends-known t step_id [] on = ground (arith, on)
depends-known t step_id (s ∷ steps) on = elim (Bool-cases (s.step_id == t)) [
  | inl same ↦ ground (arith, same, eq_iff t s.step_id, eq_iff s.step_id t)
  | inr other ↦ ground (arith, depends-known t step_id steps (ground (arith, on, other)))
]

-- A target that passes the check.
abbrev IsLocal : List DagStep → String → String → Type 0
IsLocal steps step_id t =
    (contains t (map (λ u. u.step_id) steps) ≡ true)
    × (contains t (dependents steps step_id) ≡ true)

IsLocal-iff :
    (steps : List DagStep) (step_id t : String)
    → IsLocal steps step_id t ↔ DependsOn steps t step_id
IsLocal-iff steps step_id t = (
  λ here. sym (contains-dependents t step_id steps) ∙ here.1,
  λ on. (depends-known t step_id steps on, contains-dependents t step_id steps ∙ on),
)

module _ (steps : List DagStep) (step_id : String) where
  split_targets :
      (edges : List ConditionalEdge) (default : Option String)
      → All (IsLocal steps step_id) (map (λ edge. edge.target_step_id) edges ++ default_of default)
        ↔ (All (λ edge. DependsOn steps edge.target_step_id step_id) edges
            × OnDefault (λ t. DependsOn steps t step_id) default)
  split_targets [] none = (λ all. (tt, tt), λ both. tt)
  split_targets [] (some t) =
      let (to, from) = IsLocal-iff steps step_id t in
      (λ all. (tt, to all.0), λ both. (from both.1, tt))
  split_targets (edge ∷ edges) default =
      let (to, from) = IsLocal-iff steps step_id edge.target_step_id in
      let (split, join) = split_targets edges default in
      (
        λ all. ((to all.0, (split all.1).0), (split all.1).1),
        λ both. (from both.0.0, join (both.0.1, both.1)),
      )

module _ (all : List DagStep) where
  split_steps :
      (steps : List DagStep)
      → All (λ s. All (IsLocal all s.step_id) (targets s)) steps ↔ (
          All (λ s. All (λ edge. DependsOn all edge.target_step_id s.step_id) s.branches) steps
          × All (λ s. OnDefault (λ t. DependsOn all t s.step_id) s.default_next) steps)
  split_steps [] = (λ a. (tt, tt), λ both. tt)
  split_steps (s ∷ steps) =
      let (to, from) = split_targets all s.step_id s.branches s.default_next in
      let (split, join) = split_steps steps in
      (
        λ a. (((to a.0).0, (split a.1).0), ((to a.0).1, (split a.1).1)),
        λ both. (from (both.0.0, both.1.0), join (both.0.1, both.1.1)),
      )

-- `validate_dag_topology` accepts exactly the flows whose step identifiers are all different, whose
-- dependencies are steps, whose graph of dependencies the sorter can order, and whose branch targets
-- and defaults are steps that depend on the branching step.
pub validate_dag_topology_iff :
    (static_order : Sorter) (steps : List DagStep)
    → (validate_dag_topology static_order steps ≡ none) ↔ IsTopology static_order steps
unfolding has_key
validate_dag_topology_iff static_order steps =
    let (check, accept) = IsChecked-iff static_order steps in
    let (split, join) = split_steps steps steps in
    let same_graph : AreNew [] steps → graph_of [] steps ≡ edges_of steps =
      λ new. graph_of-edges_of [] [] steps (λ k out. refl) new in
    (
      λ e.
          let checked = check e in
          record {
            unique = checked.unique;
            closed = checked.closed;
            acyclic =
                subst (λ g. (order : List String) × (static_order g ≡ some order))
                  (same_graph checked.unique) checked.acyclic;
            edges = (split checked.local).0;
            defaults = (split checked.local).1;
          },
      λ topology. accept (record {
        unique = topology.unique;
        closed = topology.closed;
        acyclic =
            subst (λ g. (order : List String) × (static_order g ≡ some order))
              (sym (same_graph topology.unique)) topology.acyclic;
        local = join (topology.edges, topology.defaults);
      }),
    )
