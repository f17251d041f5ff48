-- ===== src/Dag/Levels/Rule.antt =====
-- The levels that `_compute_dag_levels` finds.
use chain_weaver.Common.{
  ℕ, suc, ◌<◌, ◌≤◌, String, true, false, Option, none, some, List, [], ◌∷◌, ◌≡◌, refl, sym, ap, ◌∙◌,
  subst, inl, inr, arith, Bool-cases, All, contains, leb, ◌==◌, eq_iff, eq_refl,
}
use chain_weaver.Dict.{Dict, lookup, has, insert}
use chain_weaver.Dict.Laws.{lookup-insert}
use chain_weaver.Dag.Levels.{
  Graph, Sorter, max, max_level, level_for, store_level, place, assign_levels, compute_levels,
  levels_along,
}

abbrev Known : List String → List String → Type 0
Known seen deps = All (λ d. contains d seen ≡ true) deps

-- The list has steps of the graph, each after those that it depends on, and none twice; `seen` are
-- the steps before it.
abbrev pub IsOrder : Graph → List String → List String → Type 0
IsOrder graph seen [] = Unit
IsOrder graph seen (step_id ∷ order) =
    ((deps : List String) × (lookup step_id graph ≡ some deps) × Known seen deps)
    × (contains step_id seen ≡ false)
    × IsOrder graph (step_id ∷ seen) order

-- The step `d` has a level below `level`.
abbrev pub IsBelow : Dict ℕ → ℕ → String → Type 0
IsBelow levels level d = (k : ℕ) × (lookup d levels ≡ some k) × (k < level)

-- The level is as low as it can be: 0 without dependencies, else next to that of one of them.
pub data IsTight (levels : Dict ℕ) (level : ℕ) : List String → Type 0 where
  root : level ≡ 0 → IsTight levels level []
  after :
      (deps : List String) (d : String) (k : ℕ)
      → contains d deps ≡ true
      → lookup d levels ≡ some k
      → level ≡ suc k
      → IsTight levels level deps

pub record HasLevel (graph : Graph) (levels : Dict ℕ) (step_id : String) : Type 0 where
  pub deps : List String
  pub level : ℕ
  pub in_graph : lookup step_id graph ≡ some deps
  pub stored : lookup step_id levels ≡ some level
  pub below : All (IsBelow levels level) deps
  pub tight : IsTight levels level deps

-- Every level that is there stays when more are stored.
abbrev Keeps : Dict ℕ → Dict ℕ → Type 0
Keeps levels levels' = (d : String) (k : ℕ) → lookup d levels ≡ some k → lookup d levels' ≡ some k

insert-Keeps :
    (levels : Dict ℕ) (step_id : String) (level : ℕ)
    → has step_id levels ≡ false
    → Keeps levels (insert step_id level levels)
insert-Keeps levels step_id level fresh d k there =
    lookup-insert step_id d level levels ∙ (elim (Bool-cases (step_id == d)) [
      | inl same ↦
          ground (arith, subst (λ s. has s levels ≡ false) ((eq_iff step_id d).0 same) fresh, there)
      | inr apart ↦ ground (arith, apart, there)
    ])

module _ (levels levels' : Dict ℕ) (keeps : Keeps levels levels') (level : ℕ) where
  IsBelow-Keeps :
      (deps : List String) → All (IsBelow levels level) deps → All (IsBelow levels' level) deps
  IsBelow-Keeps [] below = tt
  IsBelow-Keeps (d ∷ deps) ((k, there, lt), below) =
      ((k, keeps d k there, lt), IsBelow-Keeps deps below)

  IsTight-Keeps : (deps : List String) → IsTight levels level deps → IsTight levels' level deps
  IsTight-Keeps _ (root e) = root e
  IsTight-Keeps _ (after deps d k inside there e) = after deps d k inside (keeps d k there) e

HasLevel-Keeps :
    (graph : Graph) (levels levels' : Dict ℕ) (step_id : String)
    → Keeps levels levels'
    → HasLevel graph levels step_id
    → HasLevel graph levels' step_id
HasLevel-Keeps graph levels levels' step_id keeps h = record {
  deps = h.deps;
  level = h.level;
  in_graph = h.in_graph;
  stored = keeps step_id h.level h.stored;
  below = IsBelow-Keeps levels levels' keeps h.level h.deps h.below;
  tight = IsTight-Keeps levels levels' keeps h.level h.deps h.tight;
}

-- Over steps that all have levels, the greatest is found: none is above it, and one has it.
pub record IsMax (levels : Dict ℕ) (deps : List String) (best : ℕ) : Type 0 where
  pub above : All (IsBelow levels (suc best)) deps
  pub attained : (d : String) × (contains d deps ≡ true) × (lookup d levels ≡ some best)

IsBelow-raise :
    (levels : Dict ℕ) (a b : ℕ) (deps : List String)
    → a ≤ b
    → All (IsBelow levels a) deps
    → All (IsBelow levels b) deps
IsBelow-raise levels a b [] le all = tt
IsBelow-raise levels a b (d ∷ deps) le ((k, there, lt), all) =
    ((k, there, omega (arith, le, lt)), IsBelow-raise levels a b deps le all)

level_at :
    (levels : Dict ℕ) (d : String) → has d levels ≡ true → (k : ℕ) × (lookup d levels ≡ some k)
level_at levels d h = at_option (lookup d levels) refl h
  where
    at_option :
        (o : Option ℕ)
        → lookup d levels ≡ o
        → has d levels ≡ true
        → (k : ℕ) × (lookup d levels ≡ some k)
    at_option none e h = ground (arith, e, h)
    at_option (some k) e h = (k, e)

two_IsMax :
    (levels : Dict ℕ) (d : String) (deps : List String) (k best : ℕ)
    → lookup d levels ≡ some k
    → IsMax levels deps best
    → IsMax levels (d ∷ deps) (max k best)
two_IsMax levels d deps k best there m = elim (Bool-cases (leb k best)) [
  | inl le ↦ simp le (record {
    above = ((k, there, ground arith), m.above);
    attained = (m.attained.0, ground (arith, m.attained.1), m.attained.2);
  })
  | inr gt ↦ simp gt (record {
    above = (
      (k, there, omega arith),
      IsBelow-raise levels (suc best) (suc k) deps (ground arith) m.above,
    );
    attained = (d, simp (eq_refl d) refl, there);
  })
]

max_level-IsMax :
    (levels : Dict ℕ) (deps : List String) (d : String)
    → All (λ x. has x levels ≡ true) (d ∷ deps)
    → (best : ℕ) × (max_level levels d deps ≡ some best) × IsMax levels (d ∷ deps) best
unfolding max_level
max_level-IsMax levels [] d (here, all) =
    let (k, there) = level_at levels d here in
    (
      k,
      there,
      record {
        above = ((k, there, omega arith), tt);
        attained = (d, simp (eq_refl d) refl, there);
      },
    )
max_level-IsMax levels (e ∷ deps) d (here, all) =
    let (k, there) = level_at levels d here in
    let (best, found, m) = max_level-IsMax levels deps e all in
    (max k best, rw (there, found) refl, two_IsMax levels d (e ∷ deps) k best there m)

level_for-IsTight :
    (levels : Dict ℕ) (deps : List String)
    → All (λ x. has x levels ≡ true) deps
    → (level : ℕ) × (level_for levels deps ≡ some level)
      × All (IsBelow levels level) deps
      × IsTight levels level deps
unfolding level_for
level_for-IsTight levels [] all = (0, refl, tt, root refl)
level_for-IsTight levels (d ∷ deps) all =
    let (best, found, m) = max_level-IsMax levels deps d all in
    let (e, inside, there) = m.attained in
    (suc best, rw found refl, m.above, after (d ∷ deps) e best inside there refl)

abbrev SameKeys : List String → Dict ℕ → Type 0
SameKeys seen levels = (x : String) → contains x seen ≡ has x levels

insert-SameKeys :
    (seen : List String) (levels : Dict ℕ) (step_id : String) (level : ℕ)
    → SameKeys seen levels
    → SameKeys (step_id ∷ seen) (insert step_id level levels)
insert-SameKeys seen levels step_id level same x = elim (Bool-cases (step_id == x)) [
  | inl e ↦ simp (e, lookup-insert step_id x level levels) refl
  | inr e ↦ simp (e, lookup-insert step_id x level levels) (same x)
]

Known-levels :
    (seen deps : List String) (levels : Dict ℕ)
    → SameKeys seen levels
    → Known seen deps
    → All (λ x. has x levels ≡ true) deps
Known-levels seen [] levels same known = tt
Known-levels seen (d ∷ deps) levels same (here, known) =
    (sym (same d) ∙ here, Known-levels seen deps levels same known)

All-keep :
    (graph : Graph) (levels levels' : Dict ℕ) (seen : List String)
    → Keeps levels levels'
    → All (HasLevel graph levels) seen
    → All (HasLevel graph levels') seen
All-keep graph levels levels' [] keeps all = tt
All-keep graph levels levels' (s ∷ seen) keeps (h, all) =
    (HasLevel-Keeps graph levels levels' s keeps h, All-keep graph levels levels' seen keeps all)

place-eq :
    (graph : Graph) (levels : Dict ℕ) (s : String) (deps : List String) (level : ℕ)
    → lookup s graph ≡ some deps
    → level_for levels deps ≡ some level
    → place s levels (lookup s graph) ≡ some (insert s level levels)
unfolding place store_level
place-eq graph levels s deps level found calc =
    ap (place s levels) found ∙ ap (store_level s levels) calc

assign_levels-HasLevel :
    (graph : Graph) (order seen : List String) (levels : Dict ℕ)
    → IsOrder graph seen order
    → SameKeys seen levels
    → All (HasLevel graph levels) seen
    → (levels' : Dict ℕ) × (assign_levels graph (some levels) order ≡ some levels')
      × All (HasLevel graph levels') seen
      × All (HasLevel graph levels') order
unfolding assign_levels
assign_levels-HasLevel graph [] seen levels ordered same all = (levels, refl, all, tt)
assign_levels-HasLevel graph (s ∷ order) seen levels ((deps, found, known), fresh, ordered) same
      all =
    let (level, calc, below, tight) =
      level_for-IsTight levels deps (Known-levels seen deps levels same known) in
    let keeps = insert-Keeps levels s level (sym (same s) ∙ fresh) in
    let levels1 = insert s level levels in
    let h : HasLevel graph levels1 s = record {
      deps = deps;
      level = level;
      in_graph = found;
      stored = lookup-insert s s level levels ∙ simp (eq_refl s) refl;
      below = IsBelow-Keeps levels levels1 keeps level deps below;
      tight = IsTight-Keeps levels levels1 keeps level deps tight;
    } in
    let (levels', done, (h', seen'), order') =
      assign_levels-HasLevel graph order (s ∷ seen) levels1 ordered
        (insert-SameKeys seen levels s level same)
        (h, All-keep graph levels levels1 seen keeps all) in
    (
      levels',
      ap (λ o. assign_levels graph o order) (place-eq graph levels s deps level found calc) ∙ done,
      seen',
      (h', order'),
    )

-- Where the sorter's order has every step once and after all that it depends on, levels are found:
-- each step of the order has a level above those of its dependencies, and the least such.
pub compute_levels-HasLevel :
    (static_order : Sorter) (graph : Graph) (order : List String)
    → static_order graph ≡ some order
    → IsOrder graph [] order
    → (levels : Dict ℕ) × (compute_levels static_order graph ≡ some levels)
      × All (HasLevel graph levels) order
unfolding compute_levels levels_along
compute_levels-HasLevel static_order graph order e ordered =
    let (levels, done, none_seen, all) =
      assign_levels-HasLevel graph order [] [] ordered (λ x. unfold lookup in refl) tt in
    (levels, ap (levels_along graph) e ∙ done, all)
