-- ===== src/Dag/Levels/Agree.antt =====
-- The levels of `_compute_dag_levels` in two orders of the same graph.
use chain_weaver.Common.{
  ℕ, ◌≤◌, String, true, Option, none, some, List, [], ◌∷◌, ◌≡◌, sym, ap, ◌∙◌, subst, inl, inr,
  arith, Bool-cases, All, contains, ◌==◌, eq_iff,
}
use chain_weaver.Dict.{Dict, lookup}
use chain_weaver.Dag.Levels.{Graph, Sorter, compute_levels}
use chain_weaver.Dag.Levels.Rule.{
  IsOrder, IsBelow, IsTight, root, after, HasLevel, compute_levels-HasLevel,
}

all_at {κ} :
    (P : String → Type κ) (xs : List String) (x : String) → All P xs → contains x xs ≡ true → P x
all_at P [] x all inside = ground arith
all_at P (y ∷ xs) x (here, all) inside = elim (Bool-cases (y == x)) [
  | inl same ↦ subst P ((eq_iff y x).0 same) here
  | inr apart ↦ all_at P xs x all (simp apart at inside)
]

-- Two assignments of levels that give the same to a step.
abbrev pub Agree : Dict ℕ → Dict ℕ → String → Type 0
Agree levels levels' s = lookup s levels ≡ lookup s levels'

some_injective : (a b : ℕ) → some a ≡ some b → a ≡ b
some_injective a b e = ground arith

-- A level that is as low as it can be is at most one that is above the same levels.
tight-le :
    (levels levels' : Dict ℕ) (level level' : ℕ) (deps : List String)
    → All (Agree levels levels') deps
    → IsTight levels level deps
    → All (IsBelow levels' level') deps
    → level ≤ level'
tight-le levels levels' level level' _ agree (root e) below = omega (arith, e)
tight-le levels levels' level level' _ agree (after deps d k inside there e) below =
    let (k', there', lt) = all_at (IsBelow levels' level') deps d below inside in
    let same =
      some_injective k k'
        (sym there ∙ all_at (Agree levels levels') deps d agree inside ∙ there') in
    omega (arith, e, lt, same)

Agree-sym :
    (levels levels' : Dict ℕ) (deps : List String)
    → All (Agree levels levels') deps
    → All (Agree levels' levels) deps
Agree-sym levels levels' [] agree = tt
Agree-sym levels levels' (d ∷ deps) (e, agree) = (sym e, Agree-sym levels levels' deps agree)

deps_injective : (a b : List String) → some a ≡ some b → a ≡ b
deps_injective a b e = ap from_some e
  where
    from_some : Option (List String) → List String
    from_some none = []
    from_some (some x) = x

step-Agree :
    (graph : Graph) (levels levels' : Dict ℕ) (s : String) (deps : List String)
    → lookup s graph ≡ some deps
    → HasLevel graph levels s
    → HasLevel graph levels' s
    → All (Agree levels levels') deps
    → Agree levels levels' s
step-Agree graph levels levels' s deps found h h' agree =
    let mine = deps_injective h.deps deps (sym h.in_graph ∙ found) in
    let other = deps_injective h'.deps deps (sym h'.in_graph ∙ found) in
    let low =
      tight-le levels levels' h.level h'.level deps agree
        (subst (λ ds. IsTight levels h.level ds) mine h.tight)
        (subst (λ ds. All (IsBelow levels' h'.level) ds) other h'.below) in
    let high =
      tight-le levels' levels h'.level h.level deps (Agree-sym levels levels' deps agree)
        (subst (λ ds. IsTight levels' h'.level ds) other h'.tight)
        (subst (λ ds. All (IsBelow levels h.level) ds) mine h.below) in
    h.stored ∙ ap some (antisym low high) ∙ sym h'.stored
  where
    antisym : {a b : ℕ} → a ≤ b → b ≤ a → a ≡ b
    antisym le ge = omega (arith, le, ge)

abbrev SeenAgree : Dict ℕ → Dict ℕ → List String → Type 0
SeenAgree levels levels' seen = (x : String) → contains x seen ≡ true → Agree levels levels' x

Agree-on :
    (levels levels' : Dict ℕ) (seen deps : List String)
    → SeenAgree levels levels' seen
    → All (λ d. contains d seen ≡ true) deps
    → All (Agree levels levels') deps
Agree-on levels levels' seen [] agree known = tt
Agree-on levels levels' seen (d ∷ deps) agree (here, known) =
    (agree d here, Agree-on levels levels' seen deps agree known)

order-Agree :
    (graph : Graph) (levels levels' : Dict ℕ) (order seen : List String)
    → IsOrder graph seen order
    → SeenAgree levels levels' seen
    → All (HasLevel graph levels) order
    → All (HasLevel graph levels') order
    → All (Agree levels levels') order
order-Agree graph levels levels' [] seen ordered agree all all' = tt
order-Agree graph levels levels' (s ∷ order) seen ((deps, found, known), fresh, ordered) agree
      (h, all) (h', all') =
    let same =
      step-Agree graph levels levels' s deps found h h'
        (Agree-on levels levels' seen deps agree known) in
    (same, order-Agree graph levels levels' order (s ∷ seen) ordered (extend same) all all')
  where
    extend : Agree levels levels' s → SeenAgree levels levels' (s ∷ seen)
    extend same x inside = elim (Bool-cases (s == x)) [
      | inl e ↦ subst (Agree levels levels') ((eq_iff s x).0 e) same
      | inr apart ↦ agree x (simp apart at inside)
    ]

among :
    (P : String → Type 0) (order order' : List String)
    → All P order'
    → All (λ s. contains s order' ≡ true) order
    → All P order
among P [] order' all inside = tt
among P (s ∷ order) order' all (here, inside) =
    (all_at P order' s all here, among P order order' all inside)

-- Two orders of the same graph, each with every step once and after all that it depends on, lead to
-- the same level of every step of the first order, if the second has it too.
pub compute_levels-Agree :
    (static_order static_order' : Sorter) (graph : Graph) (order order' : List String)
    → static_order graph ≡ some order
    → static_order' graph ≡ some order'
    → IsOrder graph [] order
    → IsOrder graph [] order'
    → All (λ s. contains s order' ≡ true) order
    → (levels : Dict ℕ) × (levels' : Dict ℕ) × (compute_levels static_order graph ≡ some levels)
      × (compute_levels static_order' graph ≡ some levels')
      × All (Agree levels levels') order
compute_levels-Agree static_order static_order' graph order order' e e' ordered ordered' inside =
    let (levels, done, all) = compute_levels-HasLevel static_order graph order e ordered in
    let (levels', done', all') = compute_levels-HasLevel static_order' graph order' e' ordered' in
    (
      levels,
      levels',
      done,
      done',
      order-Agree graph levels levels' order [] ordered (λ x none_in. ground arith) all
          (among (HasLevel graph levels') order order' all' inside),
    )
