-- ===== src/Composition/Ended.antt =====
-- That the walk over composed flows ends.
use chain_weaver.Common.{
  ℕ, zero, suc, ◌+◌, ◌≤◌, String, Bool, true, false, Option, none, some, List, [], ◌∷◌, ◌≡◌, refl,
  inl, inr, arith, ltb, length, contains, Bool-cases,
}
use chain_weaver.Composition.{
  Walk, accepted, exhausted, rejected, and_next, each, enter_found, enter, visit,
  validate_composition,
}

-- The walk is not out of fuel.
abbrev pub has_ended : Walk → Bool
has_ended accepted = true
has_ended exhausted = false
has_ended (rejected e) = true

module _ (get_flow : String → Option (List (Option String))) (max_depth : ℕ) where
  and_next-ended :
      (a b : Walk) → has_ended a ≡ true → has_ended b ≡ true → has_ended (and_next a b) ≡ true
  and_next-ended accepted b first rest = rest
  and_next-ended exhausted b first rest = first
  and_next-ended (rejected e) b first rest = refl

  each-ended :
      (walk : String → Walk) (steps : List (Option String))
      → ((sub_name : String) → has_ended (walk sub_name) ≡ true)
      → has_ended (each walk steps) ≡ true
  unfolding each
  each-ended walk [] all = refl
  each-ended walk (none ∷ steps) all = each-ended walk steps all
  each-ended walk (some s ∷ steps) all =
      and_next-ended (walk s) (each walk steps) (all s) (each-ended walk steps all)

  enter_found-ended :
      (walk : List String → List (Option String) → Walk) (chain : List String)
      (found : Option (List (Option String)))
      → ((steps : List (Option String)) → has_ended (walk chain steps) ≡ true)
      → has_ended (enter_found get_flow max_depth walk chain found) ≡ true
  unfolding enter_found
  enter_found-ended walk chain none all = refl
  enter_found-ended walk chain (some steps) all = all steps

  -- A sub-flow is entered only where the path is not too long.
  enter-ended :
      (walk : List String → List (Option String) → Walk) (path : List String) (sub_name : String)
      → (length path ≤ max_depth
          → (steps : List (Option String)) → has_ended (walk (sub_name ∷ path) steps) ≡ true)
      → has_ended (enter get_flow max_depth walk path sub_name) ≡ true
  unfolding enter
  enter-ended walk path sub_name deeper = elim (Bool-cases (contains sub_name path)) [
    | inl there ↦ simp there refl
    | inr new ↦ elim (Bool-cases (ltb max_depth (length path))) [
      | inl deep ↦ simp (new, deep) refl
      | inr shallow ↦
          simp (new, shallow)
            (enter_found-ended walk (sub_name ∷ path) (get_flow sub_name)
              (deeper (ground (arith, shallow))))
    ]
  ]

  visit-ended :
      (fuel : ℕ) (path : List String) (steps : List (Option String))
      → suc max_depth ≤ fuel + length path
      → has_ended (visit get_flow max_depth (suc fuel) path steps) ≡ true
  unfolding visit
  visit-ended zero path steps enough = each-ended _ steps (λ s.
      enter-ended (visit get_flow max_depth zero) path s
        (λ shallow sub_steps. ground (arith, enough, shallow)))
  visit-ended (suc fuel) path steps enough = each-ended _ steps (λ s.
      enter-ended (visit get_flow max_depth (suc fuel)) path s
        (λ shallow sub_steps. visit-ended fuel (s ∷ path) sub_steps (omega (arith, enough))))

  -- The walk ends, whatever flows are registered and however they refer to each other: it is accepted
  -- or rejected within its fuel.
  pub validate_composition-ended :
      (name : String) (steps : List (Option String))
      → has_ended (validate_composition get_flow max_depth name steps) ≡ true
  unfolding validate_composition
  validate_composition-ended name steps =
      visit-ended (suc max_depth) (name ∷ []) steps (omega arith)
