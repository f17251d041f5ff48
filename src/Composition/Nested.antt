-- ===== src/Composition/Nested.antt =====
-- What the walk over composed flows accepts.
use chain_weaver.Common.{
  ℕ, zero, suc, ◌+◌, ◌≤◌, String, Bool, true, false, Option, none, some, List, [], ◌∷◌, ◌≡◌, ◌↔◌,
  refl, sym, ap, ◌∙◌, ◌⊎◌, inl, inr, arith, ltb, length, contains, Bool-cases, Option-cases,
}
use chain_weaver.Composition.{
  Walk, accepted, exhausted, rejected, and_next, each, enter_found, enter, visit,
  validate_composition,
}

-- A step refers to the sub-flow.
abbrev pub Refers : String → List (Option String) → Type 0
Refers sub_name [] = ⊥
Refers sub_name (step ∷ steps) = (step ≡ some sub_name) ⊎ Refers sub_name steps

abbrev is_accepted : Walk → Bool
is_accepted accepted = true
is_accepted exhausted = false
is_accepted (rejected e) = false

module _ (get_flow : String → Option (List (Option String))) (max_depth : ℕ) where
  -- A flow with these steps, at the end of this path, is composed of another one, at the end of
  -- a longer path, by references to registered flows.
  pub data Nested
      : List String → List (Option String) → List String → List (Option String) → Type 0 where
    here : (path : List String) (steps : List (Option String)) → Nested path steps path steps
    within :
        (path : List String) (steps : List (Option String)) (sub_name : String)
        (sub_steps : List (Option String)) (path' : List String) (steps' : List (Option String))
        → Refers sub_name steps
        → get_flow sub_name ≡ some sub_steps
        → Nested (sub_name ∷ path) sub_steps path' steps'
        → Nested path steps path' steps'

  -- A reference from the end of a path: to a registered flow, to none of the path, and not too deep.
  pub record IsSound (path : List String) (sub_name : String) : Type 0 where
    pub new : contains sub_name path ≡ false
    pub shallow : length path ≤ max_depth
    pub known : (steps : List (Option String)) × (get_flow sub_name ≡ some steps)

  -- Every reference in what the flow is composed of is sound.
  abbrev pub IsComposable : List String → List (Option String) → Type 0
  IsComposable path steps =
      (path' : List String) (steps' : List (Option String)) (sub_name : String)
      → Nested path steps path' steps'
      → Refers sub_name steps'
      → IsSound path' sub_name

  each-accepted :
      (walk : String → Walk) (steps : List (Option String)) (sub_name : String)
      → each walk steps ≡ accepted
      → Refers sub_name steps
      → walk sub_name ≡ accepted
  unfolding each
  each-accepted walk [] sub_name e none_there = ground (arith, none_there)
  each-accepted walk (none ∷ steps) sub_name e (inl this) = ground (arith, this)
  each-accepted walk (none ∷ steps) sub_name e (inr later) =
      each-accepted walk steps sub_name e later
  each-accepted walk (some first ∷ steps) sub_name e refers =
      let (this, rest) = both (walk first) (each walk steps) e in
      elim refers [
        | inl same ↦ ap walk (ap (λ o. out_of o) (sym same)) ∙ this
        | inr later ↦ each-accepted walk steps sub_name rest later
      ]
    where
      out_of : Option String → String
      out_of none = first
      out_of (some name) = name

      both : (a b : Walk) → and_next a b ≡ accepted → (a ≡ accepted) × (b ≡ accepted)
      both accepted b e = (refl, e)
      both exhausted b e = ground (arith, ap is_accepted e)
      both (rejected error) b e = ground (arith, ap is_accepted e)

  accepted-each :
      (walk : String → Walk) (steps : List (Option String))
      → ((sub_name : String) → Refers sub_name steps → walk sub_name ≡ accepted)
      → each walk steps ≡ accepted
  unfolding each
  accepted-each walk [] all = refl
  accepted-each walk (none ∷ steps) all = accepted-each walk steps (λ s r. all s (inr r))
  accepted-each walk (some first ∷ steps) all =
      ap (λ w. and_next w (each walk steps)) (all first (inl refl))
      ∙ accepted-each walk steps (λ s r. all s (inr r))

  -- What a sub-flow that is accepted says: its reference is sound, and it is accepted itself.
  enter-accepted :
      (walk : List String → List (Option String) → Walk) (path : List String) (sub_name : String)
      → enter get_flow max_depth walk path sub_name ≡ accepted
      → IsSound path sub_name
        × ((steps : List (Option String))
            → get_flow sub_name ≡ some steps
            → walk (sub_name ∷ path) steps ≡ accepted)
  unfolding enter enter_found
  enter-accepted walk path sub_name e = elim (Bool-cases (contains sub_name path)) [
    | inl there ↦ ground (arith, ap is_accepted (simp there at e))
    | inr new ↦ elim (Bool-cases (ltb max_depth (length path))) [
      | inl deep ↦ ground (arith, ap is_accepted (simp (new, deep) at e))
      | inr shallow ↦ elim (Option-cases (get_flow sub_name)) [
        | inl missing ↦ ground (arith, ap is_accepted (simp (new, shallow, missing) at e))
        | inr (steps, known) ↦ (
          record { new = new; shallow = ground (arith, shallow); known = (steps, known) },
          λ steps' same. simp same at (simp (new, shallow) at e),
        )
      ]
    ]
  ]

  accepted-enter :
      (walk : List String → List (Option String) → Walk) (path : List String) (sub_name : String)
      (sound : IsSound path sub_name)
      → walk (sub_name ∷ path) sound.known.0 ≡ accepted
      → enter get_flow max_depth walk path sub_name ≡ accepted
  unfolding enter enter_found
  accepted-enter walk path sub_name sound e =
      let shallow : ltb max_depth (length path) ≡ false = ground (arith, sound.shallow) in
      simp (sound.new, shallow, sound.known.1) e

  visit-IsComposable :
      (fuel : ℕ) (path : List String) (steps : List (Option String))
      → visit get_flow max_depth fuel path steps ≡ accepted
      → IsComposable path steps
  unfolding visit
  visit-IsComposable zero path steps e path' steps' sub_name nested refers =
      ground (arith, ap is_accepted e)
  visit-IsComposable (suc fuel) path steps e _ _ sub_name (here p s) refers =
      (enter-accepted (visit get_flow max_depth fuel) path sub_name
        (each-accepted _ steps sub_name e refers)).0
  visit-IsComposable (suc fuel) path steps e _ _ sub_name
        (within p s middle sub_steps path' steps' from_here known nested) refers =
      visit-IsComposable fuel (middle ∷ path) sub_steps
        ((enter-accepted (visit get_flow max_depth fuel) path middle
            (each-accepted _ steps middle e from_here)).1
          sub_steps known)
        path' steps' sub_name nested refers

  IsComposable-visit :
      (fuel : ℕ) (path : List String) (steps : List (Option String))
      → suc max_depth ≤ fuel + length path
      → IsComposable path steps
      → visit get_flow max_depth (suc fuel) path steps ≡ accepted
  unfolding visit
  IsComposable-visit zero path steps enough fine =
      accepted-each _ steps
        (λ s refers. ground (arith, enough, (fine path steps s (here path steps) refers).shallow))
  IsComposable-visit (suc fuel) path steps enough fine = accepted-each _ steps (λ s refers.
      let sound = fine path steps s (here path steps) refers in
      accepted-enter (visit get_flow max_depth (suc fuel)) path s sound (
        IsComposable-visit fuel (s ∷ path) sound.known.0 (omega (arith, enough))
          (λ path' steps' sub_name nested refers'.
            fine path' steps' sub_name
              (within path steps s sound.known.0 path' steps' refers sound.known.1 nested)
              refers')))

  -- A flow is accepted exactly where every reference in what it is composed of, at any depth, is to
  -- a registered flow that is not among those around it, with at most `max_depth` flows around it:
  -- there is then no cycle.
  pub validate_composition_iff :
      (name : String) (steps : List (Option String))
      → (validate_composition get_flow max_depth name steps ≡ accepted)
        ↔ IsComposable (name ∷ []) steps
  unfolding validate_composition
  validate_composition_iff name steps = (
    visit-IsComposable (suc (suc max_depth)) (name ∷ []) steps,
    IsComposable-visit (suc max_depth) (name ∷ []) steps (omega arith),
  )
