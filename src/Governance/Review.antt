-- ===== src/Governance/Review.antt =====
-- The ways through the review lifecycle.
use chain_weaver.Common.{
  ℕ, String, Bool, true, false, Option, none, some, List, [], ◌∷◌, ◌≡◌, refl, sym, ap, ◌∙◌, ◌⊎◌,
  inl, inr, arith, Bool-cases, All, nat_eq, subst, if◌then◌else◌,
}
use chain_weaver.Governance.{
  FlowLifecycle, observed, suggested, draft, reviewed, active, ignored, archived, lifecycle_number,
  lifecycle_in, transitions, FlowGovernance, transition_to,
}

-- A transition that is carried out.
pub data Moves (g g' : FlowGovernance) : Type 0 where
  moves :
      (target : FlowLifecycle) (reviewed_by review_notes : Option String)
      → transition_to g target reviewed_by review_notes ≡ some g'
      → Moves g g'

-- A sequence of them, with the lifecycles that it passes before its end.
pub data Route (g : FlowGovernance) : List FlowLifecycle → FlowGovernance → Type 0 where
  stay : Route g [] g
  then_moves :
      (g' g'' : FlowGovernance) (passed : List FlowLifecycle)
      → Route g passed g'
      → Moves g' g''
      → Route g (g'.lifecycle ∷ passed) g''

-- The lifecycle with a number.
abbrev of_number : ℕ → FlowLifecycle
of_number n =
    if nat_eq n 0
    then observed
    else if nat_eq n 1
    then suggested
    else if nat_eq n 2
    then draft
    else if nat_eq n 3
    then reviewed
    else if nat_eq n 4
    then active
    else if nat_eq n 5
    then ignored
    else archived

of_number-lifecycle_number : (l : FlowLifecycle) → of_number (lifecycle_number l) ≡ l
of_number-lifecycle_number observed = refl
of_number-lifecycle_number suggested = refl
of_number-lifecycle_number draft = refl
of_number-lifecycle_number reviewed = refl
of_number-lifecycle_number active = refl
of_number-lifecycle_number ignored = refl
of_number-lifecycle_number archived = refl

pub All-lifecycle_in :
    (P : FlowLifecycle → Type 0) (l : FlowLifecycle) (ls : List FlowLifecycle)
    → All P ls
    → lifecycle_in l ls ≡ true
    → P l
All-lifecycle_in P l [] all there = ground (arith, there)
All-lifecycle_in P l (m ∷ ls) (this, all) there =
    elim (Bool-cases (nat_eq (lifecycle_number m) (lifecycle_number l))) [
      | inl same ↦
          let number : lifecycle_number m ≡ lifecycle_number l = ground (arith, same) in
          subst P
            (sym (of_number-lifecycle_number m)
              ∙ ap of_number number
              ∙ of_number-lifecycle_number l)
            this
      | inr other ↦ All-lifecycle_in P l ls all (simp other at there)
    ]

-- A flow that nobody has reviewed yet.
abbrev pub is_candidate : FlowLifecycle → Bool
is_candidate observed = true
is_candidate suggested = true
is_candidate draft = true
is_candidate reviewed = false
is_candidate active = false
is_candidate ignored = true
is_candidate archived = false

abbrev pub is_active : FlowLifecycle → Bool
is_active observed = false
is_active suggested = false
is_active draft = false
is_active reviewed = false
is_active active = true
is_active ignored = false
is_active archived = false

-- What a transition to `target` says of where it comes from: only a draft is reviewed first, and
-- only a reviewed flow becomes active.
abbrev ComesFrom : FlowLifecycle → FlowLifecycle → Type 0
ComesFrom from target =
    (is_candidate from ≡ true → is_candidate target ≡ false → from ≡ draft)
    × (is_active target ≡ true → from ≡ reviewed)

transitions-ComesFrom : (from : FlowLifecycle) → All (ComesFrom from) (transitions from)
unfolding transitions
transitions-ComesFrom observed =
    ((λ c d. ground arith, λ a. ground arith), ((λ c d. ground arith, λ a. ground arith), tt))
transitions-ComesFrom suggested =
    ((λ c d. ground arith, λ a. ground arith), ((λ c d. ground arith, λ a. ground arith), tt))
transitions-ComesFrom draft =
    ((λ c d. refl, λ a. ground arith), ((λ c d. refl, λ a. ground arith), tt))
transitions-ComesFrom reviewed = (
  (λ c d. ground arith, λ a. refl),
  ((λ c d. ground arith, λ a. refl), ((λ c d. ground arith, λ a. refl), tt)),
)
transitions-ComesFrom active = ((λ c d. ground arith, λ a. ground arith), tt)
transitions-ComesFrom ignored = ((λ c d. ground arith, λ a. ground arith), tt)
transitions-ComesFrom archived = ((λ c d. ground arith, λ a. ground arith), tt)

Moves-ComesFrom : (g g' : FlowGovernance) → Moves g g' → ComesFrom g.lifecycle g'.lifecycle
unfolding transition_to
Moves-ComesFrom g g' (moves target reviewed_by review_notes same) =
    elim (Bool-cases (lifecycle_in target (transitions g.lifecycle))) [
      | inl there ↦
          subst (ComesFrom g.lifecycle) (ap (λ o. lifecycle_of target o) (simp there at same)) (
            All-lifecycle_in (ComesFrom g.lifecycle) target (transitions g.lifecycle)
              (transitions-ComesFrom g.lifecycle) there)
      | inr not_there ↦ ground (arith, simp not_there at same)
    ]
  where
    lifecycle_of : FlowLifecycle → Option FlowGovernance → FlowLifecycle
    lifecycle_of default none = default
    lifecycle_of default (some g) = g.lifecycle

-- The lifecycle is among those that were passed.
abbrev pub IsPassed : FlowLifecycle → List FlowLifecycle → Type 0
IsPassed l [] = ⊥
IsPassed l (m ∷ passed) = (m ≡ l) ⊎ IsPassed l passed

passes_draft :
    (g g' : FlowGovernance) (passed : List FlowLifecycle)
    → Route g passed g'
    → is_candidate g.lifecycle ≡ true
    → is_candidate g'.lifecycle ≡ false
    → IsPassed draft passed
passes_draft g _ _ stay start end = ground (arith, start, end)
passes_draft g _ _ (then_moves g' g'' passed path move) start end =
    elim (Bool-cases (is_candidate g'.lifecycle)) [
      | inl still ↦ inl ((Moves-ComesFrom g' g'' move).0 still end)
      | inr done ↦ inr (passes_draft g g' passed path start done)
    ]

-- No flow becomes active without a review: where transitions that are carried out lead from
-- a governance that nobody has reviewed to an active one, the last lifecycle before it is `reviewed`,
-- and a draft was there before that.
pub Route-IsPassed :
    (g g' : FlowGovernance) (passed : List FlowLifecycle)
    → Route g passed g'
    → is_candidate g.lifecycle ≡ true
    → is_active g'.lifecycle ≡ true
    → (earlier : List FlowLifecycle) × (passed ≡ reviewed ∷ earlier) × IsPassed draft earlier
Route-IsPassed g _ _ stay start end = ground (arith, start, end)
Route-IsPassed g _ _ (then_moves g' g'' passed path move) start end =
    let last = (Moves-ComesFrom g' g'' move).1 end in
    (passed, ap (λ l. l ∷ passed) last, passes_draft g g' passed path start (ap is_candidate last))
