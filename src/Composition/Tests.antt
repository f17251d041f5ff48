-- ===== src/Composition/Tests.antt =====
-- The theorems on composed flows at three flows, one of which closes a cycle.
use chain_weaver.Common.{
  String, true, Option, none, some, List, [], ◌∷◌, ◌≡◌, ◌↔◌, refl, ◌==◌, if◌then◌else◌,
}
use chain_weaver.Composition.{
  accepted, rejected, cycle, max_depth_exceeded, each, enter_found, enter, visit,
  validate_composition,
}
use chain_weaver.Composition.Ended.{has_ended, validate_composition-ended}
use chain_weaver.Composition.Nested.{IsComposable, validate_composition_iff}

-- `report` uses `load`, and `again` uses itself.
abbrev get_named : String → Option (List (Option String))
get_named name =
    if name == "report"
    then some (none ∷ some "load" ∷ [])
    else if name == "load"
    then some (none ∷ [])
    else if name == "again"
    then some (some "again" ∷ [])
    else none

runs :
    (validate_composition get_named 2 "daily" (some "report" ∷ none ∷ []) ≡ accepted)
    × (validate_composition get_named 1 "daily" (some "report" ∷ none ∷ [])
        ≡ rejected (max_depth_exceeded ("load" ∷ "report" ∷ "daily" ∷ [])))
    × (validate_composition get_named 5 "daily" (some "again" ∷ [])
        ≡ rejected (cycle ("again" ∷ "again" ∷ "daily" ∷ [])))
unfolding validate_composition visit each enter enter_found
runs = (refl, refl, refl)

validate_composition-ended_example :
    has_ended (validate_composition get_named 5 "daily" (some "again" ∷ [])) ≡ true
validate_composition-ended_example =
    validate_composition-ended get_named 5 "daily" (some "again" ∷ [])

validate_composition_iff_example :
    (validate_composition get_named 2 "daily" (some "report" ∷ none ∷ []) ≡ accepted)
    ↔ IsComposable get_named 2 ("daily" ∷ []) (some "report" ∷ none ∷ [])
validate_composition_iff_example =
    validate_composition_iff get_named 2 "daily" (some "report" ∷ none ∷ [])
