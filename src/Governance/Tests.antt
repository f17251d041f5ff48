-- ===== src/Governance/Tests.antt =====
-- The theorem on the review lifecycle at a flow that is drafted, reviewed and activated.
use chain_weaver.Common.{none, some, List, [], ◌∷◌, ◌≡◌, refl}
use chain_weaver.Governance.{
  FlowLifecycle, suggested, draft, reviewed, active, FlowGovernance, transitions, transition_to,
}
use chain_weaver.Governance.Review.{Route, stay, then_moves, moves, IsPassed, Route-IsPassed}

abbrev at_stage : FlowLifecycle → FlowGovernance
at_stage lifecycle = record {
  lifecycle = lifecycle;
  owner = some "data-team";
  replaces_tools = [];
  estimated_model_calls_removed = 2;
  estimated_token_savings = none;
  reviewed_by = none;
  review_notes = none;
}

abbrev promotion : List FlowLifecycle
promotion = reviewed ∷ draft ∷ suggested ∷ []

promoted : Route (at_stage suggested) promotion (at_stage active)
unfolding transition_to transitions
promoted =
    then_moves (at_stage reviewed) (at_stage active) (draft ∷ suggested ∷ [])
      (then_moves (at_stage draft) (at_stage reviewed) (suggested ∷ [])
        (then_moves (at_stage suggested) (at_stage draft) [] stay (moves draft none none refl))
        (moves reviewed none none refl))
      (moves active none none refl)

Route-IsPassed_example :
    (earlier : List FlowLifecycle) × (reviewed ∷ draft ∷ suggested ∷ [] ≡ reviewed ∷ earlier)
    × IsPassed draft earlier
Route-IsPassed_example =
    Route-IsPassed (at_stage suggested) (at_stage active) promotion promoted refl refl
