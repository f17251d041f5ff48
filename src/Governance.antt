-- ===== src/Governance.antt =====
-- The review lifecycle of chainweaver/flow/governance.py.
pub mod Review
mod Tests
use chain_weaver.Common.{
  ℕ, String, Bool, true, false, Option, none, some, List, [], ◌∷◌, any, nat_eq, if◌then◌else◌,
}

pub data FlowLifecycle : Type 0 where
  observed suggested draft reviewed active ignored archived : FlowLifecycle

abbrev pub lifecycle_number : FlowLifecycle → ℕ
lifecycle_number observed = 0
lifecycle_number suggested = 1
lifecycle_number draft = 2
lifecycle_number reviewed = 3
lifecycle_number active = 4
lifecycle_number ignored = 5
lifecycle_number archived = 6

abbrev pub lifecycle_in : FlowLifecycle → List FlowLifecycle → Bool
lifecycle_in l ls = any (λ m. nat_eq (lifecycle_number m) (lifecycle_number l)) ls

-- _LIFECYCLE_TRANSITIONS
unfoldable pub transitions : FlowLifecycle → List FlowLifecycle
transitions observed = suggested ∷ ignored ∷ []
transitions suggested = draft ∷ ignored ∷ []
transitions draft = reviewed ∷ ignored ∷ []
transitions reviewed = draft ∷ active ∷ archived ∷ []
transitions active = archived ∷ []
transitions ignored = suggested ∷ []
transitions archived = reviewed ∷ []

pub record FlowGovernance : Type 0 where
  pub lifecycle : FlowLifecycle
  pub owner : Option String
  pub replaces_tools : List String
  pub estimated_model_calls_removed : ℕ
  pub estimated_token_savings : Option ℕ
  pub reviewed_by : Option String
  pub review_notes : Option String

abbrev pub given {ℓ} : {A : Type ℓ} → Option A → Option A → Option A
given none old = old
given (some new) old = some new

-- `transition_to`; `none` is ValueError.
unfoldable pub transition_to :
    FlowGovernance
    → FlowLifecycle
    → (reviewed_by review_notes : Option String) → Option FlowGovernance
unfolding transitions
transition_to g target reviewed_by review_notes =
    if lifecycle_in target (transitions g.lifecycle)
    then some (record g {
      lifecycle = target;
      reviewed_by = given reviewed_by g.reviewed_by;
      review_notes = given review_notes g.review_notes;
    })
    else none
