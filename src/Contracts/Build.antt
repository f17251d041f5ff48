-- ===== src/Contracts/Build.antt =====
-- Construction of a contract from a payload: `_normalise_input`, the defaults of the fields, and
-- `_validate_read_only`. A payload lists the keys that the caller gave.
use mathlib.Core.Bool.{xor}
use mathlib.Core.Option.{get_or}
use chain_weaver.Common.{
  String, Bool, true, false, Option, none, some, ◌≡◌, ◌≢◌, refl, arith, Bool-cases, inl, inr,
  if◌then◌else◌,
}
use chain_weaver.Contracts.Levels.{
  SideEffectLevel, no_effects, StabilityLevel, stable, DeterminismLevel, full, ToolSafetyContract,
  only_reads,
}

pub record Payload : Type 0 where
  pub side_effects : Option SideEffectLevel
  pub read_only : Option Bool
  pub stability : Option StabilityLevel
  pub determinism_level : Option DeterminismLevel
  pub idempotent : Option Bool
  pub cacheable : Option Bool
  pub safe_to_retry : Option Bool
  pub supports_dry_run : Option Bool
  pub requires_approval : Option Bool
  -- the deprecated alias of `requires_approval`
  pub requires_review : Option Bool
  pub approval_reason : Option String

pub data Built : Type 0 where
  contract : ToolSafetyContract → Built
  review_conflict read_only_conflict : Built

-- The value of `requires_approval` after the alias is folded in; `none` is the ValueError.
fold_review : Option Bool → Option Bool → Option (Option Bool)
unfolding xor
fold_review approval none = some approval
fold_review none (some legacy) = some (some legacy)
fold_review (some given) (some legacy) = if xor given legacy then none else some (some given)

-- `_validate_read_only`
validate_read_only : ToolSafetyContract → Built
unfolding xor
validate_read_only c =
    if xor c.read_only (only_reads c.side_effects) then read_only_conflict else contract c

abbrev filled : Payload → Option Bool → ToolSafetyContract
filled p approval =
    let side_effects = get_or p.side_effects no_effects in
    record {
      side_effects = side_effects;
      read_only = get_or p.read_only (only_reads side_effects);
      stability = get_or p.stability stable;
      determinism_level = get_or p.determinism_level full;
      idempotent = get_or p.idempotent true;
      cacheable = get_or p.cacheable true;
      safe_to_retry = get_or p.safe_to_retry true;
      supports_dry_run = get_or p.supports_dry_run false;
      requires_approval = get_or approval false;
      approval_reason = p.approval_reason;
    }

build_from : Payload → Option (Option Bool) → Built
build_from p none = review_conflict
build_from p (some approval) = validate_read_only (filled p approval)

-- ToolSafetyContract(**payload)
unfoldable pub build : Payload → Built
unfolding build_from fold_review validate_read_only
build p = build_from p (fold_review p.requires_approval p.requires_review)

abbrev pub empty_payload : Payload
empty_payload = record {
  side_effects = none;
  read_only = none;
  stability = none;
  determinism_level = none;
  idempotent = none;
  cacheable = none;
  safe_to_retry = none;
  supports_dry_run = none;
  requires_approval = none;
  requires_review = none;
  approval_reason = none;
}

-- The two keys of a payload for the approval gate agree with the value that is built.
abbrev pub Agrees : Option Bool → Bool → Type 0
Agrees none b = Unit
Agrees (some a) b = b ≡ a

fold_review-Agrees :
    (approval review folded : Option Bool)
    → fold_review approval review ≡ some folded
    → Agrees approval (get_or folded false) × Agrees review (get_or folded false)
unfolding fold_review
fold_review-Agrees none none folded h = (tt, tt)
fold_review-Agrees (some true) none folded h = ground arith
fold_review-Agrees (some false) none folded h = ground arith
fold_review-Agrees none (some true) folded h = ground arith
fold_review-Agrees none (some false) folded h = ground arith
fold_review-Agrees (some true) (some true) folded h = ground arith
fold_review-Agrees (some true) (some false) folded h = ground arith
fold_review-Agrees (some false) (some true) folded h = ground arith
fold_review-Agrees (some false) (some false) folded h = ground arith

fold_review-eq_none :
    (approval review : Option Bool)
    → fold_review approval review ≡ none
    → (a : Bool) × (b : Bool) × (approval ≡ some a) × (review ≡ some b) × (a ≢ b)
unfolding fold_review
fold_review-eq_none approval none h = ground arith
fold_review-eq_none none (some b) h = ground arith
fold_review-eq_none (some true) (some true) h = ground arith
fold_review-eq_none (some false) (some false) h = ground arith
fold_review-eq_none (some true) (some false) h = (true, false, refl, refl, λ e. ground arith)
fold_review-eq_none (some false) (some true) h = (false, true, refl, refl, λ e. ground arith)

-- What a payload comes to: a contract that has the payload's side effects, whose `read_only` says
-- whether these are at most reads, and whose `requires_approval` agrees with both keys for it; or
-- an error, where the two keys differ or the given `read_only` contradicts the side effects.
pub data Verdict (p : Payload) : Built → Type 0 where
  accepted :
      (c : ToolSafetyContract)
      → c.side_effects ≡ get_or p.side_effects no_effects
      → c.read_only ≡ only_reads c.side_effects
      → Agrees p.requires_approval c.requires_approval
      → Agrees p.requires_review c.requires_approval
      → Verdict p (contract c)
  review_refused :
      (a b : Bool)
      → p.requires_approval ≡ some a
      → p.requires_review ≡ some b
      → a ≢ b
      → Verdict p review_conflict
  read_only_refused :
      (given : Bool)
      → p.read_only ≡ some given
      → given ≢ only_reads (get_or p.side_effects no_effects)
      → Verdict p read_only_conflict

xor→≢ : (a b : Bool) → xor a b ≡ true → a ≢ b
unfolding xor
xor→≢ true true h e = ground arith
xor→≢ true false h e = ground arith
xor→≢ false true h e = ground arith
xor→≢ false false h e = ground arith

xor→≡ : (a b : Bool) → xor a b ≡ false → a ≡ b
unfolding xor
xor→≡ true true h = refl
xor→≡ true false h = ground arith
xor→≡ false true h = ground arith
xor→≡ false false h = refl

given-read_only :
    (given : Option Bool) (derived : Bool)
    → get_or given derived ≢ derived
    → (b : Bool) × (given ≡ some b) × (b ≢ derived)
given-read_only none derived ne = absurd (ne refl)
given-read_only (some b) derived ne = (b, refl, ne)

validate_read_only-Verdict :
    (p : Payload) (folded : Option Bool)
    → Agrees p.requires_approval (get_or folded false)
      × Agrees p.requires_review (get_or folded false)
    → Verdict p (validate_read_only (filled p folded))
unfolding validate_read_only
validate_read_only-Verdict p folded (approval, review) =
    elim (Bool-cases
      (xor (filled p folded).read_only (only_reads (filled p folded).side_effects))) [
        | inl differ ↦
            let (b, given, ne) = given-read_only p.read_only _ (xor→≢ _ _ differ) in
            simp differ (read_only_refused b given ne)
        | inr same ↦ simp same (accepted (filled p folded) refl (xor→≡ _ _ same) approval review)
      ]

build_from-Verdict :
    (p : Payload) (folded : Option (Option Bool))
    → fold_review p.requires_approval p.requires_review ≡ folded
    → Verdict p (build_from p folded)
unfolding build_from
build_from-Verdict p none e =
    let (a, b, approval, review, ne) =
      fold_review-eq_none p.requires_approval p.requires_review e in
    review_refused a b approval review ne
build_from-Verdict p (some folded) e =
    validate_read_only-Verdict p folded
      (fold_review-Agrees p.requires_approval p.requires_review folded e)

-- Every payload gets the contract or the error that it deserves: a contract with the payload's side
-- effects, a `read_only` that says whether these are at most reads and a `requires_approval` that
-- agrees with both keys for it; a review conflict only where the two keys differ; and a read-only
-- conflict only where the given `read_only` contradicts the side effects.
pub build-Verdict : (p : Payload) → Verdict p (build p)
unfolding build
build-Verdict p = build_from-Verdict p (fold_review p.requires_approval p.requires_review) refl
