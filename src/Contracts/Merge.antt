-- ===== src/Contracts/Merge.antt =====
-- `merge_safety` of chainweaver/contracts.py: the most restrictive contract over several.
use Prim.Native.String.{◌++◌ as text_append}
use mathlib.Core.Option.{get_or}
use chain_weaver.Common.{
  ℕ, ◌≤◌, String, Bool, Option, none, some, List, [], ◌∷◌, ◌≡◌, refl, arith, ◌||◌, ◌∙◌, not, ap,
  ltb, all, any, map, contains, ◌==◌, if◌then◌else◌,
}
use chain_weaver.Contracts.Levels.{
  SideEffectLevel, no_effects, read, write, external, destructive, side_effect_order,
  stability_order, determinism_order, ToolSafetyContract, only_reads, side_effect_exceeds,
}
use chain_weaver.Contracts.Build.{Built, contract, Payload, build, empty_payload}

abbrev C : Type 0
C = ToolSafetyContract

module _ {ℓ} {A : Type ℓ} (order : A → ℕ) where
  -- `max(best, *items, key=order)`: the first item of the greatest rank.
  max_by : A → List A → A
  max_by best [] = best
  max_by best (x ∷ xs) = max_by (if ltb (order best) (order x) then x else best) xs

  max_by_ge : (best : A) (xs : List A) → order best ≤ order (max_by best xs)
  unfolding max_by
  max_by_ge best [] = omega arith
  max_by_ge best (x ∷ xs) =
      ground (arith, max_by_ge (if ltb (order best) (order x) then x else best) xs)

  -- What lies above a bound, somewhere among the items, is what the maximum has.
  max_by_exceeds :
      (bound : ℕ) (best : A) (xs : List A)
      → ltb bound (order (max_by best xs))
        ≡ (ltb bound (order best) || any (λ x. ltb bound (order x)) xs)
  unfolding max_by
  max_by_exceeds bound best [] = ground arith
  max_by_exceeds bound best (x ∷ xs) =
      ground (arith, max_by_exceeds bound (if ltb (order best) (order x) then x else best) xs)

-- `dict.fromkeys(c.approval_reason for c in contracts if c.requires_approval and c.approval_reason)`
reasons_from : List String → List C → List String
reasons_from seen [] = []
reasons_from seen (c ∷ cs) =
    let reason = get_or c.approval_reason "" in
    let skip = reasons_from seen cs in
    let keep = reason ∷ reasons_from (reason ∷ seen) cs in
    if c.requires_approval
    then (if reason == "" then skip else if contains reason seen then skip else keep)
    else skip

-- `"; ".join(reasons)`
join_reasons : List String → String
join_reasons [] = ""
join_reasons (r ∷ []) = r
join_reasons (r ∷ s ∷ rs) = text_append r (text_append "; " (join_reasons (s ∷ rs)))

approval_reason_of : List C → Option String
unfolding reasons_from join_reasons
approval_reason_of cs =
    let joined = join_reasons (reasons_from [] cs) in if joined == "" then none else some joined

-- The payload that `merge_safety` hands to the constructor; `read_only` is left to its validator.
merged_payload : C → List C → Payload
unfolding max_by approval_reason_of
merged_payload c cs = record empty_payload {
  side_effects = some (max_by side_effect_order c.side_effects (map (λ d. d.side_effects) cs));
  stability = some (max_by stability_order c.stability (map (λ d. d.stability) cs));
  determinism_level =
      some (max_by determinism_order c.determinism_level (map (λ d. d.determinism_level) cs));
  idempotent = some (all (λ d. d.idempotent) (c ∷ cs));
  cacheable = some (all (λ d. d.cacheable) (c ∷ cs));
  safe_to_retry = some (all (λ d. d.safe_to_retry) (c ∷ cs));
  supports_dry_run = some (all (λ d. d.supports_dry_run) (c ∷ cs));
  requires_approval = some (any (λ d. d.requires_approval) (c ∷ cs));
  approval_reason = approval_reason_of (c ∷ cs);
}

-- The default contract is the one that is built from no keys.
unfoldable pub merge_safety : List C → Option C → Built
unfolding build merged_payload
merge_safety [] none = build empty_payload
merge_safety [] (some default) = contract default
merge_safety (c ∷ cs) default = build (merged_payload c cs)

-- A contract is the worst case of several: it passes a bound on a rank exactly if one of them does,
-- asks for approval exactly if one of them does, and grants what all of them grant.
pub record IsMostRestrictive (cs : List C) (m : C) : Type 0 where
  pub ceiling :
      (limit : SideEffectLevel)
      → side_effect_exceeds m.side_effects limit
        ≡ any (λ c. side_effect_exceeds c.side_effects limit) cs
  pub stability :
      (bound : ℕ)
      → ltb bound (stability_order m.stability)
        ≡ any (λ c. ltb bound (stability_order c.stability)) cs
  pub determinism :
      (bound : ℕ)
      → ltb bound (determinism_order m.determinism_level)
        ≡ any (λ c. ltb bound (determinism_order c.determinism_level)) cs
  pub read_only : m.read_only ≡ all (λ c. only_reads c.side_effects) cs
  pub requires_approval : m.requires_approval ≡ any (λ c. c.requires_approval) cs
  pub idempotent : m.idempotent ≡ all (λ c. c.idempotent) cs
  pub cacheable : m.cacheable ≡ all (λ c. c.cacheable) cs
  pub safe_to_retry : m.safe_to_retry ≡ all (λ c. c.safe_to_retry) cs
  pub supports_dry_run : m.supports_dry_run ≡ all (λ c. c.supports_dry_run) cs

any-map {ℓ κ} :
    {A : Type ℓ} {B : Type κ} (p : B → Bool) (f : A → B) (xs : List A)
    → any p (map f xs) ≡ any (λ x. p (f x)) xs
any-map p f [] = refl
any-map p f (x ∷ xs) = rw (any-map p f xs)

-- The maximum of a field over the contracts passes a bound exactly if the field of one does.
max_field_exceeds {ℓ} :
    {A : Type ℓ} (order : A → ℕ) (field : C → A) (bound : ℕ) (c : C) (cs : List C)
    → ltb bound (order (max_by order (field c) (map field cs)))
      ≡ any (λ d. ltb bound (order (field d))) (c ∷ cs)
max_field_exceeds order field bound c cs =
    max_by_exceeds order bound (field c) (map field cs)
    ∙ ap (λ b. ltb bound (order (field c)) || b) (any-map (λ x. ltb bound (order x)) field cs)

only_reads-eq : (l : SideEffectLevel) → only_reads l ≡ not (ltb 1 (side_effect_order l))
only_reads-eq no_effects = refl
only_reads-eq read = refl
only_reads-eq write = refl
only_reads-eq external = refl
only_reads-eq destructive = refl

not-any-only_reads :
    (cs : List C)
    → not (any (λ c. ltb 1 (side_effect_order c.side_effects)) cs)
      ≡ all (λ c. only_reads c.side_effects) cs
not-any-only_reads [] = refl
not-any-only_reads (c ∷ cs) = ground (arith, not-any-only_reads cs, only_reads-eq c.side_effects)

-- The contract over at least one contract: `read_only` follows from the merged side effects.
abbrev merged : C → List C → C
merged c cs = record {
  side_effects = max_by side_effect_order c.side_effects (map (λ d. d.side_effects) cs);
  read_only = only_reads (max_by side_effect_order c.side_effects (map (λ d. d.side_effects) cs));
  stability = max_by stability_order c.stability (map (λ d. d.stability) cs);
  determinism_level =
      max_by determinism_order c.determinism_level (map (λ d. d.determinism_level) cs);
  idempotent = all (λ d. d.idempotent) (c ∷ cs);
  cacheable = all (λ d. d.cacheable) (c ∷ cs);
  safe_to_retry = all (λ d. d.safe_to_retry) (c ∷ cs);
  supports_dry_run = all (λ d. d.supports_dry_run) (c ∷ cs);
  requires_approval = any (λ d. d.requires_approval) (c ∷ cs);
  approval_reason = approval_reason_of (c ∷ cs);
}

merge_safety-eq :
    (c : C) (cs : List C) (default : Option C)
    → merge_safety (c ∷ cs) default ≡ contract (merged c cs)
unfolding merge_safety
merge_safety-eq c cs default = ground arith

-- Over at least one contract `merge_safety` succeeds, whatever the default, and what it returns is
-- the worst case of the contracts.
pub merge_safety-IsMostRestrictive :
    (c : C) (cs : List C) (default : Option C)
    → (m : C) × (merge_safety (c ∷ cs) default ≡ contract m) × IsMostRestrictive (c ∷ cs) m
unfolding side_effect_exceeds
merge_safety-IsMostRestrictive c cs default = (
  merged c cs,
  merge_safety-eq c cs default,
  record {
    ceiling = λ limit.
        max_field_exceeds side_effect_order (λ d. d.side_effects) (side_effect_order limit) c cs;
    stability = λ bound. max_field_exceeds stability_order (λ d. d.stability) bound c cs;
    determinism =
        λ bound. max_field_exceeds determinism_order (λ d. d.determinism_level) bound c cs;
    read_only =
        only_reads-eq (merged c cs).side_effects
        ∙ ap not (max_field_exceeds side_effect_order (λ d. d.side_effects) 1 c cs)
        ∙ not-any-only_reads (c ∷ cs);
    requires_approval = refl;
    idempotent = refl;
    cacheable = refl;
    safe_to_retry = refl;
    supports_dry_run = refl;
  },
)
