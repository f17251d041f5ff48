-- ===== src/Contracts/Levels.antt =====
-- The level enums of chainweaver/contracts.py, their ranks, and ToolSafetyContract.
use chain_weaver.Common.{ℕ, String, Bool, true, false, Option, ltb}

-- SideEffectLevel; `no_effects` is its NONE.
pub data SideEffectLevel : Type 0 where
  no_effects read write external destructive : SideEffectLevel

-- _SIDE_EFFECT_ORDER
abbrev pub side_effect_order : SideEffectLevel → ℕ
side_effect_order no_effects = 0
side_effect_order read = 1
side_effect_order write = 2
side_effect_order external = 3
side_effect_order destructive = 4

pub data StabilityLevel : Type 0 where
  stable best_effort unstable : StabilityLevel

-- _STABILITY_ORDER
abbrev pub stability_order : StabilityLevel → ℕ
stability_order stable = 0
stability_order best_effort = 1
stability_order unstable = 2

-- DeterminismLevel; `undetermined` is its NONE.
pub data DeterminismLevel : Type 0 where
  full partial undetermined : DeterminismLevel

-- _DETERMINISM_ORDER
abbrev pub determinism_order : DeterminismLevel → ℕ
determinism_order full = 0
determinism_order partial = 1
determinism_order undetermined = 2

pub record ToolSafetyContract : Type 0 where
  pub side_effects : SideEffectLevel
  pub read_only : Bool
  pub stability : StabilityLevel
  pub determinism_level : DeterminismLevel
  pub idempotent : Bool
  pub cacheable : Bool
  pub safe_to_retry : Bool
  pub supports_dry_run : Bool
  pub requires_approval : Bool
  pub approval_reason : Option String

-- `side_effects in {SideEffectLevel.NONE, SideEffectLevel.READ}`
abbrev pub only_reads : SideEffectLevel → Bool
only_reads no_effects = true
only_reads read = true
only_reads write = false
only_reads external = false
only_reads destructive = false

unfoldable pub side_effect_exceeds : SideEffectLevel → SideEffectLevel → Bool
side_effect_exceeds level ceiling = ltb (side_effect_order ceiling) (side_effect_order level)
