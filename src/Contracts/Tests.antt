-- ===== src/Contracts/Tests.antt =====
-- The theorems on contracts at concrete contracts.
use chain_weaver.Common.{true, false, none, some, [], ◌∷◌, ◌≡◌, refl}
use chain_weaver.Contracts.Levels.{write, read, stable, unstable, full, ToolSafetyContract}
use chain_weaver.Contracts.Build.{
  Payload, contract, review_conflict, read_only_conflict, empty_payload, build, Verdict,
  build-Verdict,
}
use chain_weaver.Contracts.Merge.{merge_safety, IsMostRestrictive, merge_safety-IsMostRestrictive}

abbrev lookup_contract : ToolSafetyContract
lookup_contract = record {
  side_effects = read;
  read_only = true;
  stability = unstable;
  determinism_level = full;
  idempotent = true;
  cacheable = true;
  safe_to_retry = true;
  supports_dry_run = false;
  requires_approval = false;
  approval_reason = none;
}

abbrev post_contract : ToolSafetyContract
post_contract = record lookup_contract {
  side_effects = write;
  read_only = false;
  stability = stable;
  safe_to_retry = false;
  requires_approval = true;
  approval_reason = some "posts to the ledger";
}

abbrev reviewed : Payload
reviewed = record empty_payload { side_effects = some write; requires_review = some true }

-- The two errors of a payload.
refused_payloads :
    (build (record reviewed { requires_approval = some false }) ≡ review_conflict)
    × (build (record reviewed { read_only = some true }) ≡ read_only_conflict)
unfolding build
refused_payloads = (refl, refl)

merge_safety-IsMostRestrictive_example :
    (m : ToolSafetyContract) × (merge_safety (lookup_contract ∷ post_contract ∷ []) none
      ≡ contract m)
    × IsMostRestrictive (lookup_contract ∷ post_contract ∷ []) m
merge_safety-IsMostRestrictive_example =
    merge_safety-IsMostRestrictive lookup_contract (post_contract ∷ []) none

build-Verdict_example : Verdict reviewed (build reviewed)
build-Verdict_example = build-Verdict reviewed
