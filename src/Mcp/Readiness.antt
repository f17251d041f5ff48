-- ===== src/Mcp/Readiness.antt =====
-- Server profiles and their readiness check, and the text of an error at the boundary, of
-- chainweaver/mcp/security.py.
pub mod Verdict
use chain_weaver.Common.{
  ℕ, String, Bool, true, false, Option, none, some, List, [], ◌∷◌, ◌++◌, ◌==◌, ◌&&◌, not, any,
  nat_eq, if◌then◌else◌,
}
use Prim.Native.String.{◌++◌ as append}
use chain_weaver.Contracts.Levels.{
  SideEffectLevel, no_effects, read, write, external, destructive, side_effect_order,
}
use chain_weaver.Governance.{FlowLifecycle, active, reviewed}

pub data ErrorDetail : Type 0 where
  full_detail type_only generic : ErrorDetail

abbrev detail_number : ErrorDetail → ℕ
detail_number full_detail = 0
detail_number type_only = 1
detail_number generic = 2

abbrev pub detail_eq : ErrorDetail → ErrorDetail → Bool
detail_eq a b = nat_eq (detail_number a) (detail_number b)

-- GENERIC_ERROR_MESSAGE
abbrev pub generic_error_message : String
generic_error_message = "The flow failed; contact the server operator for details."

-- `text or default`
abbrev pub or_else : Option String → String → String
or_else none default = default
or_else (some text) default = if text == "" then default else text

abbrev pub redacted : Option (String → String) → String → String
redacted none message = message
redacted (some redact_text) message = redact_text message

unfoldable pub with_message : String → String → String
with_message kind message = if message == "" then kind else append kind (append ": " message)

-- `render_error_detail`, with the redaction of texts as a parameter.
unfoldable pub render_error_detail :
    (error_type error_message : Option String) → ErrorDetail → Option (String → String) → String
unfolding with_message
render_error_detail error_type error_message generic redaction = generic_error_message
render_error_detail error_type error_message type_only redaction =
    or_else error_type "FlowExecutionError"
render_error_detail error_type error_message full_detail redaction =
    with_message (or_else error_type "FlowExecutionError")
      (redacted redaction (or_else error_message ""))

-- MCPServerProfile
pub record McpServerProfile : Type 0 where
  pub name : String
  pub allowed_lifecycles : List FlowLifecycle
  pub allowed_side_effects : List SideEffectLevel
  pub allow_requires_approval : Bool
  pub force_expose : Bool
  pub error_detail : ErrorDetail
  pub require_authorizer : Bool
  pub require_authenticator : Bool
  pub require_rate_limiter : Bool

abbrev pub strict : McpServerProfile
strict = record {
  name = "strict";
  allowed_lifecycles = active ∷ [];
  allowed_side_effects = no_effects ∷ read ∷ [];
  allow_requires_approval = false;
  force_expose = false;
  error_detail = generic;
  require_authorizer = true;
  require_authenticator = true;
  require_rate_limiter = false;
}

abbrev pub balanced : McpServerProfile
balanced = record {
  name = "balanced";
  allowed_lifecycles = active ∷ [];
  allowed_side_effects = no_effects ∷ read ∷ [];
  allow_requires_approval = false;
  force_expose = false;
  error_detail = type_only;
  require_authorizer = false;
  require_authenticator = false;
  require_rate_limiter = false;
}

abbrev pub trusted_network : McpServerProfile
trusted_network = record {
  name = "trusted-network";
  allowed_lifecycles = active ∷ reviewed ∷ [];
  allowed_side_effects = no_effects ∷ read ∷ write ∷ [];
  allow_requires_approval = true;
  force_expose = false;
  error_detail = full_detail;
  require_authorizer = false;
  require_authenticator = false;
  require_rate_limiter = false;
}

-- `named`; `none` is ValueError.
unfoldable pub named : String → Option McpServerProfile
named name =
    if name == "strict"
    then some strict
    else if name == "balanced"
    then some balanced
    else if name == "trusted-network"
    then some trusted_network
    else none

pub data Severity : Type 0 where
  error_finding warning_finding info_finding : Severity

-- ReadinessFinding. Its message is made from the code and from what the check is given.
pub record ReadinessFinding : Type 0 where
  pub severity : Severity
  pub code : String

abbrev finding : Severity → String → ReadinessFinding
finding severity code = record { severity = severity; code = code }

abbrev pub level_in : SideEffectLevel → List SideEffectLevel → Bool
level_in level levels = any (λ l. nat_eq (side_effect_order l) (side_effect_order level)) levels

-- `side_effects_over_ceiling` is not empty.
unfoldable pub side_effects_over_ceiling : List SideEffectLevel → List SideEffectLevel → Bool
side_effects_over_ceiling allowed exposed = any (λ l. not (level_in l allowed)) exposed

-- One `if ...: findings.append(...)`
abbrev pub when : Bool → Severity → String → List ReadinessFinding
when true severity code = finding severity code ∷ []
when false severity code = []

abbrev pub or_ready : List ReadinessFinding → List ReadinessFinding
or_ready [] = finding info_finding "ready" ∷ []
or_ready (f ∷ findings) = f ∷ findings

module _ (profile : McpServerProfile) (has_authorizer has_authenticator has_rate_limiter : Bool)
    (error_detail : ErrorDetail) (exposed : List SideEffectLevel) where
  abbrev pub no_authorizer : Bool
  no_authorizer = profile.require_authorizer && not has_authorizer

  abbrev pub no_authenticator : Bool
  no_authenticator = profile.require_authenticator && not has_authenticator

  abbrev pub no_rate_limiter : Bool
  no_rate_limiter = profile.require_rate_limiter && not has_rate_limiter

  unfoldable pub evaluate_readiness : List ReadinessFinding
  unfolding side_effects_over_ceiling
  evaluate_readiness = or_ready (
      when no_authorizer error_finding "missing-authorizer"
      ++ (when no_authenticator error_finding "missing-authenticator"
          ++ (when no_rate_limiter warning_finding "missing-rate-limiter"
              ++ (when (not (detail_eq error_detail profile.error_detail)) warning_finding
                    "error-detail-relaxed"
                  ++ when (side_effects_over_ceiling profile.allowed_side_effects exposed)
                      error_finding "side-effects-over-ceiling"))))
