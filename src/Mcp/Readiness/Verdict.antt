-- ===== src/Mcp/Readiness/Verdict.antt =====
-- What the readiness check finds.
use chain_weaver.Common.{
  String, Bool, true, false, List, [], ◌∷◌, ◌++◌, ◌≡◌, refl, ◌∙◌, arith, ◌&&◌, ◌||◌, not, any,
  nat_eq,
}
use chain_weaver.Contracts.Levels.{SideEffectLevel, side_effect_order}
use chain_weaver.Mcp.Readiness.{
  ErrorDetail, McpServerProfile, Severity, error_finding, warning_finding, info_finding,
  ReadinessFinding, detail_eq, side_effects_over_ceiling, when, or_ready, evaluate_readiness,
}

-- A level of the list has the level's place in the order.
abbrev pub is_listed : SideEffectLevel → List SideEffectLevel → Bool
is_listed level [] = false
is_listed level (l ∷ levels) =
    nat_eq (side_effect_order l) (side_effect_order level) || is_listed level levels

-- A finding that blocks the deployment, and one that is not only informational.
abbrev pub is_blocking : ReadinessFinding → Bool
is_blocking f = elim f.severity [
  | error_finding ↦ true
  | warning_finding ↦ false
  | info_finding ↦ false
]

abbrev pub is_advice : ReadinessFinding → Bool
is_advice f = elim f.severity [
  | error_finding ↦ false
  | warning_finding ↦ true
  | info_finding ↦ false
]

any-append :
    (p : ReadinessFinding → Bool) (xs ys : List ReadinessFinding)
    → any p (xs ++ ys) ≡ (any p xs || any p ys)
any-append p [] ys = refl
any-append p (x ∷ xs) ys = ground (arith, any-append p xs ys)

any-or_ready :
    (p : ReadinessFinding → Bool) (fs : List ReadinessFinding)
    → p (record { severity = info_finding; code = "ready" }) ≡ false
    → any p (or_ready fs) ≡ any p fs
any-or_ready p [] not_so = simp not_so refl
any-or_ready p (f ∷ fs) not_so = refl

any-when :
    (p : ReadinessFinding → Bool) (b : Bool) (severity : Severity) (code : String)
    → any p (when b severity code) ≡ (b && p (record { severity = severity; code = code }))
any-when p true severity code = ground arith
any-when p false severity code = refl

module _ (profile : McpServerProfile) (has_authorizer has_authenticator has_rate_limiter : Bool)
    (error_detail : ErrorDetail) (exposed : List SideEffectLevel) where
  -- The check blocks a deployment exactly where a hook that the profile requires is missing or
  -- side effects are exposed that are not among those that the profile allows, and it advises something exactly where
  -- a limiter that the profile requires is missing or the error detail is not that of the profile.
  pub evaluate_readiness-any :
      (any is_blocking (
          evaluate_readiness profile has_authorizer has_authenticator has_rate_limiter error_detail
            exposed)
        ≡ (profile.require_authorizer && not has_authorizer
            || (profile.require_authenticator && not has_authenticator
                || any (λ level. not (is_listed level profile.allowed_side_effects)) exposed)))
      × (any is_advice (
            evaluate_readiness profile has_authorizer has_authenticator has_rate_limiter
              error_detail exposed)
          ≡ (profile.require_rate_limiter && not has_rate_limiter
              || not (detail_eq error_detail profile.error_detail)))
  unfolding evaluate_readiness side_effects_over_ceiling
  evaluate_readiness-any =
      go (profile.require_authorizer && not has_authorizer)
        (profile.require_authenticator && not has_authenticator)
        (profile.require_rate_limiter && not has_rate_limiter)
        (not (detail_eq error_detail profile.error_detail))
        (any (λ level. not (is_listed level profile.allowed_side_effects)) exposed)
    where
      findings : (a b c d e : Bool) → List ReadinessFinding
      findings a b c d e =
          when a error_finding "missing-authorizer"
          ++ (when b error_finding "missing-authenticator"
              ++ (when c warning_finding "missing-rate-limiter"
                  ++ (when d warning_finding "error-detail-relaxed"
                      ++ when e error_finding "side-effects-over-ceiling")))

      go :
          (a b c d e : Bool)
          → (any is_blocking (or_ready (findings a b c d e)) ≡ (a || (b || e)))
            × (any is_advice (or_ready (findings a b c d e)) ≡ (c || d))
      go a b c d e = (
        any-or_ready is_blocking (findings a b c d e) refl
            ∙ simp (any-append, any-when) (ground arith),
        any-or_ready is_advice (findings a b c d e) refl
            ∙ simp (any-append, any-when) (ground arith),
      )
