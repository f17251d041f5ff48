-- ===== src/Mcp/Gate/Verdict/Hooks.antt =====
-- What each hook of the gate comes to.
use chain_weaver.Common.{
  String, Bool, true, false, Option, none, some, [], ◌++◌, ◌≡◌, refl, sym, ap, subst, ◌∙◌, inl, inr,
  append_nil, arith, Bool-cases,
}
use chain_weaver.Mcp.Gate.{
  CallerIdentity, AuthorizationDecision, Authentication, identified, nobody, refused_caller,
  authenticator_raised, Authorization, decided, flag, refused_call, authorizer_raised,
  authenticate_action, rate_limit_action, authorize_action, flow_authentication_error,
  rate_limit_exceeded, flow_authorization_error, McpCall, RequestGate, GateState, McpRequestContext,
  AuthorizationContext, Passage, refuse, pass, emit, request_context, authorization_context,
  after_authentication, authenticate, after_acquire, rate_limit, after_answer, after_authorization,
  authorize,
}
use chain_weaver.Mcp.Gate.Verdict.{IsAllowing, Identifies, Limits, Authorizes, allow_events, Denies}

module _ {S : Type 0} (gate : RequestGate S) (call : McpCall) where
  -- What the authenticator comes to.
  pub data Authenticates (hook : Option (McpRequestContext → Authentication)) (s : GateState S)
      : Passage (Option CallerIdentity) × GateState S → Type 0 where
    known :
        (caller : Option CallerIdentity) (s' : GateState S)
        → Identifies gate call hook caller
        → s'.limiter ≡ s.limiter
        → s'.audit ≡ s.audit ++ allow_events gate call hook authenticate_action caller
        → Authenticates hook s (pass caller, s')
    unknown :
        (flow_name reason_code : String) (s' : GateState S)
        → s'.limiter ≡ s.limiter
        → ((caller : Option CallerIdentity) → Identifies gate call hook caller → ⊥)
        → Denies gate call s [] s' (flow_authentication_error flow_name reason_code)
        → Authenticates hook s (refuse (flow_authentication_error flow_name reason_code), s')

  -- What the limiter comes to.
  pub data Limited (hook : Option (Option CallerIdentity → String → S → Bool × S))
      (caller : Option CallerIdentity) (s : GateState S)
      : Passage (Option CallerIdentity) × GateState S → Type 0 where
    below :
        (s' : GateState S)
        → Limits gate call hook caller true s.limiter s'.limiter
        → s'.audit ≡ s.audit ++ allow_events gate call hook rate_limit_action caller
        → Limited hook caller s (pass caller, s')
    above :
        (flow_name reason_code : String) (s' : GateState S)
        → Limits gate call hook caller false s.limiter s'.limiter
        → Denies gate call s [] s' (rate_limit_exceeded flow_name reason_code)
        → Limited hook caller s (refuse (rate_limit_exceeded flow_name reason_code), s')

  -- What the authorizer comes to.
  pub data Decides (hook : Option (AuthorizationContext → Authorization))
      (caller : Option CallerIdentity) (s : GateState S)
      : Passage (Option CallerIdentity) × GateState S → Type 0 where
    permits :
        (s' : GateState S)
        → Authorizes gate call hook caller
        → s'.limiter ≡ s.limiter
        → s'.audit ≡ s.audit ++ allow_events gate call hook authorize_action caller
        → Decides hook caller s (pass caller, s')
    forbids :
        (flow_name reason_code : String) (s' : GateState S)
        → (Authorizes gate call hook caller → ⊥)
        → s'.limiter ≡ s.limiter
        → Denies gate call s [] s' (flow_authorization_error flow_name reason_code)
        → Decides hook caller s (refuse (flow_authorization_error flow_name reason_code), s')

  -- An authenticator that does not name a caller identifies nobody.
  abbrev is_identity : Authentication → Bool
  is_identity (identified caller) = true
  is_identity nobody = false
  is_identity (refused_caller flow_name reason_code) = false
  is_identity (authenticator_raised kind) = false

  nobody_identified :
      (hook : McpRequestContext → Authentication) (answer : Authentication)
      → hook (request_context gate call) ≡ answer
      → is_identity answer ≡ false
      → (caller : Option CallerIdentity) → Identifies gate call (some hook) caller
      → ⊥
  nobody_identified hook answer same not_one caller (identity, named, e) =
      ground (arith, ap is_identity (sym e ∙ same), not_one)

  after_authentication-Authenticates :
      (hook : McpRequestContext → Authentication) (s : GateState S) (answer : Authentication)
      → hook (request_context gate call) ≡ answer
      → Authenticates (some hook) s (after_authentication gate call answer s)
  unfolding after_authentication emit
  after_authentication-Authenticates hook s (identified caller) same =
      known (some caller) _ (caller, refl, same) refl refl
  after_authentication-Authenticates hook s nobody same =
      unknown call.flow_name "unauthenticated" _ refl (nobody_identified hook _ same refl)
        (_, (refl, refl, refl, refl), refl)
  after_authentication-Authenticates hook s (refused_caller flow_name reason_code) same =
      unknown flow_name reason_code _ refl (nobody_identified hook _ same refl)
        (_, (refl, refl, refl, refl), refl)
  after_authentication-Authenticates hook s (authenticator_raised kind) same =
      unknown call.flow_name "unauthenticated" _ refl (nobody_identified hook _ same refl)
        (_, (refl, refl, refl, refl), refl)

  pub authenticate-Authenticates :
      (hook : Option (McpRequestContext → Authentication)) (s : GateState S)
      → Authenticates hook s (authenticate gate call hook s)
  unfolding authenticate
  authenticate-Authenticates none s = known none s refl refl (sym (append_nil s.audit))
  authenticate-Authenticates (some hook) s =
      after_authentication-Authenticates hook s (hook (request_context gate call)) refl

  after_acquire-Limited :
      (hook : Option CallerIdentity → String → S → Bool × S) (caller : Option CallerIdentity)
      (s : GateState S) (answer : Bool × S)
      → hook caller call.flow_name s.limiter ≡ answer
      → Limited (some hook) caller s (after_acquire gate call caller answer s)
  unfolding after_acquire emit
  after_acquire-Limited hook caller s (true, limiter) same = below _ same refl
  after_acquire-Limited hook caller s (false, limiter) same =
      above call.flow_name "rate_limited" _ same (_, (refl, refl, refl, refl), refl)

  pub rate_limit-Limited :
      (hook : Option (Option CallerIdentity → String → S → Bool × S))
      (caller : Option CallerIdentity) (s : GateState S)
      → Limited hook caller s (rate_limit gate call hook caller s)
  unfolding rate_limit
  rate_limit-Limited none caller s = below s (refl, refl) (sym (append_nil s.audit))
  rate_limit-Limited (some hook) caller s =
      after_acquire-Limited hook caller s (hook caller call.flow_name s.limiter) refl

  after_answer-Decides :
      (hook : AuthorizationContext → Authorization) (caller : Option CallerIdentity)
      (s : GateState S) (decision : AuthorizationDecision)
      → (Authorizes gate call (some hook) caller → decision.allowed ≡ true)
      → (decision.allowed ≡ true → Authorizes gate call (some hook) caller)
      → Decides (some hook) caller s (after_answer gate call caller decision s)
  unfolding after_answer emit
  after_answer-Decides hook caller s decision says means = elim (Bool-cases decision.allowed) [
    | inl agreed ↦ simp agreed (permits _ (means agreed) refl refl)
    | inr not_so ↦ simp not_so (
        forbids call.flow_name decision.reason_code _
          (λ allowed. ground (arith, says allowed, not_so)) refl
          (_, (refl, refl, refl, refl), refl))
  ]

  after_authorization-Decides :
      (hook : AuthorizationContext → Authorization) (caller : Option CallerIdentity)
      (s : GateState S) (answer : Authorization)
      → hook (authorization_context gate call caller) ≡ answer
      → Decides (some hook) caller s (after_authorization gate call caller answer s)
  unfolding after_authorization emit
  after_authorization-Decides hook caller s (decided decision) same =
      after_answer-Decides hook caller s decision (subst IsAllowing same)
        (subst IsAllowing (sym same))
  after_authorization-Decides hook caller s (flag allowed) same =
      after_answer-Decides hook caller s _ (subst IsAllowing same) (subst IsAllowing (sym same))
  after_authorization-Decides hook caller s (refused_call flow_name reason_code) same =
      forbids flow_name reason_code _ (subst IsAllowing same) refl
        (_, (refl, refl, refl, refl), refl)
  after_authorization-Decides hook caller s (authorizer_raised kind) same =
      forbids call.flow_name "forbidden" _ (subst IsAllowing same) refl
        (_, (refl, refl, refl, refl), refl)

  pub authorize-Decides :
      (hook : Option (AuthorizationContext → Authorization)) (caller : Option CallerIdentity)
      (s : GateState S)
      → Decides hook caller s (authorize gate call hook caller s)
  unfolding authorize
  authorize-Decides none caller s = permits s tt refl (sym (append_nil s.audit))
  authorize-Decides (some hook) caller s =
      after_authorization-Decides hook caller s (hook (authorization_context gate call caller)) refl
