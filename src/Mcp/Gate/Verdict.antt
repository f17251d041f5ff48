-- ===== src/Mcp/Gate/Verdict.antt =====
-- What the gate lets pass and what it refuses, with the events that it leaves.
pub mod Hooks
pub mod Whole
use chain_weaver.Common.{
  ℕ, String, Bool, true, false, Option, none, some, List, [], ◌∷◌, ◌++◌, ◌≡◌, refl, sym, ap, ◌∙◌,
  ◌⊎◌, inl, inr, All, Bool-cases, Option-cases, if◌then◌else◌,
}
use chain_weaver.Mcp.Gate.{
  CallerIdentity, AuthorizationDecision, Authentication, identified, nobody, refused_caller,
  authenticator_raised, Authorization, decided, flag, refused_call, authorizer_raised, AuditAction,
  authenticate_action, rate_limit_action, authorize_action, AuditDecision, allow, deny, AuditEvent,
  GateError, flow_authentication_error, rate_limit_exceeded, flow_authorization_error, McpCall,
  RequestGate, GateState, McpRequestContext, AuthorizationContext, event_of, Passage, refuse, pass,
  id_of, emit, request_context, authorization_context, after_authentication, authenticate,
  after_acquire, rate_limit, after_answer, after_authorization, authorize, and_then, check,
}

abbrev pub action_of : GateError → AuditAction
action_of (flow_authentication_error flow_name reason_code) = authenticate_action
action_of (rate_limit_exceeded flow_name reason_code) = rate_limit_action
action_of (flow_authorization_error flow_name reason_code) = authorize_action

abbrev pub reason_of : GateError → String
reason_of (flow_authentication_error flow_name reason_code) = reason_code
reason_of (rate_limit_exceeded flow_name reason_code) = reason_code
reason_of (flow_authorization_error flow_name reason_code) = reason_code

-- The decision lets the call pass.
abbrev pub IsAllowing : Authorization → Type 0
IsAllowing (decided decision) = decision.allowed ≡ true
IsAllowing (flag allowed) = allowed ≡ true
IsAllowing (refused_call flow_name reason_code) = ⊥
IsAllowing (authorizer_raised kind) = ⊥

module _ {S : Type 0} (gate : RequestGate S) (call : McpCall) where
  -- Who the caller is, without an authenticator nobody in particular.
  abbrev pub Identifies :
      Option (McpRequestContext → Authentication) → Option CallerIdentity → Type 0
  Identifies none caller = caller ≡ none
  Identifies (some authenticator) caller =
      (identity : CallerIdentity) × (caller ≡ some identity)
      × (authenticator (request_context gate call) ≡ identified identity)

  -- The limiter answers the caller so, and changes its state so.
  abbrev pub Limits :
      Option (Option CallerIdentity → String → S → Bool × S)
      → Option CallerIdentity
      → Bool
      → S
      → S
      → Type 0
  Limits none caller answer limiter limiter' = (answer ≡ true) × (limiter' ≡ limiter)
  Limits (some acquire) caller answer limiter limiter' =
      acquire caller call.flow_name limiter ≡ (answer, limiter')

  -- The authorizer lets the caller pass.
  abbrev pub Authorizes :
      Option (AuthorizationContext → Authorization) → Option CallerIdentity → Type 0
  Authorizes none caller = Unit
  Authorizes (some authorizer) caller =
      IsAllowing (authorizer (authorization_context gate call caller))

  -- A hook that lets the caller pass leaves one event, and a hook that is not there none.
  abbrev pub allow_events {ℓ} :
      {H : Type ℓ} → Option H → AuditAction → Option CallerIdentity → List AuditEvent
  allow_events none action caller = []
  allow_events (some hook) action caller =
      event_of gate call action allow (id_of caller) none none ∷ []

  abbrev pub authenticated : Option CallerIdentity → List AuditEvent
  authenticated caller = allow_events gate.authenticator authenticate_action caller

  abbrev pub limited : Option CallerIdentity → List AuditEvent
  limited caller = allow_events gate.rate_limiter rate_limit_action caller

  abbrev pub authorized : Option CallerIdentity → List AuditEvent
  authorized caller = allow_events gate.authorizer authorize_action caller

  -- The event of a refusal says which hook refused the call, and why.
  abbrev pub IsDeny : GateError → AuditEvent → Type 0
  IsDeny e event =
      (event.decision ≡ deny)
      × (event.request_id ≡ call.request_id)
      × (event.action ≡ action_of e)
      × (event.reason_code ≡ some (reason_of e))

  -- Why the gate refuses a call, with the events before the refusal: nobody is identified, and the
  -- limiter is not asked; the limiter does not let the caller pass; or the authorizer does not.
  pub data Refusal (limiter limiter' : S) : List AuditEvent → GateError → Type 0 where
    not_identified :
        (flow_name reason_code : String)
        → limiter' ≡ limiter
        → ((caller : Option CallerIdentity) → Identifies gate.authenticator caller → ⊥)
        → Refusal limiter limiter' [] (flow_authentication_error flow_name reason_code)
    throttled :
        (caller : Option CallerIdentity) (flow_name reason_code : String)
        → Identifies gate.authenticator caller
        → Limits gate.rate_limiter caller false limiter limiter'
        → Refusal limiter limiter'
            (authenticated caller)
            (rate_limit_exceeded flow_name reason_code)
    not_authorized :
        (caller : Option CallerIdentity) (flow_name reason_code : String)
        → Identifies gate.authenticator caller
        → Limits gate.rate_limiter caller true limiter limiter'
        → (Authorizes gate.authorizer caller → ⊥)
        → Refusal limiter limiter'
            (authenticated caller ++ limited caller)
            (flow_authorization_error flow_name reason_code)

  -- A call passes where every hook lets it pass, which leaves one event of each; or it is refused by
  -- one of them, which leaves its refusal after the events of the hooks before it.
  pub data Verdict (s : GateState S) : Passage (Option CallerIdentity) × GateState S → Type 0 where
    passes :
        (caller : Option CallerIdentity) (s' : GateState S)
        → Identifies gate.authenticator caller
        → Limits gate.rate_limiter caller true s.limiter s'.limiter
        → Authorizes gate.authorizer caller
        → s'.audit ≡ s.audit ++ ((authenticated caller ++ limited caller) ++ authorized caller)
        → Verdict s (pass caller, s')
    refuses :
        (e : GateError) (events : List AuditEvent) (event : AuditEvent) (s' : GateState S)
        → Refusal s.limiter s'.limiter events e
        → IsDeny e event
        → s'.audit ≡ s.audit ++ (events ++ event ∷ [])
        → Verdict s (refuse e, s')

  -- The event of a refusal.
  abbrev pub Denies : GateState S → List AuditEvent → GateState S → GateError → Type 0
  Denies s events s' e =
      (event : AuditEvent) × IsDeny e event × (s'.audit ≡ s.audit ++ (events ++ event ∷ []))
