-- ===== src/Mcp/Gate.antt =====
-- The per-call gate of chainweaver/mcp/security.py: authenticate, then limit, then authorize. The
-- host's hooks are functions of what they are given; the rate limiter also has a state.
pub mod Verdict
use chain_weaver.Common.{
  ℕ, String, Bool, true, false, Option, none, some, List, [], ◌∷◌, ◌++◌, if◌then◌else◌,
}
use Prim.Native.String.{◌++◌ as append}
use chain_weaver.Dict.{Dict}
use chain_weaver.Value.{Context}
use chain_weaver.Contracts.Levels.{ToolSafetyContract}

pub record CallerIdentity : Type 0 where
  pub id : String
  pub scopes : List String
  pub metadata : Context

pub record McpRequestContext : Type 0 where
  pub flow_name : String
  pub flow_version : String
  pub mcp_tool_name : String
  pub http_headers : Dict String
  pub request_id : String

pub record AuthorizationDecision : Type 0 where
  pub allowed : Bool
  pub reason_code : String
  pub detail : Option String

pub record AuthorizationContext : Type 0 where
  pub request_id : String
  pub flow_name : String
  pub flow_version : String
  pub mcp_tool_name : String
  pub caller : Option CallerIdentity
  pub input_summary : Context
  pub safety : Option ToolSafetyContract

-- What the authenticator does: a caller, None, FlowAuthenticationError with its flow and reason, or
-- another exception with its type.
pub data Authentication : Type 0 where
  identified : CallerIdentity → Authentication
  nobody : Authentication
  refused_caller : (flow_name reason_code : String) → Authentication
  authenticator_raised : String → Authentication

-- What the authorizer does: a decision, a bare bool, FlowAuthorizationError with its flow and reason,
-- or another exception with its type.
pub data Authorization : Type 0 where
  decided : AuthorizationDecision → Authorization
  flag : Bool → Authorization
  refused_call : (flow_name reason_code : String) → Authorization
  authorizer_raised : String → Authorization

pub data AuditAction : Type 0 where
  authenticate_action rate_limit_action authorize_action : AuditAction

pub data AuditDecision : Type 0 where
  allow deny : AuditDecision

pub record AuditEvent : Type 0 where
  pub action : AuditAction
  pub decision : AuditDecision
  pub flow_name : String
  pub mcp_tool_name : String
  pub request_id : String
  pub caller_id : Option String
  pub reason_code : Option String
  pub detail : Option String

-- FlowAuthenticationError, RateLimitExceededError and FlowAuthorizationError.
pub data GateError : Type 0 where
  flow_authentication_error rate_limit_exceeded flow_authorization_error :
      (flow_name reason_code : String) → GateError

-- The keyword arguments of `check`.
pub record McpCall : Type 0 where
  pub request_id : String
  pub flow_name : String
  pub flow_version : String
  pub mcp_tool_name : String
  pub raw_inputs : Context
  pub safety : Option ToolSafetyContract
  pub http_headers : Dict String

-- `_RequestGate`, with a limiter whose state is `S`. `summarize` is the redaction of the inputs.
pub record RequestGate (S : Type 0) : Type 0 where
  pub authenticator : Option (McpRequestContext → Authentication)
  pub rate_limiter : Option (Option CallerIdentity → String → S → Bool × S)
  pub authorizer : Option (AuthorizationContext → Authorization)
  pub summarize : Context → Context

-- The limiter's state and the events given to the audit hook. The hook's exceptions are dropped.
pub record GateState (S : Type 0) : Type 0 where
  pub limiter : S
  pub audit : List AuditEvent

-- A gate refuses a call, or lets it pass with a result.
pub data Passage (A : Type 0) : Type 0 where
  refuse : GateError → Passage A
  pass : A → Passage A

abbrev pub id_of : Option CallerIdentity → Option String
id_of none = none
id_of (some caller) = some caller.id

module _ {S : Type 0} (gate : RequestGate S) (call : McpCall) where
  abbrev pub event_of :
      AuditAction
      → AuditDecision
      → Option String
      → (reason_code detail : Option String) → AuditEvent
  event_of action decision caller_id reason_code detail = record {
    action = action;
    decision = decision;
    flow_name = call.flow_name;
    mcp_tool_name = call.mcp_tool_name;
    request_id = call.request_id;
    caller_id = caller_id;
    reason_code = reason_code;
    detail = detail;
  }

  -- `_emit`
  unfoldable pub emit : AuditEvent → GateState S → GateState S
  emit event s = record s { audit = s.audit ++ event ∷ [] }

  abbrev pub request_context : McpRequestContext
  request_context = record {
    flow_name = call.flow_name;
    flow_version = call.flow_version;
    mcp_tool_name = call.mcp_tool_name;
    http_headers = call.http_headers;
    request_id = call.request_id;
  }

  abbrev pub authorization_context : Option CallerIdentity → AuthorizationContext
  authorization_context caller = record {
    request_id = call.request_id;
    flow_name = call.flow_name;
    flow_version = call.flow_version;
    mcp_tool_name = call.mcp_tool_name;
    caller = caller;
    input_summary = gate.summarize call.raw_inputs;
    safety = call.safety;
  }

  unfoldable pub after_authentication :
      Authentication → GateState S → Passage (Option CallerIdentity) × GateState S
  unfolding emit
  after_authentication (identified caller) s =
      (pass (some caller), emit (event_of authenticate_action allow (some caller.id) none none) s)
  after_authentication nobody s = (
    refuse (flow_authentication_error call.flow_name "unauthenticated"),
    emit (event_of authenticate_action deny none (some "unauthenticated") none) s,
  )
  after_authentication (refused_caller flow_name reason_code) s = (
    refuse (flow_authentication_error flow_name reason_code),
    emit (event_of authenticate_action deny none (some reason_code) none) s,
  )
  after_authentication (authenticator_raised kind) s = (
    refuse (flow_authentication_error call.flow_name "unauthenticated"),
    emit
        (event_of authenticate_action deny none (some "unauthenticated")
          (some (append "authenticator raised: " kind)))
        s,
  )

  -- `_authenticate`
  unfoldable pub authenticate :
      Option (McpRequestContext → Authentication)
      → GateState S
      → Passage (Option CallerIdentity) × GateState S
  unfolding after_authentication
  authenticate none s = (pass none, s)
  authenticate (some authenticator) s = after_authentication (authenticator request_context) s

  unfoldable pub after_acquire :
      Option CallerIdentity → Bool × S → GateState S → Passage (Option CallerIdentity) × GateState S
  unfolding emit
  after_acquire caller (true, limiter) s = (
    pass caller,
    emit (event_of rate_limit_action allow (id_of caller) none none)
        (record s { limiter = limiter }),
  )
  after_acquire caller (false, limiter) s = (
    refuse (rate_limit_exceeded call.flow_name "rate_limited"),
    emit (event_of rate_limit_action deny (id_of caller) (some "rate_limited") none)
        (record s { limiter = limiter }),
  )

  -- `_rate_limit`, with the caller passed on.
  unfoldable pub rate_limit :
      Option (Option CallerIdentity → String → S → Bool × S)
      → Option CallerIdentity
      → GateState S
      → Passage (Option CallerIdentity) × GateState S
  unfolding after_acquire
  rate_limit none caller s = (pass caller, s)
  rate_limit (some acquire) caller s =
      after_acquire caller (acquire caller call.flow_name s.limiter) s

  unfoldable pub after_answer :
      Option CallerIdentity
      → AuthorizationDecision
      → GateState S
      → Passage (Option CallerIdentity) × GateState S
  unfolding emit
  after_answer caller decision s =
      if decision.allowed
      then (pass caller, emit (event_of authorize_action allow (id_of caller) none none) s)
      else (
        refuse (flow_authorization_error call.flow_name decision.reason_code),
        emit
            (event_of authorize_action deny (id_of caller) (some decision.reason_code)
              decision.detail)
            s,
      )

  unfoldable pub after_authorization :
      Option CallerIdentity
      → Authorization
      → GateState S
      → Passage (Option CallerIdentity) × GateState S
  unfolding after_answer emit
  after_authorization caller (decided decision) s = after_answer caller decision s
  after_authorization caller (flag allowed) s =
      after_answer caller (record { allowed = allowed; reason_code = "forbidden"; detail = none }) s
  after_authorization caller (refused_call flow_name reason_code) s = (
    refuse (flow_authorization_error flow_name reason_code),
    emit (event_of authorize_action deny (id_of caller) (some reason_code) none) s,
  )
  after_authorization caller (authorizer_raised kind) s = (
    refuse (flow_authorization_error call.flow_name "forbidden"),
    emit
        (event_of authorize_action deny (id_of caller) (some "forbidden")
          (some (append "authorizer raised: " kind)))
        s,
  )

  -- `_authorize`
  unfoldable pub authorize :
      Option (AuthorizationContext → Authorization)
      → Option CallerIdentity
      → GateState S
      → Passage (Option CallerIdentity) × GateState S
  unfolding after_authorization
  authorize none caller s = (pass caller, s)
  authorize (some authorizer) caller s =
      after_authorization caller (authorizer (authorization_context caller)) s

  unfoldable pub and_then :
      Passage (Option CallerIdentity) × GateState S
      → (Option CallerIdentity → GateState S → Passage (Option CallerIdentity) × GateState S)
      → Passage (Option CallerIdentity) × GateState S
  and_then (refuse e, s) next = (refuse e, s)
  and_then (pass caller, s) next = next caller s

  -- `check`, with the caller that passes.
  unfoldable pub check : GateState S → Passage (Option CallerIdentity) × GateState S
  unfolding authenticate rate_limit authorize and_then
  check s =
      and_then (and_then (authenticate gate.authenticator s) (rate_limit gate.rate_limiter))
        (authorize gate.authorizer)
