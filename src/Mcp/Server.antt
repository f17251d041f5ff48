-- ===== src/Mcp/Server.antt =====
-- FlowServer of chainweaver/mcp/server.py: the mode in which errors reach its clients, and the
-- dispatcher of one flow.
pub mod Mode
pub mod Guarded
use chain_weaver.Common.{
  ℕ, String, Bool, true, false, Option, none, some, List, [], ◌∷◌, ◌&&◌, ◌||◌, not, if◌then◌else◌,
}
use chain_weaver.Value.{Context}
use chain_weaver.Tools.{Exc, Outcome, returned, raised, Schema}
use chain_weaver.Contracts.Levels.{SideEffectLevel, no_effects, read}
use chain_weaver.Governance.{active}
use chain_weaver.Executor.Types.{
  Error, StepRecord, ExecutionResult, FlowOutcome, completed, cancelled, aborted, Run,
}
use chain_weaver.Mcp.Gate.{
  CallerIdentity, McpCall, RequestGate, GateState, Passage, refuse, pass, GateError, check,
}
use chain_weaver.Mcp.Readiness.{
  ErrorDetail, full_detail, type_only, detail_eq, render_error_detail, McpServerProfile,
  ReadinessFinding, evaluate_readiness,
}

pub data TransportName : Type 0 where
  stdio sse streamable_http : TransportName

-- _NETWORK_TRANSPORTS
abbrev pub is_network : TransportName → Bool
is_network stdio = false
is_network sse = true
is_network streamable_http = true

-- `self.profile`, `self.error_detail`, `self._error_detail_explicit`, and the gate's own mode.
pub record FlowServer : Type 0 where
  pub profile : Option McpServerProfile
  pub error_detail : ErrorDetail
  pub error_detail_explicit : Bool
  pub gate_error_detail : ErrorDetail

-- `_resolve`
abbrev pub resolve {ℓ} :
    {A : Type ℓ} → Option A → Option McpServerProfile → (McpServerProfile → A) → A → A
resolve (some explicit) profile attribute default = explicit
resolve none (some profile) attribute default = attribute profile
resolve none none attribute default = default

abbrev pub is_given {ℓ} : {A : Type ℓ} → Option A → Bool
is_given none = false
is_given (some a) = true

-- What `__init__` makes of `error_detail` and `profile`.
unfoldable pub new_server : Option ErrorDetail → Option McpServerProfile → FlowServer
new_server error_detail profile =
    let detail = resolve error_detail profile (λ p. p.error_detail) full_detail in
    record {
      profile = profile;
      error_detail = detail;
      error_detail_explicit = is_given error_detail || is_given profile;
      gate_error_detail = detail;
    }

-- _NETWORK_ERROR_DETAIL
abbrev pub network_error_detail : ErrorDetail
network_error_detail = type_only

-- `_default_readiness_profile`
abbrev pub default_readiness_profile : McpServerProfile
default_readiness_profile = record {
  name = "network-default";
  allowed_lifecycles = active ∷ [];
  allowed_side_effects = no_effects ∷ read ∷ [];
  allow_requires_approval = false;
  force_expose = false;
  error_detail = network_error_detail;
  require_authorizer = true;
  require_authenticator = true;
  require_rate_limiter = false;
}

abbrev pub profile_or_default : Option McpServerProfile → McpServerProfile
profile_or_default none = default_readiness_profile
profile_or_default (some profile) = profile

-- The tightening of the mode on a network transport.
unfoldable pub tighten : FlowServer → FlowServer
tighten server =
    if not server.error_detail_explicit && not (detail_eq server.error_detail network_error_detail)
    then record server {
      error_detail = network_error_detail;
      gate_error_detail = network_error_detail;
    }
    else server

-- `_preflight`, with the findings that it logs.
unfoldable pub preflight :
    (has_authorizer has_authenticator has_rate_limiter : Bool)
    → List SideEffectLevel
    → TransportName
    → FlowServer
    → FlowServer × List ReadinessFinding
unfolding tighten
preflight has_authorizer has_authenticator has_rate_limiter exposed transport server =
    let tightened = tighten server in
    if is_network transport
    then (
      tightened,
      evaluate_readiness (profile_or_default server.profile) has_authorizer has_authenticator
          has_rate_limiter tightened.error_detail exposed,
    )
    else (server, [])

-- What a dispatched call comes to: a refusal of the gate, a payload that a schema refuses, a failed
-- flow with the text for the client, an exception or a cancellation of the run, or an output.
pub data Answer : Type 0 where
  denied : GateError → Answer
  invalid : Exc → Answer
  failed : String → Answer
  stopped : FlowOutcome → Answer
  output : Context → Answer

-- What is fixed when a flow's dispatcher is built. All dispatchers of a server share its gate, whose
-- error mode `_preflight` may change later: it is read from the server as it is at the call. `kind_of` and `text_of` are the class and the text
-- of an exception, `execute` the run of the flow.
pub record Dispatcher (S : Type 0) : Type 0 where
  pub gate : RequestGate S
  pub error_redaction : Option (String → String)
  pub input_schema : Schema
  pub output_schema : Option Schema
  pub kind_of : Error → String
  pub text_of : Error → String
  pub execute : Context → Run → FlowOutcome × Run

-- `result.execution_log[-1]`
abbrev pub last_of : List StepRecord → Option StepRecord
last_of [] = none
last_of (rec ∷ []) = some rec
last_of (rec ∷ other ∷ log) = last_of (other ∷ log)

abbrev pub error_of : Option StepRecord → Option Error
error_of none = none
error_of (some rec) = rec.error

module _ {S : Type 0} (server : FlowServer) (d : Dispatcher S) where
  -- The text of a failed run.
  unfoldable pub failure_text : Option Error → String
  failure_text none =
      render_error_detail (some "FlowExecutionError")
        (some "flow execution failed without a recorded step error") server.gate_error_detail
        d.error_redaction
  failure_text (some e) =
      render_error_detail (some (d.kind_of e)) (some (d.text_of e)) server.gate_error_detail
        d.error_redaction

  abbrev pub validated : Outcome Context → Answer
  validated (returned dumped) = output dumped
  validated (raised e) = invalid e

  abbrev pub checked : Option Schema → Context → Answer
  checked none final = output final
  checked (some schema) final = validated (schema final)

  abbrev pub final_answer : Option Context → Answer
  final_answer none = output []
  final_answer (some final) = checked d.output_schema final

  unfoldable pub answer_of : FlowOutcome → Answer
  unfolding failure_text
  answer_of (completed result) =
      if result.success
      then final_answer result.final_output
      else failed (failure_text (error_of (last_of result.execution_log)))
  answer_of (cancelled n deadline token partial) = stopped (cancelled n deadline token partial)
  answer_of (aborted e) = stopped (aborted e)

  unfoldable pub run_flow : Outcome Context → Run → Answer × Run
  unfolding answer_of
  run_flow (raised e) r = (invalid e, r)
  run_flow (returned data_in) r = let out = d.execute data_in r in (answer_of out.0, out.1)

  unfoldable pub after_check :
      McpCall → Passage (Option CallerIdentity) × GateState S → Run → Answer × (GateState S × Run)
  unfolding run_flow
  after_check call (refuse e, s) r = (denied e, (s, r))
  after_check call (pass caller, s) r =
      let out = run_flow (d.input_schema call.raw_inputs) r in (out.0, (s, out.1))

  -- `_dispatcher`
  unfoldable pub dispatch : McpCall → GateState S → Run → Answer × (GateState S × Run)
  unfolding after_check
  dispatch call s r = after_check call (check d.gate call s) r
